-- ===== src/Metrics/Registry.antt =====
-- internal/metrics/registry.go: metrics with their series, and the text of `WriteTo`. Numbers are a type
-- `V` with an addition and a format; a map is the list of its entries, and the library's sorting of
-- texts is an argument. A gauge or counter is the name of its metric, since none is ever removed.
mod Labels
pub mod Series
use mcsm.Common.{
  ℕ, suc, Bool, true, false, Option, none, some, List, [], ◌∷◌, ◌++◌, Bytes, codes, equal, feed,
  length, map, ◌==◌, if◌then◌else◌,
}

-- strings.ReplaceAll of one byte.
replace_all : ℕ → Bytes → Bytes → Bytes
replace_all c by [] = []
replace_all c by (d ∷ s) = let rest = replace_all c by s in if d == c then by ++ rest else d ∷ rest

unfoldable pub escape_label : Bytes → Bytes
unfolding replace_all
escape_label v =
    replace_all b'\n' (codes "\\n")
      (replace_all b'"' (codes "\\\"") (replace_all b'\\' (codes "\\\\") v))

unfoldable pub escape_help : Bytes → Bytes
unfolding replace_all
escape_help v = replace_all b'\n' (codes "\\n") (replace_all b'\\' (codes "\\\\") v)

-- strings.Join with a comma.
join : List Bytes → Bytes
join [] = []
join (p ∷ []) = p
join (p ∷ q ∷ ps) = p ++ (b',' ∷ join (q ∷ ps))

pair : Bytes → Bytes → Bytes
unfolding escape_label
pair name value = name ++ (codes "=\"" ++ (escape_label value ++ codes "\""))

-- The loop indexes the values by the names' indices; `set` and `add` check the lengths before.
pairs : List Bytes → List Bytes → List Bytes
unfolding pair
pairs [] values = []
pairs (n ∷ names) [] = []
pairs (n ∷ names) (v ∷ values) = pair n v ∷ pairs names values

unfoldable pub label_key : List Bytes → List Bytes → Bytes
unfolding join pairs
label_key names values = join (pairs names values)

module _ {V : Type 0} where
  unfoldable pub find : Bytes → List (Bytes × V) → Option V
  find k [] = none
  find k ((j, v) ∷ rest) = if equal j k then some v else find k rest

  unfoldable pub put : Bytes → V → List (Bytes × V) → List (Bytes × V)
  put k v [] = (k, v) ∷ []
  put k v ((j, w) ∷ rest) =
      let more = put k v rest in if equal j k then (j, v) ∷ rest else (j, w) ∷ more

  unfoldable pub or_zero : V → Option V → V
  or_zero zero none = zero
  or_zero zero (some v) = v

pub record Metric (V : Type 0) : Type 0 where
  pub name : Bytes
  pub help : Bytes
  pub mtype : Bytes
  pub labels : List Bytes
  pub series : List (Bytes × V)

-- What is done to one metric through its gauge or counter.
pub data Update (V : Type 0) : Type 0 where
  set_to : List Bytes → V → Update V
  add_to : List Bytes → V → Update V

module _ {V : Type 0} where
  unfoldable pub set : List Bytes → V → Metric V → Metric V
  unfolding put label_key
  set values v m =
      if length values == length m.labels
      then record m { series = put (label_key m.labels values) v m.series }
      else m

  unfoldable pub add : V → (V → V → V) → List Bytes → V → Metric V → Metric V
  unfolding put label_key or_zero find
  add zero plus values delta m =
      if length values == length m.labels
      then record m {
        series =
            put (label_key m.labels values)
              (plus (or_zero zero (find (label_key m.labels values) m.series)) delta) m.series;
      }
      else m

  -- A name that is there keeps its metric, whatever is asked for.
  unfoldable pub upsert :
      Bytes → Bytes → Bytes → List Bytes → List (Bytes × Metric V) → List (Bytes × Metric V)
  upsert name help mtype labels [] =
      (name, record { name = name; help = help; mtype = mtype; labels = labels; series = [] }) ∷ []
  upsert name help mtype labels ((n, m) ∷ rest) =
      let more = upsert name help mtype labels rest in
      if equal n name then (n, m) ∷ rest else (n, m) ∷ more

  unfoldable pub register_gauge :
      Bytes → Bytes → List Bytes → List (Bytes × Metric V) → List (Bytes × Metric V)
  unfolding upsert
  register_gauge name help labels = upsert name help (codes "gauge") labels

  unfoldable pub register_counter :
      Bytes → Bytes → List Bytes → List (Bytes × Metric V) → List (Bytes × Metric V)
  unfolding upsert
  register_counter name help labels = upsert name help (codes "counter") labels

  unfoldable pub update : V → (V → V → V) → Update V → Metric V → Metric V
  unfolding set add
  update zero plus (set_to values v) m = set values v m
  update zero plus (add_to values d) m = add zero plus values d m

  unfoldable pub updates : V → (V → V → V) → List (Update V) → Metric V → Metric V
  unfolding update
  updates zero plus [] m = m
  updates zero plus (u ∷ us) m = updates zero plus us (update zero plus u m)

  series_line : (V → Bytes) → Bytes → Bytes → V → Bytes
  series_line format name [] v = name ++ (b' ' ∷ format v)
  series_line format name (c ∷ k) v = name ++ (b'{' ∷ ((c ∷ k) ++ (codes "} " ++ format v)))

  series_lines : (V → Bytes) → Bytes → List (Bytes × V) → List Bytes → List Bytes
  unfolding series_line find
  series_lines format name series [] = []
  series_lines format name series (k ∷ ks) = elim (find k series) [
    | none ↦ series_lines format name series ks
    | some v ↦ series_line format name k v ∷ series_lines format name series ks
  ]

  -- The lines of a metric, without their line feeds.
  unfoldable pub metric_lines : (V → Bytes) → (List Bytes → List Bytes) → Metric V → List Bytes
  unfolding series_lines escape_help
  metric_lines format sort m =
      (codes "# HELP " ++ (m.name ++ (b' ' ∷ escape_help m.help)))
      ∷ (codes "# TYPE " ++ (m.name ++ (b' ' ∷ m.mtype)))
      ∷ series_lines format m.name m.series (sort (map (λ (e : Bytes × V). e.0) m.series))

  find_metric : Bytes → List (Bytes × Metric V) → List (Metric V)
  find_metric k [] = []
  find_metric k ((j, m) ∷ rest) = if equal j k then m ∷ [] else find_metric k rest

  all_lines : (V → Bytes) → (List Bytes → List Bytes) → List (Metric V) → List Bytes
  unfolding metric_lines
  all_lines format sort [] = []
  all_lines format sort (m ∷ ms) = metric_lines format sort m ++ all_lines format sort ms

  snapshots_of : List Bytes → List (Bytes × Metric V) → List (Metric V)
  unfolding find_metric
  snapshots_of [] reg = []
  snapshots_of (n ∷ ns) reg = find_metric n reg ++ snapshots_of ns reg

  unfoldable pub write_to :
      (V → Bytes) → (List Bytes → List Bytes) → List (Bytes × Metric V) → Bytes
  unfolding all_lines snapshots_of feed
  write_to format sort reg =
      feed
        (all_lines format sort (snapshots_of (sort (map (λ (e : Bytes × Metric V). e.0) reg)) reg))
