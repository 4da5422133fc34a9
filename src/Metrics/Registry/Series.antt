-- ===== src/Metrics/Registry/Series.antt =====
-- internal/metrics/registry.go: the value that a metric has for each combination of label values.
use mcsm.Common.{
  ◌≡◌, ◌≢◌, refl, sym, ap, ◌∙◌, ◌↔◌, Bool, true, false, ◌&&◌, Bool-cases, inl, inr, Option, some,
  List, [], ◌∷◌, Bytes, equal, equal_iff, equal_refl, length, ◌==◌, ==_iff, if◌then◌else◌, arith,
}
use mcsm.Metrics.Registry.{
  label_key, find, put, or_zero, Metric, set, add, Update, set_to, add_to, update, updates,
}
use mcsm.Metrics.Registry.Labels.{label_key-injective}

-- Equal lists of texts.
abbrev pub all_equal : List Bytes → List Bytes → Bool
all_equal [] [] = true
all_equal [] (t ∷ ts) = false
all_equal (s ∷ ss) [] = false
all_equal (s ∷ ss) (t ∷ ts) = equal s t && all_equal ss ts

all_equal_iff : (ss ts : List Bytes) → (all_equal ss ts ≡ true) ↔ (ss ≡ ts)
all_equal_iff [] [] = ((λ _. refl), λ _. refl)
all_equal_iff [] (t ∷ ts) = ground arith
all_equal_iff (s ∷ ss) [] = ground arith
all_equal_iff (s ∷ ss) (t ∷ ts) = ground (equal_iff s t, all_equal_iff ss ts, arith)

same_truth : (a b : Bool) → (a ≡ true) ↔ (b ≡ true) → a ≡ b
same_truth true b f = sym (f.0 refl)
same_truth false true f = f.1 refl
same_truth false false f = refl

-- Of as many values as there are labels, the keys are equal exactly if the values are.
equal-label_key :
    (names ws vs : List Bytes)
    → length ws ≡ length names
    → length vs ≡ length names
    → equal (label_key names ws) (label_key names vs) ≡ all_equal ws vs
equal-label_key names ws vs h k = same_truth _ _ (
  (λ e. (all_equal_iff ws vs).1 (label_key-injective names ws vs h k ((equal_iff _ _).0 e))),
  (λ e. (equal_iff _ _).1 (ap (label_key names) ((all_equal_iff ws vs).0 e))),
)

all_equal-length : (ws vs : List Bytes) → length ws ≢ length vs → all_equal ws vs ≡ false
all_equal-length ws vs n = elim (Bool-cases (all_equal ws vs)) [
  | inl t ↦ absurd (n (ap length ((all_equal_iff ws vs).0 t)))
  | inr f ↦ f
]

module _ {V : Type 0} where
  find-put :
      (j k : Bytes) (v : V) (xs : List (Bytes × V))
      → find j (put k v xs) ≡ (if equal k j then some v else find j xs)
  unfolding find put
  find-put j k v [] = refl
  find-put j k v ((i, w) ∷ xs) = elim (Bool-cases (equal i k)) [
    | inl t ↦ let e : i ≡ k = (equal_iff i k).0 t in rw (t, e) (ground arith)
    | inr f ↦ elim (Bool-cases (equal i j)) [
      | inl p ↦ elim (Bool-cases (equal k j)) [
        | inl q ↦ ground (arith, f, equal_refl k, ap (equal i) ((equal_iff k j).0 q), p)
        | inr q ↦ rw (f, p, q, find) refl
      ]
      | inr p ↦ rw (f, p, find) (find-put j k v xs)
    ]
  ]

  -- The value for some label values, of what each update does to it alone.
  abbrev pub value : V → (V → V → V) → List (Update V) → List Bytes → Option V → Option V
  value zero plus [] vs o = o
  value zero plus (set_to ws v ∷ us) vs o =
      value zero plus us vs (if all_equal ws vs then some v else o)
  value zero plus (add_to ws d ∷ us) vs o =
      value zero plus us vs (if all_equal ws vs then some (plus (or_zero zero o) d) else o)

  -- One update, on the value of `vs`.
  changed : V → (V → V → V) → Update V → List Bytes → Option V → Option V
  changed zero plus (set_to ws v) vs o = if all_equal ws vs then some v else o
  changed zero plus (add_to ws d) vs o =
      if all_equal ws vs then some (plus (or_zero zero o) d) else o

  value-cons :
      (zero : V) (plus : V → V → V) (u : Update V) (us : List (Update V)) (vs : List Bytes)
      (o : Option V)
      → value zero plus (u ∷ us) vs o ≡ value zero plus us vs (changed zero plus u vs o)
  unfolding changed
  value-cons zero plus (set_to ws v) us vs o = refl
  value-cons zero plus (add_to ws d) us vs o = refl

  find-update :
      (zero : V) (plus : V → V → V) (u : Update V) (m : Metric V) (vs : List Bytes)
      → length vs ≡ length m.labels
      → find (label_key m.labels vs) (update zero plus u m).series
        ≡ changed zero plus u vs (find (label_key m.labels vs) m.series)
  unfolding update set add changed
  find-update zero plus (set_to ws v) m vs h = elim (Bool-cases (length ws == length m.labels)) [
    | inl t ↦ simp (t, find-put, equal-label_key m.labels ws vs (ground (t, arith)) h)
    | inr f ↦ simp (f, all_equal-length ws vs (λ e. ground (arith, f, e, h)))
  ]
  find-update zero plus (add_to ws d) m vs h = elim (Bool-cases (length ws == length m.labels)) [
    | inl t ↦ elim (Bool-cases (all_equal ws vs)) [
      | inl e ↦
          let same : ws ≡ vs = (all_equal_iff ws vs).0 e in
          simp (
            same,
            (==_iff (length vs) (length m.labels)).1 h,
            find-put,
            equal_refl,
            (all_equal_iff vs vs).1 refl,
          )
      | inr n ↦ simp (t, find-put, n, equal-label_key m.labels ws vs (ground (t, arith)) h)
    ]
    | inr f ↦ simp (f, all_equal-length ws vs (λ e. ground (arith, f, e, h)))
  ]

  labels-update :
      (zero : V) (plus : V → V → V) (u : Update V) (m : Metric V)
      → (update zero plus u m).labels ≡ m.labels
  unfolding update set add
  labels-update zero plus (set_to ws v) m = ground arith
  labels-update zero plus (add_to ws d) m = ground arith

  -- After any updates of a metric, the series of given label values (as many as the metric has labels)
  -- has the number that the updates with just these values give, one after the other: no update of
  -- other values, and none with a wrong number of values, changes it, whatever bytes the values have.
  pub find-updates :
      (zero : V) (plus : V → V → V) (us : List (Update V)) (m : Metric V) (vs : List Bytes)
      → length vs ≡ length m.labels
      → find (label_key m.labels vs) (updates zero plus us m).series
        ≡ value zero plus us vs (find (label_key m.labels vs) m.series)
  unfolding updates
  find-updates zero plus [] m vs h = refl
  find-updates zero plus (u ∷ us) m vs h =
      let same = labels-update zero plus u m in
      ap (λ ls. find (label_key ls vs) (updates zero plus us (update zero plus u m)).series)
        (sym same)
      ∙ find-updates zero plus us (update zero plus u m) vs (h ∙ ap length (sym same))
      ∙ ap (λ ls. value zero plus us vs (find (label_key ls vs) (update zero plus u m).series)) same
      ∙ ap (value zero plus us vs) (find-update zero plus u m vs h)
      ∙ sym (value-cons zero plus u us vs (find (label_key m.labels vs) m.series))
