-- ===== src/Metrics/Tests.antt =====
-- Metrics at concrete values.
use mcsm.Common.{ℕ, ◌+◌, ◌≡◌, refl, some, List, [], ◌∷◌, Bytes, codes, equal, feed}
use mcsm.Metrics.Registry.{
  escape_label, escape_help, label_key, find, put, or_zero, Metric, set, set_to, add_to, updates,
  upsert, register_gauge, metric_lines, write_to,
}
use mcsm.Metrics.Registry.Series.{find-updates}

abbrev players : Metric ℕ
players = record {
  name = codes "mcsm_players";
  help = codes "Players.";
  mtype = codes "gauge";
  labels = codes "slot" ∷ codes "kind" ∷ [];
  series = [];
}

abbrev odd : List Bytes
odd = codes "a\",kind=\"b" ∷ codes "c" ∷ []

abbrev plain : List Bytes
plain = codes "a" ∷ codes "b" ∷ []

-- A label value that imitates another key has a series of its own.
find-updates_example :
    find
      (label_key players.labels plain)
      (updates 0
        (λ a b. a + b)
        (set_to plain 4 ∷ set_to odd 9 ∷ add_to plain 3 ∷ set_to [] 1 ∷ [])
        players).series
    ≡ some 7
unfolding label_key escape_label find equal or_zero
find-updates_example =
    find-updates 0 (λ a b. a + b)
      (set_to plain 4 ∷ set_to odd 9 ∷ add_to plain 3 ∷ set_to [] 1 ∷ []) players plain refl

digit : ℕ → Bytes
digit n = (b'0' + n) ∷ []

exposition :
    write_to digit (λ ks. ks) (register_gauge (codes "up") (codes "Is\nup.") [] [])
    ≡ codes "# HELP up Is\\nup.\n# TYPE up gauge\n"
unfolding write_to feed register_gauge upsert metric_lines escape_help digit equal
exposition = refl

sample_line :
    write_to digit
      (λ ks. ks)
      ((codes "mcsm_players", set (codes "x" ∷ codes "\\" ∷ []) 3 players) ∷ [])
    ≡ codes
        "# HELP mcsm_players Players.\n# TYPE mcsm_players gauge\nmcsm_players{slot=\"x\",kind=\"\\\\\"} 3\n"
unfolding write_to feed set put find label_key escape_label escape_help metric_lines digit equal
sample_line = refl
