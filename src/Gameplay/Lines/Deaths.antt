-- ===== src/Gameplay/Lines/Deaths.antt =====
-- internal/gameplay/death.go: which messages are deaths.
use mathlib.Core.List.{Memᴰ}
use mcsm.Common.{
  ◌≡◌, ◌≢◌, ◌↔◌, refl, sym, ap, ap₂, subst, ◌∙◌, false, Option-cases, inl, inr, Option, none, some,
  List, [], ◌∷◌, ◌++◌, Bytes, codes, has_prefix, if_rule, arith, append_assoc,
}
use mcsm.Gameplay.Lines.Names.{
  IsName, strip-append, strip-some, named, name_first-phrase, parse_death_named,
}
use mcsm.Gameplay.Lines.Table.{death_phrases, phrase_of_pattern, pattern_of_phrase}
use mcsm.Gameplay.Lines.{
  strip, name_first, Death, DeathPattern, death_patterns, killer_of, killed, death_or, first_death,
  parse_death, ◌>>=◌,
}

-- A pattern that matches stands in the table, and its phrase follows the name.
FoundIn : List DeathPattern → Bytes → Bytes → Bytes → Type 0
FoundIn ps n r player =
    (p : DeathPattern) × Memᴰ p ps × ((rest : Bytes) × (r ≡ p.phrase ++ rest)) × (player ≡ n)

later_found :
    (p : DeathPattern) (ps : List DeathPattern) (n r player : Bytes)
    → FoundIn ps n r player
    → FoundIn (p ∷ ps) n r player
unfolding FoundIn
later_found p ps n r player (q, m, rest, same) = (q, Memᴰ.tail m, rest, same)

killed-some :
    (p : DeathPattern) (r k : Bytes) → killed p r ≡ some k → (rest : Bytes) × (r ≡ p.phrase ++ rest)
unfolding killed
killed-some p r k h = elim (Option-cases (strip p.phrase r)) [
  | inl e ↦
      let absent : ◌≡◌ {A = Option Bytes} none (some k) =
        sym (ap (λ o. o >>= killer_of p.has_killer) e) ∙ h in
      cc absent
  | inr (rest, e) ↦ (rest, strip-some p.phrase r rest e)
]

player_or : Bytes → Option Death → Bytes
player_or n none = n
player_or n (some d) = d.player

first_death-some :
    (ps : List DeathPattern) (n r : Bytes) (d : Death)
    → first_death ps n r ≡ some d
    → FoundIn ps n r d.player
unfolding first_death death_or FoundIn player_or
first_death-some [] n r d h = ground (h, arith)
first_death-some (p ∷ ps) n r d h = elim (Option-cases (killed p r)) [
  | inl e ↦
      later_found p ps n r d.player
        (first_death-some ps n r d (sym (ap (λ k. death_or p n r k (first_death ps n r)) e) ∙ h))
  | inr (k, e) ↦
      let whole = sym (ap (λ k. death_or p n r k (first_death ps n r)) e) ∙ h in
      let (rest, s) = killed-some p r k e in
      (p, Memᴰ.head refl, (rest, s), sym (ap (player_or n) whole))
]

Dies : Bytes → Option Death → Type 0
Dies n o = (d : Death) × (o ≡ some d) × (d.player ≡ n)

death_or-Dies :
    (p : DeathPattern) (n r : Bytes) (o : Option Bytes) (later : Option Death)
    → Dies n later
    → Dies n (death_or p n r o later)
unfolding death_or Dies
death_or-Dies p n r none later h = h
death_or-Dies p n r (some k) later h = (_, refl, refl)

first_death-Dies :
    (ps : List DeathPattern) (n r : Bytes) (p : DeathPattern) (k : Bytes)
    → Memᴰ p ps
    → killed p r ≡ some k
    → Dies n (first_death ps n r)
unfolding first_death death_or Dies
first_death-Dies [] n r p k m h = elim m [ ]
first_death-Dies (q ∷ ps) n r p k (Memᴰ.head e) h =
    let same : killed q r ≡ some k = ap (λ p. killed p r) (sym e) ∙ h in
    (_, ap (λ o. death_or q n r o (first_death ps n r)) same, refl)
first_death-Dies (q ∷ ps) n r p k (Memᴰ.tail m) h =
    death_or-Dies q n r (killed q r) (first_death ps n r) (first_death-Dies ps n r p k m h)

-- A message is a death of a player exactly if it is the player's name, one of the phrases, and anything.
abbrev pub IsDeathOf : Bytes → Bytes → Type 0
IsDeathOf n m = IsName n × ((q rest : Bytes) × Memᴰ q death_phrases × (m ≡ n ++ (q ++ rest)))

killed_plain :
    (p : DeathPattern) (q rest : Bytes)
    → p.phrase ≡ q
    → p.has_killer ≡ false
    → killed p (q ++ rest) ≡ some []
unfolding killed killer_of
killed_plain p q rest e k =
    let stripped : strip p.phrase (q ++ rest) ≡ some rest =
      ap (λ f. strip f (q ++ rest)) e ∙ strip-append q rest in
    ap (λ o. o >>= killer_of p.has_killer) stripped ∙ ap (λ b. killer_of b rest) k

parse_death_unnamed : (m : Bytes) (d : Death) → name_first m ≡ none → parse_death m ≢ some d
unfolding parse_death
parse_death_unnamed m d e h =
    let nothing : parse_death m ≡ none =
      if_rule (λ (o : Option Death). o ≡ none) (has_prefix (codes "<") m) (λ t. refl)
        (λ f. ap (λ o. o >>= λ p. first_death death_patterns p.0 p.1) e) in
    let absent : ◌≡◌ {A = Option Death} none (some d) = sym nothing ∙ h in cc absent

pub parse_death_iff :
    (n m : Bytes) → IsDeathOf n m ↔ ((d : Death) × (parse_death m ≡ some d) × (d.player ≡ n))
unfolding Dies FoundIn
parse_death_iff n m = (
  λ (h, (q, rest, mem, e)).
      let (p, mp, pe, k, (s, qe)) = pattern_of_phrase mem in
      let first : name_first m ≡ some (n, q ++ rest) =
        ap name_first e ∙ name_first-phrase n q rest s h qe in
      let (d, f, same) =
        first_death-Dies death_patterns n (q ++ rest) p [] mp (killed_plain p q rest pe k) in
      (d, parse_death_named m n (q ++ rest) h e first ∙ f, same),
  λ (d, e, same). elim (Option-cases (name_first m)) [
    | inl f ↦ elim (parse_death_unnamed m d f e) [ ]
    | inr ((n', r), f) ↦
        let (m_is, h) = named m n' r f in
        let (p, mem, (after, r_is), player) =
          first_death-some death_patterns n' r d (sym (parse_death_named m n' r h m_is f) ∙ e) in
        let (q, more, q_in, phrase) = phrase_of_pattern mem in
        let n_is : n' ≡ n = sym player ∙ same in
        let tail_is : r ≡ q ++ (more ++ after) =
          r_is ∙ ap (λ x. x ++ after) phrase ∙ append_assoc q more after in
        (subst IsName n_is h, (q, more ++ after, q_in, m_is ∙ ap₂ (λ x y. x ++ y) n_is tail_is))
  ],
)
