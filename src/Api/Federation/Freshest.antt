-- ===== src/Api/Federation/Freshest.antt =====
-- internal/api/handlers_federation.go: of the servers with one id, which one the merge keeps.

use mcsm.Common.{
  Bool, Beats, Stays, Kept, choose, choose_all, choose_all-append, choose_all-Kept, ℕ, ◌≡◌, refl,
  sym, ap, subst, ◌∙◌, true, false, Bool-cases, inl, inr, Option, none, some, List, [], ◌∷◌, ◌++◌,
  Bytes, equal, equal_iff, if◌then◌else◌, arith,
}
use mcsm.Api.Federation.{
  Found, FoundObject, Report, Servers, find_server, later_beat, remote_fresher, text_or_empty,
  place_server, decode_remote_server, merge_server, merge_item, merge_items, merge_report,
  merge_reports, own_servers, merged_servers,
}

-- The server, if it has the id `k` and that is not empty.
abbrev pub with_id : Bytes → Bytes → Found → List Found
with_id [] j sv = []
with_id (c ∷ cs) j sv = if equal j (c ∷ cs) then sv ∷ [] else []

-- What an element of a report says of the id `k`.
abbrev pub said_of : (Bytes → Option ℕ) → Bytes → Option FoundObject → List Found
said_of parse k none = []
said_of parse k (some b) = let sv = decode_remote_server parse b in with_id k sv.id sv

abbrev pub said_in : (Bytes → Option ℕ) → Bytes → List (Option FoundObject) → List Found
said_in parse k [] = []
said_in parse k (i ∷ is) = said_of parse k i ++ said_in parse k is

-- The servers with the id `k` that the reports name, in their order.
abbrev pub candidates : (Bytes → Option ℕ) → Bytes → List (Bytes × Report) → List Found
candidates parse k [] = []
candidates parse k ((peer, none) ∷ rs) = candidates parse k rs
candidates parse k ((peer, some is) ∷ rs) = said_in parse k is ++ candidates parse k rs

-- The second one has a later heartbeat than the first.
unfoldable pub fresher : Found → Found → Bool
fresher cur sv = remote_fresher sv.ownership cur.ownership

later_trans :
    (a b c : Option ℕ) → later_beat b a ≡ true → later_beat c b ≡ true → later_beat c a ≡ true
unfolding later_beat
later_trans none b none h k = elim b [ none ↦ cc | some y ↦ cc ]
later_trans none b (some z) h k = refl
later_trans (some x) none c h k = cc
later_trans (some x) (some y) none h k = cc
later_trans (some x) (some y) (some z) h k = ground arith

later_over :
    (a b c : Option ℕ) → later_beat b a ≡ false → later_beat c a ≡ true → later_beat c b ≡ true
unfolding later_beat
later_over a b none h k = cc
later_over a none (some z) h k = refl
later_over none (some y) (some z) h k = cc
later_over (some x) (some y) (some z) h k = ground arith

fresher_trans : (a b c : Found) → Beats fresher a b → Beats fresher b c → Beats fresher a c
unfolding fresher remote_fresher
fresher_trans a b c h k =
    later_trans a.ownership.heartbeat b.ownership.heartbeat c.ownership.heartbeat h k

fresher_over : (a b c : Found) → Stays fresher a b → Beats fresher a c → Beats fresher b c
unfolding fresher remote_fresher
fresher_over a b c h k =
    later_over a.ownership.heartbeat b.ownership.heartbeat c.ownership.heartbeat h k

find_server-place_server :
    (j k : Bytes) (sv : Found) (m : Servers)
    → record sv { discovered_root = [] } ≡ sv
    → find_server k (place_server j sv (find_server j m) m)
      ≡ (if equal j k then choose fresher (find_server k m) sv else find_server k m)
unfolding find_server place_server choose fresher
find_server-place_server j k sv m r = go (find_server j m) refl
  where
    go :
        (o : Option Found)
        → find_server j m ≡ o
        → find_server k (place_server j sv o m)
          ≡ (if equal j k then choose fresher (find_server k m) sv else find_server k m)
    go none e = elim (Bool-cases (equal j k)) [
      | inl t ↦
          let here : find_server k m ≡ none =
            ap (λ i. find_server i m) (sym ((equal_iff j k).0 t)) ∙ e in
          rw (t, here) (ap some r)
      | inr f ↦ rw f refl
    ]
    go (some cur) e = elim (Bool-cases (equal j k)) [
      | inl t ↦
          let here : find_server k m ≡ some cur =
            ap (λ i. find_server i m) (sym ((equal_iff j k).0 t)) ∙ e in
          rw (t, here) (ground (t, here, arith))
      | inr f ↦ ground (f, arith)
    ]

module _ (parse : Bytes → Option ℕ) where
  find_server-merge_server :
      (j k : Bytes) (sv : Found) (m : Servers)
      → record sv { discovered_root = [] } ≡ sv
      → find_server k (merge_server parse j sv m)
        ≡ choose_all fresher (find_server k m) (with_id k j sv)
  unfolding merge_server choose_all equal
  find_server-merge_server [] [] sv m r = refl
  find_server-merge_server [] (d ∷ ds) sv m r = refl
  find_server-merge_server (c ∷ cs) [] sv m r = find_server-place_server (c ∷ cs) [] sv m r
  find_server-merge_server (c ∷ cs) (d ∷ ds) sv m r =
      find_server-place_server (c ∷ cs) (d ∷ ds) sv m r ∙ ground arith

  find_server-merge_item :
      (k : Bytes) (i : Option FoundObject) (m : Servers)
      → find_server k (merge_item parse i m)
        ≡ choose_all fresher (find_server k m) (said_of parse k i)
  unfolding merge_item choose_all decode_remote_server
  find_server-merge_item k none m = refl
  find_server-merge_item k (some b) m =
      find_server-merge_server (text_or_empty b.id) k (decode_remote_server parse b) m refl

  find_server-merge_items :
      (k : Bytes) (is : List (Option FoundObject)) (m : Servers)
      → find_server k (merge_items parse is m)
        ≡ choose_all fresher (find_server k m) (said_in parse k is)
  unfolding merge_items choose_all
  find_server-merge_items k [] m = refl
  find_server-merge_items k (i ∷ is) m =
      find_server-merge_items k is (merge_item parse i m)
      ∙ ap (λ o. choose_all fresher o (said_in parse k is)) (find_server-merge_item k i m)
      ∙ sym (choose_all-append fresher (find_server k m) (said_of parse k i) (said_in parse k is))

  find_server-merge_reports :
      (k : Bytes) (rs : List (Bytes × Report)) (m : Servers)
      → find_server k (merge_reports parse rs m)
        ≡ choose_all fresher (find_server k m) (candidates parse k rs)
  unfolding merge_reports merge_report choose_all
  find_server-merge_reports k [] m = refl
  find_server-merge_reports k ((peer, none) ∷ rs) m = find_server-merge_reports k rs m
  find_server-merge_reports k ((peer, some is) ∷ rs) m =
      find_server-merge_reports k rs (merge_items parse is m)
      ∙ ap (λ o. choose_all fresher o (candidates parse k rs)) (find_server-merge_items k is m)
      ∙ sym
          (choose_all-append fresher (find_server k m) (said_in parse k is) (candidates parse k rs))

  -- For each id, the merge of this instance's servers with the peers' keeps the own server if no peer reports
  -- a later heartbeat, and else the first of those with the latest heartbeat, in the order of the reports; it
  -- keeps none exactly if nobody has one. An object without an id counts for nothing.
  pub merged_servers-Kept :
      (own : List Found) (reports : List (Bytes × Report)) (k : Bytes)
      → Kept fresher
          (find_server k (own_servers own []))
          (candidates parse k reports)
          (find_server k (merged_servers parse own reports))
  unfolding merged_servers
  merged_servers-Kept own reports k =
      subst (Kept fresher _ _) (sym (find_server-merge_reports k reports (own_servers own []))) (
        choose_all-Kept fresher fresher_trans fresher_over (find_server k (own_servers own []))
          (candidates parse k reports))
