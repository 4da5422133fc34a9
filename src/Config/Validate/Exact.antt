-- ===== src/Config/Validate/Exact.antt =====
-- internal/config/validate.go: what the configurations are that `Validate` lets through.
use mathlib.Core.Logic.Iff
use mcsm.Common.{
  ℕ, ◌+◌, ◌≡◌, ◌≢◌, ◌↔◌, refl, true, Option, none, some, List, [], ◌∷◌, ◌++◌, Bytes, codes, equal,
  equal_iff, All, Pairwise,
}
use mcsm.Config.Validate.{
  Token, SlotEntry, Url, Peer, Tls, Config, Problem, tls_version, bad_level, bad_format,
  matches_name, is_empty, when, is_bad_url, has_none, loop, same_port, check_token, check_slot,
  check_peer, check_tls, validate,
}
use mcsm.Config.Validate.Checks.{
  parts_iff, test_iff, unless_iff, is_empty_iff, has_none_iff, IsName, matches_name_iff, IsOneOf,
  one_of_iff, has_prefix_iff, seen_iff, same_port_iff, IsPort, IsPort-iff, or_iff, no_iff,
}

abbrev IsToken : Token → Type 0
IsToken t =
    (t.name ≢ []) × (((rest : Bytes) × (t.hash ≡ codes "$argon2id$" ++ rest)) × (t.scopes ≢ []))

abbrev IsSlot : SlotEntry → Type 0
IsSlot s = IsName 32 s.name × IsPort s.port

-- It parses, with a scheme and a host.
abbrev IsUrl : Option Url → Type 0
IsUrl none = ⊥
IsUrl (some u) = (u.scheme ≢ []) × (u.host ≢ [])

abbrev IsPeer : Bytes → Peer → Type 0
IsPeer self p = IsName 64 p.name × ((p.name ≢ self) × (IsUrl p.url × (p.token ≢ [])))

abbrev IsTls : Option Tls → Type 0
IsTls none = Unit
IsTls (some t) =
    ((t.cert_file ≢ []) × (t.key_file ≢ []))
    × IsOneOf t.min_version ([] ∷ codes "1.2" ∷ codes "1.3" ∷ [])

abbrev pub IsValid : Config → Type 0
IsValid c =
    (IsName 64 c.instance_name × ((c.bind_splits ≡ true) × IsTls c.tls))
    × ((((c.tokens ≢ []) × All IsToken c.tokens) × Pairwise (λ t u. t.name ≢ u.name) c.tokens)
        × ((c.roots ≢ [])
            × ((((c.slots ≢ []) × All IsSlot c.slots)
                  × Pairwise (λ s t. (s.name ≢ t.name) × (s.port ≢ t.port)) c.slots)
                × ((All (IsPeer c.instance_name) c.peers
                      × Pairwise (λ p q. p.name ≢ q.name) c.peers)
                    × (IsOneOf c.log_level
                          (codes "debug" ∷ codes "info" ∷ codes "warn" ∷ codes "error" ∷ [])
                        × IsOneOf c.log_format (codes "json" ∷ codes "text" ∷ []))))))

All-both :
    {A : Type 0} (P Q : A → Type 0) (xs : List A) → All (λ x. P x × Q x) xs ↔ (All P xs × All Q xs)
All-both P Q [] = ((λ _. (tt, tt)), λ _. tt)
All-both P Q (x ∷ xs) =
    let (f, g) = All-both P Q xs in
    ((λ p. ((p.0.0, (f p.1).0), (p.0.1, (f p.1).1))), (λ p. ((p.0.0, p.1.0), g (p.0.1, p.1.1))))

-- A loop finds no problem exactly if each entry is good, may stand beside each later one, and beside
-- each that came before the loop.
loop_iff :
    {A : Type 0} (Good : A → Type 0) (R : A → A → Type 0) (check : List A → ℕ → A → List Problem)
    → ((earlier : List A) (i : ℕ) (x : A)
        → (check earlier i x ≡ []) ↔ (Good x × All (λ e. R e x) earlier))
    → (earlier : List A) (i : ℕ) (xs : List A)
    → (loop check earlier i xs ≡ [])
      ↔ ((All Good xs × Pairwise R xs) × All (λ x. All (λ e. R e x) earlier) xs)
unfolding loop
loop_iff Good R check f earlier i [] = ((λ _. ((tt, tt), tt)), λ _. refl)
loop_iff Good R check f earlier i (x ∷ xs) =
    Iff.trans
      (parts_iff (check earlier i x) (loop check (x ∷ earlier) (i + 1) xs) (f earlier i x) (
        Iff.trans (loop_iff Good R check f (x ∷ earlier) (i + 1) xs)
          (Iff.and Iff.rfl (All-both _ _ xs))))
      (
        (λ p. (((p.0.0, p.1.0.0), (p.1.1.0, p.1.0.1)), (p.0.1, p.1.1.1))),
        λ p. ((p.0.0.0, p.1.0), ((p.0.0.1, p.0.1.1), (p.0.1.0, p.1.1))),
      )

All-Unit : {A : Type 0} (xs : List A) → All (λ x. Unit {0}) xs
All-Unit [] = tt
All-Unit (x ∷ xs) = (tt, All-Unit xs)

-- From the start of the loop.
whole_loop_iff :
    {A : Type 0} (Good : A → Type 0) (R : A → A → Type 0) (check : List A → ℕ → A → List Problem)
    → ((earlier : List A) (i : ℕ) (x : A)
        → (check earlier i x ≡ []) ↔ (Good x × All (λ e. R e x) earlier))
    → (xs : List A) → (loop check [] 0 xs ≡ []) ↔ (All Good xs × Pairwise R xs)
whole_loop_iff Good R check f xs =
    Iff.trans (loop_iff Good R check f [] 0 xs) ((λ p. p.0), λ p. (p, All-Unit xs))

check_token_iff :
    (earlier : List Token) (i : ℕ) (t : Token)
    → (check_token earlier i t ≡ []) ↔ (IsToken t × All (λ e. e.name ≢ t.name) earlier)
unfolding check_token
check_token_iff earlier i t =
    Iff.trans
      (parts_iff _ _ (test_iff (is_empty t.name) _ (is_empty_iff t.name)) (
        parts_iff _ _
          (test_iff _ _ (seen_iff equal (λ (x : Token). x.name) equal_iff t.name earlier))
          (parts_iff _ _ (unless_iff _ _ (has_prefix_iff (codes "$argon2id$") t.hash))
            (test_iff (has_none t.scopes) _ (has_none_iff t.scopes)))))
      ((λ (n, (s, (h, k))). ((n, (h, k)), s)), λ ((n, (h, k)), s). (n, (s, (h, k))))

check_slot_iff :
    (earlier : List SlotEntry) (i : ℕ) (s : SlotEntry)
    → (check_slot earlier i s ≡ [])
      ↔ (IsSlot s × All (λ e. (e.name ≢ s.name) × (e.port ≢ s.port)) earlier)
unfolding check_slot
check_slot_iff earlier i s =
    Iff.trans
      (parts_iff _ _ (unless_iff (matches_name 32 s.name) _ (matches_name_iff 32 s.name)) (
        parts_iff _ _
          (test_iff _ _ (seen_iff equal (λ (x : SlotEntry). x.name) equal_iff s.name earlier))
          (parts_iff _ _ (test_iff _ _ (IsPort-iff s.port)) (
            test_iff _ _
              (seen_iff same_port (λ (x : SlotEntry). x.port) same_port_iff s.port earlier)))))
      (
        (λ (n, (a, (p, b))). (
          (n, p),
          (All-both (λ (e : SlotEntry). e.name ≢ s.name) (λ e. e.port ≢ s.port) earlier).1 (a, b),
        )),
        λ ((n, p), ab).
            let (a, b) =
              (All-both (λ (e : SlotEntry). e.name ≢ s.name) (λ e. e.port ≢ s.port) earlier).0 ab in
            (n, (a, (p, b))),
      )

bad_url_iff : (u : Option Url) (q : Problem) → (when (is_bad_url u) q ≡ []) ↔ IsUrl u
unfolding is_bad_url
bad_url_iff none q = ((λ e. cc), λ h. absurd h)
bad_url_iff (some u) q = test_iff _ q (
    Iff.trans (or_iff (is_empty u.scheme) (is_empty u.host))
      (Iff.and (is_empty_iff u.scheme) (is_empty_iff u.host)))

check_peer_iff :
    (self : Bytes) (earlier : List Peer) (i : ℕ) (p : Peer)
    → (check_peer self earlier i p ≡ []) ↔ (IsPeer self p × All (λ e. e.name ≢ p.name) earlier)
unfolding check_peer
check_peer_iff self earlier i p =
    Iff.trans
      (parts_iff _ _ (unless_iff (matches_name 64 p.name) _ (matches_name_iff 64 p.name)) (
        parts_iff _ _
          (test_iff _ _ (seen_iff equal (λ (x : Peer). x.name) equal_iff p.name earlier))
          (parts_iff _ _ (test_iff _ _ (no_iff (equal p.name self) (equal_iff p.name self))) (
            parts_iff _ _ (bad_url_iff p.url _)
              (test_iff (is_empty p.token) _ (is_empty_iff p.token))))))
      (
        (λ (n, (a, (s, (u, t)))). ((n, (s, (u, t))), a)),
        λ ((n, (s, (u, t))), a). (n, (a, (s, (u, t)))),
      )

check_tls_iff : (t : Option Tls) → (check_tls t ≡ []) ↔ IsTls t
unfolding check_tls
check_tls_iff none = ((λ _. tt), λ _. refl)
check_tls_iff (some t) =
    parts_iff _ _
      (test_iff _ _ (
        Iff.trans (or_iff (is_empty t.cert_file) (is_empty t.key_file))
          (Iff.and (is_empty_iff t.cert_file) (is_empty_iff t.key_file))))
      (unless_iff _ tls_version (one_of_iff t.min_version ([] ∷ codes "1.2" ∷ codes "1.3" ∷ [])))

-- Validate finds no problem exactly in a valid configuration: its names have 1 to 64 (for a slot, 32)
-- small letters, digits and dashes, its address splits; where there is TLS it has both files and a
-- known version; there are a token, a root and a slot; each token has a name of its own, an argon2id
-- hash and a scope; slots have distinct names and distinct ports from 1 to 65535; peers have distinct
-- names, none the instance's, URLs that parse with a scheme and a host, and tokens; and level and format are known.
pub validate-IsValid : (c : Config) → (validate c ≡ []) ↔ IsValid c
unfolding validate
validate-IsValid c =
    Iff.trans
      (parts_iff _ _
        (unless_iff (matches_name 64 c.instance_name) _ (matches_name_iff 64 c.instance_name))
        (parts_iff _ _ (unless_iff c.bind_splits _ Iff.rfl) (
          parts_iff _ _ (check_tls_iff c.tls) (
            parts_iff _ _ (test_iff (has_none c.tokens) _ (has_none_iff c.tokens)) (
              parts_iff _ _
                (whole_loop_iff IsToken (λ t u. t.name ≢ u.name) check_token check_token_iff
                  c.tokens)
                (parts_iff _ _ (test_iff (has_none c.roots) _ (has_none_iff c.roots)) (
                  parts_iff _ _ (test_iff (has_none c.slots) _ (has_none_iff c.slots)) (
                    parts_iff _ _
                      (whole_loop_iff IsSlot (λ s t. (s.name ≢ t.name) × (s.port ≢ t.port))
                        check_slot check_slot_iff c.slots)
                      (parts_iff _ _
                        (whole_loop_iff (IsPeer c.instance_name) (λ p q. p.name ≢ q.name)
                          (check_peer c.instance_name) (check_peer_iff c.instance_name) c.peers)
                        (parts_iff _ _
                          (unless_iff _ bad_level (
                            one_of_iff c.log_level
                              (codes "debug" ∷ codes "info" ∷ codes "warn" ∷ codes "error" ∷ [])))
                          (unless_iff _ bad_format
                            (one_of_iff c.log_format (codes "json" ∷ codes "text" ∷ [])))))))))))))
      (
        (λ (n, (b, (t, (ts, ((tg, tp), (r, (ss, ((sg, sp), (p, l))))))))).
            ((n, (b, t)), (((ts, tg), tp), (r, (((ss, sg), sp), (p, l)))))),
        λ ((n, (b, t)), (((ts, tg), tp), (r, (((ss, sg), sp), (p, l))))).
            (n, (b, (t, (ts, ((tg, tp), (r, (ss, ((sg, sp), (p, l))))))))),
      )
