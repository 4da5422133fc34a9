-- ===== src/Config/Validate.antt =====
-- internal/config/validate.go and types.go: the configuration that is validated, and `Validate`. What
-- the library's parsers answer for an address and a URL is a field.
pub mod Checks
pub mod Exact
use mcsm.Common.{
  ℕ, suc, ◌+◌, Bool, true, false, not, ◌&&◌, ◌||◌, Option, none, some, String, str_eq, List, [],
  ◌∷◌, ◌++◌, Bytes, ltb, leb, ◌==◌, if◌then◌else◌, equal, length, codes, has_prefix, ℤ, pos, negsuc,
  ltb_ℤ,
}

pub record Token : Type 0 where
  pub name : Bytes
  pub hash : Bytes
  pub scopes : List Bytes

pub record SlotEntry : Type 0 where
  pub name : Bytes
  pub port : ℤ

-- What url.Parse gives.
pub record Url : Type 0 where
  pub scheme : Bytes
  pub host : Bytes

-- `url`: the URL, if it parses.
pub record Peer : Type 0 where
  pub name : Bytes
  pub url : Option Url
  pub token : Bytes

pub record Tls : Type 0 where
  pub cert_file : Bytes
  pub key_file : Bytes
  pub min_version : Bytes

-- `bind_splits`: net.SplitHostPort takes the address apart.
pub record Config : Type 0 where
  pub instance_name : Bytes
  pub bind_splits : Bool
  pub tls : Option Tls
  pub tokens : List Token
  pub roots : List Bytes
  pub slots : List SlotEntry
  pub peers : List Peer
  pub log_level : Bytes
  pub log_format : Bytes

-- The texts of the errors; the number is the entry's index.
pub data Problem : Type 0 where
  bad_instance_name bad_bind tls_files tls_version no_tokens no_roots no_slots bad_level
        bad_format :
      Problem
  token_unnamed token_duplicate token_hash token_scopes : ℕ → Problem
  slot_name slot_duplicate slot_port slot_port_used : ℕ → Problem
  peer_name peer_duplicate peer_self peer_url peer_token : ℕ → Problem

abbrev pub when : Bool → Problem → List Problem
when b p = if b then p ∷ [] else []

abbrev is_name_byte : ℕ → Bool
is_name_byte c = leb b'a' c && leb c b'z' || leb b'0' c && leb c b'9' || c == b'-'

all_name_bytes : Bytes → Bool
all_name_bytes [] = true
all_name_bytes (c ∷ cs) = is_name_byte c && all_name_bytes cs

-- `^[a-z0-9-]{1,n}$`
unfoldable pub matches_name : ℕ → Bytes → Bool
unfolding all_name_bytes
matches_name n s = leb 1 (length s) && leb (length s) n && all_name_bytes s

pub is_empty : Bytes → Bool
is_empty [] = true
is_empty (c ∷ cs) = false

pub has_none {ℓ} : {A : Type ℓ} → List A → Bool
has_none [] = true
has_none (x ∷ xs) = false

-- One of the texts.
pub one_of : Bytes → List Bytes → Bool
one_of s [] = false
one_of s (t ∷ ts) = equal s t || one_of s ts

-- A loop that knows the entries before the current one, whose keys its maps hold.
loop : {A : Type 0} → (List A → ℕ → A → List Problem) → List A → ℕ → List A → List Problem
loop check earlier i [] = []
loop check earlier i (x ∷ xs) = check earlier i x ++ loop check (x ∷ earlier) (i + 1) xs

-- Whether the map of an earlier entry's keys has the key.
pub seen : {A K : Type 0} → (K → K → Bool) → (A → K) → K → List A → Bool
seen same key k [] = false
seen same key k (x ∷ xs) = same (key x) k || seen same key k xs

abbrev same_port : ℤ → ℤ → Bool
same_port a b = not (ltb_ℤ a b) && not (ltb_ℤ b a)

check_token : List Token → ℕ → Token → List Problem
unfolding is_empty seen has_none
check_token earlier i t =
    when (is_empty t.name) (token_unnamed i)
    ++ (when (seen equal (λ (x : Token). x.name) t.name earlier) (token_duplicate i)
        ++ (when (not (has_prefix (codes "$argon2id$") t.hash)) (token_hash i)
            ++ when (has_none t.scopes) (token_scopes i)))

check_slot : List SlotEntry → ℕ → SlotEntry → List Problem
unfolding matches_name seen
check_slot earlier i s =
    when (not (matches_name 32 s.name)) (slot_name i)
    ++ (when (seen equal (λ (x : SlotEntry). x.name) s.name earlier) (slot_duplicate i)
        ++ (when (ltb_ℤ s.port (pos 1) || ltb_ℤ (pos 65535) s.port) (slot_port i)
            ++ when (seen same_port (λ (x : SlotEntry). x.port) s.port earlier) (slot_port_used i)))

-- `err != nil || u.Scheme == "" || u.Host == ""`
is_bad_url : Option Url → Bool
unfolding is_empty
is_bad_url none = true
is_bad_url (some u) = is_empty u.scheme || is_empty u.host

check_peer : Bytes → List Peer → ℕ → Peer → List Problem
unfolding matches_name seen is_empty is_bad_url
check_peer self earlier i p =
    when (not (matches_name 64 p.name)) (peer_name i)
    ++ (when (seen equal (λ (x : Peer). x.name) p.name earlier) (peer_duplicate i)
        ++ (when (equal p.name self) (peer_self i)
            ++ (when (is_bad_url p.url) (peer_url i) ++ when (is_empty p.token) (peer_token i))))

check_tls : Option Tls → List Problem
unfolding is_empty one_of
check_tls none = []
check_tls (some t) =
    when (is_empty t.cert_file || is_empty t.key_file) tls_files
    ++ when (not (one_of t.min_version ([] ∷ codes "1.2" ∷ codes "1.3" ∷ []))) tls_version

-- All problems, in the order of the code; no problem is no error.
unfoldable pub validate : Config → List Problem
unfolding check_tls check_token check_slot check_peer loop has_none one_of matches_name
validate c =
    when (not (matches_name 64 c.instance_name)) bad_instance_name
    ++ (when (not c.bind_splits) bad_bind
        ++ (check_tls c.tls
            ++ (when (has_none c.tokens) no_tokens
                ++ (loop check_token [] 0 c.tokens
                    ++ (when (has_none c.roots) no_roots
                        ++ (when (has_none c.slots) no_slots
                            ++ (loop check_slot [] 0 c.slots
                                ++ (loop (check_peer c.instance_name) [] 0 c.peers
                                    ++ (when
                                          (not (
                                            one_of c.log_level (
                                              codes "debug"
                                              ∷ codes "info"
                                              ∷ codes "warn"
                                              ∷ codes "error"
                                              ∷ [])))
                                          bad_level
                                        ++ when
                                            (not (
                                              one_of c.log_format
                                                (codes "json" ∷ codes "text" ∷ [])))
                                            bad_format)))))))))
