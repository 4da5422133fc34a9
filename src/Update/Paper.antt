-- ===== src/Update/Paper.antt =====
-- internal/update/paper.go: `Latest` and `Download`. What the network and the operating system answer
-- is an argument, and so are the library's sorting and the digest, as hexadecimal text.
pub mod Verified
use mcsm.Common.{
  ℕ, Bool, true, false, not, ◌&&◌, ◌||◌, Option, none, some, List, [], ◌∷◌, ◌++◌, map, Bytes, equal,
  ltb, leb, ◌+◌, ℤ, if◌then◌else◌, Result, ok, err,
}

-- The address of a release is its version, its build and the jar's name.
pub record Release : Type 0 where
  pub mc_version : Bytes
  pub build : ℤ
  pub sha256 : Bytes
  pub jar_name : Bytes
  pub published_at : ℕ

pub record Detail : Type 0 where
  pub jar_name : Bytes
  pub sha256 : Bytes
  pub at : ℕ

pub data LatestError : Type 0 where
  no_version builds_failed no_builds detail_failed no_download : LatestError

last_of : ℤ → List ℤ → ℤ
last_of b [] = b
last_of b (c ∷ cs) = last_of c cs

release_of : Bytes → ℤ → Option Detail → Result LatestError Release
release_of version build none = err detail_failed
release_of version build (some d) = elim d.jar_name [
  | [] ↦ err no_download
  | c ∷ name ↦ ok (record {
    mc_version = version;
    build = build;
    sha256 = d.sha256;
    jar_name = c ∷ name;
    published_at = d.at;
  })
]

newest : (ℤ → Option Detail) → Bytes → List ℤ → Result LatestError Release
unfolding last_of release_of
newest detail version [] = err no_builds
newest detail version (b ∷ bs) = release_of version (last_of b bs) (detail (last_of b bs))

unfoldable pub latest :
    (List ℤ → List ℤ) → Option (List ℤ) → (ℤ → Option Detail) → Bytes → Result LatestError Release
unfolding newest
latest sort builds detail [] = err no_version
latest sort none detail (c ∷ version) = err builds_failed
latest sort (some bs) detail (c ∷ version) = newest detail (c ∷ version) (sort bs)

-- strings.EqualFold, on ASCII.
lower : ℕ → ℕ
lower c = if leb b'A' c && leb c b'Z' then c + 32 else c

unfoldable pub equal_fold : Bytes → Bytes → Bool
unfolding lower equal
equal_fold s t = equal (map lower s) (map lower t)

-- The status, the bytes that arrive, and whether the copying fails after them.
pub record Response : Type 0 where
  pub status : ℕ
  pub body : Bytes
  pub copy_fails : Bool

pub record Fetch : Type 0 where
  pub mkdir_fails : Bool
  pub create_fails : Bool
  pub response : Option Response
  pub close_fails : Bool
  pub rename_fails : Bool

-- The file at the destination, and the one beside it that is not finished.
pub record Target : Type 0 where
  pub dest : Option Bytes
  pub part : Option Bytes

pub data DownloadError : Type 0 where
  mkdir_failed create_failed request_failed http_failed copy_failed close_failed sha256_mismatch
        rename_failed :
      DownloadError

abbrev pub is_verified : (Bytes → Bytes) → Release → Bytes → Bool
is_verified digest rel body = equal rel.sha256 [] || equal_fold (digest body) rel.sha256

-- Once the unfinished file is there; it is removed in the end.
received : (Bytes → Bytes) → Release → Fetch → Response → Option DownloadError
unfolding equal
received digest rel f r =
    if leb 400 r.status
    then some http_failed
    else (if r.copy_fails
        then some copy_failed
        else (if f.close_fails
            then some close_failed
            else (if not (is_verified digest rel r.body)
                then some sha256_mismatch
                else (if f.rename_fails then some rename_failed else none))))

settled : Option DownloadError → Bytes → Target → Target × Option DownloadError
settled (some e) body t = (record t { part = none }, some e)
settled none body t = (record { dest = some body; part = none }, none)

fetched :
    (Bytes → Bytes) → Release → Fetch → Option Response → Target → Target × Option DownloadError
unfolding received settled
fetched digest rel f none t = (record t { part = none }, some request_failed)
fetched digest rel f (some r) t = settled (received digest rel f r) r.body t

unfoldable pub download : (Bytes → Bytes) → Release → Fetch → Target → Target × Option DownloadError
unfolding fetched
download digest rel f t =
    if f.mkdir_fails
    then (t, some mkdir_failed)
    else (if f.create_fails then (t, some create_failed) else fetched digest rel f f.response t)
