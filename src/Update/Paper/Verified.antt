-- ===== src/Update/Paper/Verified.antt =====
-- internal/update/paper.go: what stands at the destination of a download.
use mcsm.Common.{◌≡◌, ◌⊎◌, refl, true, inl, inr, Option, none, some, Bytes, if_rule, arith}
use mcsm.Update.Paper.{
  Release, Response, Fetch, Target, DownloadError, is_verified, received, settled, fetched,
  download,
}

-- The whole body of the response, checked against the digest of the release, or what was there before.
abbrev pub IsSettled :
    (Bytes → Bytes) → Release → Fetch → Target → Target × Option DownloadError → Type 0
IsSettled digest rel f old (t, none) =
    (t.part ≡ none)
    × ((r : Response) × ((f.response ≡ some r)
          × ((t.dest ≡ some r.body) × (is_verified digest rel r.body ≡ true))))
IsSettled digest rel f old (t, some e) =
    (t.dest ≡ old.dest) × ((t.part ≡ none) ⊎ (t.part ≡ old.part))

received-none :
    (digest : Bytes → Bytes) (rel : Release) (f : Fetch) (r : Response)
    → received digest rel f r ≡ none
    → is_verified digest rel r.body ≡ true
unfolding received
received-none digest rel f r h = ground (h, arith)

settled-IsSettled :
    (digest : Bytes → Bytes) (rel : Release) (f : Fetch) (t : Target) (r : Response)
    (o : Option DownloadError)
    → f.response ≡ some r
    → received digest rel f r ≡ o
    → IsSettled digest rel f t (settled o r.body t)
unfolding settled
settled-IsSettled digest rel f t r (some e) q h = (refl, inl refl)
settled-IsSettled digest rel f t r none q h =
    (refl, (r, (q, (refl, received-none digest rel f r h))))

fetched-IsSettled :
    (digest : Bytes → Bytes) (rel : Release) (f : Fetch) (t : Target) (o : Option Response)
    → f.response ≡ o
    → IsSettled digest rel f t (fetched digest rel f o t)
unfolding fetched
fetched-IsSettled digest rel f t none q = (refl, inl refl)
fetched-IsSettled digest rel f t (some r) q = settled-IsSettled digest rel f t r _ q refl

pub download-IsSettled :
    (digest : Bytes → Bytes) (rel : Release) (f : Fetch) (t : Target)
    → IsSettled digest rel f t (download digest rel f t)
unfolding download
download-IsSettled digest rel f t =
    if_rule (IsSettled digest rel f t) f.mkdir_fails (λ _. (refl, inr refl))
      (λ _.
        if_rule (IsSettled digest rel f t) f.create_fails (λ _. (refl, inr refl))
          (λ _. fetched-IsSettled digest rel f t f.response refl))
