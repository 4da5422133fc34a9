-- ===== src/Api/Updates/Installed.antt =====
-- internal/api/handlers_update.go: the jars that an update leaves.
use mcsm.Common.{
  ◌≡◌, ◌⊎◌, refl, sym, ap, subst, Bool, true, false, inl, inr, Option, none, some, Bytes, Result,
  ok, err,
}
use mcsm.Update.Paper.{Release, LatestError, Response, Target, DownloadError, is_verified, download}
use mcsm.Update.Paper.Verified.{IsSettled, download-IsSettled}
use mcsm.Slot.Record.{Slot}
use mcsm.Api.Backups.{Refusal}
use mcsm.Api.Updates.{
  Jars, Request, UpdateError, install_failed, update_gate, keep_at, keep_old, put_at, put_new,
  install, fetch_and_install, checked, looked_up, gated, apply_update,
}

-- The checked bytes that arrived.
abbrev pub IsReceived : (Bytes → Bytes) → Request → Release → Option Bytes → Type 0
IsReceived digest q rel o =
    (r : Response) × ((q.fetch.response ≡ some r)
      × ((o ≡ some r.body) × (is_verified digest rel r.body ≡ true)))

-- Where the jar is that was there before: it is the previous one, or could not be moved, or there was none.
abbrev pub IsKept : Request → Jars → Jars → Type 0
IsKept q j j' =
    (j'.previous ≡ j.launch)
    ⊎ ((j'.previous ≡ j.previous) × ((q.keep_fails ≡ true) ⊎ (j.launch ≡ none)))

-- The jars as they were, or, if only the last renaming failed, no launch jar and the old one kept.
abbrev pub IsLeft : UpdateError → Jars → Jars → Type 0
IsLeft e j j' =
    ((j'.launch ≡ j.launch) × (j'.previous ≡ j.previous))
    ⊎ ((e ≡ install_failed) × ((j'.launch ≡ none) × (j'.previous ≡ j.launch)))

abbrev pub IsUpdated : (Bytes → Bytes) → Request → Jars → Jars × Result UpdateError Release → Type 0
IsUpdated digest q j (j', ok rel) = IsReceived digest q rel j'.launch × IsKept q j j'
IsUpdated digest q j (j', err e) = IsLeft e j j'

keep_at-IsKept :
    (q : Request) (j : Jars) (fails : Bool) (o : Option Bytes)
    → q.keep_fails ≡ fails
    → j.launch ≡ o
    → IsKept q j (keep_at fails o j)
      × (IsLeft install_failed j (keep_at fails o j) × ((keep_at fails o j).staging ≡ j.staging))
unfolding keep_at
keep_at-IsKept q j fails none f e = (inr (refl, inr e), (inl (refl, refl), refl))
keep_at-IsKept q j true (some b) f e = (inr (refl, inl f), (inl (refl, refl), refl))
keep_at-IsKept q j false (some b) f e = (inl (sym e), (inr (refl, (refl, sym e)), refl))

put_at-IsUpdated :
    (digest : Bytes → Bytes) (q : Request) (rel : Release) (j j₁ : Jars) (fails : Bool)
    (o : Option Bytes)
    → IsKept q j j₁
    → IsLeft install_failed j j₁
    → IsReceived digest q rel o
    → IsUpdated digest q j (put_at fails rel o j₁)
unfolding put_at
put_at-IsUpdated digest q rel j j₁ fails none k l r = l
put_at-IsUpdated digest q rel j j₁ true (some b) k l r = l
put_at-IsUpdated digest q rel j j₁ false (some b) k l r = (r, k)

install-IsUpdated :
    (digest : Bytes → Bytes) (q : Request) (rel : Release) (j : Jars)
    (w : Target × Option DownloadError)
    → IsSettled digest rel q.fetch j.staging w
    → IsUpdated digest q j (install q rel j w)
unfolding install put_new keep_old
install-IsUpdated digest q rel j (t, some e) h = inl (refl, refl)
install-IsUpdated digest q rel j (t, none) (p, r) =
    let (k, (l, s)) = keep_at-IsKept q (record j { staging = t }) q.keep_fails j.launch refl refl in
    put_at-IsUpdated digest q rel j _ q.install_fails _ k l
      (subst (IsReceived digest q rel) (ap (λ (u : Target). u.dest) (sym s)) r)

fetch_and_install-IsUpdated :
    (digest : Bytes → Bytes) (q : Request) (j : Jars) (r : Result LatestError Release)
    → IsUpdated digest q j (fetch_and_install digest q j r)
unfolding fetch_and_install
fetch_and_install-IsUpdated digest q j (err e) = inl (refl, refl)
fetch_and_install-IsUpdated digest q j (ok rel) =
    install-IsUpdated digest q rel j (download digest rel q.fetch j.staging)
      (download-IsSettled digest rel q.fetch j.staging)

looked_up-IsUpdated :
    (digest : Bytes → Bytes) (find : Bytes → Result LatestError Release) (q : Request) (j : Jars)
    (c : Result UpdateError Bytes)
    → IsUpdated digest q j (looked_up digest find q j c)
unfolding looked_up
looked_up-IsUpdated digest find q j (err e) = inl (refl, refl)
looked_up-IsUpdated digest find q j (ok version) =
    fetch_and_install-IsUpdated digest q j (find version)

gated-IsUpdated :
    (digest : Bytes → Bytes) (find : Bytes → Result LatestError Release) (q : Request) (j : Jars)
    (g : Option Refusal)
    → IsUpdated digest q j (gated digest find q j g)
unfolding gated
gated-IsUpdated digest find q j (some r) = inl (refl, refl)
gated-IsUpdated digest find q j none = looked_up-IsUpdated digest find q j (checked q)

-- An update ends on every branch either with the checked bytes of the release as the launch jar, and
-- the old jar as the previous one if it could be moved; or with an error and both jars as they were; or,
-- if installing the staged jar fails, with no launch jar, the old one being the previous.
pub apply_update-IsUpdated :
    (digest : Bytes → Bytes) (find : Bytes → Result LatestError Release) (q : Request)
    (o : Option Slot) (j : Jars)
    → IsUpdated digest q j (apply_update digest find q o j)
unfolding apply_update
apply_update-IsUpdated digest find q o j = gated-IsUpdated digest find q j (update_gate o)
