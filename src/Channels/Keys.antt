-- ===== src/Channels/Keys.antt =====
-- The keys of a map of channels that are numbered as they are made.
use mcsm.Common.{
  ℕ, ◌+◌, ◌<◌, ◌≡◌, refl, ap, ◌∙◌, true, false, Bool-cases, inl, inr, some, List, [], ◌∷◌, ◌==◌,
  arith, All, ◌⊎◌,
}
use mcsm.Channels.{Channel, Store, put, make, close, send_all, close_all, delete, member}
use mcsm.Channels.Laws.{
  IsDistinct, IsOpen, IsOpen-put, IsOpen-closed, send_all-IsOpen, close_all-IsOpen, delete-All,
  delete-IsDistinct, deleted, member-All, close-open, shut, shut-closed,
}

-- The keys are distinct and numbered before the next, their channels are open, and every other
-- channel that was made is closed.
pub record IsTidy {ℓ} {A : Type ℓ} (subs : List ℕ) (next : ℕ) (chans : Store A) : Type 0 where
  pub keys : IsDistinct subs
  pub numbered : All (λ (i : ℕ). i < next) subs
  pub live : IsOpen subs chans
  pub ended : (i : ℕ) → i < next → member i subs ≡ false → (chans i).is_closed ≡ true

below_distinct :
    (n : ℕ) (is : List ℕ) → All (λ (i : ℕ). i < n) is → All (λ (i : ℕ). (n == i) ≡ false) is
below_distinct n [] h = tt
below_distinct n (i ∷ is) h = (ground (arith, h.0), below_distinct n is h.1)

below_suc : (n : ℕ) (is : List ℕ) → All (λ (i : ℕ). i < n) is → All (λ (i : ℕ). i < n + 1) is
below_suc n [] h = tt
below_suc n (i ∷ is) h = (omega (arith, h.0), below_suc n is h.1)

-- A key that was there, or is not the deleted one.
member-delete :
    (id j : ℕ) (is : List ℕ)
    → member j (delete id is) ≡ false
    → (id == j ≡ true) ⊎ (member j is ≡ false)
unfolding member delete
member-delete id j [] h = inr refl
member-delete id j (i ∷ is) h = ground (arith, member-delete id j is)

put-ended {ℓ} :
    {A : Type ℓ} (n i : ℕ) (c : Channel A) (s : Store A)
    → (n == i ≡ true → c.is_closed ≡ true)
    → (n == i ≡ false → (s i).is_closed ≡ true)
    → (put n c s i).is_closed ≡ true
put-ended n i c s h k = elim (Bool-cases (n == i)) [ inl t ↦ rw t (h t) | inr f ↦ rw f (k f) ]

module _ {ℓ} {A : Type ℓ} (subs : List ℕ) (next : ℕ) (chans : Store A)
    (h : IsTidy subs next chans) where
  pub IsTidy-add : (room : ℕ) → IsTidy (next ∷ subs) (next + 1) (put next (make room) chans)
  unfolding member
  IsTidy-add room = record {
    keys = (below_distinct next subs h.numbered, h.keys);
    numbered = (omega arith, below_suc next subs h.numbered);
    live = (
      ground arith,
      IsOpen-put next subs (make room) chans (below_distinct next subs h.numbered) h.live,
    );
    ended = λ i l m.
        put-ended next i (make room) chans (λ q. ground (arith, m, q))
          (λ q. h.ended i (ground (arith, l, q)) (ground (arith, m, q)));
  }

  -- A channel under a key can be closed, and its key taken out.
  pub IsTidy-remove :
      (id : ℕ)
      → member id subs ≡ true
      → (c : Channel A) × (close (chans id) ≡ some c)
        × IsTidy (delete id subs) next (put id c chans)
  IsTidy-remove id t =
      let open_id = member-All (λ (i : ℕ). (chans i).is_closed ≡ false) id subs h.live t in
      (
        shut (chans id),
        close-open (chans id) open_id,
        record {
          keys = delete-IsDistinct id subs h.keys;
          numbered = delete-All (λ (i : ℕ). i < next) id subs h.numbered;
          live =
              IsOpen-put id (delete id subs) (shut (chans id)) chans (deleted id subs)
                (delete-All (λ (i : ℕ). (chans i).is_closed ≡ false) id subs h.live);
          ended = λ i l m.
              put-ended id i (shut (chans id)) chans (λ q. shut-closed (chans id))
                (λ q. h.ended i l (ground (arith, q, member-delete id i subs m)));
        },
      )

  pub IsTidy-send_all :
      (e : A) → (s : Store A) × (send_all e subs chans ≡ some s) × IsTidy subs next s
  IsTidy-send_all e =
      let (s, p, c) = send_all-IsOpen subs e chans h.live in
      (
        s,
        p,
        record {
          keys = h.keys;
          numbered = h.numbered;
          live = IsOpen-closed subs chans s c h.live;
          ended = λ i l m. c i ∙ h.ended i l m;
        },
      )

  pub IsTidy-close_all : (s : Store A) × (close_all subs chans ≡ some s) × IsTidy [] next s
  IsTidy-close_all =
      let (s, p, c, t) = close_all-IsOpen subs chans h.keys h.live in
      (
        s,
        p,
        record {
          keys = tt;
          numbered = tt;
          live = tt;
          ended = λ i l m. elim (Bool-cases (member i subs)) [
            | inl q ↦ t i q
            | inr q ↦ ap (λ (x : Channel A). x.is_closed) (c i q) ∙ h.ended i l q
          ];
        },
      )

pub IsTidy-new {ℓ} : {A : Type ℓ} (chans : Store A) → IsTidy [] 0 chans
IsTidy-new chans = record { keys = tt; numbered = tt; live = tt; ended = λ i l m. ground arith }
