-- ===== src/Channels/Laws.antt =====
-- Steps on the channels of a list that do not panic.
use mcsm.Common.{
  ℕ, ◌≡◌, refl, ap, subst, ◌∙◌, true, false, Bool-cases, inl, inr, Option, some, List, [], ◌∷◌,
  ◌==◌, arith, All,
}
use mcsm.Channels.{
  Channel, Store, put, sent, send, close, each, send_all, close_all, delete, member,
}

abbrev pub IsDistinct : List ℕ → Type 0
IsDistinct [] = Unit
IsDistinct (i ∷ is) = All (λ (j : ℕ). (i == j) ≡ false) is × IsDistinct is

member-distinct :
    (i j : ℕ) (is : List ℕ)
    → All (λ (k : ℕ). (i == k) ≡ false) is
    → (i == j) ≡ true
    → member j is ≡ false
unfolding member
member-distinct i j [] d h = refl
member-distinct i j (k ∷ is) d h = ground (arith, h, d.0, member-distinct i j is d.1 h)

pub delete-distinct :
    (i j : ℕ) (is : List ℕ)
    → All (λ (k : ℕ). (i == k) ≡ false) is
    → All (λ (k : ℕ). (i == k) ≡ false) (delete j is)
unfolding delete
delete-distinct i j [] h = tt
delete-distinct i j (k ∷ is) h = ground (arith, h.0, delete-distinct i j is h.1)

pub delete-IsDistinct : (j : ℕ) (is : List ℕ) → IsDistinct is → IsDistinct (delete j is)
unfolding delete
delete-IsDistinct j [] h = tt
delete-IsDistinct j (i ∷ is) h =
    ground (arith, delete-IsDistinct j is h.1, delete-distinct i j is h.0)

pub delete-All : (P : ℕ → Type 0) (j : ℕ) (is : List ℕ) → All P is → All P (delete j is)
unfolding delete
delete-All P j [] h = tt
delete-All P j (i ∷ is) h = elim (Bool-cases (j == i)) [
  | inl t ↦ rw t (delete-All P j is h.1)
  | inr f ↦ rw f (h.0, delete-All P j is h.1)
]

-- What is left of a list is not the deleted number.
pub deleted : (j : ℕ) (is : List ℕ) → All (λ (k : ℕ). (j == k) ≡ false) (delete j is)
unfolding delete
deleted j [] = tt
deleted j (i ∷ is) = elim (Bool-cases (j == i)) [
  | inl t ↦ rw t (deleted j is)
  | inr f ↦ rw f (f, deleted j is)
]

pub member-All : (P : ℕ → Type 0) (i : ℕ) (is : List ℕ) → All P is → member i is ≡ true → P i
unfolding member
member-All P i [] h m = cc
member-All P i (j ∷ is) h m = elim (Bool-cases (i == j)) [
  | inl t ↦ subst P (ground (arith, t)) h.0
  | inr f ↦ member-All P i is h.1 (rw (f, member) at m)
]

module _ {ℓ} {A : Type ℓ} where
  abbrev pub IsOpen : List ℕ → Store A → Type 0
  IsOpen is s = All (λ (i : ℕ). (s i).is_closed ≡ false) is

  pub IsOpen-put :
      (i : ℕ) (is : List ℕ) (c : Channel A) (s : Store A)
      → All (λ (j : ℕ). (i == j) ≡ false) is
      → IsOpen is s
      → IsOpen is (put i c s)
  IsOpen-put i [] c s d h = tt
  IsOpen-put i (j ∷ is) c s d h = (rw d.0 h.0, IsOpen-put i is c s d.1 h.1)

  put-closed :
      (i : ℕ) (c : Channel A) (s : Store A)
      → c.is_closed ≡ (s i).is_closed
      → (j : ℕ) → (put i c s j).is_closed ≡ (s j).is_closed
  put-closed i c s h j = elim (Bool-cases (i == j)) [
    | inl t ↦
        let e : i ≡ j = ground (arith, t) in rw t (subst (λ k. c.is_closed ≡ (s k).is_closed) e h)
    | inr f ↦ rw f refl
  ]

  pub IsOpen-closed :
      (is : List ℕ) (s s' : Store A)
      → ((j : ℕ) → (s' j).is_closed ≡ (s j).is_closed)
      → IsOpen is s
      → IsOpen is s'
  IsOpen-closed [] s s' k h = tt
  IsOpen-closed (i ∷ is) s s' k h = (k i ∙ h.0, IsOpen-closed is s s' k h.1)

  sent-closed : (e : A) (c : Channel A) → (sent e c).is_closed ≡ c.is_closed
  unfolding sent
  sent-closed e c = refl

  send-open : (e : A) (c : Channel A) → c.is_closed ≡ false → send e c ≡ some (sent e c)
  unfolding send
  send-open e c h = rw h refl

  pub shut : Channel A → Channel A
  shut c = record c { is_closed = true }

  pub shut-closed : (c : Channel A) → (shut c).is_closed ≡ true
  unfolding shut
  shut-closed c = refl

  pub close-open : (c : Channel A) → c.is_closed ≡ false → close c ≡ some (shut c)
  unfolding close shut
  close-open c h = rw h refl

  each-cons :
      (f : Channel A → Option (Channel A)) (i : ℕ) (is : List ℕ) (s : Store A) {c : Channel A}
      → f (s i) ≡ some c
      → each f (i ∷ is) s ≡ each f is (put i c s)
  unfolding each
  each-cons f i is s h = rw (h, each) refl

  put-other : (i j : ℕ) (c : Channel A) (s : Store A) → (i == j) ≡ false → put i c s j ≡ s j
  put-other i j c s h = rw h refl

  -- A sent event closes no channel.
  pub send_all-IsOpen :
      (is : List ℕ) (e : A) (s : Store A)
      → IsOpen is s
      → (s' : Store A) × (send_all e is s ≡ some s')
        × ((j : ℕ) → (s' j).is_closed ≡ (s j).is_closed)
  unfolding send_all
  send_all-IsOpen [] e s h = (s, refl, λ j. refl)
  send_all-IsOpen (i ∷ is) e s h =
      let s1 : Store A = put i (sent e (s i)) s in
      let k = put-closed i (sent e (s i)) s (sent-closed e (s i)) in
      let (s', p, c) = send_all-IsOpen is e s1 (IsOpen-closed is s s1 k h.1) in
      (s', each-cons (send e) i is s (send-open e (s i) h.0) ∙ p, λ j. c j ∙ k j)

  others :
      (i j : ℕ) (is : List ℕ) (s s' : Store A)
      → member j (i ∷ is) ≡ false
      → (member j is ≡ false → s' j ≡ put i (shut (s i)) s j)
      → s' j ≡ s j
  unfolding member
  others i j is s s' m c = elim (Bool-cases (i == j)) [
    | inl t ↦ ground (arith, t, m)
    | inr f ↦ c (ground (arith, f, m)) ∙ put-other i j (shut (s i)) s f
  ]

  closed :
      (i j : ℕ) (is : List ℕ) (s s' : Store A)
      → All (λ (k : ℕ). (i == k) ≡ false) is
      → member j (i ∷ is) ≡ true
      → (member j is ≡ false → s' j ≡ put i (shut (s i)) s j)
      → (member j is ≡ true → (s' j).is_closed ≡ true)
      → (s' j).is_closed ≡ true
  unfolding member shut
  closed i j is s s' d m c t = elim (Bool-cases (i == j)) [
    | inl q ↦ ap (λ (x : Channel A). x.is_closed) (c (member-distinct i j is d q)) ∙ rw q refl
    | inr q ↦ t (ground (arith, q, m))
  ]

  -- Every channel of the list is closed once, and no other.
  pub close_all-IsOpen :
      (is : List ℕ) (s : Store A)
      → IsDistinct is
      → IsOpen is s
      → (s' : Store A) × (close_all is s ≡ some s')
        × ((j : ℕ) → member j is ≡ false → s' j ≡ s j)
        × ((j : ℕ) → member j is ≡ true → (s' j).is_closed ≡ true)
  unfolding close_all member
  close_all-IsOpen [] s d h = (s, refl, (λ j m. refl), λ j m. cc)
  close_all-IsOpen (i ∷ is) s d h =
      let s1 : Store A = put i (shut (s i)) s in
      let (s', p, c, t) = close_all-IsOpen is s1 d.1 (IsOpen-put i is (shut (s i)) s d.0 h.1) in
      (
        s',
        each-cons close i is s (close-open (s i) h.0) ∙ p,
        (λ j m. others i j is s s' m (c j)),
        λ j m. closed i j is s s' d.0 m (c j) (t j),
      )
