-- ===== src/Common/Latest.antt =====
-- Which element of a list is kept when each one takes the place of the one before if it is newer.
use mathlib.Core.Path.{◌≡◌, refl, sym, ap, subst, ◌∙◌}
use mathlib.Core.Logic.{inl, inr}
use mathlib.Core.Option.{Option, none, some, some-injective}
use mathlib.Core.List.{List, [], ◌∷◌, ◌++◌}
use mathlib.Core.Bool.{Bool, true, false}
use mcsm.Common.Tests.{if◌then◌else◌, Bool-cases}
use mcsm.Common.Lists.{All}

-- `newer a b`: the second is newer than the first.
module _ {A : Type 0} (newer : A → A → Bool) where
  abbrev pub Beats : A → A → Type 0
  Beats a b = newer a b ≡ true

  abbrev pub Stays : A → A → Type 0
  Stays a b = newer a b ≡ false

  abbrev pub BeatsFirst : Option A → A → Type 0
  BeatsFirst none b = Unit
  BeatsFirst (some a) b = Beats a b

  -- None if there is none; the first one if none of the others is newer; else the first of the newest among
  -- the others, newer than the first one.
  pub data Kept (first : Option A) (others : List A) (kept : Option A) : Type 0 where
    nowhere : first ≡ none → others ≡ [] → kept ≡ none → Kept first others kept
    first_kept :
        (a : A) → first ≡ some a → All (Stays a) others → kept ≡ some a → Kept first others kept
    other_kept :
        (a : A) (before after : List A)
        → others ≡ before ++ (a ∷ after)
        → BeatsFirst first a
        → All (λ x. Beats x a) before
        → All (Stays a) after
        → kept ≡ some a
        → Kept first others kept

  unfoldable pub choose : Option A → A → Option A
  choose none b = some b
  choose (some a) b = if newer a b then some b else some a

  unfoldable pub choose_all : Option A → List A → Option A
  unfolding choose
  choose_all o [] = o
  choose_all o (b ∷ bs) = choose_all (choose o b) bs

  pub choose_all-append :
      (o : Option A) (xs ys : List A) → choose_all o (xs ++ ys) ≡ choose_all (choose_all o xs) ys
  unfolding choose_all
  choose_all-append o [] ys = refl
  choose_all-append o (x ∷ xs) ys = choose_all-append (choose o x) xs ys

  module _ (trans : (a b c : A) → Beats a b → Beats b c → Beats a c)
      (over : (a b c : A) → Stays a b → Beats a c → Beats b c) where
    BeatsFirst-trans : (o : Option A) (b c : A) → BeatsFirst o b → Beats b c → BeatsFirst o c
    BeatsFirst-trans none b c h k = tt
    BeatsFirst-trans (some a) b c h k = trans a b c h k

    -- An element that takes the place of the first one.
    Kept-taken :
        (o : Option A) (b : A) (bs : List A) (r : Option A)
        → BeatsFirst o b
        → Kept (some b) bs r
        → Kept o (b ∷ bs) r
    Kept-taken o b bs r h (nowhere n e k) = cc
    Kept-taken o b bs r h (first_kept v e k l) =
        other_kept b [] bs refl h tt (subst (λ x. All (Stays x) bs) (sym (some-injective _ _ e)) k)
          (l ∙ sym e)
    Kept-taken o b bs r h (other_kept v before after e f k l q) =
        other_kept v (b ∷ before) after (ap (◌∷◌ b) e) (BeatsFirst-trans o b v h f) (f, k) l q

    -- One that does not.
    Kept-left :
        (a b : A) (bs : List A) (r : Option A)
        → Stays a b
        → Kept (some a) bs r
        → Kept (some a) (b ∷ bs) r
    Kept-left a b bs r h (nowhere n e k) = cc
    Kept-left a b bs r h (first_kept v e k l) =
        first_kept a refl (h, subst (λ x. All (Stays x) bs) (sym (some-injective _ _ e)) k)
          (l ∙ sym e)
    Kept-left a b bs r h (other_kept v before after e f k l q) =
        other_kept v (b ∷ before) after (ap (◌∷◌ b) e) f (over a b v h f, k) l q

    pub choose_all-Kept : (o : Option A) (bs : List A) → Kept o bs (choose_all o bs)
    unfolding choose_all choose
    choose_all-Kept none [] = nowhere refl refl refl
    choose_all-Kept (some a) [] = first_kept a refl tt refl
    choose_all-Kept none (b ∷ bs) = Kept-taken none b bs _ tt (choose_all-Kept (some b) bs)
    choose_all-Kept (some a) (b ∷ bs) = elim (Bool-cases (newer a b)) [
      | inl t ↦ rw t (Kept-taken (some a) b bs _ t (choose_all-Kept (some b) bs))
      | inr f ↦ rw f (Kept-left a b bs _ f (choose_all-Kept (some a) bs))
    ]
