-- ===== src/Base/Sort.antt =====
-- `sorted(xs, key=...)`: a stable sort by a total preorder that is given as a Boolean test.
use Prim.Native.Nat.{ℕ, zero, suc}
use mathlib.Core.Path.{◌≡◌, refl, ap, sym, subst}
use mathlib.Core.Logic.{◌⊎◌, inl, inr}
use mathlib.Core.Bool.{Bool, true, false}
use mathlib.Core.List.{List, [], ◌∷◌, ◌++◌, Perm}
use mathlib.Core.List.Perm
use estate_flow.Base.Tests.{if◌then◌else◌, Bool-cases}
use estate_flow.Base.Lists.{All, take, length, All-take}

module _ {ℓ} {A : Type ℓ} (le : A → A → Bool) where
  -- Equal elements keep their order: `x` goes in front of the elements that it does not exceed.
  unfoldable pub insert : A → List A → List A
  insert x [] = x ∷ []
  insert x (y ∷ ys) = if le x y then x ∷ y ∷ ys else y ∷ insert x ys

  unfoldable pub sort_by : List A → List A
  unfolding insert
  sort_by [] = []
  sort_by (x ∷ xs) = insert x (sort_by xs)

  insert-perm : (x : A) (ys : List A) → Perm (insert x ys) (x ∷ ys)
  unfolding insert
  insert-perm x [] = Perm.refl _
  insert-perm x (y ∷ ys) = elim (Bool-cases (le x y)) [
    | inl e ↦ rw e (Perm.refl _)
    | inr e ↦ rw e (Perm.trans (Perm.cons y (insert-perm x ys)) (Perm.swap x y ys))
  ]

  pub sort_by-perm : (xs : List A) → Perm (sort_by xs) xs
  unfolding sort_by
  sort_by-perm [] = Perm.refl _
  sort_by-perm (x ∷ xs) = Perm.trans (insert-perm x (sort_by xs)) (Perm.cons x (sort_by-perm xs))

  -- Every element is at most each one behind it.
  abbrev pub IsSorted : List A → Type ℓ
  IsSorted [] = Unit
  IsSorted (x ∷ xs) = All (λ y. le x y ≡ true) xs × IsSorted xs

module _ {ℓ κ} {A : Type ℓ} (le : A → A → Bool) (P : A → Type κ) where
  All-insert : (x : A) (ys : List A) → P x → All P ys → All P (insert le x ys)
  unfolding insert
  All-insert x [] p h = (p, tt)
  All-insert x (y ∷ ys) p h = elim (Bool-cases (le x y)) [
    | inl e ↦ rw e (p, (h.0, h.1))
    | inr e ↦ rw e (h.0, All-insert x ys p h.1)
  ]

  pub All-sort_by : (xs : List A) → All P xs → All P (sort_by le xs)
  unfolding sort_by
  All-sort_by [] h = tt
  All-sort_by (x ∷ xs) h = All-insert x (sort_by le xs) h.0 (All-sort_by xs h.1)

-- What a sort key must give: a total preorder.
pub record IsOrder {ℓ} {A : Type ℓ} (le : A → A → Bool) : Type ℓ where
  pub total : (x y : A) → le x y ≡ false → le y x ≡ true
  pub trans : (x y z : A) → le x y ≡ true → le y z ≡ true → le x z ≡ true

module _ {ℓ} {A : Type ℓ} (le : A → A → Bool) (o : IsOrder le) where
  below-All :
      (x y : A) (zs : List A)
      → le x y ≡ true
      → All (λ z. le y z ≡ true) zs
      → All (λ z. le x z ≡ true) zs
  below-All x y [] e h = tt
  below-All x y (z ∷ zs) e h = (o.trans x y z e h.0, below-All x y zs e h.1)

  IsSorted-insert : (x : A) (ys : List A) → IsSorted le ys → IsSorted le (insert le x ys)
  unfolding insert
  IsSorted-insert x [] h = (tt, tt)
  IsSorted-insert x (y ∷ ys) h = elim (Bool-cases (le x y)) [
    | inl e ↦ rw e ((e, below-All x y ys e h.0), h)
    | inr e ↦
        rw e (All-insert le (λ z. le y z ≡ true) x ys (o.total x y e) h.0, IsSorted-insert x ys h.1)
  ]

  pub sort_by-IsSorted : (xs : List A) → IsSorted le (sort_by le xs)
  unfolding sort_by
  sort_by-IsSorted [] = tt
  sort_by-IsSorted (x ∷ xs) = IsSorted-insert x (sort_by le xs) (sort_by-IsSorted xs)

-- A sort by `le` is in order for a coarser order too.
module _ {ℓ} {A : Type ℓ} (le coarse : A → A → Bool)
    (above : (x y : A) → le x y ≡ true → coarse x y ≡ true)
    (below : (x y : A) → le x y ≡ false → coarse y x ≡ true)
    (trans : (x y z : A) → coarse x y ≡ true → coarse y z ≡ true → coarse x z ≡ true) where
  All-trans :
      (x y : A) (zs : List A)
      → coarse x y ≡ true
      → All (λ z. coarse y z ≡ true) zs
      → All (λ z. coarse x z ≡ true) zs
  All-trans x y [] e h = tt
  All-trans x y (z ∷ zs) e h = (trans x y z e h.0, All-trans x y zs e h.1)

  insert-IsSorted_for :
      (x : A) (ys : List A) → IsSorted coarse ys → IsSorted coarse (insert le x ys)
  unfolding insert
  insert-IsSorted_for x [] h = (tt, tt)
  insert-IsSorted_for x (y ∷ ys) h = elim (Bool-cases (le x y)) [
    | inl e ↦ rw e ((above x y e, All-trans x y ys (above x y e) h.0), h)
    | inr e ↦ rw e (
      All-insert le (λ z. coarse y z ≡ true) x ys (below x y e) h.0,
      insert-IsSorted_for x ys h.1,
    )
  ]

  pub sort_by-IsSorted_for : (xs : List A) → IsSorted coarse (sort_by le xs)
  unfolding sort_by
  sort_by-IsSorted_for [] = tt
  sort_by-IsSorted_for (x ∷ xs) = insert-IsSorted_for x (sort_by le xs) (sort_by-IsSorted_for xs)

pub IsSorted-take {ℓ} :
    {A : Type ℓ} (le : A → A → Bool) (n : ℕ) (xs : List A)
    → IsSorted le xs
    → IsSorted le (take n xs)
IsSorted-take le zero xs h = tt
IsSorted-take le (suc n) [] h = tt
IsSorted-take le (suc n) (x ∷ xs) h =
    (All-take (λ y. le x y ≡ true) n xs h.0, IsSorted-take le n xs h.1)

All-append-right {ℓ κ} :
    {A : Type ℓ} (P : A → Type κ) (xs ys : List A) → All P (xs ++ ys) → All P ys
All-append-right P [] ys h = h
All-append-right P (x ∷ xs) ys h = All-append-right P xs ys h.1

-- What `take` leaves of a sorted list: nothing, unless as many as wanted are taken, and nothing that
-- should stand in front of what is taken.
pub IsSorted-split {ℓ} :
    {A : Type ℓ} (le : A → A → Bool) (n : ℕ) (xs : List A)
    → IsSorted le xs
    → (rest : List A) × (take n xs ++ rest ≡ xs)
      × All (λ a. All (λ b. le a b ≡ true) rest) (take n xs)
      × ((rest ≡ []) ⊎ (length (take n xs) ≡ n))
IsSorted-split le zero xs h = (xs, refl, tt, inr refl)
IsSorted-split le (suc n) [] h = ([], refl, tt, inl refl)
IsSorted-split le (suc n) (x ∷ xs) h =
    let (rest, whole, ahead, full) = IsSorted-split le n xs h.1 in
    (
      rest,
      ap (λ ys. x ∷ ys) whole,
      (
        All-append-right (λ y. le x y ≡ true) (take n xs) rest
            (subst (All (λ y. le x y ≡ true)) (sym whole) h.0),
        ahead,
      ),
      elim full [ inl e ↦ inl e | inr e ↦ inr (ap suc e) ],
    )

-- The order of a list of keys compares the first, and the next where the first are equal.
abbrev pub then_by : Bool → Bool → Bool → Bool
then_by lt eq rest = if lt then true else if eq then rest else false
