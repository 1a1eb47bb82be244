-- ===== src/Prelude/Sorting.antt =====
-- Python's stable `sort(key=…)` at number keys, as insertion.
use Prim.Native.Nat.{ℕ, ◌≤◌}
use mathlib.Core.Path.{◌≡◌, refl}
use mathlib.Core.Logic.{inl, inr}
use mathlib.Core.Bool.{Bool, true, false, not, ◌&&◌, ◌||◌}
use mathlib.Core.List.{List, [], ◌∷◌, Perm}
use mathlib.Core.List.Perm
use native.Mathlib.Omega.{arith}
use net_cortex.Prelude.Tests.{leb, leb→le, Bool-cases, if◌then◌else◌}
use net_cortex.Prelude.Lists.{All, All-mono, Pairwise}

module _ {ℓ} {A : Type ℓ} (key : A → ℕ) where
  -- before the first element whose key is not smaller
  unfoldable pub insert : A → List A → List A
  insert x [] = x ∷ []
  insert x (y ∷ ys) = let rest = insert x ys in if leb (key x) (key y) then x ∷ y ∷ ys else y ∷ rest

  unfoldable pub sort_by : List A → List A
  unfolding insert
  sort_by [] = []
  sort_by (x ∷ xs) = insert x (sort_by xs)

  abbrev pub IsSorted : List A → Type 0
  IsSorted [] = Unit
  IsSorted (x ∷ xs) = All (λ y. key x ≤ key y) xs × IsSorted xs

  insert-All {κ} : (P : A → Type κ) (x : A) (ys : List A) → P x → All P ys → All P (insert x ys)
  unfolding insert
  insert-All P x [] p h = (p, tt)
  insert-All P x (y ∷ ys) p (q, h) = elim (Bool-cases (leb (key x) (key y))) [
    | inl before ↦ rw before (p, (q, h))
    | inr after ↦ rw after (q, insert-All P x ys p h)
  ]

  pub sort_by-All {κ} : (P : A → Type κ) (xs : List A) → All P xs → All P (sort_by xs)
  unfolding sort_by
  sort_by-All P [] h = tt
  sort_by-All P (x ∷ xs) (p, h) = insert-All P x (sort_by xs) p (sort_by-All P xs h)

  insert-Pairwise {κ} :
      (R : A → A → Type κ) (comm : (a b : A) → R a b → R b a) (x : A) (ys : List A)
      → All (R x) ys
      → Pairwise R ys
      → Pairwise R (insert x ys)
  unfolding insert
  insert-Pairwise R comm x [] p h = (tt, tt)
  insert-Pairwise R comm x (y ∷ ys) (q, p) (below, h) = elim (Bool-cases (leb (key x) (key y))) [
    | inl before ↦ rw before ((q, p), (below, h))
    | inr after ↦
        rw after (insert-All (R y) x ys (comm x y q) below, insert-Pairwise R comm x ys p h)
  ]

  -- what holds of any two elements, whichever comes first, holds after a sort
  pub sort_by-Pairwise {κ} :
      (R : A → A → Type κ) (comm : (a b : A) → R a b → R b a) (xs : List A)
      → Pairwise R xs
      → Pairwise R (sort_by xs)
  unfolding sort_by
  sort_by-Pairwise R comm [] h = tt
  sort_by-Pairwise R comm (x ∷ xs) (p, h) =
      insert-Pairwise R comm x (sort_by xs) (sort_by-All (R x) xs p) (sort_by-Pairwise R comm xs h)

  insert-IsSorted : (x : A) (ys : List A) → IsSorted ys → IsSorted (insert x ys)
  unfolding insert
  insert-IsSorted x [] h = (tt, tt)
  insert-IsSorted x (y ∷ ys) (below, h) = elim (Bool-cases (leb (key x) (key y))) [
    | inl before ↦ rw before (
      (
        leb→le _ _ before,
        All-mono _ _ (λ z (le : key y ≤ key z). omega (arith, leb→le (key x) (key y) before)) ys
            below,
      ),
      (below, h),
    )
    | inr after ↦
        rw after (insert-All (λ z. key y ≤ key z) x ys (ground arith) below, insert-IsSorted x ys h)
  ]

  pub sort_by-IsSorted : (xs : List A) → IsSorted (sort_by xs)
  unfolding sort_by
  sort_by-IsSorted [] = tt
  sort_by-IsSorted (x ∷ xs) = insert-IsSorted x (sort_by xs) (sort_by-IsSorted xs)

  insert-perm : (x : A) (ys : List A) → Perm (insert x ys) (x ∷ ys)
  unfolding insert
  insert-perm x [] = Perm.refl (x ∷ [])
  insert-perm x (y ∷ ys) = elim (Bool-cases (leb (key x) (key y))) [
    | inl before ↦ rw before (Perm.refl (x ∷ y ∷ ys))
    | inr after ↦ rw after (Perm.trans (Perm.cons y (insert-perm x ys)) (Perm.swap x y ys))
  ]

  pub sort_by-perm : (xs : List A) → Perm (sort_by xs) xs
  unfolding sort_by
  sort_by-perm [] = Perm.refl []
  sort_by-perm (x ∷ xs) = Perm.trans (insert-perm x (sort_by xs)) (Perm.cons x (sort_by-perm xs))

module _ {ℓ} {A : Type ℓ} (le : A → A → Bool) where
  -- before the first element that is not smaller
  unfoldable pub insert_le : A → List A → List A
  insert_le x [] = x ∷ []
  insert_le x (y ∷ ys) = let rest = insert_le x ys in if le x y then x ∷ y ∷ ys else y ∷ rest

  -- the stable sort by another order than that of numbers
  unfoldable pub sort_le : List A → List A
  unfolding insert_le
  sort_le [] = []
  sort_le (x ∷ xs) = insert_le x (sort_le xs)

  insert_le-All {κ} :
      (P : A → Type κ) (x : A) (ys : List A) → P x → All P ys → All P (insert_le x ys)
  unfolding insert_le
  insert_le-All P x [] p h = (p, tt)
  insert_le-All P x (y ∷ ys) p (q, h) = elim (Bool-cases (le x y)) [
    | inl before ↦ rw before (p, (q, h))
    | inr after ↦ rw after (q, insert_le-All P x ys p h)
  ]

  pub sort_le-All {κ} : (P : A → Type κ) (xs : List A) → All P xs → All P (sort_le xs)
  unfolding sort_le
  sort_le-All P [] h = tt
  sort_le-All P (x ∷ xs) (p, h) = insert_le-All P x (sort_le xs) p (sort_le-All P xs h)

  insert_le-perm : (x : A) (ys : List A) → Perm (insert_le x ys) (x ∷ ys)
  unfolding insert_le
  insert_le-perm x [] = Perm.refl (x ∷ [])
  insert_le-perm x (y ∷ ys) = elim (Bool-cases (le x y)) [
    | inl before ↦ rw before (Perm.refl (x ∷ y ∷ ys))
    | inr after ↦ rw after (Perm.trans (Perm.cons y (insert_le-perm x ys)) (Perm.swap x y ys))
  ]

  pub sort_le-perm : (xs : List A) → Perm (sort_le xs) xs
  unfolding sort_le
  sort_le-perm [] = Perm.refl []
  sort_le-perm (x ∷ xs) = Perm.trans (insert_le-perm x (sort_le xs)) (Perm.cons x (sort_le-perm xs))

module _ {ℓ} {A : Type ℓ} (le : A → A → Bool) (total : (x y : A) → le x y ≡ false → le y x ≡ true)
    (trans : (x y z : A) → le x y ≡ true → le y z ≡ true → le x z ≡ true) where
  insert_le-Pairwise :
      (x : A) (ys : List A)
      → Pairwise (λ a b. le a b ≡ true) ys
      → Pairwise (λ a b. le a b ≡ true) (insert_le le x ys)
  unfolding insert_le
  insert_le-Pairwise x [] h = (tt, tt)
  insert_le-Pairwise x (y ∷ ys) (below, h) = elim (Bool-cases (le x y)) [
    | inl before ↦
        rw before ((before, All-mono _ _ (λ z q. trans x y z before q) ys below), (below, h))
    | inr after ↦ rw after (
      insert_le-All le (λ z. le y z ≡ true) x ys (total x y after) below,
      insert_le-Pairwise x ys h,
    )
  ]

  -- a total and transitive order puts each element before all that follow
  pub sort_le-Pairwise : (xs : List A) → Pairwise (λ a b. le a b ≡ true) (sort_le le xs)
  unfolding sort_le
  sort_le-Pairwise [] = tt
  sort_le-Pairwise (x ∷ xs) = insert_le-Pairwise x (sort_le le xs) (sort_le-Pairwise xs)

-- an order, and another one of what it holds equal
abbrev pub then_le {ℓ} : {A : Type ℓ} → (A → A → Bool) → (A → A → Bool) → A → A → Bool
then_le le next x y = le x y && (not (le y x) || next x y)

module _ {ℓ} {A : Type ℓ} (le next : A → A → Bool)
    (total : (x y : A) → le x y ≡ false → le y x ≡ true)
    (trans : (x y z : A) → le x y ≡ true → le y z ≡ true → le x z ≡ true) where
  insert_le-stable :
      (x : A) (ys : List A)
      → All (λ y. next x y ≡ true) ys
      → Pairwise (λ a b. then_le le next a b ≡ true) ys
      → Pairwise (λ a b. then_le le next a b ≡ true) (insert_le le x ys)
  unfolding insert_le
  insert_le-stable x [] n h = (tt, tt)
  insert_le-stable x (y ∷ ys) (first, n) (below, h) = elim (Bool-cases (le x y)) [
    | inl before ↦
        rw before ((then_le-of_both x y before first, from_first x y ys before n below), (below, h))
    | inr after ↦ rw after (
      insert_le-All le (λ z. then_le le next y z ≡ true) x ys
          (ground (arith, after, total x y after)) below,
      insert_le-stable x ys n h,
    )
  ]
    where
      then_le-of_both : (a b : A) → le a b ≡ true → next a b ≡ true → then_le le next a b ≡ true
      then_le-of_both a b p q = ground (arith, p, q)

      from_first :
          (x y : A) (zs : List A)
          → le x y ≡ true
          → All (λ z. next x z ≡ true) zs
          → All (λ z. then_le le next y z ≡ true) zs
          → All (λ z. then_le le next x z ≡ true) zs
      from_first x y [] p n b = tt
      from_first x y (z ∷ zs) p (q, n) (r, b) =
          (then_le-of_both x z (trans x y z p (ground (arith, r))) q, from_first x y zs p n b)

  -- a stable sort keeps the earlier order where its own holds two elements equal
  pub sort_le-stable :
      (xs : List A)
      → Pairwise (λ a b. next a b ≡ true) xs
      → Pairwise (λ a b. then_le le next a b ≡ true) (sort_le le xs)
  unfolding sort_le
  sort_le-stable [] h = tt
  sort_le-stable (x ∷ xs) (n, h) =
      insert_le-stable x (sort_le le xs) (sort_le-All le (λ y. next x y ≡ true) xs n)
        (sort_le-stable xs h)

insert_le-cons {ℓ} :
    {A : Type ℓ} (le : A → A → Bool) (x : A) (ys : List A)
    → (p : A) × (rest : List A) × (insert_le le x ys ≡ p ∷ rest)
unfolding insert_le
insert_le-cons le x [] = (x, [], refl)
insert_le-cons le x (y ∷ ys) = elim (Bool-cases (le x y)) [
  | inl before ↦ (x, y ∷ ys, rw before refl)
  | inr after ↦ (y, insert_le le x ys, rw after refl)
]

-- a list with an element has a first one when it is sorted
pub sort_le-cons {ℓ} :
    {A : Type ℓ} (le : A → A → Bool) (x : A) (xs : List A)
    → (p : A) × (rest : List A) × (sort_le le (x ∷ xs) ≡ p ∷ rest)
unfolding sort_le
sort_le-cons le x xs = insert_le-cons le x (sort_le le xs)
