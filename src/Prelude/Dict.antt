-- ===== src/Prelude/Dict.antt =====
-- Python's dict: an association list in insertion order. Proofs elsewhere go by the laws.
use Prim.Native.Nat.{ℕ, ◌+◌}
use mathlib.Core.Path.{◌≡◌, refl, sym, ap, ◌∙◌, subst, subst₂}
use mathlib.Core.Logic.{ite, inl, inr, ◌≢◌}
use mathlib.Core.Bool.{true, false}
use mathlib.Core.Option.{Option, none, some, some-injective}
use mathlib.Core.List.{List, [], ◌∷◌, ◌++◌, map}
use native.Mathlib.Omega.{arith}
use net_cortex.Prelude.Tests.{if◌then◌else◌, Bool-cases}
use net_cortex.Prelude.Equality.{Eq, ◌==◌}
use net_cortex.Prelude.Lists.{All, Pairwise, sum}

abbrev pub Dict {ℓ κ} : Type ℓ → Type κ → Type (ℓ ⊔ κ)
Dict K V = List (K × V)

unfoldable pub values {ℓ κ} : {K : Type ℓ} {V : Type κ} → Dict K V → List V
values [] = []
values ((k, v) ∷ d) = v ∷ values d

module _ {ℓ κ} {K : Type ℓ} {V : Type κ} ⦃e : Eq K⦄ where
  -- `d.get(k)`
  unfoldable pub get : K → Dict K V → Option V
  get k [] = none
  get k ((j, v) ∷ d) = let rest = get k d in if k == j then some v else rest

  -- `d[k] = v`: in place, or at the end
  unfoldable pub put : K → V → Dict K V → Dict K V
  put k v [] = (k, v) ∷ []
  put k v ((j, w) ∷ d) = let rest = put k v d in if k == j then (j, v) ∷ d else (j, w) ∷ rest

  -- `d.pop(k, None)`, whose value is `get k d`
  unfoldable pub pop : K → Dict K V → Dict K V
  pop k [] = []
  pop k ((j, w) ∷ d) = let rest = pop k d in if k == j then rest else (j, w) ∷ rest

  pub get-put :
      (j k : K) (v : V) (d : Dict K V) → get j (put k v d) ≡ (if j == k then some v else get j d)
  unfolding get put
  get-put j k v [] = ground arith
  get-put j k v ((i, w) ∷ d) = ground (arith, get-put j k v d)

  pub get-put_same : (k : K) (v : V) (d : Dict K V) → get k (put k v d) ≡ some v
  get-put_same k v d = ground (arith, get-put k k v d)

  pub get-pop : (j k : K) (d : Dict K V) → get j (pop k d) ≡ (if j == k then none else get j d)
  unfolding get pop
  get-pop j k [] = ground arith
  get-pop j k ((i, w) ∷ d) = ground (arith, get-pop j k d)

pub get-nil {ℓ κ} : {K : Type ℓ} {V : Type κ} ⦃e : Eq K⦄ (k : K) → get {V = V} k [] ≡ none
unfolding get
get-nil k = refl

module _ {ℓ κ} {K : Type ℓ} {V : Type κ} ⦃e : Eq K⦄ where
  pub put-put : (k : K) (u v : V) (d : Dict K V) → put k v (put k u d) ≡ put k v d
  unfolding put
  put-put k u v [] = ground arith
  put-put k u v ((j, w) ∷ d) = ground (arith, put-put k u v d)

  pub values-put_new :
      (k : K) (v : V) (d : Dict K V) → get k d ≡ none → values (put k v d) ≡ values d ++ v ∷ []
  unfolding get put values
  values-put_new k v [] h = refl
  values-put_new k v ((j, w) ∷ d) h = ground (arith, values-put_new k v d)

  -- a write under a key that is there changes no other value
  pub map-values-put {μ} :
      {B : Type μ} (f : V → B) (k : K) (u v : V) (d : Dict K V)
      → get k d ≡ some u
      → f v ≡ f u
      → map f (values (put k v d)) ≡ map f (values d)
  unfolding get put values
  map-values-put f k u v [] h q = cc
  map-values-put f k u v ((j, w) ∷ d) h q = elim (Bool-cases (k == j)) [
    | inl same ↦
        rw same
          (ap (λ b. b ∷ map f (values d)) (q ∙ ap f (sym (some-injective w u (rw same at h)))))
    | inr other ↦ rw other (ap (◌∷◌ (f w)) (map-values-put f k u v d (rw other at h) q))
  ]

  pub sum-values-put :
      (g : V → ℕ) (k : K) (u v : V) (d : Dict K V)
      → get k d ≡ some u
      → sum (map g (values (put k v d))) + g u ≡ sum (map g (values d)) + g v
  unfolding get put values
  sum-values-put g k u v [] h = cc
  sum-values-put g k u v ((j, w) ∷ d) h = elim (Bool-cases (k == j)) [
    | inl same ↦ rw same (omega (arith, ap g (some-injective w u (rw same at h))))
    | inr other ↦ rw other (omega (arith, sum-values-put g k u v d (rw other at h)))
  ]

  abbrev pub NodupKeys : Dict K V → Type κ
  NodupKeys [] = Unit
  NodupKeys ((k, _) ∷ d) = (get k d ≡ none) × NodupKeys d

  pub put-NodupKeys : (k : K) (v : V) (d : Dict K V) → NodupKeys d → NodupKeys (put k v d)
  unfolding put
  put-NodupKeys k v [] h = (get-nil k, tt)
  put-NodupKeys k v ((j, w) ∷ d) (fresh, h) = elim (Bool-cases (k == j)) [
    | inl same ↦ rw same (fresh, h)
    | inr other ↦ rw other (ground (arith, get-put j k v d), put-NodupKeys k v d h)
  ]

module _ {ℓ κ μ} {K : Type ℓ} {V : Type κ} where
  -- every entry of the dict satisfies `P`
  abbrev pub AllEntries : (K → V → Type μ) → Dict K V → Type μ
  AllEntries P [] = Unit
  AllEntries P ((k, v) ∷ d) = P k v × AllEntries P d

  abbrev pub AllValues : (V → Type μ) → Dict K V → Type μ
  AllValues P = AllEntries (λ _ v. P v)

  pub All-values : (P : V → Type μ) (d : Dict K V) → AllValues P d → All P (values d)
  unfolding values
  All-values P [] h = tt
  All-values P ((k, v) ∷ d) (p, h) = (p, All-values P d h)

module _ {ℓ κ μ ν} {K : Type ℓ} {V : Type κ} (P : K → V → Type μ) (Q : K → V → Type ν) where
  pub AllEntries-mono :
      ((k : K) (v : V) → P k v → Q k v) → (d : Dict K V) → AllEntries P d → AllEntries Q d
  AllEntries-mono f [] h = tt
  AllEntries-mono f ((k, v) ∷ d) (p, h) = (f k v p, AllEntries-mono f d h)

module _ {ℓ κ μ} {K : Type ℓ} {V : Type κ} ⦃e : Eq K⦄ (P : K → V → Type μ) where
  pub AllEntries-put :
      (k : K) (v : V) (d : Dict K V) → P k v → AllEntries P d → AllEntries P (put k v d)
  unfolding put
  AllEntries-put k v [] p h = (p, tt)
  AllEntries-put k v ((j, w) ∷ d) p (q, h) =
      elim (e.dec k j)
        as (λ t. AllEntries P (if ite t true false then (j, v) ∷ d else (j, w) ∷ put k v d)) [
          | yes same ↦ (subst (λ i. P i v) same p, h)
          | no other ↦ (q, AllEntries-put k v d p h)
        ]

  pub AllEntries-pop : (k : K) (d : Dict K V) → AllEntries P d → AllEntries P (pop k d)
  unfolding pop
  AllEntries-pop k [] h = tt
  AllEntries-pop k ((j, w) ∷ d) (q, h) = elim (Bool-cases (k == j)) [
    | inl same ↦ rw same (AllEntries-pop k d h)
    | inr other ↦ rw other (q, AllEntries-pop k d h)
  ]

  pub AllEntries-get : (k : K) (v : V) (d : Dict K V) → get k d ≡ some v → AllEntries P d → P k v
  unfolding get
  AllEntries-get k v [] g h = absurd (cc)
  AllEntries-get k v ((j, w) ∷ d) g (q, h) = go (λ g'. AllEntries-get k v d g' h) (e.dec k j) g
    where
      go :
          (get k d ≡ some v → P k v)
          → (t : Dec (k ≡ j)) → (if ite t true false then some w else get k d) ≡ some v
          → P k v
      go rest (yes same) g' = subst₂ P (sym same) (some-injective w v g') q
      go rest (no other) g' = rest g'

module _ {ℓ κ μ} {K : Type ℓ} {V : Type κ} ⦃e : Eq K⦄ (P : K → V → Type μ) where
  -- what holds of every lookup holds of every entry
  pub AllEntries-of-get :
      (d : Dict K V) → NodupKeys d → ((k : K) (v : V) → get k d ≡ some v → P k v) → AllEntries P d
  unfolding get
  AllEntries-of-get [] n h = tt
  AllEntries-of-get ((j, w) ∷ d) (fresh, n) h =
      (h j w (ground arith), AllEntries-of-get d n (λ k v g. h k v (later k v g)))
    where
      later : (k : K) (v : V) → get k d ≡ some v → (if k == j then some w else get k d) ≡ some v
      later k v g = ground arith

module _ {ℓ κ} {K : Type ℓ} {V : Type κ} ⦃e : Eq K⦄ where
  keys_ne_of_get-none : (k : K) (d : Dict K V) → get k d ≡ none → AllEntries (λ j _. k ≢ j) d
  unfolding get
  keys_ne_of_get-none k [] h = tt
  keys_ne_of_get-none k ((j, w) ∷ d) h = elim (Bool-cases (k == j)) [
    | inl same ↦ absurd (ground arith)
    | inr other ↦ (λ q. ground arith, keys_ne_of_get-none k d (rw other at h))
  ]

module _ {ℓ κ} {K : Type ℓ} {V : Type κ} ⦃e : Eq K⦄ (f : V → K) where
  keyed_values_ne :
      (k : K) (d : Dict K V)
      → AllEntries (λ j _. k ≢ j) d
      → AllEntries (λ j v. j ≡ f v) d
      → All (λ v. k ≢ f v) (values d)
  unfolding values
  keyed_values_ne k [] h q = tt
  keyed_values_ne k ((j, w) ∷ d) (n, h) (p, q) = (λ r. n (r ∙ sym p), keyed_values_ne k d h q)

  -- values that are stored under the keys that they give differ in these
  pub values-Pairwise_ne :
      (d : Dict K V)
      → NodupKeys d
      → AllEntries (λ j v. j ≡ f v) d
      → Pairwise (λ u v. f u ≢ f v) (values d)
  unfolding values
  values-Pairwise_ne [] h q = tt
  values-Pairwise_ne ((j, w) ∷ d) (fresh, h) (p, q) = (
    subst (λ k. All (λ v. k ≢ f v) (values d)) p
        (keyed_values_ne j d (keys_ne_of_get-none j d fresh) q),
    values-Pairwise_ne d h q,
  )

module _ {ℓ κ μ ν} {K : Type ℓ} {V : Type κ} ⦃e : Eq K⦄ (P : K → V → Type μ) (Q : K → V → Type ν)
    (k : K) (f : (j : K) (v : V) → (k == j) ≡ false → P j v → Q j v) where
  -- the entries that a pop leaves have other keys
  pub AllEntries-popped : (d : Dict K V) → AllEntries P d → AllEntries Q (pop k d)
  unfolding pop
  AllEntries-popped [] h = tt
  AllEntries-popped ((j, v) ∷ d) (p, h) = elim (Bool-cases (k == j)) [
    | inl same ↦ rw same (AllEntries-popped d h)
    | inr other ↦ rw other (f j v other p, AllEntries-popped d h)
  ]

  -- so have all entries where the key is missing
  pub AllEntries-absent : (d : Dict K V) → get k d ≡ none → AllEntries P d → AllEntries Q d
  unfolding get
  AllEntries-absent [] g h = tt
  AllEntries-absent ((j, v) ∷ d) g (p, h) = elim (Bool-cases (k == j)) [
    | inl same ↦ absurd (cc (rw same at g))
    | inr other ↦ (f j v other p, AllEntries-absent d (rw other at g) h)
  ]

pub pop-NodupKeys {ℓ κ} :
    {K : Type ℓ} {V : Type κ} ⦃e : Eq K⦄ (k : K) (d : Dict K V) → NodupKeys d → NodupKeys (pop k d)
unfolding pop
pop-NodupKeys k [] h = tt
pop-NodupKeys k ((j, v) ∷ d) (fresh, h) = elim (Bool-cases (k == j)) [
  | inl same ↦ rw same (pop-NodupKeys k d h)
  | inr other ↦ rw other (ground (arith, get-pop j k d, fresh), pop-NodupKeys k d h)
]
