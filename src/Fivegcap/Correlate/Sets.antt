-- ===== src/Fivegcap/Correlate/Sets.antt =====
-- Sets of flow ids, and the dicts of such sets.
use net_cortex.Prelude.{
  ℕ, true, false, ◌&&◌, ◌||◌, ◌≡◌, refl, ap, ◌∙◌, some, List, [], ◌∷◌, ◌++◌, if◌then◌else◌, ◌==◌,
  Eq, nat_eq, string_eq, option_eq, pair_eq, contains, arith, Bool-cases, inl, inr, ◌⊎◌, ==_iff,
}
use net_cortex.Prelude.Dict
use net_cortex.Prelude.Dict.{Dict, get-put, get-nil, NodupKeys, put-NodupKeys}
use net_cortex.Fivegcap.Correlate.{list_or_empty, add_to_set, claim}

abbrev pub IsDistinct : List ℕ → Type 0
IsDistinct [] = Unit
IsDistinct (x ∷ xs) = (contains xs x ≡ false) × IsDistinct xs

pub contains-append :
    (xs : List ℕ) (x y : ℕ) → contains (xs ++ x ∷ []) y ≡ (contains xs y || y == x)
contains-append [] x y = ground arith
contains-append (a ∷ xs) x y = ground (arith, contains-append xs x y)

pub contains-add_to_set :
    (x : ℕ) (xs : List ℕ) (y : ℕ) → contains (add_to_set x xs) y ≡ (contains xs y || y == x)
contains-add_to_set x xs y = elim (Bool-cases (contains xs x)) [
  | inl e ↦ rw e (member e (Bool-cases (y == x)))
  | inr e ↦ rw e (contains-append xs x y)
]
  where
    member :
        contains xs x ≡ true
        → ((y == x) ≡ true) ⊎ ((y == x) ≡ false)
        → contains xs y ≡ (contains xs y || y == x)
    member e (inl q) = rw ((==_iff y x).0 q) (rw e)
    member e (inr q) = ground arith

append-IsDistinct :
    (xs : List ℕ) (x : ℕ) → contains xs x ≡ false → IsDistinct xs → IsDistinct (xs ++ x ∷ [])
append-IsDistinct [] x h d = (refl, tt)
append-IsDistinct (a ∷ xs) x h (fresh, d) =
    (contains-append xs x a ∙ ground arith, append-IsDistinct xs x (ground arith) d)

pub add_to_set-IsDistinct : (x : ℕ) (xs : List ℕ) → IsDistinct xs → IsDistinct (add_to_set x xs)
add_to_set-IsDistinct x xs d = elim (Bool-cases (contains xs x)) [
  | inl e ↦ rw e d
  | inr e ↦ rw e (append-IsDistinct xs x e d)
]

-- a set with one member, which is the only one
pub singleton_of :
    (xs : List ℕ) (x : ℕ)
    → IsDistinct xs
    → contains xs x ≡ true
    → ((y : ℕ) → contains xs y ≡ true → y ≡ x)
    → xs ≡ x ∷ []
singleton_of [] x d h only = cc
singleton_of (a ∷ []) x d h only = ground (arith, only a)
singleton_of (a ∷ b ∷ xs) x d h only = ground (arith, only a, only b)

module _ {K : Type 0} ⦃e : Eq K⦄ where
  abbrev pub set_of : K → Dict K (List ℕ) → List ℕ
  set_of k claims = list_or_empty (Dict.get k claims)

  set_of-claim :
      (j k : K) (fid : ℕ) (d : Dict K (List ℕ))
      → set_of j (claim k fid d) ≡ (if j == k then add_to_set fid (set_of k d) else set_of j d)
  unfolding claim
  set_of-claim j k fid d = ground (arith, get-put j k (add_to_set fid (set_of k d)) d)

  pub contains-claim :
      (j k : K) (fid x : ℕ) (d : Dict K (List ℕ))
      → contains (set_of j (claim k fid d)) x ≡ (contains (set_of j d) x || (x == fid && j == k))
  contains-claim j k fid x d =
      ap (λ s. contains s x) (set_of-claim j k fid d)
      ∙ ground (arith, contains-add_to_set fid (set_of k d) x)

  -- every set has no repetition, and no key stands twice
  abbrev pub IsClaims : Dict K (List ℕ) → Type 0
  IsClaims d = NodupKeys d × ((k : K) → IsDistinct (set_of k d))

  pub claim-IsClaims :
      (k : K) (fid : ℕ) (d : Dict K (List ℕ)) → IsClaims d → IsClaims (claim k fid d)
  unfolding claim
  claim-IsClaims k fid d (n, h) = (
    put-NodupKeys k _ d n,
    λ j. rw (get-put j k (add_to_set fid (set_of k d)) d) (chosen j (Bool-cases (j == k))),
  )
    where
      chosen :
          (j : K)
          → ((j == k) ≡ true) ⊎ ((j == k) ≡ false)
          → IsDistinct
              (list_or_empty (if j == k then some (add_to_set fid (set_of k d)) else Dict.get j d))
      chosen j (inl q) = rw q (add_to_set-IsDistinct fid (set_of k d) (h k))
      chosen j (inr q) = rw q (h j)
