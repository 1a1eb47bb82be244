-- ===== src/Prelude/Ranking.antt =====
-- The choice of past cases by a score: those that score at least 2, the greatest score first, and the
-- newest first of one score.
use Prim.Native.Nat.{ℕ, ◌≤◌}
use mathlib.Core.Path.{◌≡◌, refl, ap, subst, ◌∙◌}
use mathlib.Core.Logic.{◌⊎◌, inl, inr}
use mathlib.Core.Bool.{Bool, true}
use mathlib.Core.List.{List, [], ◌∷◌, map, Perm}
use native.Mathlib.Omega.{arith}
use net_cortex.Prelude.Tests.{leb, if◌then◌else◌, Bool-cases}
use net_cortex.Prelude.Equality.{◌==◌, nat_eq}
use net_cortex.Prelude.Lists.{All, Pairwise, filter}
use net_cortex.Prelude.Sorting.{sort_le, sort_le-perm, sort_le-Pairwise, sort_le-cons}

-- `xs[:3]`
abbrev pub take_three {ℓ} : {A : Type ℓ} → List A → List A
take_three [] = []
take_three (x ∷ []) = x ∷ []
take_three (x ∷ y ∷ []) = x ∷ y ∷ []
take_three (x ∷ y ∷ z ∷ rest) = x ∷ y ∷ z ∷ []

-- the cases that score at least 2, with their scores
abbrev pub scored_two : {A : Type 0} → (A → ℕ) → List A → List (ℕ × A)
scored_two score xs = map (λ x. (score x, x)) (filter (λ x. leb 2 (score x)) xs)

module _ {A : Type 0} (score time : A → ℕ) where
  unfoldable pub relevant : List A → List (ℕ × A)
  relevant [] = []
  relevant (x ∷ xs) =
      let rest = relevant xs in if leb 2 (score x) then (score x, x) ∷ rest else rest

  -- `key=lambda pair: (pair[0], pair[1].created_at), reverse=True`
  abbrev pub recent_le : ℕ × A → ℕ × A → Bool
  recent_le x y = if x.0 == y.0 then leb (time y.1) (time x.1) else leb y.0 x.0

  unfoldable pub most_relevant : List A → List (ℕ × A)
  unfolding relevant
  most_relevant xs = sort_le recent_le (relevant xs)

  relevant-scored_two : (xs : List A) → relevant xs ≡ scored_two score xs
  unfolding relevant
  relevant-scored_two [] = refl
  relevant-scored_two (x ∷ xs) = elim (Bool-cases (leb 2 (score x))) [
    | inl high ↦ rw high (ap (◌∷◌ (score x, x)) (relevant-scored_two xs))
    | inr low ↦ rw low (relevant-scored_two xs)
  ]

  relevant-nil : (xs : List A) → relevant xs ≡ [] → All (λ x. score x ≤ 1) xs
  unfolding relevant
  relevant-nil [] h = tt
  relevant-nil (x ∷ xs) h = elim (Bool-cases (leb 2 (score x))) [
    | inl high ↦ absurd (ground (arith, rw high at h))
    | inr low ↦ (ground (arith, low), relevant-nil xs (rw low at h))
  ]

  -- a list is the cases that score at least 2, each as often as it occurs, the greatest score first
  -- and the newest first of one score
  pub record IsRanking (xs : List A) (ps : List (ℕ × A)) : Type 0 where
    pub same_cases : Perm ps (scored_two score xs)
    pub in_order : Pairwise (λ x y. recent_le x y ≡ true) ps

  most_relevant-IsRanking : (xs : List A) → IsRanking xs (most_relevant xs)
  unfolding most_relevant
  most_relevant-IsRanking xs = record {
    same_cases =
        subst (Perm (sort_le recent_le (relevant xs))) (relevant-scored_two xs)
          (sort_le-perm recent_le (relevant xs));
    in_order =
        sort_le-Pairwise recent_le (λ x y h. ground arith) (λ x y z p q. ground (arith, p, q))
          (relevant xs);
  }

  -- no case scores 2, or the ranking has a first one
  pub most_relevant-cases :
      (xs : List A)
      → (All (λ x. score x ≤ 1) xs × (most_relevant xs ≡ []))
        ⊎ ((p : ℕ × A) × (rest : List (ℕ × A)) × (most_relevant xs ≡ p ∷ rest)
            × IsRanking xs (p ∷ rest))
  unfolding most_relevant sort_le
  most_relevant-cases xs = by_list (relevant xs) refl
    where
      by_list :
          (ps : List (ℕ × A))
          → relevant xs ≡ ps
          → (All (λ x. score x ≤ 1) xs × (most_relevant xs ≡ []))
            ⊎ ((p : ℕ × A) × (rest : List (ℕ × A)) × (most_relevant xs ≡ p ∷ rest)
                × IsRanking xs (p ∷ rest))
      by_list [] h = inl (relevant-nil xs h, ap (sort_le recent_le) h)
      by_list (q ∷ qs) h =
          let (p, rest, first) = sort_le-cons recent_le q qs in
          let same = ap (sort_le recent_le) h ∙ first in
          inr (p, rest, same, subst (IsRanking xs) same (most_relevant-IsRanking xs))
