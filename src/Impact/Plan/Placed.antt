-- ===== src/Impact/Plan/Placed.antt =====
-- placed_items of plan.py: the order and the origin of what it returns.
use net_cortex.Prelude.{
  ℕ, zero, suc, ◌+◌, String, Bool, true, false, ◌||◌, Option, none, some, List, [], ◌∷◌, ◌≡◌, refl,
  ap, ◌∙◌, ◌==◌, nat_eq, string_eq, All, Pairwise, any, get_elem?, is_some, if_elim, arith,
  some-injective,
}
use net_cortex.Prelude.Sorting.{sort_le, sort_le-All, sort_le-Pairwise, insert_le}
use net_cortex.Impact.Capture.{BlastResult}
use net_cortex.Impact.Plan.{
  PlanItem, PlacedItem, PlanState, place_at, distance_of, place_all, placed_le, placed_items,
}

module _ (upper lower : String → String) where
  placed_le_total :
      (x y : PlacedItem) → placed_le upper lower x y ≡ false → placed_le upper lower y x ≡ true
  placed_le_total x y h = ground arith

  placed_le_trans :
      (x y z : PlacedItem)
      → placed_le upper lower x y ≡ true
      → placed_le upper lower y z ≡ true
      → placed_le upper lower x z ≡ true
  placed_le_trans x y z h k = ground arith

  -- the item stands in the plan at its index, and at its distance from the Change
  abbrev pub IsPlaced : List PlanItem → BlastResult → PlacedItem → Type 0
  IsPlaced items r p =
      (get_elem? items p.index ≡ some p.item)
      × (distance_of upper lower r p.item.nf ≡ some p.distance)

  module _ (plan : List PlanItem) (r : BlastResult) where
    place_at-IsPlaced :
        (item : PlanItem) (i : ℕ) (o : Option ℕ) (placed : List PlacedItem)
        → get_elem? plan i ≡ some item
        → distance_of upper lower r item.nf ≡ o
        → All (IsPlaced plan r) placed
        → All (IsPlaced plan r) (place_at upper lower item i o placed)
    unfolding place_at
    place_at-IsPlaced item i none placed at d h = h
    place_at-IsPlaced item i (some n) placed at d h = ((at, d), h)

    place_all-IsPlaced :
        (i : ℕ) (items : List PlanItem)
        → ((j n : ℕ) → n ≡ i + j → get_elem? plan n ≡ get_elem? items j)
        → All (IsPlaced plan r) (place_all upper lower r i items)
    unfolding place_all
    place_all-IsPlaced i [] at = tt
    place_all-IsPlaced i (item ∷ items) at =
        place_at-IsPlaced item i (distance_of upper lower r item.nf) _ (at 0 i (omega arith)) refl
          (place_all-IsPlaced (suc i) items (λ j n q. at (suc j) n (omega (arith, q))))

  -- The placed items stand in the order of their distances, and within one distance of their places
  -- in the plan; each is the plan's item at its index, at its distance from the Change.
  pub placed_items-IsPlaced :
      (plan : PlanState) (r : BlastResult)
      → Pairwise (λ a b. placed_le upper lower a b ≡ true) (placed_items upper lower plan (some r))
        × All (IsPlaced plan.items r) (placed_items upper lower plan (some r))
  unfolding placed_items
  placed_items-IsPlaced plan r = (
    if_elim (Pairwise (λ a b. placed_le upper lower a b ≡ true)) (is_some r.target) _ _
        (sort_le-Pairwise _ placed_le_total placed_le_trans (place_all upper lower r 0 plan.items))
        tt,
    if_elim (All (IsPlaced plan.items r)) (is_some r.target) _ _
        (sort_le-All _ (IsPlaced plan.items r) _ (
          place_all-IsPlaced plan.items r 0 plan.items
            (λ j n q. ap (get_elem? plan.items) (omega (arith, q)))))
        tt,
  )

  any-insert_le :
      (p : PlacedItem → Bool) (x : PlacedItem) (ys : List PlacedItem)
      → any p (insert_le (placed_le upper lower) x ys) ≡ (p x || any p ys)
  unfolding insert_le
  any-insert_le p x [] = refl
  any-insert_le p x (y ∷ ys) = ground (arith, any-insert_le p x ys)

  any-sort_le :
      (p : PlacedItem → Bool) (xs : List PlacedItem)
      → any p (sort_le (placed_le upper lower) xs) ≡ any p xs
  unfolding sort_le
  any-sort_le p [] = refl
  any-sort_le p (x ∷ xs) = any-insert_le p x _ ∙ ap (λ b. p x || b) (any-sort_le p xs)

  any-place_at :
      (p : PlacedItem → Bool) (item : PlanItem) (i : ℕ) (o : Option ℕ) (xs : List PlacedItem)
      → any p xs ≡ true
      → any p (place_at upper lower item i o xs) ≡ true
  unfolding place_at
  any-place_at p item i none xs h = h
  any-place_at p item i (some d) xs h = ground arith

  any-place_at_own :
      (item : PlanItem) (i n d : ℕ) (o : Option ℕ) (xs : List PlacedItem)
      → o ≡ some d
      → n ≡ i
      → any (λ p. p.index == n) (place_at upper lower item i o xs) ≡ true
  unfolding place_at
  any-place_at_own item i n d none xs e q = absurd (ground arith)
  any-place_at_own item i n d (some k) xs e q = ground arith

  place_all_complete :
      (r : BlastResult) (i : ℕ) (items : List PlanItem) (j n : ℕ) (item : PlanItem) (d : ℕ)
      → get_elem? items j ≡ some item
      → n ≡ i + j
      → distance_of upper lower r item.nf ≡ some d
      → any (λ p. p.index == n) (place_all upper lower r i items) ≡ true
  unfolding place_all
  place_all_complete r i [] j n item d at q near = absurd (ground arith)
  place_all_complete r i (x ∷ items) zero n item d at q near =
      any-place_at_own x i n d _ _
        (ap (λ k. distance_of upper lower r k.nf) (some-injective x item at) ∙ near)
        (omega (arith, q))
  place_all_complete r i (x ∷ items) (suc j) n item d at q near =
      any-place_at _ x i _ _
        (place_all_complete r (suc i) items j n item d at (omega (arith, q)) near)

  -- Where the target is located, every item of the plan that has a distance from the Change is placed.
  pub placed_items_complete :
      (plan : PlanState) (r : BlastResult) (i : ℕ) (item : PlanItem) (d : ℕ)
      → is_some r.target ≡ true
      → get_elem? plan.items i ≡ some item
      → distance_of upper lower r item.nf ≡ some d
      → any (λ p. p.index == i) (placed_items upper lower plan (some r)) ≡ true
  unfolding placed_items
  placed_items_complete plan r i item d located at near = rw located (
      any-sort_le (λ p. p.index == i) _
      ∙ place_all_complete r 0 plan.items i i item d at (omega arith) near)
