-- ===== src/Impact/Plan/Parsed.antt =====
-- parse_plan of plan.py: the items that it returns.
use net_cortex.Prelude.{
  ℕ, suc, String, Option, none, some, List, [], ◌∷◌, ◌≡◌, ◌≢◌, string_eq, All, is_some, Bool-cases,
  inl, inr, arith,
}
use net_cortex.Prelude.Json
use net_cortex.Prelude.Json.{Json, Items, Fields, null, bool, num, str, arr, obj, nil, cons}
use net_cortex.Impact.Plan.{
  PlanItem, done, all_known, name_of, text_of, parse_fields, parse_item, parse_items, raw_items,
  parse_plan,
}

abbrev pub IsText : Option String → Type 0
IsText none = Unit
IsText (some s) = s ≢ ""

-- the name is there, no pin is an empty text, and a watch point is whole
pub record IsWellFormed (i : PlanItem) : Type 0 where
  pub named : i.name ≢ ""
  pub pinned : IsText i.nf
  pub watched : IsText i.kpi
  pub bounded : IsText i.threshold
  pub whole : is_some i.kpi ≡ is_some i.threshold

module _ (strip : String → String) where
  name_of-done : (i : ℕ) (j : Json) (s : String) → name_of strip i j ≡ done s → s ≢ ""
  unfolding name_of
  name_of-done i (str t) s h = ground arith
  name_of-done i null s h = cc
  name_of-done i (bool b) s h = cc
  name_of-done i (num n) s h = cc
  name_of-done i (arr xs) s h = cc
  name_of-done i (obj fs) s h = cc

  text_of-IsText :
      (i : ℕ) (l : String) (j : Json) (o : Option String) → text_of strip i l j ≡ done o → IsText o
  unfolding text_of
  text_of-IsText i l j none h = tt
  text_of-IsText i l (str t) (some s) h = ground arith
  text_of-IsText i l null (some s) h = absurd (ground arith)
  text_of-IsText i l (bool b) (some s) h = absurd (ground arith)
  text_of-IsText i l (num n) (some s) h = absurd (ground arith)
  text_of-IsText i l (arr xs) (some s) h = absurd (ground arith)
  text_of-IsText i l (obj fs) (some s) h = absurd (ground arith)

  parts_of :
      (i : ℕ) (fs : Fields) (r : PlanItem)
      → parse_fields strip i fs ≡ done r
      → (name_of strip i (Json.get "name" fs) ≡ done r.name)
        × (text_of strip i "nf" (Json.get "nf" fs) ≡ done r.nf)
        × (text_of strip i "kpi" (Json.get "kpi" fs) ≡ done r.kpi)
        × (text_of strip i "threshold" (Json.get "threshold" fs) ≡ done r.threshold)
        × (is_some r.kpi ≡ is_some r.threshold)
  unfolding parse_fields
  parts_of i fs r h = ground arith

  parse_fields-IsWellFormed :
      (i : ℕ) (fs : Fields) (r : PlanItem) → parse_fields strip i fs ≡ done r → IsWellFormed r
  parse_fields-IsWellFormed i fs r h =
      let (name, nf, kpi, threshold, both) = parts_of i fs r h in
      record {
        named = name_of-done i _ r.name name;
        pinned = text_of-IsText i "nf" _ r.nf nf;
        watched = text_of-IsText i "kpi" _ r.kpi kpi;
        bounded = text_of-IsText i "threshold" _ r.threshold threshold;
        whole = both;
      }

  parse_item-IsWellFormed :
      (i : ℕ) (j : Json) (r : PlanItem) → parse_item strip i j ≡ done r → IsWellFormed r
  unfolding parse_item
  parse_item-IsWellFormed i (obj fs) r h = elim (Bool-cases (all_known fs)) [
    | inl known ↦ parse_fields-IsWellFormed i fs r (rw known at h)
    | inr unknown ↦ absurd (ground (arith, rw unknown at h))
  ]
  parse_item-IsWellFormed i null r h = absurd (ground arith)
  parse_item-IsWellFormed i (bool b) r h = absurd (ground arith)
  parse_item-IsWellFormed i (num n) r h = absurd (ground arith)
  parse_item-IsWellFormed i (str s) r h = absurd (ground arith)
  parse_item-IsWellFormed i (arr xs) r h = absurd (ground arith)

  items_parts :
      (i : ℕ) (x : Json) (xs : Items) (r : PlanItem) (rs : List PlanItem)
      → parse_items strip i (cons x xs) ≡ done (r ∷ rs)
      → (parse_item strip i x ≡ done r) × (parse_items strip (suc i) xs ≡ done rs)
  unfolding parse_items
  items_parts i x xs r rs h = ground arith

  no_more :
      (i : ℕ) (r : PlanItem) (rs : List PlanItem) → parse_items strip i nil ≡ done (r ∷ rs) → ⊥
  unfolding parse_items
  no_more i r rs h = ground arith

  parse_items-IsWellFormed :
      (i : ℕ) (xs : Items) (rs : List PlanItem)
      → parse_items strip i xs ≡ done rs
      → All IsWellFormed rs
  parse_items-IsWellFormed i xs [] h = tt
  parse_items-IsWellFormed i nil (r ∷ rs) h = absurd (no_more i r rs h)
  parse_items-IsWellFormed i (cons x xs) (r ∷ rs) h =
      let (item, items) = items_parts i x xs r rs h in
      (parse_item-IsWellFormed i x r item, parse_items-IsWellFormed (suc i) xs rs items)

  raw_items-IsWellFormed :
      (j : Json) (rs : List PlanItem) → raw_items strip j ≡ done rs → All IsWellFormed rs
  unfolding raw_items
  raw_items-IsWellFormed (arr xs) rs h = parse_items-IsWellFormed 0 xs rs h
  raw_items-IsWellFormed null rs h = absurd (ground arith)
  raw_items-IsWellFormed (bool b) rs h = absurd (ground arith)
  raw_items-IsWellFormed (num n) rs h = absurd (ground arith)
  raw_items-IsWellFormed (str s) rs h = absurd (ground arith)
  raw_items-IsWellFormed (obj fs) rs h = absurd (ground arith)

  -- Every item of a plan that parses has a name, no empty pin or watch text, and a threshold
  -- exactly if it has a KPI.
  pub parse_plan-IsWellFormed :
      (j : Json) (rs : List PlanItem) → parse_plan strip j ≡ done rs → All IsWellFormed rs
  unfolding parse_plan
  parse_plan-IsWellFormed (obj fs) rs h = raw_items-IsWellFormed (Json.get "items" fs) rs h
  parse_plan-IsWellFormed null rs h = absurd (ground arith)
  parse_plan-IsWellFormed (bool b) rs h = absurd (ground arith)
  parse_plan-IsWellFormed (num n) rs h = absurd (ground arith)
  parse_plan-IsWellFormed (str s) rs h = absurd (ground arith)
  parse_plan-IsWellFormed (arr xs) rs h = absurd (ground arith)
