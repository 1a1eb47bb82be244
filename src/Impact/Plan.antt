-- ===== src/Impact/Plan.antt =====
-- plan.py: the human's test plan, parsed and placed by the distance of its items to the Change.
-- `strip` is Python's `str.strip`.
pub mod Placed
mod Tests
pub mod Parsed
use net_cortex.Prelude.{
  ℕ, suc, String, Bool, true, false, ◌&&◌, ◌||◌, not, Option, none, some, List, [], ◌∷◌,
  if◌then◌else◌, ◌==◌, nat_eq, string_eq, contains, is_some, leb, length, is_empty, show, concat,
}
use net_cortex.Prelude.Json
use net_cortex.Prelude.Json.{
  Json, Items, Fields, null, bool, num, str, arr, obj, nil, cons, end, field,
}
use net_cortex.Prelude.Sorting.{sort_le}
use net_cortex.Impact.Capture.{BlastResult, Role}
use net_cortex.Impact.Radius.{proximity_of}

pub record PlanItem : Type 0 where
  pub name : String
  pub nf : Option String
  pub kpi : Option String
  pub threshold : Option String

unfoldable pub is_watch_point : PlanItem → Bool
is_watch_point i = is_some i.kpi && is_some i.threshold

pub record PlacedItem : Type 0 where
  pub item : PlanItem
  pub distance : ℕ
  pub index : ℕ

pub record PlanState : Type 0 where
  pub path : Option String
  pub items : List PlanItem
  pub exists : Bool

unfoldable pub plan_describe : PlanState → String
plan_describe p = told p.path
  where
    told : Option String → String
    told none = "not consulted"
    told (some path) =
        if not p.exists
        then concat (path ∷ " does not exist" ∷ [])
        else if is_empty p.items
        then concat (path ∷ " holds no items" ∷ [])
        else if length p.items == 1
        then concat (path ∷ " holds 1 item" ∷ [])
        else concat (path ∷ " holds " ∷ show (length p.items) ∷ " items" ∷ [])

-- The messages of the `ValueError`s; an item's error has its index.
pub data PlanError : Type 0 where
  not_an_object no_items : PlanError
  not_an_item needs_name apart : ℕ → PlanError
  not_text : ℕ → String → PlanError
  unknown_field : ℕ → PlanError

pub data ParseResult (A : Type 0) : Type 0 where
  done : A → ParseResult A
  fail : PlanError → ParseResult A

infixl 5 ◌>>=◌
abbrev pub ◌>>=◌ : {A B : Type 0} → ParseResult A → (A → ParseResult B) → ParseResult B
done a >>= f = f a
fail e >>= f = fail e

abbrev pub plan_fields : List String
plan_fields = "name" ∷ "nf" ∷ "kpi" ∷ "threshold" ∷ []

-- `set(entry) - set(_FIELDS)` is empty
unfoldable pub all_known : Fields → Bool
all_known end = true
all_known (field name value rest) = contains plan_fields name && all_known rest

module _ (strip : String → String) where
  unfoldable pub name_of : ℕ → Json → ParseResult String
  name_of i (str s) = if strip s == "" then fail (needs_name i) else done (strip s)
  name_of i null = fail (needs_name i)
  name_of i (bool b) = fail (needs_name i)
  name_of i (num n) = fail (needs_name i)
  name_of i (arr xs) = fail (needs_name i)
  name_of i (obj fs) = fail (needs_name i)

  -- a text without its spaces, or none
  unfoldable pub text_of : ℕ → String → Json → ParseResult (Option String)
  text_of i label (str s) = done (if strip s == "" then none else some (strip s))
  text_of i label null = done none
  text_of i label (bool b) = fail (not_text i label)
  text_of i label (num n) = fail (not_text i label)
  text_of i label (arr xs) = fail (not_text i label)
  text_of i label (obj fs) = fail (not_text i label)

  abbrev pub together : ℕ → PlanItem → Option String → Option String → ParseResult PlanItem
  together i item none none = done item
  together i item (some k) (some t) = done item
  together i item none (some t) = fail (apart i)
  together i item (some k) none = fail (apart i)

  unfoldable pub parse_fields : ℕ → Fields → ParseResult PlanItem
  parse_fields i fields = do
    name ← name_of i (Json.get "name" fields)
    nf ← text_of i "nf" (Json.get "nf" fields)
    kpi ← text_of i "kpi" (Json.get "kpi" fields)
    threshold ← text_of i "threshold" (Json.get "threshold" fields)
    together i (record { name = name; nf = nf; kpi = kpi; threshold = threshold }) kpi threshold

  unfoldable pub parse_item : ℕ → Json → ParseResult PlanItem
  parse_item i (obj fields) =
      if all_known fields then parse_fields i fields else fail (unknown_field i)
  parse_item i null = fail (not_an_item i)
  parse_item i (bool b) = fail (not_an_item i)
  parse_item i (num n) = fail (not_an_item i)
  parse_item i (str s) = fail (not_an_item i)
  parse_item i (arr xs) = fail (not_an_item i)

  unfoldable pub parse_items : ℕ → Items → ParseResult (List PlanItem)
  parse_items i nil = done []
  parse_items i (cons x xs) = do
    item ← parse_item i x
    items ← parse_items (suc i) xs
    done (item ∷ items)

  unfoldable pub raw_items : Json → ParseResult (List PlanItem)
  raw_items (arr xs) = parse_items 0 xs
  raw_items null = fail no_items
  raw_items (bool b) = fail no_items
  raw_items (num n) = fail no_items
  raw_items (str s) = fail no_items
  raw_items (obj fs) = fail no_items

  unfoldable pub parse_plan : Json → ParseResult (List PlanItem)
  parse_plan (obj fields) = raw_items (Json.get "items" fields)
  parse_plan null = fail not_an_object
  parse_plan (bool b) = fail not_an_object
  parse_plan (num n) = fail not_an_object
  parse_plan (str s) = fail not_an_object
  parse_plan (arr xs) = fail not_an_object

module _ (upper lower : String → String) where
  -- an item at its distance, if it has one
  unfoldable pub place_at : PlanItem → ℕ → Option ℕ → List PlacedItem → List PlacedItem
  place_at item i none placed = placed
  place_at item i (some d) placed = (record { item = item; distance = d; index = i }) ∷ placed

  abbrev pub distance_of : BlastResult → Option String → Option ℕ
  distance_of r none = none
  distance_of r (some nf) = proximity_of upper lower r nf

  unfoldable pub place_all : BlastResult → ℕ → List PlanItem → List PlacedItem
  place_all r i [] = []
  place_all r i (item ∷ items) = place_at item i (distance_of r item.nf) (place_all r (suc i) items)

  -- the order of `(distance, index)`
  abbrev pub placed_le : PlacedItem → PlacedItem → Bool
  placed_le a b =
      if a.distance == b.distance then leb a.index b.index else leb a.distance b.distance

  unfoldable pub placed_items : PlanState → Option BlastResult → List PlacedItem
  placed_items plan none = []
  placed_items plan (some r) =
      if is_some r.target then sort_le placed_le (place_all r 0 plan.items) else []
