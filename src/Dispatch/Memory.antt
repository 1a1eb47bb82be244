-- ===== src/Dispatch/Memory.antt =====
-- memory.py: the Episode of a decided incident, and what its validation asks of the values.
pub mod Store
pub mod Context
use net_cortex.Prelude.{
  ℕ, String, Bool, true, false, ◌&&◌, Option, none, some, List, [], ◌∷◌, ◌++◌, all, if◌then◌else◌,
  truthy,
}
use net_cortex.Prelude.Json.{Json, Fields, null, bool, num, str, arr, obj, end, field}
use net_cortex.Dispatch.Evidence.{EvidenceItem}

pub record Episode : Type 0 where
  pub incident_id : String
  pub procedure : Option String
  pub scenario : Option String
  pub evidence_keys : List (String × Json)
  pub causes : List String
  pub action : Option String
  pub args : Option Fields
  pub narrative : String
  pub justification : Option String
  pub decision : String
  pub outcome : Option String
  pub outcome_evidence : Option String
  pub created_at : ℕ

-- `str | int | float`, for which a Boolean is the integer 0 or 1
abbrev pub is_scalar : Json → Bool
is_scalar (str s) = true
is_scalar (num n) = true
is_scalar (bool b) = true
is_scalar null = false
is_scalar (arr xs) = false
is_scalar (obj fields) = false

abbrev pub is_text : Json → Bool
is_text (str s) = true
is_text (num n) = false
is_text (bool b) = false
is_text null = false
is_text (arr xs) = false
is_text (obj fields) = false

unfoldable pub all_values : (Json → Bool) → Fields → Bool
all_values p end = true
all_values p (field key value rest) = p value && all_values p rest

-- `dict[str, str] | None`
unfoldable pub args_valid : Option Fields → Bool
unfolding all_values
args_valid none = true
args_valid (some args) = all_values is_text args

-- `str | int | float`: of the values that pydantic accepts, it takes a bool for an int
unfoldable pub key_value : Json → Json
key_value (bool b) = if b then num 1 else num 0
key_value (str s) = str s
key_value (num n) = num n
key_value null = null
key_value (arr xs) = arr xs
key_value (obj fields) = obj fields

unfoldable pub key_pairs : Fields → List (String × Json)
unfolding key_value
key_pairs end = []
key_pairs (field key value rest) = (key, key_value value) ∷ key_pairs rest

-- the keys of every evidence item, in order
unfoldable pub evidence_pairs : List EvidenceItem → List (String × Json)
unfolding key_pairs
evidence_pairs [] = []
evidence_pairs (item ∷ items) = key_pairs item.keys ++ evidence_pairs items

unfoldable pub causes_of : List EvidenceItem → List String
causes_of [] = []
causes_of (item ∷ items) = caused item.cause (causes_of items)
  where
    caused : Option String → List String → List String
    caused none rest = rest
    caused (some cause) rest = if truthy (some cause) then cause ∷ rest else rest

-- the validation of an Episode; its decision is one of the three that the graph writes
unfoldable pub episode_valid : Episode → Bool
unfolding args_valid
episode_valid e = all (λ pair. is_scalar pair.1) e.evidence_keys && args_valid e.args
