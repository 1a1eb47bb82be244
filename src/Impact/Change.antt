-- ===== src/Impact/Change.antt =====
-- change.py: the Change record, parsed from JSON and written back.
pub mod RoundTrip
use net_cortex.Prelude.{
  String, Bool, true, false, ◌&&◌, not, Option, none, some, List, [], ◌∷◌, if◌then◌else◌, ◌==◌, Eq,
  string_eq, concat,
}
use net_cortex.Prelude.Json
use net_cortex.Prelude.Json.{Json, Fields, null, bool, num, str, arr, obj, end, field}

pub data ChangeType : Type 0 where
  upgrade config : ChangeType

change_type_dec : Discrete ChangeType
change_type_dec = hlevel

instance unfoldable pub change_type_eq : Eq ChangeType
unfolding change_type_dec
change_type_eq = record { dec = change_type_dec }

-- `ChangeType.value`
abbrev pub type_value : ChangeType → String
type_value upgrade = "upgrade"
type_value config = "config"

abbrev pub failed_outcomes : List String
failed_outcomes = "rejected" ∷ "rolled-back" ∷ []

pub record Change : Type 0 where
  pub type : ChangeType
  pub target : String
  pub before : String
  pub after : String

unfoldable pub describe : Change → String
describe c = concat (type_value c.type ∷ " " ∷ c.target ∷ " " ∷ c.before ∷ " → " ∷ c.after ∷ [])

-- The messages of `ChangeError`.
pub data ChangeError : Type 0 where
  not_an_object : ChangeError
  unknown_type : Json → ChangeError
  needs_target : ChangeType → String → ChangeError
  needs_from : ChangeError
  needs_to : ChangeError

pub data Result (A : Type 0) : Type 0 where
  ok : A → Result A
  raise : ChangeError → Result A

infixl 5 ◌>>=◌
abbrev pub ◌>>=◌ : {A B : Type 0} → Result A → (A → Result B) → Result B
ok a >>= f = f a
raise e >>= f = raise e

-- `ChangeType(value)`
unfoldable pub type_of : Json → Result ChangeType
type_of (str s) =
    if s == "upgrade"
    then ok upgrade
    else if s == "config"
    then ok config
    else raise (unknown_type (str s))
type_of null = raise (unknown_type null)
type_of (bool b) = raise (unknown_type (bool b))
type_of (num n) = raise (unknown_type (num n))
type_of (arr xs) = raise (unknown_type (arr xs))
type_of (obj fs) = raise (unknown_type (obj fs))

-- `_target_label`
abbrev pub target_label : ChangeType → String
target_label upgrade = "nf"
target_label config = "key"

-- a value that must be a non-empty text
unfoldable pub non_empty : ChangeError → Json → Result String
non_empty e (str s) = if s == "" then raise e else ok s
non_empty e null = raise e
non_empty e (bool b) = raise e
non_empty e (num n) = raise e
non_empty e (arr xs) = raise e
non_empty e (obj fs) = raise e

unfoldable pub parse_fields : Fields → Result Change
parse_fields fields = do
  ctype ← type_of (Json.get "type" fields)
  target ←
      non_empty (needs_target ctype (target_label ctype)) (Json.get (target_label ctype) fields)
  before ← non_empty needs_from (Json.get "from" fields)
  after ← non_empty needs_to (Json.get "to" fields)
  ok (record { type = ctype; target = target; before = before; after = after })

unfoldable pub parse_change : Json → Result Change
parse_change (obj fields) = parse_fields fields
parse_change null = raise not_an_object
parse_change (bool b) = raise not_an_object
parse_change (num n) = raise not_an_object
parse_change (str s) = raise not_an_object
parse_change (arr xs) = raise not_an_object

unfoldable pub to_record : Change → Json
to_record c = obj (
    field "type" (str (type_value c.type)) (
      field (target_label c.type) (str c.target)
        (field "from" (str c.before) (field "to" (str c.after) end))))
