-- ===== src/Dispatch/Evidence.antt =====
-- evidence.py and the texts of an incident: the Alarm event and the evidence items. A timestamp is a
-- number of ticks, and the values of an item's keys are JSON values; the field `kpi` is `kpi_values`.
use net_cortex.Prelude.{ℕ, String, Bool, true, false, Option, none, some, List, [], ◌∷◌}
use net_cortex.Prelude.Dict.{Dict}
use net_cortex.Prelude.Json.{Json, Fields, null, bool, num, str, arr, obj, end, field}
use net_cortex.Dispatch.Correlation.{Keyed}

pub data Source : Type 0 where
  pcap log kpi : Source

pub record EvidenceItem : Type 0 where
  pub source : Source
  pub kind : String
  pub ts : ℕ
  pub entry : String
  pub cause : Option String
  pub endpoints : Option (List String)
  pub keys : Fields
  pub citation : String
  pub line : Option String

pub record AlarmEvent : Type 0 where
  pub incident_id : String
  pub detected_at : ℕ
  pub source : String
  pub procedure : Option String
  pub start : ℕ
  pub end : ℕ
  pub description : String
  pub kpi_values : Option Fields
  pub captures : Option Fields

-- a value that is not None
unfoldable pub present : Json → Option Json
present null = none
present (bool b) = some (bool b)
present (num n) = some (num n)
present (str s) = some (str s)
present (arr xs) = some (arr xs)
present (obj fields) = some (obj fields)

-- a list and a dict have no hash
unfoldable pub is_hashable : Json → Bool
is_hashable null = true
is_hashable (bool b) = true
is_hashable (num n) = true
is_hashable (str s) = true
is_hashable (arr xs) = false
is_hashable (obj fields) = false

unfoldable pub keys_of : Fields → Dict String (Option Json)
unfolding present
keys_of end = []
keys_of (field name value rest) = (name, present value) ∷ keys_of rest

-- what the correlation reads of an item
unfoldable pub keyed : EvidenceItem → Keyed Json
unfolding keys_of
keyed item = record { ts = item.ts; keys = keys_of item.keys }
