-- ===== src/Prelude/Json.antt =====
-- The values that `json.loads` returns. A JSON number is a natural number here: the sources only
-- test whether a value is one.
use Prim.Native.Nat.{ℕ}
use Prim.Native.String.{String}
use mathlib.Core.Bool.{Bool}
use native.Mathlib.Decide.{ℕ_discrete}
use mathlib.Core.Option.{Option, none, some}
use net_cortex.Prelude.Tests.{if◌then◌else◌}
use net_cortex.Prelude.Equality.{Eq, ◌==◌, string_eq}

mutual
  pub data Json : Type 0 where
    null : Json
    bool : Bool → Json
    num : ℕ → Json
    str : String → Json
    arr : Items → Json
    obj : Fields → Json

  pub data Items : Type 0 where
    nil : Items
    cons : Json → Items → Items

  pub data Fields : Type 0 where
    end : Fields
    field : String → Json → Fields → Fields

-- `d[key]`, or nothing where the key is missing
unfoldable pub lookup : String → Fields → Option Json
lookup key end = none
lookup key (field name value rest) =
    let later = lookup key rest in if key == name then some value else later

-- `d.get(key)`: a missing key gives None, as null does
unfoldable pub get : String → Fields → Json
get key end = null
get key (field name value rest) = let later = get key rest in if key == name then value else later

string_discrete : Discrete String
unfolding string_eq
string_discrete = string_eq.dec

Json-discrete : Discrete Json
Json-discrete = hlevel (ℕ_discrete, string_discrete)

instance unfoldable pub json_eq : Eq Json
unfolding Json-discrete string_discrete
json_eq = record { dec = Json-discrete }
