-- ===== src/Prelude/Text.antt =====
-- Python's text operations that the sources use.
use Prim.Native.Nat.{ℕ, zero, suc, ◌-◌, ◌/◌, ◌%◌}
use Prim.Native.Char.{code}
use Prim.Native.String.{String, len, slice, compare, ◌++◌}
use mathlib.Core.Path.{◌≡◌, refl}
use mathlib.Core.Bool.{Bool, true, false, not, ◌&&◌}
use mathlib.Core.Option.{Option, none, some}
use mathlib.Core.List.{List, [], ◌∷◌}
use text.Mathlib.Text.{find?, is_le}
use net_cortex.Prelude.Tests.{leb, ltb, if◌then◌else◌}
use net_cortex.Prelude.Equality.{◌==◌, contains, nat_eq, string_eq}

-- `s.endswith(t)`
unfoldable pub ends_with : String → String → Bool
unfolding string_eq
ends_with s t = leb (len t) (len s) && slice s (len s - len t) (len s) == t

-- `bool(o)` of an optional text: the empty text is false too
abbrev pub truthy : Option String → Bool
truthy none = false
truthy (some s) = not (s == "")

-- `o or d`
abbrev pub or_else : Option String → String → String
or_else none d = d
or_else (some s) d = if s == "" then d else s

abbrev pub is_some {ℓ} : {A : Type ℓ} → Option A → Bool
is_some none = false
is_some (some _) = true

-- `t in s`
unfoldable pub has_text : String → String → Bool
has_text s t = is_some (find? s t)

-- `s <= t`, by code points
unfoldable pub text_le : String → String → Bool
text_le s t = is_le (compare s t)

-- `s.split(c, 1)[0]` at a one-character separator
unfoldable pub before_char : ℕ → String → String
before_char sep String.[] = ""
before_char sep (String.◌∷◌ c s) =
    let rest = before_char sep s in if code c == sep then "" else String.◌∷◌ c rest

-- `s[1:]`
unfoldable pub drop_first : String → String
drop_first String.[] = ""
drop_first (String.◌∷◌ c s) = s

-- the parts of an f-string
unfoldable pub concat : List String → String
concat [] = ""
concat (s ∷ ss) = s ++ concat ss

-- `sep.join(xs)`
unfoldable pub join : String → List String → String
join sep [] = ""
join sep (s ∷ []) = s
join sep (s ∷ t ∷ ss) = s ++ (sep ++ join sep (t ∷ ss))

digit : ℕ → String
digit d =
    if ltb d 1
    then "0"
    else if ltb d 2
    then "1"
    else if ltb d 3
    then "2"
    else if ltb d 4
    then "3"
    else if ltb d 5
    then "4"
    else if ltb d 6
    then "5"
    else if ltb d 7
    then "6"
    else if ltb d 8
    then "7"
    else if ltb d 9
    then "8"
    else "9"

show_fuel : ℕ → ℕ → String
show_fuel zero n = ""
show_fuel (suc fuel) n =
    let rest = show_fuel fuel (n / 10) in if ltb n 10 then digit n else rest ++ digit (n % 10)

-- `str(n)`: a number has fewer digits than one more than itself
unfoldable pub show : ℕ → String
unfolding digit show_fuel
show n = show_fuel (suc n) n

show_numbers : concat (show 0 ∷ " " ∷ show 407 ∷ []) ≡ "0 407"
unfolding show concat
show_numbers = refl

-- `s.startswith(t)`
unfoldable pub starts_with : String → String → Bool
unfolding string_eq
starts_with s t = leb (len t) (len s) && slice s 0 (len t) == t

-- `dict.fromkeys(xs)`: each text once, in the order of its first occurrence
unfoldable pub unique_onto : List String → List String → List String
unique_onto seen [] = []
unique_onto seen (x ∷ xs) =
    let rest = unique_onto (x ∷ seen) xs in
    let again = unique_onto seen xs in if contains seen x then again else x ∷ rest

unfoldable pub unique : List String → List String
unfolding unique_onto
unique xs = unique_onto [] xs

-- an optional text in an f-string
unfoldable pub spelled : Option String → String
spelled none = "None"
spelled (some s) = s
