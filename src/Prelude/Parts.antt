-- ===== src/Prelude/Parts.antt =====
-- Python's `t in s` on texts, by the prefixes of what is left of `s`.
use Prim.Native.Char.{code}
use Prim.Native.String.{String, ◌++◌}
use Prim.Native.String.append
use mathlib.Core.Path.{◌≡◌, refl, ap, ◌∙◌}
use mathlib.Core.Bool.{Bool, true, ◌||◌}
use mathlib.Core.Option.{Option, none, some}
use native.Mathlib.Omega.{arith}
use net_cortex.Prelude.Tests.{if◌then◌else◌, if-true}
use net_cortex.Prelude.Equality.{◌==◌, ==_iff, nat_eq}
use net_cortex.Prelude.Text.{is_some}

-- what is left of a text after a prefix
unfoldable pub after_prefix : String → String → Option String
after_prefix String.[] s = some s
after_prefix (String.◌∷◌ p ps) String.[] = none
after_prefix (String.◌∷◌ p ps) (String.◌∷◌ c s) =
    let rest = after_prefix ps s in if code p == code c then rest else none

-- `t in s`
unfoldable pub is_part : String → String → Bool
unfolding after_prefix
is_part t String.[] = is_some (after_prefix t String.[])
is_part t (String.◌∷◌ c s) = is_some (after_prefix t (String.◌∷◌ c s)) || is_part t s

after_prefix-append : (t s : String) → after_prefix t (t ++ s) ≡ some s
unfolding after_prefix
after_prefix-append String.[] s = ap some (append.nil s)
after_prefix-append (String.◌∷◌ c t) s =
    ap (after_prefix (String.◌∷◌ c t)) (append.cons c t s)
    ∙ if-true (code c == code c) _ _ ((==_iff (code c) (code c)).1 refl)
    ∙ after_prefix-append t s

is_part-prefix : (t s : String) → is_some (after_prefix t s) ≡ true → is_part t s ≡ true
unfolding is_part
is_part-prefix t String.[] h = h
is_part-prefix t (String.◌∷◌ c s) h = ground (arith, h)

pub is_part-append_right : (t s : String) → is_part t (t ++ s) ≡ true
is_part-append_right t s = is_part-prefix t (t ++ s) (ap is_some (after_prefix-append t s))

pub is_part-append_left : (t r s : String) → is_part t s ≡ true → is_part t (r ++ s) ≡ true
unfolding is_part
is_part-append_left t String.[] s h = ap (is_part t) (append.nil s) ∙ h
is_part-append_left t (String.◌∷◌ c r) s h =
    ap (is_part t) (append.cons c r s) ∙ ground (arith, is_part-append_left t r s h)
