-- ===== src/Dispatch/Runbook/Bound.antt =====
-- bind_placeholders of runbook.py: the args that it returns.
use net_cortex.Prelude.{
  ℕ, Bool, String, Option, none, some, List, ◌≡◌, refl, subst, Option-cases, inl, inr, arith,
}
use net_cortex.Prelude.Json
use net_cortex.Prelude.Json.{Json, Fields, null, bool, num, str, arr, obj, end, field}
use net_cortex.Prelude.Results.{ok, >>=-eq-ok}
use net_cortex.Dispatch.Evidence.{EvidenceItem}
use net_cortex.Dispatch.Runbook.{first_value, bind_name, bind_value, bind_placeholders}

module _ (placeholder : String → Option String) (evidence : List EvidenceItem) where
  -- a placeholder's value is that of the first item with its key; any other value is untouched
  pub data IsValue : Json → Json → Type 0 where
    literal : (s : String) → placeholder s ≡ none → IsValue (str s) (str s)
    filled :
        (s name : String) (v : Json)
        → placeholder s ≡ some name
        → first_value name evidence ≡ some v
        → IsValue (str s) v
    null_kept : IsValue null null
    bool_kept : (b : Bool) → IsValue (bool b) (bool b)
    num_kept : (n : ℕ) → IsValue (num n) (num n)
    arr_kept : (xs : Json.Items) → IsValue (arr xs) (arr xs)
    obj_kept : (fs : Fields) → IsValue (obj fs) (obj fs)

  pub data AreBound : Fields → Fields → Type 0 where
    done : AreBound end end
    more :
        (key : String) (v w : Json) (rest others : Fields)
        → IsValue v w
        → AreBound rest others
        → AreBound (field key v rest) (field key w others)

  bind_name-IsValue :
      (s : String) (o : Option String) (v : Json)
      → placeholder s ≡ o
      → bind_name s evidence o ≡ ok v
      → IsValue (str s) v
  unfolding bind_name
  bind_name-IsValue s none v p h = subst (IsValue (str s)) (ground arith) (literal s p)
  bind_name-IsValue s (some name) v p h = elim (Option-cases (first_value name evidence)) [
    | inl missing ↦ absurd (ground (arith, rw missing at h))
    | inr (w, found) ↦ filled s name v p (ground (arith, found, rw found at h))
  ]

  bind_value-IsValue : (j v : Json) → bind_value placeholder evidence j ≡ ok v → IsValue j v
  unfolding bind_value
  bind_value-IsValue (str s) v h = bind_name-IsValue s (placeholder s) v refl h
  bind_value-IsValue null v h = subst (IsValue null) (ground arith) null_kept
  bind_value-IsValue (bool b) v h = subst (IsValue (bool b)) (ground arith) (bool_kept b)
  bind_value-IsValue (num n) v h = subst (IsValue (num n)) (ground arith) (num_kept n)
  bind_value-IsValue (arr xs) v h = subst (IsValue (arr xs)) (ground arith) (arr_kept xs)
  bind_value-IsValue (obj fs) v h = subst (IsValue (obj fs)) (ground arith) (obj_kept fs)

  -- The args that are bound have the keys of the given ones, in order. A placeholder has become the
  -- value of the first evidence item that has its key, and every other value is as it was.
  pub bind_placeholders-AreBound :
      (args bound : Fields)
      → bind_placeholders placeholder evidence args ≡ ok bound
      → AreBound args bound
  unfolding bind_placeholders
  bind_placeholders-AreBound end bound h = subst (AreBound end) (ground arith) done
  bind_placeholders-AreBound (field key v rest) bound h =
      let (w, value, h1) = >>=-eq-ok (bind_value placeholder evidence v) _ bound h in
      let (others, remain, h2) =
        >>=-eq-ok (bind_placeholders placeholder evidence rest) _ bound h1 in
      subst (AreBound (field key v rest)) (ground (arith, h2)) (
        more key v w rest others (bind_value-IsValue v w value)
          (bind_placeholders-AreBound rest others remain))
