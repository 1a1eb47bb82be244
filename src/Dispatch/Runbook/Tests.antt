-- ===== src/Dispatch/Runbook/Tests.antt =====
-- A Runbook of one symptom and a placeholder, at an item that has the key.
use net_cortex.Prelude.{
  if◌then◌else◌, String, true, Option, none, some, [], ◌∷◌, ◌≡◌, refl, ◌==◌, ℕ, List, map, Pairwise,
  nat_eq, string_eq, pair_eq,
}
use net_cortex.Prelude.Json
use net_cortex.Prelude.Json.{Json, Fields, str, null, bool, num, arr, obj, end, field}
use net_cortex.Prelude.Ranking.{take_three, scored_two}
use mathlib.Core.List.{Perm}
use net_cortex.Prelude.Results.{ok}
use net_cortex.Dispatch.Runbook
use net_cortex.Dispatch.Runbook.{Runbook, match_runbooks, bind_placeholders}
use net_cortex.Dispatch.Runbook.Matches.{incident_score, ranks_before, match_runbooks-IsScored}
use net_cortex.Dispatch.Runbook.Bound.{AreBound, bind_placeholders-AreBound}
use net_cortex.Dispatch.Examples.{spell_text, event, item}

abbrev slow_smf : Runbook
slow_smf = record {
  slug = "slow-smf";
  title = "The SMF is slow";
  procedure = some "Registration";
  added = none;
  symptoms = field "nf" (str "smf") end;
  steps = "restart it" ∷ [];
  action = "restart_nf";
  args = field "nf" (str "{nf}") end;
}

abbrev placeholder : String → Option String
placeholder s = if s == "{nf}" then some "nf" else none

match_runbooks-IsScored_example :
    (ps : List (ℕ × Runbook)) × (match_runbooks spell_text (slow_smf ∷ []) event (item ∷ [])
      ≡ map (λ p. p.1) (take_three ps))
    × Perm ps (scored_two (incident_score spell_text event (item ∷ [])) (slow_smf ∷ []))
    × Pairwise (λ x y. ranks_before spell_text event (item ∷ []) x y ≡ true) ps
match_runbooks-IsScored_example =
    match_runbooks-IsScored spell_text event (item ∷ []) (slow_smf ∷ [])

bind_nf : bind_placeholders placeholder (item ∷ []) slow_smf.args ≡ ok (field "nf" (str "smf") end)
unfolding bind_placeholders Runbook.bind_value Runbook.bind_name Runbook.first_value Json.lookup
    string_eq
bind_nf = refl

bind_placeholders-AreBound_example :
    AreBound placeholder (item ∷ []) slow_smf.args (field "nf" (str "smf") end)
bind_placeholders-AreBound_example =
    bind_placeholders-AreBound placeholder (item ∷ []) slow_smf.args (field "nf" (str "smf") end)
      bind_nf
