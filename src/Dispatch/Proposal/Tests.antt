-- ===== src/Dispatch/Proposal/Tests.antt =====
-- The language model selects a restart of the network function that the evidence names.
use net_cortex.Prelude.{none, some, [], ◌∷◌, ◌≡◌, refl, ◌==◌, string_eq, if◌then◌else◌}
use net_cortex.Prelude.Json
use net_cortex.Prelude.Json.{Json, Fields, str, obj, end, field}
use net_cortex.Dispatch.Executor.{Selection}
use net_cortex.Dispatch.Examples.{spell_text, event, item}
use net_cortex.Dispatch.Runbook
use net_cortex.Dispatch.Proposal
use net_cortex.Dispatch.Proposal.{Proposing, run_proposal, incident_text}
use net_cortex.Dispatch.Proposal.Valid.{IsValid, run_proposal-IsValid}

abbrev selection : Json
selection = obj (
    field "action" (str "restart_nf") (
      field "args" (obj (field "nf" (str "{nf}") end))
        (field "justification" (str "it is slow") end)))

abbrev proposing : Proposing
proposing = record {
  spell = spell_text;
  dumps = λ fs. "{}";
  placeholder = λ s. if s == "{nf}" then some "nf" else none;
  runbooks = [];
  proposer = λ incident root_cause. some selection;
}

abbrev restart_smf : Selection
restart_smf = record {
  action = "restart_nf";
  args = field "nf" (str "smf") end;
  justification = "it is slow";
}

restarts_smf : run_proposal proposing event "" (item ∷ []) ≡ some restart_smf
unfolding run_proposal Proposal.selected Proposal.chosen_selection Proposal.when_bound
    Proposal.action_of Proposal.args_of Proposal.justification_of Runbook.bind_placeholders
    Runbook.bind_value Runbook.bind_name Runbook.first_value Json.get Json.lookup string_eq
restarts_smf = refl

run_proposal-IsValid_example :
    (fields given : Fields) × (some selection ≡ some (obj fields))
    × (Json.get "args" fields ≡ obj given)
    × IsValid proposing.placeholder (item ∷ []) given restart_smf
run_proposal-IsValid_example =
    run_proposal-IsValid proposing event "" (item ∷ []) restart_smf restarts_smf
