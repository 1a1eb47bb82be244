-- ===== src/Triage/Objective/Tests.antt =====
-- A past registration reject with the cause of a flow's message.
use net_cortex.Prelude.{
  ℕ, ◌≤◌, none, some, List, [], ◌∷◌, ◌≡◌, ◌⊎◌, All, length, join, nat_eq, string_eq, option_eq,
}
use net_cortex.Prelude.Ranking.{IsRanking, take_three}
use net_cortex.Triage.Actions.{N2Message, Episode}
use net_cortex.Triage.Objective.{
  Incident, similarity, similar_heading, similar_lines, memory_context,
}
use net_cortex.Triage.Objective.Similar.{finalized_at, similar_context-IsRelevant}

abbrev incident : Incident
incident = record {
  flow_id = some 1;
  plane = none;
  procedure = some "Registration";
  shape = none;
  detail = none;
}

abbrev flow : List N2Message
flow =
    (record {
      ngap = none;
      nas = some "5GMMRegistrationReject";
      nas_inner = none;
      ts = some 7;
      nas_cause = some 3;
    })
    ∷ []

abbrev past : Episode
past = record {
  incident_type = "auth_failure";
  narrative = "The UE is not allowed.";
  cited_evidence =
      (record { message = "5GMMRegistrationReject"; cause = some 3; ts = some 7 }) ∷ [];
  created_at = 0;
}

similar_context-IsRelevant_example :
    let score = similarity incident flow in
    let context = memory_context (λ n. "") (past ∷ []) incident flow in
    (All (λ e. score e ≤ 1) (past ∷ []) × (context ≡ ""))
    ⊎ ((p : ℕ × Episode) × (rest : List (ℕ × Episode)) × IsRanking score finalized_at
          (past ∷ [])
          (p ∷ rest)
        × (context
            ≡ join "\n" (
                similar_heading (length (p ∷ rest)) 1
                ∷ similar_lines (λ n. "") 1 (take_three (p ∷ rest)))))
similar_context-IsRelevant_example = similar_context-IsRelevant (λ n. "") (past ∷ []) incident flow
