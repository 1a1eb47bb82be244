-- ===== src/Dispatch/Memory/Context/Tests.antt =====
-- One Episode of the same procedure and with a shared key.
use net_cortex.Prelude.{ℕ, ◌≤◌, none, some, List, [], ◌∷◌, ◌≡◌, ◌⊎◌, All, length, join}
use net_cortex.Prelude.Json.{str}
use net_cortex.Prelude.Ranking.{IsRanking, take_three}
use net_cortex.Dispatch.Examples.{spell_text, event, item}
use net_cortex.Dispatch.Memory.{Episode}
use net_cortex.Dispatch.Memory.Context.{relevance, context_heading, episode_lines, memory_context}
use net_cortex.Dispatch.Memory.Context.Relevant.{created, memory_context-IsRelevant}

abbrev past : Episode
past = record {
  incident_id = "i0";
  procedure = some "Registration";
  scenario = none;
  evidence_keys = ("nf", str "smf") ∷ [];
  causes = [];
  action = none;
  args = none;
  narrative = "slow";
  justification = none;
  decision = "rejected";
  outcome = none;
  outcome_evidence = none;
  created_at = 0;
}

memory_context-IsRelevant_example :
    let score = relevance spell_text event (item ∷ []) in
    let context = memory_context spell_text (λ n. "") (past ∷ []) event (item ∷ []) in
    (All (λ e. score e ≤ 1) (past ∷ []) × (context ≡ ""))
    ⊎ ((p : ℕ × Episode) × (rest : List (ℕ × Episode)) × IsRanking score created
          (past ∷ [])
          (p ∷ rest)
        × (context
            ≡ join "\n" (
                context_heading (length (p ∷ rest)) 1
                ∷ episode_lines spell_text (λ n. "") 1 (take_three (p ∷ rest)))))
memory_context-IsRelevant_example =
    memory_context-IsRelevant spell_text (λ n. "") (past ∷ []) event (item ∷ [])
