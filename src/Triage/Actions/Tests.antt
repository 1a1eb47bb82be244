-- ===== src/Triage/Actions/Tests.antt =====
-- A capture of one reject, and a search that finalizes on it.
use net_cortex.Prelude.{
  ℕ, String, true, Option, none, some, List, [], ◌∷◌, ◌≡◌, refl, ◌⊎◌, if◌then◌else◌, ◌==◌,
  string_eq, nat_eq, pair_eq, option_eq, starts_with, ends_with,
}
use net_cortex.Prelude.Dict
use net_cortex.Prelude.Results.{ok, raise}
use net_cortex.Triage.Search.Run
use net_cortex.Triage.Search.Run.{SearchResult, run}
use net_cortex.Triage.Search.Tests.{naturals}
use net_cortex.Triage.Actions
use net_cortex.Triage.Actions.{Episode, DecodedCapture, Tools, execute_action, lats_searcher}
use net_cortex.Triage.Actions.Cited.{IsAccepted, run-IsAccepted}

abbrev capture : DecodedCapture
capture = record {
  flows =
      ((record {
        ngap = some "DownlinkNASTransport";
        nas = some "5GMMRegistrationReject";
        nas_inner = none;
        ts = some 7000;
        nas_cause = some 3;
      })
        ∷ [])
      ∷ [];
  unassociated = [];
  n4 = [];
  sbi = [];
}

abbrev reject : Episode
reject = record {
  incident_type = "registration_reject";
  narrative = "The UE is not allowed.";
  cited_evidence =
      (record { message = "5GMMRegistrationReject"; cause = some 3; ts = some 7400 }) ∷ [];
  created_at = 0;
}

abbrev tools : Tools
tools = record {
  strip = λ s. s;
  strip_quotes = λ s. s;
  rstrip_colons = λ s. s;
  lower = λ s. s;
  validate = λ s. if s == "it" then ok reject else raise "no JSON";
  inspect = λ c s. "a reject";
  topology = λ c. "";
  spec = λ s. "";
  memory = λ s. "";
}

finalizes : (execute_action tools capture "finalize it").1 ≡ some reject
unfolding execute_action Actions.parse_action Actions.split_tool Actions.partition
    Actions.unbracketed Actions.execute_tool Actions.finalize Actions.finalize_with Actions.judged
    Actions.grounded_evidence Actions.is_grounded Actions.message_inventory Actions.add_flows
    Actions.add_n2 Actions.add_name Actions.add_unassociated Actions.add_n4 Actions.add_sbi Dict.put
    string_eq nat_eq pair_eq option_eq starts_with ends_with
finalizes = refl

abbrev proposes : String → String → ℕ → Option (List String)
proposes objective trajectory n = some ("finalize it" ∷ [])

abbrev scores : String → String → Option (ℕ × String)
scores objective trajectory = some (1, "complete")

abbrev found : SearchResult Episode ℕ
found = Run.searched (lats_searcher tools capture naturals proposes scores 1 3) "why" (
    Run.rollouts_from (lats_searcher tools capture naturals proposes scores 1 3) "why" true 1 1 0
      (Run.root (lats_searcher tools capture naturals proposes scores 1 3) "why"))

is_found :
    run (lats_searcher tools capture naturals proposes scores 1 3) "why" 1 1 true ≡ some found
unfolding run
is_found = refl

run-IsAccepted_example :
    (found.episode ≡ none)
    ⊎ ((e : Episode) × (found.episode ≡ some e)
        × (action : String) × IsAccepted tools capture action e)
run-IsAccepted_example =
    run-IsAccepted tools capture naturals proposes scores 1 3 "why" 1 1 true found is_found
