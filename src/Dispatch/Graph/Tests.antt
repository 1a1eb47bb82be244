-- ===== src/Dispatch/Graph/Tests.antt =====
-- An incident whose proposal is to restart the SMF: opened, approved for execution, and rejected.
use net_cortex.Prelude.{
  String, true, none, some, [], ◌∷◌, ◌≡◌, refl, ap, map, ◌≢◌, ◌⊎◌, ◌==◌, ==_iff, if◌then◌else◌,
  string_eq, list_eq, nat_eq, concat, arith,
}
use net_cortex.Prelude.Parts
use net_cortex.Prelude.Dict
use net_cortex.Prelude.Dict.{Dict}
use net_cortex.Prelude.Json
use net_cortex.Prelude.Json.{Json, Fields, json_eq, str, arr, obj, end, field}
use net_cortex.Prelude.Results.{ok, raise}
use net_cortex.Prelude.Sorting.{sort_le}
use net_cortex.Dispatch.Correlation
use net_cortex.Dispatch.Correlation.Hashed.{HasUnhashable}
use net_cortex.Dispatch.Evidence
use net_cortex.Dispatch.Evidence.{EvidenceItem, kpi, keyed, is_hashable}
use net_cortex.Dispatch.Graph
use net_cortex.Dispatch.Examples.{spell_text, sandbox, event, item}
use net_cortex.Dispatch.Executor
use net_cortex.Dispatch.Executor.{Selection, DispatchError, hash_differs, unhashable}
use net_cortex.Dispatch.Record.{Proposal}
use net_cortex.Dispatch.Graph.{Spine, State, World, gathered, run_to_approval, record_text}
use net_cortex.Dispatch.Graph.Gathered.{gathered-real}
use net_cortex.Dispatch.Graph.Proposed.{IsRendered, IsPending, run_to_approval-Rendered}
use net_cortex.Dispatch.Graph.Execution
use net_cortex.Dispatch.Graph.Execution.{
  read_record_hash, commands_of, execute, find_hash, Snapshot, may_resume, approval,
}
use net_cortex.Dispatch.Graph.Guarded.{Permitted, execute-Permitted}
use net_cortex.Dispatch.Graph.Refused.{executed_state, is_remembered, execute-runs}
use net_cortex.Dispatch.Graph.Untouched.{execute-untouched}
use net_cortex.Dispatch.Graph.System
use net_cortex.Dispatch.Graph.System.{
  System, Reached, starts, steps, opens, resumes, opened, resumed, AreTemplates, AllRendered,
  Reached-AreTemplates,
}

-- what the language model selects
abbrev selection : Json
selection = obj (
    field "action" (str "restart_nf") (
      field "args" (obj (field "nf" (str "{nf}") end))
        (field "justification" (str "it is slow") end)))

abbrev spine : Spine
spine = record {
  sandbox = sandbox;
  proposing = record {
    spell = spell_text;
    dumps = λ fs. "{}";
    placeholder = λ s. if s == "{nf}" then some "nf" else none;
    runbooks = [];
    proposer = λ i c. some selection;
  };
  printing = record { spell = spell_text; dumps_sorted = λ fs. "{}"; tick = λ n. "0" };
  run_pcap_agent = λ e. item ∷ [];
  run_kpi_agent = λ e. [];
  run_log_agent = λ e. [];
  run_root_cause = λ e xs ls. "slow";
  digest = λ s. "ab";
  record_file = λ id. id;
  has_episodes = true;
  now = 0;
}

abbrev restart_smf : Selection
restart_smf = record {
  action = "restart_nf";
  args = field "nf" (str "smf") end;
  justification = "it is slow";
}

abbrev restart : Proposal
restart = record {
  selection = restart_smf;
  commands = "docker compose --project-directory /sb/core restart smf" ∷ [];
  hash = "ab";
}

abbrev incident : State
incident = record {
  event = event;
  evidence = item ∷ [];
  links = [];
  root_cause = "slow";
  proposal = some restart;
  record_path = "i1";
  decision = "approve";
  execute = true;
  approval = "pending";
  execution_log = [];
}

abbrev world : World
world = record { files = ("i1", "x\nProposal hash: `ab`\n") ∷ []; ran = []; episodes = [] }

-- the first match decides, also where it is in a text before the hash line
first_hash : find_hash "as `Proposal hash: `00``\nProposal hash: `ab`\n" ≡ some "00"
unfolding find_hash Execution.hash_at Parts.after_prefix Execution.hex_quoted Execution.at_least_one
    string_eq nat_eq
first_hash = refl

hash_intact : read_record_hash "i1" world.files ≡ ok "ab"
unfolding read_record_hash find_hash Execution.hash_at Parts.after_prefix Execution.hex_quoted
    Execution.at_least_one Dict.get string_eq nat_eq
hash_intact = refl

restart-IsRendered : IsRendered spine restart
unfolding Executor.dry_run Executor.render Executor.render_restart Executor.core_services
    Executor.known_text Executor.known_or Json.get string_eq concat
restart-IsRendered = (refl, refl)

gathered-real_example : gathered spine event (record item { source = kpi } ∷ []) ≡ item ∷ []
gathered-real_example =
    gathered-real spine event (record item { source = kpi } ∷ []) (refl, tt) tt tt

run_to_approval-Rendered_example :
    ((key : String) × (v : Json) × (run_to_approval spine event (item ∷ []) (some incident) world
        ≡ raise (unhashable key v))
      × HasUnhashable is_hashable (map keyed (gathered spine event (item ∷ []))) key v)
    ⊎ ((s : State) × (after : World) × (run_to_approval spine event
            (item ∷ [])
            (some incident)
            world
          ≡ ok (s, after))
        × IsPending spine event (item ∷ []) (some incident) world s after)
run_to_approval-Rendered_example =
    run_to_approval-Rendered spine event (item ∷ []) (some incident) world

-- a list in the keys of an item
abbrev listing : EvidenceItem
listing = record item { keys = field "nf" (arr Json.nil) end }

raises_unhashable :
    run_to_approval (record spine { run_pcap_agent = λ e. listing ∷ [] }) event [] none world
    ≡ raise (unhashable "nf" (arr Json.nil))
unfolding run_to_approval Graph.gathered Graph.correlated Graph.proposed_with Graph.replace_evidence
    Correlation.link Correlation.index_from Correlation.index_item Correlation.index_value keyed
    Evidence.keys_of Evidence.present is_hashable
raises_unhashable = refl

execute-Permitted_example :
    ((execute spine incident world).0.ran ≡ [])
    ⊎ Permitted spine incident world (execute spine incident world).0
execute-Permitted_example = execute-Permitted spine incident world

approve-ne-reject : incident.decision ≢ "reject"
unfolding string_eq
approve-ne-reject = λ p. absurd (ground (arith, (==_iff incident.decision "reject").1 p))

execute-runs_example :
    let (after, r) = execute spine incident world in
    let s1 = executed_state spine incident restart in
    (Dict.get "i1" after.files ≡ some (record_text spine s1))
    × (after.ran ≡ commands_of restart)
    × (r ≡ (
        if is_remembered spine s1 "approved-executed"
        then ok s1
        else raise Executor.invalid_episode))
execute-runs_example =
    execute-runs spine incident restart world refl restart-IsRendered hash_intact approve-ne-reject
      refl

-- the record's file holds another hash
abbrev edited : World
edited = record world { files = ("i1", "Proposal hash: `ac`") ∷ [] }

edited_refused : (execute spine incident edited).1 ≡ raise hash_differs
unfolding execute read_record_hash find_hash Execution.hash_at Parts.after_prefix
    Execution.hex_quoted Execution.at_least_one Execution.checked Execution.after_checks Dict.get
    string_eq nat_eq
edited_refused = refl

execute-untouched_example :
    ((execute spine incident edited).0 ≡ edited)
    ⊎ ((hash_differs ≡ Executor.invalid_episode)
        × ((execute spine incident edited).0.episodes ≡ []))
execute-untouched_example = execute-untouched spine edited hash_differs incident edited_refused

abbrev before : System
before = record { checkpoints = []; world = record { files = []; ran = []; episodes = [] } }

abbrev opened_incident : State
opened_incident = Graph.pending spine event (item ∷ []) [] (Graph.thread_values spine event none)

opens_incident : opened spine event (item ∷ []) before ≡ record {
  checkpoints = ("i1", opened_incident) ∷ [];
  world = Graph.write_record spine opened_incident before.world;
}
unfolding opened System.after_opening run_to_approval Graph.gathered Graph.correlated
    Graph.proposed_with Graph.replace_evidence Correlation.link Correlation.links_of
    Correlation.index_from Correlation.index_item Correlation.index_value Correlation.link_values
    Correlation.pair_all Correlation.pair_with Correlation.try_pair keyed Evidence.keys_of
    Evidence.present is_hashable Dict.get Dict.put string_eq nat_eq sort_le
opens_incident = refl

abbrev waiting : Snapshot
waiting = record { next = "approval" ∷ []; has_values = true }

may_approve : may_resume "i1" "approve" waiting ≡ ok tt
unfolding may_resume string_eq
may_approve = refl

abbrev approved_system : System
approved_system =
    resumed spine "i1" (approval "approve" true opened_incident)
      (opened spine event (item ∷ []) before)

approved_system-Reached : Reached spine [] approved_system
unfolding Dict.get string_eq
approved_system-Reached =
    steps (opened spine event (item ∷ []) before) approved_system
      (steps before (opened spine event (item ∷ []) before) starts (opens event (item ∷ [])))
      (resumes "i1" "approve" true waiting opened_incident may_approve
        (ap (λ (c : System). Dict.get "i1" c.checkpoints) opens_incident))

Reached-AreTemplates_example :
    AreTemplates spine approved_system.world.ran × AllRendered spine approved_system
Reached-AreTemplates_example = Reached-AreTemplates spine [] approved_system approved_system-Reached
