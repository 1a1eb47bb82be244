-- ===== src/Dispatch/Graph.antt =====
-- graph.py: the nodes of an incident up to its pending record. `Spine` holds what the nodes call: the
-- three specialists and the root-cause search (kpi.py, pcap.py, log.py and root_cause.py, which ask
-- other programs and the language model), and the digest of hashlib.
pub mod Execution
pub mod Gathered
pub mod Proposed
pub mod Guarded
pub mod Refused
pub mod Untouched
pub mod System
mod Tests
use net_cortex.Prelude.{
  ℕ, String, Bool, true, false, not, Option, none, some, List, [], ◌∷◌, ◌++◌, map, filter,
  if◌then◌else◌, ◌==◌, string_eq, concat,
}
use net_cortex.Prelude.Dict
use net_cortex.Prelude.Dict.{Dict}
use net_cortex.Prelude.Json.{Json, Fields, json_eq}
use net_cortex.Prelude.Results.{Fallible, ok, raise}
use net_cortex.Dispatch.Evidence.{
  Source, pcap, log, kpi, EvidenceItem, AlarmEvent, keyed, is_hashable,
}
use net_cortex.Dispatch.Correlation.{Link, link}
use net_cortex.Dispatch.Executor.{Sandbox, DispatchError, unhashable, Selection, dry_run}
use net_cortex.Dispatch.Proposal.{Proposing, run_proposal}
use net_cortex.Dispatch.Record.{Printing, Proposal, IncidentRecord, render_record}
use net_cortex.Dispatch.Memory.{Episode}

pub record Spine : Type 0 where
  pub sandbox : Sandbox
  pub proposing : Proposing
  pub printing : Printing
  pub run_pcap_agent : AlarmEvent → List EvidenceItem
  pub run_kpi_agent : AlarmEvent → List EvidenceItem
  pub run_log_agent : AlarmEvent → List EvidenceItem
  pub run_root_cause : AlarmEvent → List EvidenceItem → List (Link Json) → String
  pub digest : Selection → String
  pub record_file : String → String
  -- whether an Episode store is given
  pub has_episodes : Bool
  pub now : ℕ

pub record State : Type 0 where
  pub event : AlarmEvent
  pub evidence : List EvidenceItem
  pub links : List (Link Json)
  pub root_cause : String
  pub proposal : Option Proposal
  pub record_path : String
  pub decision : String
  pub execute : Bool
  pub approval : String
  pub execution_log : List String

-- what the nodes change outside of the state: the records' files, the commands that were run, and
-- the Episodes
pub record World : Type 0 where
  pub files : Dict String String
  pub ran : List String
  pub episodes : List Episode

abbrev pub same_source : Source → Source → Bool
same_source pcap pcap = true
same_source log log = true
same_source kpi kpi = true
same_source pcap log = false
same_source pcap kpi = false
same_source log pcap = false
same_source log kpi = false
same_source kpi pcap = false
same_source kpi log = false

-- `_replace_evidence`
unfoldable pub replace_evidence : Source → List EvidenceItem → List EvidenceItem → List EvidenceItem
replace_evidence source items evidence =
    filter (λ e. not (same_source e.source source)) evidence ++ items

-- the proposal, with its commands and its hash, where the templates accept the selection
unfoldable pub proposed :
    (Selection → String) → Selection → Fallible DispatchError (List String) → Option Proposal
proposed digest s (raise e) = none
proposed digest s (ok commands) =
    some (record { selection = s; commands = commands; hash = digest s })

module _ (spine : Spine) where
  unfoldable pub propose_from : Option Selection → Option Proposal
  unfolding proposed
  propose_from none = none
  propose_from (some s) = proposed spine.digest s (dry_run spine.sandbox s)

  unfoldable pub record_text : State → String
  record_text s = render_record spine.printing (record {
    event = s.event;
    evidence = s.evidence;
    links = s.links;
    root_cause = s.root_cause;
    proposal = s.proposal;
    approval = s.approval;
    execution_log = s.execution_log;
  })

  -- `_write_record`: the state that it leaves, and the files
  unfoldable pub with_log : String → List String → State → State
  with_log approval lines s = record s {
    approval = approval;
    execution_log = s.execution_log ++ lines;
  }

  unfoldable pub write_record : State → World → World
  unfolding record_text
  write_record s w = record w { files = Dict.put s.record_path (record_text s) w.files }

  -- `gather` and the nodes of the three specialists
  unfoldable pub gathered : AlarmEvent → List EvidenceItem → List EvidenceItem
  unfolding replace_evidence
  gathered event stub = replace_evidence log (spine.run_log_agent event) (
      replace_evidence kpi (spine.run_kpi_agent event)
        (replace_evidence pcap (spine.run_pcap_agent event) stub))

  -- the values of a thread: those of its checkpoint, or none where it is new
  unfoldable pub thread_values : AlarmEvent → Option State → State
  thread_values event (some s) = s
  thread_values event none = record {
    event = event;
    evidence = [];
    links = [];
    root_cause = "";
    proposal = none;
    record_path = "";
    decision = "";
    execute = false;
    approval = "";
    execution_log = [];
  }

  -- the state that `propose` leaves: the log of an earlier run of the thread is kept
  unfoldable pub pending : AlarmEvent → List EvidenceItem → List (Link Json) → State → State
  unfolding propose_from with_log
  pending event evidence links values =
      let root_cause = spine.run_root_cause event evidence links in
      with_log "pending" [] (record values {
        event = event;
        evidence = evidence;
        links = links;
        root_cause = root_cause;
        proposal = propose_from (run_proposal spine.proposing event root_cause evidence);
        record_path = spine.record_file event.incident_id;
      })

  -- `correlate`
  unfoldable pub correlated :
      AlarmEvent → List EvidenceItem → Fallible (String × Json) (List (Link Json))
  correlated event evidence = link is_hashable (map keyed evidence) (event.start, event.end)

  -- `investigate` and `propose`, where the evidence could be linked
  unfoldable pub proposed_with :
      AlarmEvent
      → List EvidenceItem
      → State
      → World
      → Fallible (String × Json) (List (Link Json))
      → Fallible DispatchError (State × World)
  unfolding pending write_record
  proposed_with event evidence values w (raise (key, v)) = raise (unhashable key v)
  proposed_with event evidence values w (ok links) =
      let s = pending event evidence links values in ok (s, write_record s w)

  -- `run_to_approval`, up to the interrupt, on the thread of the incident; where it raises, nothing
  -- has been written
  unfoldable pub run_to_approval :
      AlarmEvent → List EvidenceItem → Option State → World → Fallible DispatchError (State × World)
  unfolding gathered thread_values correlated proposed_with
  run_to_approval event stub thread w =
      let evidence = gathered event stub in
      proposed_with event evidence (thread_values event thread) w (correlated event evidence)
