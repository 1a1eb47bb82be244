-- ===== src/Impact/Tests.antt =====
-- The advisory's theorems at a small capture: a gNB, an AMF, an SMF and a UPF, and an upgrade of the UPF.
use net_cortex.Prelude.{
  String, true, none, some, [], ◌∷◌, ◌≡◌, refl, sym, if◌then◌else◌, ◌==◌, string_eq, nat_eq,
  option_eq, ==_iff, All, is_some, has_text, length, starts_with, before_char, drop_first, text_le,
}
use mathlib.Core.Bool.{true≢false}
use net_cortex.Prelude.Dict
use net_cortex.Prelude.Json
use net_cortex.Prelude.Json.{Json, Fields, null, str, obj, field, end}
use net_cortex.Prelude.Sorting.{sort_le, insert_le}
use net_cortex.Impact.Change.{
  Change, upgrade, ok, change_type_eq, parse_change, parse_fields, type_of, non_empty, to_record,
}
use net_cortex.Impact.Change.RoundTrip.{IsComplete, parse_change-to_record, parse_change_sound}
use net_cortex.Impact.Capture
use net_cortex.Impact.Capture.{
  Message, ProcedureEntry, FlowEntry, Plane, CaptureState, Role, n4_message, capture_consulted,
}
use net_cortex.Impact.Radius
use net_cortex.Impact.Radius.{blast_radius, all_messages}
use net_cortex.Impact.Radius.Partners.{AffectedOk, blast_radius-AffectedOk}
use net_cortex.Impact.Radius.Knowledge.{EndsPlaced, blast_radius-EndsPlaced}
use net_cortex.Impact.SpecGraph
use net_cortex.Impact.Criticality
use net_cortex.Impact.Evidence
use net_cortex.Impact.Evidence.{Host, Evidence, StoreState, ReportsState, ChangeRecord}
use net_cortex.Impact.Signals
use net_cortex.Impact.Signals.{low, high}
use net_cortex.Impact.History
use net_cortex.Impact.BlastFactor
use net_cortex.Impact.CriticalFactor
use net_cortex.Impact.Rubric
use net_cortex.Impact.Rubric.{grade}
use net_cortex.Impact.Rubric.Low.{IsQuiet, grade-IsQuiet}
use net_cortex.Impact.Rubric.High.{grade-failed_high}

abbrev upf_upgrade : Change
upf_upgrade = record { type = upgrade; target = "UPF"; before = "1.0"; after = "1.1" }

upf_upgrade-IsComplete : IsComplete upf_upgrade
unfolding string_eq
upf_upgrade-IsComplete = record {
  target = λ p. true≢false (sym ((==_iff "UPF" "").1 p));
  before = λ p. true≢false (sym ((==_iff "1.0" "").1 p));
  after = λ p. true≢false (sym ((==_iff "1.1" "").1 p));
}

parse_change-to_record_example : parse_change (to_record upf_upgrade) ≡ ok upf_upgrade
parse_change-to_record_example = parse_change-to_record upf_upgrade upf_upgrade-IsComplete

upf_parsed : parse_change (to_record upf_upgrade) ≡ ok upf_upgrade
unfolding parse_change parse_fields type_of non_empty to_record Json.get string_eq
upf_parsed = refl

parse_change_sound_example :
    IsComplete upf_upgrade
    × (fields : Fields) × (to_record upf_upgrade ≡ obj fields)
    × (Json.get "type" fields ≡ str "upgrade")
    × (Json.get "nf" fields ≡ str "UPF")
    × (Json.get "from" fields ≡ str "1.0")
    × (Json.get "to" fields ≡ str "1.1")
parse_change_sound_example = parse_change_sound (to_record upf_upgrade) upf_upgrade upf_parsed

abbrev initial_message : Message
initial_message = record {
  name = some "InitialUEMessage";
  src_ip = some "10.0.0.1";
  dst_ip = some "10.0.0.2";
  direction = none;
}

abbrev setup : Message
setup = record {
  name = some "pfcp association setup request";
  src_ip = some "10.0.0.3";
  dst_ip = some "10.0.0.4";
  direction = none;
}

abbrev establishment : ProcedureEntry
establishment = record {
  kind = some "session establishment";
  outcome = some "accept";
  flow_id = none;
}

abbrev lab : CaptureState
lab = record {
  path = some "lab.json";
  flows =
      (record { flow_id = some 1; messages = initial_message ∷ []; procedures = []; sbi_refs = [] })
      ∷ [];
  n4 = record { messages = setup ∷ []; procedures = establishment ∷ [] };
  sbi = record { messages = []; procedures = [] };
  exists = true;
  n4_path = none;
  sbi_path = none;
}

abbrev same : String → String
same s = s

upf_located : is_some (blast_radius same same upf_upgrade lab).target ≡ true
unfolding blast_radius capture_consulted Radius.radius_of Radius.target_of Capture.infer_roles
    Capture.located has_text string_eq Capture.located_flows option_eq Radius.peers_of
    Radius.note_messages all_messages Radius.note_message Radius.note_peer Radius.note_role Dict.get
    Radius.role_by_ip Capture.add Capture.add_ends Capture.add_producers Capture.add_role
    Capture.chosen Capture.is_sbi_family Capture.lower_tail Capture.sbi_role_of Radius.affected_by
    Radius.attribute Radius.attribute_all Radius.attribute_flows Radius.attribute_planes
    Radius.attribute_sbi Radius.attribute_through Radius.attributed Radius.flow_by_id Radius.flow_of
    Radius.names_ip Radius.ref_names_ip Radius.same_role Radius.set_default Dict.put Dict.values
    nat_eq insert_le sort_le before_char drop_first text_le
upf_located = refl

upf_known : (blast_radius same same upf_upgrade lab).unknown_peers ≡ 0
unfolding blast_radius capture_consulted Radius.radius_of Radius.target_of Capture.infer_roles
    Capture.located has_text string_eq Capture.located_flows option_eq Radius.peers_of
    Radius.note_messages all_messages Radius.note_message Radius.note_peer Radius.note_role Dict.get
    Radius.role_by_ip Capture.add Capture.add_ends Capture.add_producers Capture.add_role
    Capture.chosen Capture.is_sbi_family Capture.lower_tail Capture.sbi_role_of Radius.affected_by
    Radius.attribute Radius.attribute_all Radius.attribute_flows Radius.attribute_planes
    Radius.attribute_sbi Radius.attribute_through Radius.attributed Radius.flow_by_id Radius.flow_of
    Radius.names_ip Radius.ref_names_ip Radius.same_role Radius.set_default Dict.put Dict.values
    nat_eq insert_le sort_le before_char drop_first text_le
upf_known = refl

blast_radius-EndsPlaced_example :
    All
      (EndsPlaced same same upf_upgrade lab
        (blast_radius same same upf_upgrade lab).target
        (blast_radius same same upf_upgrade lab).affected)
      (all_messages lab)
blast_radius-EndsPlaced_example =
    blast_radius-EndsPlaced same same upf_upgrade lab upf_located upf_known

blast_radius-AffectedOk_example :
    All
      (AffectedOk same same upf_upgrade lab (blast_radius same same upf_upgrade lab).target)
      (blast_radius same same upf_upgrade lab).affected
blast_radius-AffectedOk_example = blast_radius-AffectedOk same same upf_upgrade lab

-- the UPF's radius is the SMF, which one accepted procedure concerns
upf_radius : length (blast_radius same same upf_upgrade lab).affected ≡ 1
unfolding blast_radius capture_consulted Radius.radius_of Radius.target_of Capture.infer_roles
    Capture.located has_text string_eq Capture.located_flows option_eq Radius.peers_of
    Radius.note_messages all_messages Radius.note_message Radius.note_peer Radius.note_role Dict.get
    Radius.role_by_ip Capture.add Capture.add_ends Capture.add_producers Capture.add_role
    Capture.chosen Capture.is_sbi_family Capture.lower_tail Capture.sbi_role_of Radius.affected_by
    Radius.attribute Radius.attribute_all Radius.attribute_flows Radius.attribute_planes
    Radius.attribute_sbi Radius.attribute_through Radius.attributed Radius.flow_by_id Radius.flow_of
    Radius.names_ip Radius.ref_names_ip Radius.same_role Radius.set_default Dict.put Dict.values
    nat_eq insert_le sort_le before_char drop_first text_le
upf_radius = refl

abbrev pub clear_store : StoreState
clear_store = record { path = some "store.jsonl"; lines = []; exists = true }

-- `loads` reads one line only: the record of a rejected upgrade of the UPF
abbrev failed_line : String
failed_line = "rejected upgrade"

abbrev failed_entry : Json
failed_entry = obj (field "change" (to_record upf_upgrade) (field "outcome" (str "rejected") end))

abbrev pub host : Host
host = record {
  upper = same;
  lower = same;
  collapse = same;
  has_word = λ target line. has_text line target;
  loads = λ line. if line == failed_line then some failed_entry else none;
  spell = λ j. "";
}

abbrev pub evidence_of : StoreState → Evidence
evidence_of history = record {
  history = history;
  triage_episodes = clear_store;
  dispatch_episodes = clear_store;
  reports = record {
    path = some "reports";
    files = [];
    exists = true;
    is_dir = true;
    unreadable = 0;
  };
  capture = lab;
  specgraph = record { path = none; entities = []; edges = []; exists = true };
}

upf_low : (grade host upf_upgrade (evidence_of clear_store)).grade ≡ low
unfolding blast_radius capture_consulted Radius.radius_of Radius.target_of Capture.infer_roles
    Capture.located has_text string_eq Capture.located_flows option_eq Radius.peers_of
    Radius.note_messages all_messages Radius.note_message Radius.note_peer Radius.note_role Dict.get
    Radius.role_by_ip Capture.add Capture.add_ends Capture.add_producers Capture.add_role
    Capture.chosen Capture.is_sbi_family Capture.lower_tail Capture.sbi_role_of Radius.affected_by
    Radius.attribute Radius.attribute_all Radius.attribute_flows Radius.attribute_planes
    Radius.attribute_sbi Radius.attribute_through Radius.attributed Radius.flow_by_id Radius.flow_of
    Radius.names_ip Radius.ref_names_ip Radius.same_role Radius.set_default Dict.put Dict.values
    nat_eq insert_le sort_le before_char drop_first text_le Rubric.grade Rubric.assess_blast
    Rubric.assess_criticality History.assess_history History.assess_found History.failed_record
    History.assess_quiet History.all_consulted History.any_consulted History.is_failed_on
    Evidence.store_consulted Evidence.reports_consulted Evidence.change_records
    Evidence.change_records_from Evidence.triage_episode_mentions Evidence.dispatch_episode_mentions
    Evidence.episode_mentions Evidence.line_mentions Evidence.line_mentions_from
    Evidence.mentions_at Evidence.report_mentions Evidence.report_mentions_in
    BlastFactor.assess_radius BlastFactor.known_count CriticalFactor.assess_hits
    Criticality.capture_hits Criticality.specgraph_hits Criticality.hits_of
    Criticality.radius_pointers Criticality.is_critical SpecGraph.reference_partners
    SpecGraph.graph_consulted Signals.grade_matrix Signals.blast_from_count starts_with
    change_type_eq Capture.message_at
upf_low = refl

grade-IsQuiet_example : IsQuiet host upf_upgrade (evidence_of clear_store)
grade-IsQuiet_example = grade-IsQuiet host upf_upgrade (evidence_of clear_store) upf_low

abbrev failed_history : StoreState
failed_history = record { path = some "history.jsonl"; lines = failed_line ∷ []; exists = true }

abbrev failed : ChangeRecord
failed = record { line = 1; change = upf_upgrade; outcome = str "rejected" }

failed_read : Evidence.record_of 1 (host.loads failed_line) ≡ some failed
unfolding Evidence.record_of parse_change parse_fields type_of non_empty to_record Json.get
    Json.lookup string_eq Evidence.outcome_of
failed_read = refl

failed_is_failed : History.is_failed_on upf_upgrade failed ≡ true
unfolding History.is_failed_on Evidence.has_failed string_eq change_type_eq
failed_is_failed = refl

history_read : Evidence.store_consulted failed_history ≡ true
unfolding Evidence.store_consulted
history_read = refl

grade-failed_high_example : (grade host upf_upgrade (evidence_of failed_history)).grade ≡ high
grade-failed_high_example =
    grade-failed_high host upf_upgrade (evidence_of failed_history) 0 failed_line failed
      history_read refl failed_read failed_is_failed
