-- ===== src/Impact/Rubric/Tests.antt =====
-- An AMF that an SMF sends an N1N2MessageTransfer: another message proves the AMF's role, so that the
-- transfer is not looked at, and an upgrade of the AMF is graded LOW.
use net_cortex.Prelude.{
  String, some, none, true, [], ◌∷◌, ◌≡◌, refl, string_eq, nat_eq, option_eq, has_text, starts_with,
  before_char, drop_first, text_le,
}
use net_cortex.Prelude.Dict
use net_cortex.Prelude.Sorting.{sort_le, insert_le}
use net_cortex.Impact.Change.{Change, upgrade, change_type_eq}
use net_cortex.Impact.Capture
use net_cortex.Impact.Capture.{Message, CaptureState, capture_consulted}
use net_cortex.Impact.Radius
use net_cortex.Impact.Radius.{blast_radius, all_messages}
use net_cortex.Impact.SpecGraph
use net_cortex.Impact.Criticality
use net_cortex.Impact.Criticality.{is_critical}
use net_cortex.Impact.Evidence
use net_cortex.Impact.Signals
use net_cortex.Impact.Signals.{low}
use net_cortex.Impact.History
use net_cortex.Impact.BlastFactor
use net_cortex.Impact.CriticalFactor
use net_cortex.Impact.Rubric
use net_cortex.Impact.Rubric.{grade}
use net_cortex.Impact.Tests.{host, evidence_of, clear_store}

abbrev amf_upgrade : Change
amf_upgrade = record { type = upgrade; target = "amf"; before = "1.0"; after = "1.1" }

abbrev request : String → String → String → Message
request name src dst = record {
  name = some name;
  src_ip = some src;
  dst_ip = some dst;
  direction = some "request";
}

abbrev transfer : String
transfer = "Namf_Communication_N1N2MessageTransfer"

abbrev core : CaptureState
core = record {
  path = some "core.json";
  flows = [];
  n4 = record { messages = []; procedures = [] };
  sbi = record {
    messages =
        request "Namf_Communication_UEContext" "10.0.0.5" "10.0.0.2"
        ∷ request "Nsmf_PDUSession" "10.0.0.2" "10.0.0.5"
        ∷ request transfer "10.0.0.5" "10.0.0.2"
        ∷ [];
    procedures = [];
  };
  exists = true;
  n4_path = none;
  sbi_path = none;
}

transfer-is_critical : is_critical transfer ≡ true
unfolding is_critical starts_with string_eq
transfer-is_critical = refl

amf_low : (grade host amf_upgrade (record (evidence_of clear_store) { capture = core })).grade ≡ low
unfolding blast_radius capture_consulted Radius.radius_of Radius.target_of Capture.infer_roles
    Capture.located has_text string_eq Capture.located_flows option_eq Radius.peers_of
    Radius.note_messages all_messages Radius.note_message Radius.note_peer Radius.note_role Dict.get
    Radius.role_by_ip Capture.add Capture.add_ends Capture.add_producers Capture.add_role
    Capture.chosen Capture.is_sbi_family Capture.lower_tail Capture.sbi_role_of Radius.affected_by
    Radius.attribute Radius.attribute_all Radius.attribute_flows Radius.attribute_planes
    Radius.attribute_sbi Radius.attribute_through Radius.attributed Radius.flow_by_id Radius.flow_of
    Radius.names_ip Radius.ref_names_ip Radius.same_role Radius.set_default Dict.put Dict.values
    nat_eq insert_le sort_le before_char drop_first text_le Rubric.grade Rubric.assess_blast
    Rubric.assess_criticality History.assess_history History.assess_found History.failed_record
    History.assess_quiet History.all_consulted History.any_consulted History.is_failed_on
    Evidence.store_consulted Evidence.reports_consulted Evidence.change_records
    Evidence.change_records_from Evidence.triage_episode_mentions Evidence.dispatch_episode_mentions
    Evidence.episode_mentions Evidence.line_mentions Evidence.line_mentions_from
    Evidence.mentions_at Evidence.report_mentions Evidence.report_mentions_in
    BlastFactor.assess_radius BlastFactor.known_count CriticalFactor.assess_hits
    Criticality.capture_hits Criticality.specgraph_hits Criticality.hits_of
    Criticality.radius_pointers Criticality.is_critical SpecGraph.reference_partners
    SpecGraph.graph_consulted Signals.grade_matrix Signals.blast_from_count starts_with
    change_type_eq Capture.message_at
amf_low = refl
