-- ===== src/Dispatch/Examples.antt =====
-- A sandbox of two services, an Alarm event and an evidence item, for the tests of the parts.
use net_cortex.Prelude.{String, true, none, some, [], ◌∷◌}
use net_cortex.Prelude.Json.{Json, str, null, bool, num, arr, obj, end, field}
use net_cortex.Dispatch.Executor.{Sandbox}
use net_cortex.Dispatch.Evidence.{EvidenceItem, AlarmEvent, pcap}

abbrev pub spell_text : Json → String
spell_text (str s) = s
spell_text null = "None"
spell_text (bool b) = "True"
spell_text (num n) = "1"
spell_text (arr xs) = "[]"
spell_text (obj fields) = "{}"

abbrev pub sandbox : Sandbox
sandbox = record {
  root = "/sb";
  services = some ("amf" ∷ "smf" ∷ []);
  spell = spell_text;
  path_text = λ p. p;
  holds_path = λ p. true;
  is_digit = λ c. true;
}

abbrev pub event : AlarmEvent
event = record {
  incident_id = "i1";
  detected_at = 5;
  source = "kpi";
  procedure = some "Registration";
  start = 0;
  end = 9;
  description = "slow";
  kpi_values = none;
  captures = none;
}

abbrev pub item : EvidenceItem
item = record {
  source = pcap;
  kind = "timeout";
  ts = 3;
  entry = "no answer";
  cause = none;
  endpoints = none;
  keys = field "nf" (str "smf") end;
  citation = "";
  line = none;
}
