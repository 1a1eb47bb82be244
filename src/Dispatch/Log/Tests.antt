-- ===== src/Dispatch/Log/Tests.antt =====
-- Two lines are pulled: the item that cites the second is kept, the one that cites a third is not.
use net_cortex.Prelude.{
  String, none, some, [], ◌∷◌, ◌≡◌, refl, ◌⊎◌, All, ◌==◌, string_eq, concat, show, if◌then◌else◌,
}
use net_cortex.Prelude.Json
use net_cortex.Prelude.Json.{Json, str, arr, nil, cons, obj, end, field}
use net_cortex.Prelude.Results.{ok, raise}
use net_cortex.Dispatch.Evidence.{EvidenceItem, log}
use net_cortex.Dispatch.Examples.{event}
use net_cortex.Dispatch.Log
use net_cortex.Dispatch.Log.{LogSeams, run_docker_logs, run_log_agent}
use net_cortex.Dispatch.Log.Cited.{IsCited, run_log_agent-AreCited}

abbrev proposed_item : String → Json
proposed_item citation = obj (
    field "citation" (str citation)
      (field "kind" (str "reject") (field "entry" (str "no session") end)))

abbrev seams : LogSeams
seams = record {
  root = "/sb";
  rfc3339 = λ ts. "t";
  strip = λ s. s;
  splitlines = λ text. "amf | 2 up" ∷ "smf | 4 reject" ∷ [];
  strip_ansi = λ text. text;
  log_index = λ s. if s == "log:2" then some 2 else if s == "log:3" then some 3 else none;
  line_ts = λ line. some 4;
  log_runner = λ command. ok (record { returncode = "0"; stderr = ""; stdout = "two lines" });
  extractor = λ text incident. some (
      arr (
        cons (proposed_item "log:2") (cons (proposed_item "log:3") (cons (proposed_item "") nil))));
}

abbrev kept : EvidenceItem
kept = record {
  source = log;
  kind = "reject";
  ts = 4;
  entry = "no session";
  cause = none;
  endpoints = none;
  keys = end;
  citation = "log:2";
  line = some "smf | 4 reject";
}

keeps_cited : run_log_agent seams event ≡ kept ∷ []
unfolding run_log_agent run_docker_logs Log.pulled Log.from_pull Log.extracted Log.ground_answer
    Log.ground_all Log.ground_log_item Log.ground_fields Log.log_item Log.string_of Log.cited_line
    Log.keys_or_none Json.get string_eq concat show
keeps_cited = refl

run_log_agent-AreCited_example :
    ((e : String) × (run_docker_logs seams event ≡ raise e) × (run_log_agent seams event ≡ []))
    ⊎ ((text : String) × (run_docker_logs seams event ≡ ok text)
        × All (IsCited seams (seams.splitlines text) event) (run_log_agent seams event))
run_log_agent-AreCited_example = run_log_agent-AreCited seams event
