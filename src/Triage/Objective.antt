-- ===== src/Triage/Objective.antt =====
-- search.py: the objective of the search, with the past Episodes that resemble the incident. `iso` is
-- the text of a time.
pub mod Similar
mod Tests
use net_cortex.Prelude.{
  ℕ, suc, ◌+◌, ◌*◌, String, Bool, true, false, not, ◌&&◌, ◌||◌, Option, none, some, List, [], ◌∷◌,
  ◌++◌, map, filter, length, if◌then◌else◌, ◌==◌, nat_eq, string_eq, option_eq, contains, unique,
  concat, join, show, starts_with, is_some, spelled,
}
use net_cortex.Prelude.Ranking.{most_relevant, take_three}
use net_cortex.Triage.Actions.{N2Message, CitedEvidence, Episode, incident_types}

-- `_procedure_of`
unfoldable pub procedure_of_type : String → Option String
procedure_of_type t =
    if starts_with t "auth" || starts_with t "registration"
    then some "Registration"
    else if starts_with t "pdu_session"
    then some "PDU Session"
    else if t == "sbi_udm_timeout"
    then some "Registration"
    else if t == "sbi_nssf_reject"
    then some "PDU Session"
    else if t == "n4_upf_timeout"
    then some "PDU Session"
    else none

-- the incident that is searched
pub record Incident : Type 0 where
  pub flow_id : Option ℕ
  pub plane : Option String
  pub procedure : Option String
  pub shape : Option String
  pub detail : Option String

abbrev pub given : Option String → List String → List String
given none rest = rest
given (some s) rest = if s == "" then rest else s ∷ rest

-- the names and the causes of the flow's messages
unfoldable pub flow_names : List N2Message → List String
flow_names [] = []
flow_names (m ∷ ms) = given m.nas_inner (given m.nas (given m.ngap (flow_names ms)))

abbrev pub given_cause : Option ℕ → List ℕ → List ℕ
given_cause none rest = rest
given_cause (some cause) rest = if cause == 0 then rest else cause ∷ rest

unfoldable pub flow_causes : List N2Message → List ℕ
flow_causes [] = []
flow_causes (m ∷ ms) = given_cause m.nas_cause (flow_causes ms)

-- the causes that are cited, each once
unfoldable pub cited_causes : List CitedEvidence → List ℕ → List ℕ
cited_causes [] set = set
cited_causes (ev ∷ evs) set = cited_causes evs (added ev.cause)
  where
    added : Option ℕ → List ℕ
    added none = set
    added (some cause) = if contains set cause then set else cause ∷ set

abbrev pub same_procedure_score : Option String → Option String → ℕ
same_procedure_score none past = 0
same_procedure_score (some procedure) past = if past == some procedure then 2 else 0

unfoldable pub similarity : Incident → List N2Message → Episode → ℕ
unfolding flow_names flow_causes cited_causes procedure_of_type
similarity incident flow e =
    3 * length (filter (contains (flow_causes flow)) (cited_causes e.cited_evidence []))
    + length
        (filter (contains (flow_names flow)) (unique (map (λ ev. ev.message) e.cited_evidence)))
    + same_procedure_score incident.procedure (procedure_of_type e.incident_type)

abbrev pub cause_text : Option ℕ → String
cause_text none = ""
cause_text (some cause) = concat (" cause=" ∷ show cause ∷ [])

unfoldable pub similar_lines : (ℕ → String) → ℕ → List (ℕ × Episode) → List String
similar_lines iso n [] = []
similar_lines iso n ((score, e) ∷ rest) =
    concat ("[" ∷ show n ∷ "] " ∷ e.incident_type ∷ "  " ∷ iso e.created_at ∷ [])
    ∷ concat ("    " ∷ e.narrative ∷ [])
    ∷ concat (
        "    cited: "
        ∷ join "; " (map (λ ev. concat (ev.message ∷ cause_text ev.cause ∷ [])) e.cited_evidence)
        ∷ [])
    ∷ similar_lines iso (suc n) rest

-- the first line of a context: how many of the Episodes it is about
abbrev pub similar_heading : ℕ → ℕ → String
similar_heading found total = concat (
    "Past similar incidents retrieved from episodic memory ("
    ∷ show found
    ∷ " of "
    ∷ show total
    ∷ " Episode(s)):"
    ∷ [])

unfoldable pub similar_context : (ℕ → String) → ℕ → List (ℕ × Episode) → String
unfolding similar_lines
similar_context iso total [] = ""
similar_context iso total (p ∷ ps) =
    join "\n" (similar_heading (length (p ∷ ps)) total ∷ similar_lines iso 1 (take_three (p ∷ ps)))

-- `memory_context`, of the Episodes that are loaded and the messages of the incident's flow
unfoldable pub memory_context : (ℕ → String) → List Episode → Incident → List N2Message → String
unfolding similar_context similarity
memory_context iso episodes incident flow =
    similar_context iso (length episodes)
      (most_relevant (similarity incident flow) (λ e. e.created_at) episodes)

abbrev pub is_plane : Option String → Bool
is_plane plane = plane == some "sbi" || plane == some "n4"

abbrev pub flow_clause : Option ℕ → String → List String
flow_clause none plane = []
flow_clause (some id) plane =
    concat (
      "Correlated flow: this procedure is part of flow "
      ∷ show id
      ∷ "'s signaling — inspect flow:"
      ∷ show id
      ∷ " alongside the "
      ∷ plane
      ∷ " handles."
      ∷ [])
    ∷ []

abbrev pub shown_id : Option ℕ → String
shown_id none = "None"
shown_id (some id) = show id

unfoldable pub failure_lines : Incident → List String
failure_lines i =
    if is_some i.flow_id && not (is_plane i.plane)
    then concat (
        "Explain the failure incident in flow "
        ∷ shown_id i.flow_id
        ∷ " ("
        ∷ spelled i.procedure
        ∷ ") in this decoded 5G capture."
        ∷ [])
      ∷ []
    else let plane = if i.plane == some "n4" then "N4" else "SBI" in
      concat (
        "Explain why the "
        ∷ spelled i.procedure
        ∷ " procedure failed on the "
        ∷ plane
        ∷ " plane in this decoded 5G capture."
        ∷ [])
      ∷ flow_clause i.flow_id plane

-- a line of a text that is given
abbrev pub line_of : String → Option String → List String
line_of label none = []
line_of label (some s) = if s == "" then [] else concat (label ∷ s ∷ "." ∷ []) ∷ []

abbrev pub timeout_lines : Option String → List String
timeout_lines shape =
    if shape == some "no terminal message (timeout)"
    then "There is no reject message and no terminal procedure record to find: the failure is an absence. Inspect what did arrive, then finalize on that evidence instead of waiting for a reject that never comes."
      ∷ []
    else []

abbrev pub memory_lines : String → List String
memory_lines memory =
    if memory == ""
    then []
    else memory
      ∷ "These memory entries are context only: cited_evidence must still cite messages decoded in THIS capture."
      ∷ []

unfoldable pub objective_text : Incident → String → String
unfolding failure_lines
objective_text i memory = join "\n" (
    failure_lines i
    ++ line_of "Failure shape: " i.shape
    ++ timeout_lines i.shape
    ++ line_of "Incident detail: " i.detail
    ++ memory_lines memory
    ++ concat (
        "Take one action per step. Actions: \"inspect <handle>\" (kpis, flows, flow:<id>, flow:<id>:<i>, unassociated[:<i>], n4[:<i>], sbi[:<i>]), \"topology\", \"spec <question>\", \"memory [incident_type=... message=... cause=...]\", or \"finalize <episode JSON>\". Finish with finalize once the evidence supports a root cause; its JSON must have incident_type (one of "
        ∷ join ", " incident_types
        ∷ "), narrative, and cited_evidence."
        ∷ [])
      ∷ [])
