-- ===== src/Triage/Actions.antt =====
-- search.py and memory.py: the parse of an Action, its dispatch to a tool, and the finalize, whose
-- Episode must cite a decoded message. A timestamp is a number of microseconds, of which 5e-4 seconds
-- are 500. `Tools` holds Python's text functions, the validation of an Episode's JSON by pydantic, and
-- the answers of the four tools of evidence.py, topology.py, specrag.py and memory.py.
pub mod Cited
mod Tests
use net_cortex.Prelude.{
  ℕ, ◌+◌, ◌-◌, String, Bool, true, false, ◌&&◌, ◌||◌, not, Option, none, some, List, [], ◌∷◌, ◌++◌,
  filter, any, length, is_empty, if◌then◌else◌, ◌==◌, nat_eq, string_eq, pair_eq, option_eq, ltb,
  leb, concat, join, show, starts_with, ends_with, truthy, drop_first,
}
use net_cortex.Prelude.Dict
use net_cortex.Prelude.Dict.{Dict}
use net_cortex.Prelude.Results.{Fallible, ok, raise}
use net_cortex.Triage.Search.{Searcher, Floats}
use Prim.Native.Char.{code}
use Prim.Native.String.{len, slice}

-- memory.py
pub record CitedEvidence : Type 0 where
  pub message : String
  pub cause : Option ℕ
  pub ts : Option ℕ

pub record Episode : Type 0 where
  pub incident_type : String
  pub narrative : String
  pub cited_evidence : List CitedEvidence
  pub created_at : ℕ

-- what the inventory reads of a decoded N2 message, and of one of the other planes
pub record N2Message : Type 0 where
  pub ngap : Option String
  pub nas : Option String
  pub nas_inner : Option String
  pub ts : Option ℕ
  pub nas_cause : Option ℕ

pub record PlaneMessage : Type 0 where
  pub name : Option String
  pub ts : Option ℕ
  pub cause_code : Option ℕ

-- the messages of the flows in their order, and the others
pub record DecodedCapture : Type 0 where
  pub flows : List (List N2Message)
  pub unassociated : List N2Message
  pub n4 : List PlaneMessage
  pub sbi : List PlaneMessage

-- the cause by a message's name and time
abbrev pub Inventory : Type 0
Inventory = Dict (String × ℕ) (Option ℕ)

-- the entry of a name that is given, at a time that is
unfoldable pub add_name : Option String → Option ℕ → Option ℕ → Inventory → Inventory
add_name none ts cause d = d
add_name (some name) none cause d = d
add_name (some name) (some ts) cause d = if name == "" then d else Dict.put (name, ts) cause d

unfoldable pub add_n2 : List N2Message → Inventory → Inventory
unfolding add_name
add_n2 [] d = d
add_n2 (m ∷ ms) d = add_n2 ms (
    add_name m.nas_inner m.ts m.nas_cause
      (add_name m.nas m.ts m.nas_cause (add_name m.ngap m.ts m.nas_cause d)))

unfoldable pub add_flows : List (List N2Message) → Inventory → Inventory
unfolding add_n2
add_flows [] d = d
add_flows (ms ∷ rest) d = add_flows rest (add_n2 ms d)

unfoldable pub add_unassociated : List N2Message → Inventory → Inventory
unfolding add_name
add_unassociated [] d = d
add_unassociated (m ∷ ms) d = add_unassociated ms (add_name m.ngap m.ts none d)

unfoldable pub add_n4 : List PlaneMessage → Inventory → Inventory
unfolding add_name
add_n4 [] d = d
add_n4 (m ∷ ms) d = add_n4 ms (add_name m.name m.ts m.cause_code d)

unfoldable pub add_sbi : List PlaneMessage → Inventory → Inventory
unfolding add_name
add_sbi [] d = d
add_sbi (m ∷ ms) d = add_sbi ms (add_name m.name m.ts none d)

unfoldable pub message_inventory : DecodedCapture → Inventory
unfolding add_flows add_unassociated add_n4 add_sbi
message_inventory c =
    add_sbi c.sbi (add_n4 c.n4 (add_unassociated c.unassociated (add_flows c.flows [])))

-- `abs(ts - at) < 5e-4`
abbrev pub is_near : ℕ → ℕ → Bool
is_near ts at = ltb ((ts - at) + (at - ts)) 500

-- no cause is cited, or the one that was decoded
abbrev pub cause_agrees : Option ℕ → Option ℕ → Bool
cause_agrees none decoded = true
cause_agrees (some cause) decoded = decoded == some cause

abbrev pub matches : CitedEvidence → ℕ → (String × ℕ) × Option ℕ → Bool
matches ev at ((name, ts), cause) =
    name == ev.message && is_near ts at && cause_agrees ev.cause cause

unfoldable pub is_grounded : Inventory → CitedEvidence → Bool
is_grounded inventory ev = at_time ev.ts
  where
    at_time : Option ℕ → Bool
    at_time none = false
    at_time (some at) = any (matches ev at) inventory

unfoldable pub grounded_evidence : DecodedCapture → Episode → List CitedEvidence
unfolding message_inventory is_grounded
grounded_evidence capture episode =
    filter (is_grounded (message_inventory capture)) episode.cited_evidence

abbrev pub incident_types : List String
incident_types =
    "auth_failure" ∷ "registration_reject" ∷ "registration_timeout" ∷ "pdu_session_reject_slice"
    ∷ "pdu_session_reject_other" ∷ "pdu_session_timeout" ∷ "pdu_session_rsp_timeout"
    ∷ "sbi_udm_timeout" ∷ "sbi_nssf_reject" ∷ "n4_upf_timeout" ∷ []

abbrev pub tool_names : List String
tool_names = "inspect" ∷ "topology" ∷ "spec" ∷ "memory" ∷ "finalize" ∷ []

pub record Tools : Type 0 where
  pub strip : String → String
  -- `strip("\"'")`, `rstrip(":")` and `lower()`
  pub strip_quotes : String → String
  pub rstrip_colons : String → String
  pub lower : String → String
  -- the Episode, or the text of the `ValidationError`
  pub validate : String → Fallible String Episode
  pub inspect : DecodedCapture → String → String
  pub topology : DecodedCapture → String
  pub spec : String → String
  pub memory : String → String

-- `s.partition(c)` at one character: what is before it, and what is after it where it is there
unfoldable pub partition : ℕ → String → String × Option String
partition sep String.[] = ("", none)
partition sep (String.◌∷◌ c s) =
    let (before, after) = partition sep s in
    if code c == sep then ("", some s) else (String.◌∷◌ c before, after)

-- the second partition, where the first has found no space
unfoldable pub split_tool : String × Option String → String → String × String
unfolding partition
split_tool (tool, some argument) text = (tool, argument)
split_tool (tool, none) text = by_colon (partition 58 text)
  where
    by_colon : String × Option String → String × String
    by_colon (before, none) = (before, "")
    by_colon (before, some after) = (before, after)

unfoldable pub unbracketed : Tools → String → String
unbracketed t argument =
    if starts_with argument "[" && ends_with argument "]"
    then t.strip (slice argument 1 (len argument - 1))
    else argument

unfoldable pub parse_action : Tools → String → String × String
unfolding split_tool partition unbracketed
parse_action t text =
    let stripped = t.strip text in
    let (tool, argument) = split_tool (partition 32 stripped) stripped in
    if stripped == "" then ("", "") else (
      t.lower (t.rstrip_colons tool),
      unbracketed t (t.strip (t.strip_quotes (t.strip argument))),
    )

unfoldable pub judged : Episode → List CitedEvidence → String × Option Episode
judged episode [] = (
  "finalize rejected: no cited evidence matches a decoded message. Cite message names and ts values exactly as shown in the observations.",
  none,
)
judged episode (ev ∷ evs) = (
  concat (
      "finalize accepted: hypothesis grounded in "
      ∷ show (length (ev ∷ evs))
      ∷ " evidence item(s)."
      ∷ []),
  some episode,
)

unfoldable pub finalize_with : DecodedCapture → Fallible String Episode → String × Option Episode
unfolding judged grounded_evidence
finalize_with capture (raise exc) = (
  concat (
      "finalize rejected: argument is not a valid Episode ("
      ∷ exc
      ∷ "). Expected JSON: {\"incident_type\": one of "
      ∷ join ", " incident_types
      ∷ ", \"narrative\": \"...\", \"cited_evidence\": [{\"message\": ..., \"cause\": ..., \"ts\": ...}]}."
      ∷ []),
  none,
)
finalize_with capture (ok episode) = judged episode (grounded_evidence capture episode)

-- `_finalize`
unfoldable pub finalize : Tools → DecodedCapture → String → String × Option Episode
unfolding finalize_with
finalize t capture argument = finalize_with capture (t.validate argument)

unfoldable pub execute_tool :
    Tools → DecodedCapture → String → String × String → String × Option Episode
unfolding finalize
execute_tool t capture action (tool, argument) =
    if tool == "inspect"
    then (t.inspect capture (if argument == "" then "flows" else argument), none)
    else if tool == "topology"
    then (t.topology capture, none)
    else if tool == "spec"
    then (t.spec argument, none)
    else if tool == "memory"
    then (t.memory argument, none)
    else if tool == "finalize"
    then finalize t capture argument
    else (
      concat ("unknown action \"" ∷ action ∷ "\": expected one of " ∷ join ", " tool_names ∷ []),
      none,
    )

unfoldable pub execute_action : Tools → DecodedCapture → String → String × Option Episode
unfolding execute_tool parse_action
execute_action t capture action = execute_tool t capture action (parse_action t action)

-- the `Tree` of `run_lats`
abbrev pub lats_searcher :
    {R : Type 0}
    → Tools
    → DecodedCapture
    → Floats R
    → (String → String → ℕ → Option (List String))
    → (String → String → Option (R × String))
    → R
    → ℕ
    → Searcher Episode R
lats_searcher t capture floats expand evaluate exploration max_depth = record {
  floats = floats;
  expand = expand;
  evaluate = evaluate;
  execute = execute_action t capture;
  strip = t.strip;
  exploration = exploration;
  max_depth = max_depth;
}
