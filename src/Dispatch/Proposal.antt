-- ===== src/Dispatch/Proposal.antt =====
-- proposal.py, with the context of runbook.py: the selection that a proposal is made of. The proposer
-- is an argument; it gives nothing where it raises.
pub mod Valid
mod Tests
use net_cortex.Prelude.{
  ℕ, suc, String, Bool, true, false, ◌&&◌, ◌||◌, not, Option, none, some, List, [], ◌∷◌, ◌++◌, map,
  if◌then◌else◌, ◌==◌, string_eq, contains, is_empty, length, or_else, text_le, concat, join, show,
}
use net_cortex.Prelude.Json
use net_cortex.Prelude.Json.{Json, Fields, null, bool, num, str, arr, obj, end, field}
use net_cortex.Prelude.Results.{Fallible, ok, raise}
use net_cortex.Prelude.Sorting.{sort_le}
use net_cortex.Dispatch.Evidence.{EvidenceItem, AlarmEvent}
use net_cortex.Dispatch.Runbook.{Runbook, evidence_keys, match_runbooks, bind_placeholders}
use net_cortex.Dispatch.Executor.{Selection, actions}

-- `or "(none)"`
abbrev pub or_none : String → String
or_none s = if s == "" then "(none)" else s

-- Python's order of pairs of texts
abbrev pub pair_le : String × String → String × String → Bool
pair_le (k, v) (j, w) = if k == j then text_le v w else text_le k j

abbrev pub pair_text : String × String → String
pair_text (k, v) = concat (k ∷ "=" ∷ v ∷ [])

-- `f"{key}={value}"` of each key
unfoldable pub field_texts : (Json → String) → Fields → List String
field_texts spell end = []
field_texts spell (field key value rest) =
    concat (key ∷ "=" ∷ spell value ∷ []) ∷ field_texts spell rest

unfoldable pub step_lines : ℕ → List String → List String
step_lines n [] = []
step_lines n (step ∷ steps) =
    concat ("      " ∷ show n ∷ ". " ∷ step ∷ []) ∷ step_lines (suc n) steps

-- `[f"…"]` of one Runbook; `dumps` is `json.dumps`
unfoldable pub runbook_lines : (Json → String) → (Fields → String) → ℕ → Runbook → List String
unfolding field_texts step_lines
runbook_lines spell dumps n r =
    concat ("[" ∷ show n ∷ "] Runbook " ∷ r.slug ∷ " — " ∷ r.title ∷ [])
      ∷ concat (
          "    procedure: "
          ∷ or_else r.procedure "(none)"
          ∷ " · symptoms: "
          ∷ or_none (join ", " (field_texts spell r.symptoms))
          ∷ [])
      ∷ (if is_empty r.steps then [] else "    steps:" ∷ step_lines 1 r.steps)
    ++ concat ("    resolution: " ∷ r.action ∷ " " ∷ dumps r.args ∷ []) ∷ []

unfoldable pub match_lines : (Json → String) → (Fields → String) → ℕ → List Runbook → List String
unfolding runbook_lines
match_lines spell dumps n [] = []
match_lines spell dumps n (r ∷ rs) =
    runbook_lines spell dumps n r ++ match_lines spell dumps (suc n) rs

unfoldable pub runbook_context :
    (Json → String) → (Fields → String) → List Runbook → List EvidenceItem → ℕ → String
unfolding match_lines
runbook_context spell dumps matches evidence total = join "\n" (
    concat (
        "Runbooks retrieved from procedural memory ("
        ∷ show (length matches)
        ∷ " of "
        ∷ show total
        ∷ " Runbook(s)):"
        ∷ [])
      ∷ match_lines spell dumps 1 matches
    ++ concat (
        "Evidence keys: "
        ∷ or_none (join ", " (map pair_text (sort_le pair_le (evidence_keys spell evidence []))))
        ∷ [])
      ∷ "Bind any {placeholder} resolution args from these keys."
      ∷ [])

-- the incident's text that the proposer reads
unfoldable pub incident_text :
    (Json → String) → (Fields → String) → AlarmEvent → List Runbook → List EvidenceItem → String
incident_text spell dumps event runbooks evidence =
    shown (match_runbooks spell runbooks event evidence)
  where
    shown : List Runbook → String
    shown [] = event.description
    shown (r ∷ rs) = concat (
        runbook_context spell dumps (r ∷ rs) evidence (length runbooks)
        ∷ "\n\n"
        ∷ event.description
        ∷ [])

-- `isinstance(justification, str) and justification`
unfoldable pub justification_of : Json → Option String
justification_of (str s) = if s == "" then none else some s
justification_of null = none
justification_of (bool b) = none
justification_of (num n) = none
justification_of (arr xs) = none
justification_of (obj fields) = none

-- an action of the vocabulary
unfoldable pub action_of : Json → Option String
action_of (str s) = if contains actions s then some s else none
action_of null = none
action_of (bool b) = none
action_of (num n) = none
action_of (arr xs) = none
action_of (obj fields) = none

unfoldable pub args_of : Json → Option Fields
args_of (obj fields) = some fields
args_of null = none
args_of (bool b) = none
args_of (num n) = none
args_of (str s) = none
args_of (arr xs) = none

abbrev pub no_fields : Fields → Bool
no_fields end = true
no_fields (field key value rest) = false

unfoldable pub when_bound : String → String → Fallible String Fields → Option Selection
when_bound action justification (raise e) = none
when_bound action justification (ok args) =
    some (record { action = action; args = args; justification = justification })

-- the three fields, where each is what it has to be
unfoldable pub chosen_selection :
    (String → Option String)
    → List EvidenceItem
    → Option String
    → Option Fields
    → Option String
    → Option Selection
unfolding when_bound
chosen_selection placeholder evidence none args justification = none
chosen_selection placeholder evidence (some action) none justification = none
chosen_selection placeholder evidence (some action) (some args) none = none
chosen_selection placeholder evidence (some action) (some args) (some justification) =
    if action == "observe_only" && not (no_fields args)
    then none
    else when_bound action justification
        (if is_empty evidence then ok args else bind_placeholders placeholder evidence args)

unfoldable pub selected :
    (String → Option String) → List EvidenceItem → Option Json → Option Selection
unfolding chosen_selection action_of args_of justification_of
selected placeholder evidence (some (obj fields)) =
    chosen_selection placeholder evidence (action_of (Json.get "action" fields))
      (args_of (Json.get "args" fields)) (justification_of (Json.get "justification" fields))
selected placeholder evidence none = none
selected placeholder evidence (some null) = none
selected placeholder evidence (some (bool b)) = none
selected placeholder evidence (some (num n)) = none
selected placeholder evidence (some (str s)) = none
selected placeholder evidence (some (arr xs)) = none

-- what the proposal reads from outside: Python's `str`, `json.dumps`, the match of a placeholder, the
-- Runbooks, and the proposer
pub record Proposing : Type 0 where
  pub spell : Json → String
  pub dumps : Fields → String
  pub placeholder : String → Option String
  pub runbooks : List Runbook
  pub proposer : String → String → Option Json

unfoldable pub run_proposal : Proposing → AlarmEvent → String → List EvidenceItem → Option Selection
unfolding incident_text selected
run_proposal p event root_cause evidence =
    selected p.placeholder evidence
      (p.proposer (incident_text p.spell p.dumps event p.runbooks evidence) root_cause)
