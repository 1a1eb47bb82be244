-- ===== src/Dispatch/Memory/Context.antt =====
-- memory.py: the context of past Episodes that the root-cause search begins with. `iso` is the text
-- of a time.
pub mod Relevant
mod Tests
use net_cortex.Prelude.{
  ℕ, suc, ◌+◌, ◌*◌, String, Bool, true, false, not, Option, none, some, List, [], ◌∷◌, ◌++◌, map,
  filter, length, if◌then◌else◌, ◌==◌, string_eq, pair_eq, contains, unique, is_empty, concat, join,
  show, truthy,
}
use net_cortex.Prelude.Json.{Json}
use net_cortex.Prelude.Ranking.{most_relevant, take_three}
use net_cortex.Dispatch.Evidence.{EvidenceItem, AlarmEvent}
use net_cortex.Dispatch.Memory.{Episode, causes_of}
use net_cortex.Dispatch.Runbook.{evidence_keys}

-- `_evidence_keys`
unfoldable pub key_texts :
    (Json → String) → List (String × Json) → List (String × String) → List (String × String)
key_texts spell [] set = set
key_texts spell ((key, value) ∷ pairs) set =
    key_texts spell pairs
      (if contains set (key, spell value) then set else set ++ (key, spell value) ∷ [])

abbrev pub procedure_score : Option String → Option String → ℕ
procedure_score none past = 0
procedure_score (some procedure) none = 0
procedure_score (some procedure) (some past) = if past == procedure then 2 else 0

unfoldable pub relevance : (Json → String) → AlarmEvent → List EvidenceItem → Episode → ℕ
unfolding key_texts
relevance spell event evidence e =
    3 * length (filter (contains (causes_of evidence)) (unique e.causes))
    + length
        (filter (contains (evidence_keys spell evidence [])) (key_texts spell e.evidence_keys []))
    + procedure_score event.procedure e.procedure

abbrev pub when_filled : {A : Type 0} → List A → String → List String
when_filled [] text = []
when_filled (x ∷ xs) text = text ∷ []

abbrev pub action_detail : Option String → List String
action_detail none = []
action_detail (some action) = if action == "" then [] else concat ("action: " ∷ action ∷ []) ∷ []

abbrev pub pair_json_text : (Json → String) → String × Json → String
pair_json_text spell (key, value) = concat (key ∷ "=" ∷ spell value ∷ [])

unfoldable pub detail_part : (Json → String) → Episode → String
detail_part spell e = shown (
    when_filled e.evidence_keys
      (concat ("keys: " ∷ join ", " (map (pair_json_text spell) e.evidence_keys) ∷ []))
    ++ when_filled e.causes (concat ("causes: " ∷ join ", " e.causes ∷ []))
    ++ action_detail e.action)
  where
    shown : List String → String
    shown [] = ""
    shown (x ∷ xs) = concat (" · " ∷ join "; " (x ∷ xs) ∷ [])

unfoldable pub episode_lines : (Json → String) → (ℕ → String) → ℕ → List (ℕ × Episode) → List String
unfolding detail_part
episode_lines spell iso n [] = []
episode_lines spell iso n ((score, e) ∷ rest) =
    concat ("[" ∷ show n ∷ "] " ∷ e.incident_id ∷ "  " ∷ iso e.created_at ∷ [])
      ∷ (if e.narrative == "" then [] else concat ("    " ∷ e.narrative ∷ []) ∷ [])
    ++ concat ("    decision: " ∷ e.decision ∷ detail_part spell e ∷ [])
      ∷ episode_lines spell iso (suc n) rest

-- the first line of a context: how many of the Episodes it is about
abbrev pub context_heading : ℕ → ℕ → String
context_heading found total = concat (
    "Past similar incidents retrieved from episodic memory ("
    ∷ show found
    ∷ " of "
    ∷ show total
    ∷ " Episode(s)):"
    ∷ [])

unfoldable pub context_of : (Json → String) → (ℕ → String) → ℕ → List (ℕ × Episode) → String
unfolding episode_lines
context_of spell iso total [] = ""
context_of spell iso total (p ∷ ps) =
    join "\n"
      (context_heading (length (p ∷ ps)) total ∷ episode_lines spell iso 1 (take_three (p ∷ ps)))

-- `memory_context`, of the Episodes that are loaded
unfoldable pub memory_context :
    (Json → String) → (ℕ → String) → List Episode → AlarmEvent → List EvidenceItem → String
unfolding context_of relevance
memory_context spell iso episodes event evidence =
    context_of spell iso (length episodes)
      (most_relevant (relevance spell event evidence) (λ e. e.created_at) episodes)
