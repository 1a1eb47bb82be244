-- ===== src/Dispatch/Record.antt =====
-- record.py: the Incident Record's text. `Printing` holds Python's `str` of a value and of a float,
-- and `json.dumps` with sorted keys.
use net_cortex.Prelude.{
  ℕ, suc, String, Option, none, some, List, [], ◌∷◌, ◌++◌, map, if◌then◌else◌, ◌==◌, string_eq,
  or_else, concat, join, show,
}
use net_cortex.Prelude.Json.{Json, Fields}
use net_cortex.Dispatch.Evidence.{Source, pcap, log, kpi, EvidenceItem, AlarmEvent}
use net_cortex.Dispatch.Correlation.{Link}
use net_cortex.Dispatch.Executor.{Selection, observe_only_note}
use net_cortex.Dispatch.Proposal.{field_texts}

pub record Printing : Type 0 where
  pub spell : Json → String
  pub dumps_sorted : Fields → String
  pub tick : ℕ → String

-- a proposal, with what the Executor and the hash add to the selection
pub record Proposal : Type 0 where
  pub selection : Selection
  pub commands : List String
  pub hash : String

pub record IncidentRecord : Type 0 where
  pub event : AlarmEvent
  pub evidence : List EvidenceItem
  pub links : List (Link Json)
  pub root_cause : String
  pub proposal : Option Proposal
  pub approval : String
  pub execution_log : List String

-- `_APPROVAL_LABELS.get(approval, f"**{approval}**")`
unfoldable pub approval_label : String → String
approval_label approval =
    if approval == "pending"
    then "**pending**"
    else if approval == "approved-dry-run"
    then "**approved (dry-run)**"
    else if approval == "approved-executed"
    then "**approved (executed)**"
    else if approval == "rejected"
    then "**rejected**"
    else concat ("**" ∷ approval ∷ "**" ∷ [])

abbrev pub source_text : Source → String
source_text pcap = "pcap"
source_text log = "log"
source_text kpi = "kpi"

-- the citation, and the line where the item has one
unfoldable pub cited : String → Option String → String
cited citation none = citation
cited citation (some line) = if line == "" then citation else concat (citation ∷ " — " ∷ line ∷ [])

-- the lines of a list, or the one of an empty list
abbrev pub or_line : String → List String → List String
or_line line [] = line ∷ []
or_line line (x ∷ xs) = x ∷ xs

abbrev pub bullet : String → String
bullet s = concat ("- " ∷ s ∷ [])

module _ (p : Printing) where
  unfoldable pub event_lines : AlarmEvent → List String
  event_lines e =
      "## Event"
      ∷ ""
      ∷ concat ("- Incident id: `" ∷ e.incident_id ∷ "`" ∷ [])
      ∷ concat ("- Detected at: " ∷ p.tick e.detected_at ∷ [])
      ∷ concat ("- Source: " ∷ e.source ∷ [])
      ∷ concat ("- Procedure: " ∷ or_else e.procedure "-" ∷ [])
      ∷ concat ("- Time window: " ∷ p.tick e.start ∷ " → " ∷ p.tick e.end ∷ [])
      ∷ ""
      ∷ e.description
      ∷ ""
      ∷ []

  unfoldable pub item_lines : ℕ → List EvidenceItem → List String
  unfolding cited
  item_lines n [] = []
  item_lines n (item ∷ items) =
      concat (
        "- ["
        ∷ show n
        ∷ "] "
        ∷ source_text item.source
        ∷ " "
        ∷ item.kind
        ∷ ": "
        ∷ item.entry
        ∷ " (keys: "
        ∷ join ", " (field_texts p.spell item.keys)
        ∷ ") — cited: "
        ∷ cited item.citation item.line
        ∷ [])
      ∷ item_lines (suc n) items

  unfoldable pub link_line : Link Json → String
  link_line l =
      concat ("- [" ∷ show l.a ∷ "] ↔ [" ∷ show l.b ∷ "] via " ∷ l.key ∷ "=" ∷ p.spell l.value ∷ [])

  unfoldable pub proposal_lines : Option Proposal → List String
  proposal_lines none = "- (no proposal produced)" ∷ "" ∷ []
  proposal_lines (some q) =
      concat ("- Action: `" ∷ q.selection.action ∷ "`" ∷ [])
        ∷ concat ("- Arguments: `" ∷ p.dumps_sorted q.selection.args ∷ "`" ∷ [])
        ∷ ""
        ∷ q.selection.justification
        ∷ ""
        ∷ "Commands (template-rendered):"
        ∷ ""
        ∷ or_line (bullet observe_only_note) (map bullet q.commands)
      ++ "" ∷ concat ("Proposal hash: `" ∷ q.hash ∷ "`" ∷ []) ∷ "" ∷ []

  unfoldable pub render_record : IncidentRecord → String
  unfolding event_lines item_lines link_line proposal_lines approval_label
  render_record r = concat (
      join "\n" (
        concat ("# Incident Record — " ∷ r.event.incident_id ∷ []) ∷ "" ∷ event_lines r.event
        ++ "## Correlation graph" ∷ "" ∷ or_line "- (no evidence)" (item_lines 0 r.evidence)
        ++ "" ∷ or_line "- no links" (map link_line r.links)
        ++ ""
          ∷ "## Root cause"
          ∷ ""
          ∷ (if r.root_cause == "" then "- (no root cause produced)" else r.root_cause)
          ∷ ""
          ∷ "## Proposal"
          ∷ ""
          ∷ proposal_lines r.proposal
        ++ "## Approval status"
          ∷ ""
          ∷ concat ("Approval status: " ∷ approval_label r.approval ∷ [])
          ∷ ""
          ∷ "## Execution log"
          ∷ ""
          ∷ or_line "- (empty)" (map bullet r.execution_log))
      ∷ "\n"
      ∷ [])
