-- ===== src/Dispatch/Learning.antt =====
-- learning.py: the check that an operator is told to run, the draft of a Runbook, and the Outcome
-- section of the record. `Drafting` holds Python's functions: `str`, `json.dumps`, the last part of a
-- path, `yaml.safe_dump`, `splitlines(True)`, and the dates.
use net_cortex.Prelude.{
  String, Bool, true, false, not, Option, none, some, List, [], ◌∷◌, ◌++◌, map, if◌then◌else◌, ◌==◌,
  nat_eq, string_eq, option_eq, is_empty, concat, join, or_else,
}
use net_cortex.Prelude.Json
use net_cortex.Prelude.Json.{Json, Fields, null, bool, num, str, arr, obj, nil, cons, end, field}
use net_cortex.Dispatch.Evidence.{log}
use net_cortex.Dispatch.Memory.{Episode}
use net_cortex.Dispatch.Runbook.{Runbook, match_runbooks}

pub record Frontmatter : Type 0 where
  pub slug : String
  pub title : String
  pub procedure : String
  pub symptoms : Fields
  pub steps : List String
  pub action : Option String
  pub args : Fields

pub record Drafting : Type 0 where
  pub spell : Json → String
  pub dumps : Fields → String
  pub base_name : Json → String
  -- the text of the frontmatter, with the date of the day
  pub safe_dump : Frontmatter → String
  pub splitlines : String → List String
  pub now : String

-- `bool(value)` of a JSON value
abbrev pub truthy_json : Json → Bool
truthy_json null = false
truthy_json (bool b) = b
truthy_json (num n) = not (n == 0)
truthy_json (str s) = not (s == "")
truthy_json (arr nil) = false
truthy_json (arr (cons x xs)) = true
truthy_json (obj end) = false
truthy_json (obj (field key value rest)) = true

abbrev pub or_no_fields : Option Fields → Fields
or_no_fields none = end
or_no_fields (some fields) = fields

abbrev pub or_json : Json → Option Json → Json
or_json default none = default
or_json default (some j) = j

module _ (d : Drafting) where
  -- the part of a plane whose capture is given
  unfoldable pub capture_part : String → Json → List String
  capture_part flag value =
      if truthy_json value then concat (flag ∷ " " ∷ d.base_name value ∷ []) ∷ [] else []

  unfoldable pub confirmation_check : Option String → Fields → Option Fields → String → String
  unfolding capture_part
  confirmation_check action args captures sandbox_root =
      if action == some "rerun_capture"
      then concat (
          "bash "
          ∷ sandbox_root
          ∷ "/capture.sh --scenario "
          ∷ d.spell (or_json (str "") (Json.lookup "scenario" args))
          ∷ [])
      else join " " (
          concat (
              "dispatch detect-kpi "
              ∷ d.base_name
                  (or_json (str "<n2-capture>") (Json.lookup "n2" (or_no_fields captures)))
              ∷ [])
            ∷ capture_part "--sbi" (Json.get "sbi" (or_no_fields captures))
          ++ capture_part "--n4" (Json.get "n4" (or_no_fields captures)))

  -- `draft_filename`, before and with its suffix
  unfoldable pub draft_slug : Episode → String
  draft_slug e = concat (or_else e.procedure "none" ∷ "-" ∷ e.incident_id ∷ [])

  unfoldable pub draft_filename : Episode → String
  unfolding draft_slug
  draft_filename e = concat (draft_slug e ∷ ".md" ∷ [])

  -- `symptoms[key] = value`: in place, or at the end
  unfoldable pub put_field : String → Json → Fields → Fields
  put_field key value end = field key value end
  put_field key value (field name old rest) =
      let later = put_field key value rest in
      if key == name then field name value rest else field name old later

  unfoldable pub symptoms_of : List (String × Json) → Fields → Fields
  unfolding put_field
  symptoms_of [] fields = fields
  symptoms_of ((key, value) ∷ pairs) fields = symptoms_of pairs (put_field key value fields)

  -- an optional text in an f-string
  abbrev pub shown : Option String → String
  shown none = "None"
  shown (some s) = s

  unfoldable pub justified : Option String → List String
  justified none = []
  justified (some s) = if s == "" then [] else concat ("Justification: " ∷ s ∷ []) ∷ []

  unfoldable pub draft_steps : Episode → List String
  unfolding justified
  draft_steps e =
      concat (
        "Diagnosis: "
        ∷ (if e.narrative == "" then "(no root cause recorded)" else e.narrative)
        ∷ [])
      ∷ concat ("Remediation: " ∷ shown e.action ∷ " " ∷ d.dumps (or_no_fields e.args) ∷ [])
      ∷ justified e.justification

  unfoldable pub draft_title : Episode → String
  draft_title e = concat ("Apply " ∷ shown e.action ∷ " after incident " ∷ e.incident_id ∷ [])

  unfoldable pub draft_text : Episode → String
  unfolding draft_title draft_steps symptoms_of draft_slug
  draft_text e = concat (
      "---\n"
      ∷ d.safe_dump (record {
        slug = draft_slug e;
        title = draft_title e;
        procedure = or_else e.procedure "";
        symptoms = symptoms_of e.evidence_keys end;
        steps = draft_steps e;
        action = e.action;
        args = or_no_fields e.args;
      })
      ∷ "---\n\n# "
      ∷ draft_title e
      ∷ "\n\nDrafted by `dispatch close "
      ∷ e.incident_id
      ∷ "` from the episode's own record — a deterministic template, no LLM call. The args stay literal; generalize them to {placeholder} form and adjust the steps at promotion.\n"
      ∷ [])

  -- `matching_runbook`: an incident of the Episode's procedure, and one item with its keys
  unfoldable pub matching_runbook : List Runbook → Episode → Bool
  unfolding symptoms_of
  matching_runbook runbooks e = not (
      is_empty (
        match_runbooks d.spell runbooks
          (record {
            incident_id = "";
            detected_at = 0;
            source = "";
            procedure = e.procedure;
            start = 0;
            end = 0;
            description = "";
            kpi_values = none;
            captures = none;
          })
          ((record {
            source = log;
            kind = "";
            ts = 0;
            entry = "";
            cause = none;
            endpoints = none;
            keys = symptoms_of e.evidence_keys Json.end;
            citation = "";
            line = none;
          })
            ∷ [])))

  unfoldable pub outcome_section : String → Option String → String → String
  outcome_section outcome evidence check = join "\n" (
      ""
      ∷ "## Outcome"
      ∷ ""
      ∷ concat ("- **Verdict:** **" ∷ outcome ∷ "**" ∷ [])
      ∷ concat ("- **Operator evidence:** " ∷ or_else evidence "(none)" ∷ [])
      ∷ concat ("- **Suggested confirmation check:** `" ∷ check ∷ "`" ∷ [])
      ∷ concat ("- **Closed at:** " ∷ d.now ∷ [])
      ∷ ""
      ∷ [])

  unfoldable pub diff_new_file : String → Option String → String
  diff_new_file text path = concat (
      "+++ "
      ∷ or_else path "(new file)"
      ∷ "\n"
      ∷ map (λ line. concat ("+" ∷ line ∷ [])) (d.splitlines text))
