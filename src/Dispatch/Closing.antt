-- ===== src/Dispatch/Closing.antt =====
-- cli.py: `_close`, which closes an incident that was approved for execution.
pub mod Once
mod Tests
use net_cortex.Prelude.{
  ℕ, String, Bool, true, false, not, ◌&&◌, ◌||◌, Option, none, some, List, [], ◌∷◌, if◌then◌else◌,
  ◌==◌, string_eq, option_eq, is_empty, concat, truthy,
}
use net_cortex.Prelude.Parts.{is_part}
use net_cortex.Prelude.Results.{Fallible, ok, raise, ◌>>=◌, ◌>>◌, guard}
use net_cortex.Dispatch.Memory.{Episode}
use net_cortex.Dispatch.Memory.Store.{StoreError, set_outcome}
use net_cortex.Dispatch.Runbook.{Runbook}
use net_cortex.Dispatch.Learning.{
  Drafting, confirmation_check, draft_text, draft_filename, matching_runbook, outcome_section,
  or_no_fields,
}
use net_cortex.Dispatch.Graph.{State}
use net_cortex.Dispatch.Graph.Execution.{Snapshot}

-- the errors before the record is written: `ValueError`s, and the `FileNotFoundError` of the record
pub data CloseError : Type 0 where
  no_checkpoint not_decided not_executed already_closed : String → CloseError
  no_record : CloseError
  not_stored : StoreError → CloseError

-- what the closing of an incident writes: the record, the store's lines, and the draft's name and text
pub record Closed : Type 0 where
  pub check : String
  pub record_text : String
  pub store : List String
  pub draft : Option (String × String)

-- what it reads beside the checkpoint
pub record Desk : Type 0 where
  pub record_file : Option String
  pub store : List String
  pub runbooks : List Runbook

abbrev pub or_no_record : Option String → Fallible CloseError String
or_no_record none = raise no_record
or_no_record (some text) = ok text

abbrev pub or_not_stored : {A : Type 0} → Fallible StoreError A → Fallible CloseError A
or_not_stored (ok a) = ok a
or_not_stored (raise e) = raise (not_stored e)

-- the guards on the checkpoint
unfoldable pub may_close : String → Snapshot → State → Fallible CloseError (Unit {0})
may_close incident_id snapshot s = do
  guard (not (is_empty snapshot.next && not snapshot.has_values)) (no_checkpoint incident_id)
  guard (is_empty snapshot.next) (not_decided incident_id)
  guard (s.decision == "approve" && s.execute) (not_executed incident_id)

module _ (d : Drafting) (parse : String → Option Episode) (dump : Episode → String)
    (sandbox_root : String) where
  -- a resolved remediation that no Runbook covers
  unfoldable pub needs_draft : String → List Runbook → Episode → Bool
  needs_draft outcome runbooks e =
      outcome == "resolved"
      && truthy e.action
      && not (e.action == some "observe_only")
      && not (matching_runbook d runbooks e)

  unfoldable pub closing :
      String → Option String → State → Desk → String → List String × Episode → Closed
  unfolding needs_draft
  closing outcome evidence s desk text (lines, e) =
      let check =
        confirmation_check d e.action (or_no_fields e.args) s.event.captures sandbox_root in
      record {
        check = check;
        record_text = concat (text ∷ outcome_section d outcome evidence check ∷ []);
        store = lines;
        draft =
            if needs_draft outcome desk.runbooks e
            then some (draft_filename d e, draft_text d e)
            else none;
      }

  unfoldable pub close :
      String → String → Option String → Snapshot → State → Desk → Fallible CloseError Closed
  unfolding may_close closing
  close incident_id outcome evidence snapshot s desk = do
    may_close incident_id snapshot s
    text ← or_no_record desk.record_file
    guard (not (is_part "## Outcome" text)) (already_closed incident_id)
    updated ← or_not_stored (set_outcome parse dump incident_id outcome evidence desk.store)
    ok (closing outcome evidence s desk text updated)
