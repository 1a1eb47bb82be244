-- ===== src/Dispatch/Closing/Once.antt =====
-- _close of cli.py: which incidents it closes, and that it does so once.
use net_cortex.Prelude.{
  String, true, not, ◌&&◌, Option, some, ◌∷◌, [], ◌≡◌, refl, sym, subst, ◌==◌, ==_iff, string_eq,
  concat, join, is_empty, arith,
}
use text.Mathlib.TextLemmas.{append-nil}
use net_cortex.Prelude.Parts.{is_part, is_part-append_left, is_part-append_right}
use net_cortex.Prelude.Results.{
  Fallible, ok, raise, ◌>>◌, guard, >>=-eq-ok, guard-ok, guarded-ok, ok_injective,
}
use net_cortex.Dispatch.Memory.{Episode}
use net_cortex.Dispatch.Memory.Store.{set_outcome}
use net_cortex.Dispatch.Learning.{Drafting, outcome_section}
use net_cortex.Dispatch.Graph.{State}
use net_cortex.Dispatch.Graph.Execution.{Snapshot}
use net_cortex.Dispatch.Closing.{
  CloseError, no_checkpoint, not_decided, not_executed, already_closed, Closed, Desk, or_no_record,
  or_not_stored, may_close, closing, close,
}

section_told :
    (d : Drafting) (text outcome check : String) (evidence : Option String)
    → is_part "## Outcome" (concat (text ∷ outcome_section d outcome evidence check ∷ [])) ≡ true
unfolding outcome_section concat join
section_told d text outcome check evidence = is_part-append_left "## Outcome" text _ (
    subst (λ s. is_part "## Outcome" s ≡ true)
      (sym (append-nil (outcome_section d outcome evidence check)))
      (is_part-append_left "## Outcome" "" _
        (is_part-append_left "## Outcome" "\n" _ (is_part-append_right "## Outcome" _))))

module _ (d : Drafting) (parse : String → Option Episode) (dump : Episode → String)
    (sandbox_root : String) where
  may_close-decided :
      (incident_id : String) (snapshot : Snapshot) (s : State) (u : Unit {0})
      → may_close incident_id snapshot s ≡ ok u
      → (is_empty snapshot.next ≡ true) × (s.decision ≡ "approve") × (s.execute ≡ true)
  unfolding may_close
  may_close-decided incident_id snapshot s u h =
      let last : Fallible CloseError (Unit {0}) =
        guard (s.decision == "approve" && s.execute) (not_executed incident_id) in
      let ended : Fallible CloseError (Unit {0}) =
        guard (is_empty snapshot.next) (not_decided incident_id) >> last in
      let (_, h1) =
        guarded-ok (not (is_empty snapshot.next && not snapshot.has_values))
          (no_checkpoint incident_id) ended u h in
      let (over, h2) = guarded-ok (is_empty snapshot.next) (not_decided incident_id) last u h1 in
      let approved =
        guard-ok (s.decision == "approve" && s.execute) (not_executed incident_id) u h2 in
      (over, (==_iff s.decision "approve").0 (ground (arith, approved)), ground (arith, approved))

  -- Only an incident that was approved for execution and is not awaiting a decision is closed. The
  -- record that is written has an Outcome, so that a second closing of the incident is refused,
  -- whatever it says and whatever the store and the Runbooks are then.
  pub close-once :
      (incident_id outcome again : String) (evidence more : Option String) (snapshot : Snapshot)
      (s : State) (desk later : Desk) (c : Closed)
      → close d parse dump sandbox_root incident_id outcome evidence snapshot s desk ≡ ok c
      → later.record_file ≡ some c.record_text
      → (s.decision ≡ "approve")
        × (s.execute ≡ true)
        × (is_empty snapshot.next ≡ true)
        × (close d parse dump sandbox_root incident_id again more snapshot s later
            ≡ raise (already_closed incident_id))
  unfolding close closing
  close-once incident_id outcome again evidence more snapshot s desk later c h r =
      let (u, allowed, h1) = >>=-eq-ok (may_close incident_id snapshot s) _ c h in
      let (text, _, h2) = >>=-eq-ok (or_no_record desk.record_file) _ c h1 in
      let (_, _, h3) =
        >>=-eq-ok (guard (not (is_part "## Outcome" text)) (already_closed incident_id)) _ c h2 in
      let (updated, _, h4) =
        >>=-eq-ok (or_not_stored (set_outcome parse dump incident_id outcome evidence desk.store)) _
          c h3 in
      let told : is_part "## Outcome" c.record_text ≡ true =
        subst (λ (z : Closed). is_part "## Outcome" z.record_text ≡ true) (ok_injective _ c h4)
          (section_told d text outcome _ evidence) in
      let (ended, approved, wet) = may_close-decided incident_id snapshot s u allowed in
      (approved, wet, ended, rw allowed (rw r (rw told refl)))
