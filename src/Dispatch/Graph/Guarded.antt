-- ===== src/Dispatch/Graph/Guarded.antt =====
-- execute of graph.py: which commands it runs.
use net_cortex.Prelude.{
  String, true, false, Option, none, some, List, ◌++◌, ◌≡◌, refl, ap, ◌∙◌, ◌≢◌, ◌⊎◌, inl, inr, ◌==◌,
  ==_iff, string_eq, if-true, if-false, Bool-cases, arith,
}
use net_cortex.Prelude.Results.{Fallible, ok, raise, >>=-eq-ok, guard-ok, Fallible-cases}
use net_cortex.Dispatch.Executor.{DispatchError, render, apply}
use net_cortex.Dispatch.Executor.Templates.{apply-render}
use net_cortex.Dispatch.Record.{Proposal}
use net_cortex.Dispatch.Memory.{episode_valid}
use net_cortex.Dispatch.Graph.{Spine, State, World, with_log, write_record}
use net_cortex.Dispatch.Graph.Execution.{
  read_record_hash, checked, commands_of, dry_run_lines, episode, write_episode, concluded,
  executed, approved, rejected, carried_out, after_checks, execute,
}

module _ (spine : Spine) where
  write_episode-ran :
      (s : State) (d : String) (w : World) → (write_episode spine s d w).0.ran ≡ w.ran
  unfolding write_episode
  write_episode-ran s d w = elim (Bool-cases spine.has_episodes) [
    | inl given ↦ elim (Bool-cases (episode_valid (episode spine s d))) [
      | inl valid ↦ rw given (rw valid refl)
      | inr invalid ↦ rw given (rw invalid refl)
    ]
    | inr absent ↦ rw absent refl
  ]

  pub concluded-ran :
      (s : State) (d : String) (lines : List String) (w : World)
      → (concluded spine s d lines w).0.ran ≡ w.ran
  unfolding concluded write_record
  concluded-ran s d lines w =
      write_episode-ran (with_log spine d lines s) d
        (write_record spine (with_log spine d lines s) w)

  -- the run of a proposal that was approved for execution, with the hash that its record has
  pub record Permitted (s : State) (w after : World) : Type 0 where
    pub proposal : Proposal
    pub is_proposal : s.proposal ≡ some proposal
    pub not_rejected : s.decision ≢ "reject"
    pub to_execute : s.execute ≡ true
    pub unedited : read_record_hash s.record_path w.files ≡ ok proposal.hash
    pub rendered :
        render spine.sandbox proposal.selection.action proposal.selection.args
        ≡ ok (commands_of proposal)
    pub has_run : after.ran ≡ w.ran ++ commands_of proposal

  executed-ran :
      (s : State) (p : Proposal) (w : World) (r : Fallible DispatchError (List String))
      → apply spine.sandbox p.selection (commands_of p) ≡ r
      → ((executed spine s p w r).0.ran ≡ w.ran)
        ⊎ (((executed spine s p w r).0.ran ≡ w.ran ++ commands_of p)
            × (render spine.sandbox p.selection.action p.selection.args ≡ ok (commands_of p)))
  unfolding executed
  executed-ran s p w (raise e) h = inl refl
  executed-ran s p w (ok ran) h =
      let (same, rendered) = apply-render spine.sandbox p.selection (commands_of p) ran h in
      inr (concluded-ran s _ _ (record w { ran = w.ran ++ ran }) ∙ ap (◌++◌ w.ran) same, rendered)

  pub approved-executed :
      (s : State) (p : Proposal) (w : World)
      → s.execute ≡ true
      → approved spine s p w
        ≡ executed spine s p w (apply spine.sandbox p.selection (commands_of p))
  unfolding approved
  approved-executed s p w h = if-true s.execute _ _ h

  pub approved-dry_run :
      (s : State) (p : Proposal) (w : World)
      → s.execute ≡ false
      → approved spine s p w
        ≡ concluded spine s "approved-dry-run" (dry_run_lines (commands_of p)) w
  unfolding approved
  approved-dry_run s p w h = if-false s.execute _ _ h

  approved-ran :
      (s : State) (p : Proposal) (w : World)
      → s.proposal ≡ some p
      → s.decision ≢ "reject"
      → read_record_hash s.record_path w.files ≡ ok p.hash
      → ((approved spine s p w).0.ran ≡ w.ran) ⊎ Permitted s w (approved spine s p w).0
  approved-ran s p w e d h = elim (Bool-cases s.execute) [
    | inr dry ↦ inl (ap (λ t. t.0.ran) (approved-dry_run s p w dry) ∙ concluded-ran s _ _ w)
    | inl wet ↦ elim (executed-ran s p w (apply spine.sandbox p.selection (commands_of p)) refl) [
      | inl same ↦ inl (ap (λ t. t.0.ran) (approved-executed s p w wet) ∙ same)
      | inr (more, rendered) ↦ inr (record {
        proposal = p;
        is_proposal = e;
        not_rejected = d;
        to_execute = wet;
        unedited = h;
        rendered = rendered;
        has_run = ap (λ t. t.0.ran) (approved-executed s p w wet) ∙ more;
      })
    ]
  ]

  carried_out-ran :
      (s : State) (w : World) (o : Option Proposal)
      → s.proposal ≡ o
      → checked s w o ≡ ok tt
      → ((carried_out spine s w o).0.ran ≡ w.ran) ⊎ Permitted s w (carried_out spine s w o).0
  unfolding carried_out checked rejected
  carried_out-ran s w none e h = inl (concluded-ran s _ _ w)
  carried_out-ran s w (some p) e h =
      let (hash, found, h1) = >>=-eq-ok (read_record_hash s.record_path w.files) _ tt h in
      elim (Bool-cases (s.decision == "reject")) [
        | inl refused ↦ inl (rw refused (concluded-ran s _ _ w))
        | inr decided ↦ rw decided (
            approved-ran s p w e (λ q. absurd (ground (arith, (==_iff s.decision "reject").1 q)))
              (found ∙ ap ok ((==_iff hash p.hash).0 (guard-ok _ _ tt h1))))
      ]

  -- A decision runs no command, or it is an approval for execution of an incident with a proposal:
  -- then the record's file had the proposal's hash, and what is run, once each and in order, is
  -- what the templates give for the proposal.
  pub execute-Permitted :
      (s : State) (w : World)
      → ((execute spine s w).0.ran ≡ w.ran) ⊎ Permitted s w (execute spine s w).0
  unfolding execute after_checks
  execute-Permitted s w = elim (Fallible-cases (checked s w s.proposal)) [
    | inl (u, passed) ↦ rw passed (carried_out-ran s w s.proposal refl passed)
    | inr (e, failed) ↦ rw failed (inl refl)
  ]
