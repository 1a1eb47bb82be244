-- ===== src/Dispatch/Graph/Refused.antt =====
-- execute of graph.py: the run of an intact incident, and what a run that raises has changed.
use net_cortex.Prelude.{
  String, Bool, true, false, not, ◌||◌, some, List, ◌++◌, ◌≡◌, refl, ap, ◌∙◌, ◌≢◌, ◌==◌, ==_iff,
  string_eq, list_eq, if◌then◌else◌, if-false, if_elim, arith,
}
use net_cortex.Prelude.Dict
use net_cortex.Prelude.Results.{Fallible, ok, raise, ◌>>=◌}
use net_cortex.Dispatch.Executor.{DispatchError, invalid_episode, apply}
use net_cortex.Dispatch.Record.{Proposal}
use net_cortex.Dispatch.Memory.{episode_valid}
use net_cortex.Dispatch.Graph.{Spine, State, World, with_log, write_record, record_text}
use net_cortex.Dispatch.Graph.Proposed.{IsRendered, commands_of-rendered}
use net_cortex.Dispatch.Graph.Guarded.{approved-executed}
use net_cortex.Dispatch.Graph.Execution.{
  read_record_hash, checked, commands_of, dry_run_lines, executed_lines, episode, write_episode,
  concluded, executed, carried_out, after_checks, execute,
}

module _ (spine : Spine) where
  -- the state that an executed approval leaves
  abbrev pub executed_state : State → Proposal → State
  executed_state s p =
      with_log spine "approved-executed"
        (dry_run_lines (commands_of p) ++ executed_lines (commands_of p)) s

  -- whether nothing is to be remembered, or what is can be
  abbrev pub is_remembered : State → String → Bool
  is_remembered s d = not spine.has_episodes || episode_valid (episode spine s d)

  write_episode-keeps :
      (s : State) (d : String) (w : World)
      → let after = (write_episode spine s d w).0 in (after.files ≡ w.files) × (after.ran ≡ w.ran)
  unfolding write_episode
  write_episode-keeps s d w =
      let Keeps : World × Fallible DispatchError (Unit {0}) → Type 0 =
        λ t. (t.0.files ≡ w.files) × (t.0.ran ≡ w.ran) in
      if_elim Keeps (not spine.has_episodes) _ _ (refl, refl)
        (if_elim Keeps (episode_valid (episode spine s d)) _ _ (refl, refl) (refl, refl))

  chosen_result :
      (given valid : Bool) (w kept : World)
      → let r : World × Fallible DispatchError (Unit {0}) =
          if not given
          then (w, ok tt)
          else if valid
          then (kept, ok tt)
          else (w, raise invalid_episode) in
        r.1 ≡ (if not given || valid then ok tt else raise invalid_episode)
  chosen_result false valid w kept = refl
  chosen_result true true w kept = refl
  chosen_result true false w kept = refl

  write_episode-result :
      (s : State) (d : String) (w : World)
      → (write_episode spine s d w).1 ≡ (if is_remembered s d then ok tt else raise invalid_episode)
  unfolding write_episode
  write_episode-result s d w =
      chosen_result spine.has_episodes (episode_valid (episode spine s d)) w _

  then_state :
      (b : Bool) (s : State)
      → let r : Fallible DispatchError (Unit {0}) = if b then ok tt else raise invalid_episode in
        (r >>= λ _. ok s) ≡ (if b then ok s else raise invalid_episode)
  then_state true s = refl
  then_state false s = refl

  -- what a conclusion leaves: the record, the commands, and the state or the error
  pub concluded_lem :
      (s : State) (d : String) (lines : List String) (w : World)
      → let (after, r) = concluded spine s d lines w in
        let s1 = with_log spine d lines s in
        (Dict.get s.record_path after.files ≡ some (record_text spine s1))
        × (after.ran ≡ w.ran)
        × (r ≡ (if is_remembered s1 d then ok s1 else raise invalid_episode))
  unfolding concluded write_record with_log
  concluded_lem s d lines w =
      let s1 = with_log spine d lines s in
      let (files, ran) = write_episode-keeps s1 d (write_record spine s1 w) in
      (
        ap (Dict.get s.record_path) files ∙ Dict.get-put_same _ _ w.files,
        ran,
        ap (λ r. r >>= λ _. ok s1) (write_episode-result s1 d (write_record spine s1 w))
            ∙ then_state (is_remembered s1 d) s1,
      )

  executed_lem :
      (s : State) (p : Proposal) (w : World)
      → IsRendered spine p
      → executed spine s p w (apply spine.sandbox p.selection (commands_of p))
        ≡ concluded spine s "approved-executed"
            (dry_run_lines (commands_of p) ++ executed_lines (commands_of p))
            (record w { ran = w.ran ++ commands_of p })
  unfolding executed apply
  executed_lem s p w h =
      rw (commands_of-rendered spine p h)
        (rw ((==_iff (commands_of p) (commands_of p)).1 refl) refl)

  carried_out-executed :
      (s : State) (p : Proposal) (w : World)
      → s.decision ≢ "reject"
      → s.execute ≡ true
      → carried_out spine s w (some p)
        ≡ executed spine s p w (apply spine.sandbox p.selection (commands_of p))
  unfolding carried_out
  carried_out-executed s p w d x =
      if-false (s.decision == "reject") _ _ (ground (arith, (==_iff s.decision "reject").0, d))
      ∙ approved-executed spine s p w x

  checked-ok :
      (s : State) (p : Proposal) (w : World)
      → read_record_hash s.record_path w.files ≡ ok p.hash
      → checked s w (some p) ≡ ok tt
  unfolding checked
  checked-ok s p w h = rw h (rw ((==_iff p.hash p.hash).1 refl) refl)

  -- Where an incident's proposal is rendered and its record's file still has the proposal's hash, an
  -- approval for execution runs the proposal's commands after those run before, leaves the record of
  -- the executed state in the file, and ends in that state. But where Episodes are remembered and the
  -- incident's is no valid one, it raises, when the commands have run.
  pub execute-runs :
      (s : State) (p : Proposal) (w : World)
      → s.proposal ≡ some p
      → IsRendered spine p
      → read_record_hash s.record_path w.files ≡ ok p.hash
      → s.decision ≢ "reject"
      → s.execute ≡ true
      → let (after, r) = execute spine s w in
        let s1 = executed_state s p in
        (Dict.get s.record_path after.files ≡ some (record_text spine s1))
        × (after.ran ≡ w.ran ++ commands_of p)
        × (r ≡ (if is_remembered s1 "approved-executed" then ok s1 else raise invalid_episode))
  unfolding execute after_checks
  execute-runs s p w e h file d x =
      let run : execute spine s w
          ≡ concluded spine s "approved-executed" _ (record w { ran = w.ran ++ commands_of p }) =
        ap (λ o. after_checks spine s w (checked s w o)) e
        ∙ ap (after_checks spine s w) (checked-ok s p w file)
        ∙ ap (carried_out spine s w) e
        ∙ carried_out-executed s p w d x
        ∙ executed_lem s p w h in
      let (files, ran, r) =
        concluded_lem s "approved-executed" _ (record w { ran = w.ran ++ commands_of p }) in
      (
        ap (λ t. Dict.get s.record_path t.0.files) run ∙ files,
        ap (λ t. t.0.ran) run ∙ ran,
        ap (λ t. t.1) run ∙ r,
      )
