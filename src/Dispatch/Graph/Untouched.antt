-- ===== src/Dispatch/Graph/Untouched.antt =====
-- execute of graph.py: what a run that raises has changed.
use net_cortex.Prelude.{
  String, Bool, true, false, not, ◌||◌, Option, none, some, List, ◌++◌, ◌≡◌, refl, ◌∙◌, ◌⊎◌, inl,
  inr, ◌==◌, string_eq, if◌then◌else◌, if_elim, Bool-cases, arith,
}
use net_cortex.Prelude.Results.{Fallible, ok, raise}
use net_cortex.Dispatch.Executor.{DispatchError, invalid_episode}
use net_cortex.Dispatch.Record.{Proposal}
use net_cortex.Dispatch.Memory.{episode_valid}
use net_cortex.Dispatch.Graph.{Spine, State, World, with_log, write_record}
use net_cortex.Dispatch.Graph.Refused.{is_remembered, concluded_lem}
use net_cortex.Dispatch.Graph.Execution.{
  checked, episode, write_episode, concluded, executed, approved, rejected, carried_out,
  after_checks, execute,
}

module _ (spine : Spine) (w : World) (e : DispatchError) where
  -- a run that raises the error has changed nothing, or it is the Episode that is refused, and no
  -- Episode is added
  abbrev Untouched : World × Fallible DispatchError State → Type 0
  Untouched (after, r) =
      r ≡ raise e → (after ≡ w) ⊎ ((e ≡ invalid_episode) × (after.episodes ≡ w.episodes))

  chosen_episodes :
      (given valid : Bool) (v kept : World)
      → not given || valid ≡ false
      → let t : World × Fallible DispatchError (Unit {0}) =
          if not given
          then (v, ok tt)
          else if valid
          then (kept, ok tt)
          else (v, raise invalid_episode) in
        t.0.episodes ≡ v.episodes
  chosen_episodes false valid v kept h = refl
  chosen_episodes true true v kept h = cc
  chosen_episodes true false v kept h = refl

  concluded-Untouched :
      (s : State) (d : String) (lines : List String) (v : World)
      → v.episodes ≡ w.episodes
      → Untouched (concluded spine s d lines v)
  unfolding concluded write_episode write_record
  concluded-Untouched s d lines v same raised =
      let s1 = with_log spine d lines s in
      let (_, _, result) = concluded_lem spine s d lines v in
      elim (Bool-cases (is_remembered spine s1 d)) [
        | inl kept ↦ absurd (ground (arith, result, rw kept at result))
        | inr lost ↦ inr (
          ground (arith, rw lost at result),
          chosen_episodes spine.has_episodes (episode_valid (episode spine s1 d))
                (write_record spine s1 v) _ lost
              ∙ same,
        )
      ]

  executed-Untouched :
      (s : State) (p : Proposal) (r : Fallible DispatchError (List String))
      → Untouched (executed spine s p w r)
  unfolding executed
  executed-Untouched s p (raise f) = λ raised. inl refl
  executed-Untouched s p (ok ran) = concluded-Untouched s _ _ (record w { ran = w.ran ++ ran }) refl

  carried_out-Untouched : (s : State) (o : Option Proposal) → Untouched (carried_out spine s w o)
  unfolding carried_out rejected approved
  carried_out-Untouched s none = concluded-Untouched s _ _ w refl
  carried_out-Untouched s (some p) =
      if_elim Untouched (s.decision == "reject") _ _ (concluded-Untouched s _ _ w refl) (
        if_elim Untouched s.execute _ _ (executed-Untouched s p _)
          (concluded-Untouched s _ _ w refl))

  after_checks-Untouched :
      (s : State) (r : Fallible DispatchError (Unit {0})) → Untouched (after_checks spine s w r)
  unfolding after_checks
  after_checks-Untouched s (raise f) = λ raised. inl refl
  after_checks-Untouched s (ok u) = carried_out-Untouched s s.proposal

  -- A decision that raises has changed no file, run no command and added no Episode, unless what it
  -- raises is the refusal of the incident's Episode; then no Episode is added.
  pub execute-untouched :
      (s : State)
      → (execute spine s w).1 ≡ raise e
      → ((execute spine s w).0 ≡ w)
        ⊎ ((e ≡ invalid_episode) × ((execute spine s w).0.episodes ≡ w.episodes))
  unfolding execute
  execute-untouched s = after_checks-Untouched s (checked s w s.proposal)
