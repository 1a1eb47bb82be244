-- ===== src/Dispatch/Graph/System.antt =====
-- graph.py: the incidents of one sandbox over time. Incidents are opened, resumed with decisions, in
-- any order and more than once, and anyone may write any file at any time; a resumed thread may also
-- run `execute` again with the decision that it has.
use net_cortex.Prelude.{
  String, Bool, Option, none, some, List, [], ◌++◌, ◌≡◌, sym, ap, subst, ◌⊎◌, inl, inr, string_eq,
  ◌==◌, if_elim,
}
use net_cortex.Prelude.Dict
use net_cortex.Prelude.Dict.{Dict, AllEntries}
use net_cortex.Prelude.Results.{Fallible, ok, raise, ◌>>=◌}
use net_cortex.Dispatch.Evidence.{EvidenceItem, AlarmEvent}
use net_cortex.Dispatch.Executor.{DispatchError}
use net_cortex.Dispatch.Executor.Templates.{IsTemplate, render-IsTemplate}
use net_cortex.Dispatch.Record.{Proposal}
use net_cortex.Dispatch.Graph.{Spine, State, World, with_log, write_record, run_to_approval}
use net_cortex.Dispatch.Graph.Proposed.{Rendered, run_to_approval-Rendered}
use net_cortex.Dispatch.Graph.Execution.{
  Snapshot, may_resume, approval, commands_of, execute, concluded, write_episode, checked, executed,
  carried_out, after_checks,
}
use net_cortex.Dispatch.Graph.Guarded.{execute-Permitted}

-- the checkpoints by incident, and what the nodes change
pub record System : Type 0 where
  pub checkpoints : Dict String State
  pub world : World

-- the state that a run of `execute` leaves in the checkpoint: the old one where it raises
unfoldable pub left : State → Fallible DispatchError State → State
left s (ok after) = after
left s (raise e) = s

module _ (spine : Spine) where
  -- the checkpoint and the world after a run up to the interrupt: as before where it raises
  unfoldable pub after_opening : String → System → Fallible DispatchError (State × World) → System
  after_opening id c (raise e) = c
  after_opening id c (ok (s, w)) = record { checkpoints = Dict.put id s c.checkpoints; world = w }

  unfoldable pub opened : AlarmEvent → List EvidenceItem → System → System
  unfolding after_opening
  opened event stub c =
      after_opening event.incident_id c
        (run_to_approval spine event stub (Dict.get event.incident_id c.checkpoints) c.world)

  unfoldable pub resumed : String → State → System → System
  unfolding left
  resumed id s c =
      let (w, r) = execute spine s c.world in
      record { checkpoints = Dict.put id (left s r) c.checkpoints; world = w }

  pub data Step (c : System) : System → Type 0 where
    opens : (event : AlarmEvent) (stub : List EvidenceItem) → Step c (opened event stub c)
    resumes :
        (id decision : String) (to_execute : Bool) (snapshot : Snapshot) (s : State)
        → may_resume id decision snapshot ≡ ok tt
        → Dict.get id c.checkpoints ≡ some s
        → Step c (resumed id (approval decision to_execute s) c)
    repeats :
        (id : String) (s : State) → Dict.get id c.checkpoints ≡ some s → Step c (resumed id s c)
    edits :
        (files : Dict String String)
        → Step c (record c { world = record c.world { files = files } })

  -- what is reached from a start where no command has been run and no incident is open
  pub data Reached (files : Dict String String) : System → Type 0 where
    starts :
        Reached files
          (record { checkpoints = []; world = record { files = files; ran = []; episodes = [] } })
    steps : (c d : System) → Reached files c → Step c d → Reached files d

  -- the commands are runs of templates, one after the other
  pub data AreTemplates : List String → Type 0 where
    none_ran : AreTemplates []
    then_ran :
        (before run : List String)
        → AreTemplates before
        → IsTemplate spine.sandbox run
        → AreTemplates (before ++ run)

  execute-AreTemplates :
      (s : State) (w : World) → AreTemplates w.ran → AreTemplates (execute spine s w).0.ran
  execute-AreTemplates s w h = elim (execute-Permitted spine s w) [
    | inl same ↦ subst AreTemplates (sym same) h
    | inr p ↦ subst AreTemplates (sym p.has_run) (
        then_ran w.ran (commands_of p.proposal) h
          (render-IsTemplate spine.sandbox _ _ (commands_of p.proposal) p.rendered))
  ]

  -- the proposal of the checkpoint is the one that was opened
  Keeps : State → World × Fallible DispatchError State → Type 0
  Keeps s (w, r) = Rendered spine (left s r).proposal

  concluded-Keeps :
      (s : State) (d : String) (lines : List String) (w : World)
      → Rendered spine s.proposal
      → Keeps s (concluded spine s d lines w)
  unfolding Keeps concluded with_log left
  concluded-Keeps s d lines w h =
      left-Rendered (write_episode spine s1 d (write_record spine s1 w)).1
    where
      s1 : State
      s1 = with_log spine d lines s

      left-Rendered :
          (r : Fallible DispatchError (Unit {0}))
          → Rendered spine (left s (r >>= λ _. ok s1)).proposal
      left-Rendered (ok u) = h
      left-Rendered (raise e) = h

  execute-Keeps : (s : State) (w : World) → Rendered spine s.proposal → Keeps s (execute spine s w)
  unfolding Keeps execute left
  execute-Keeps s w h = after_checks-Keeps (checked s w s.proposal)
    where
      executed-Keeps :
          (p : Proposal) (r : Fallible DispatchError (List String))
          → Keeps s (executed spine s p w r)
      executed-Keeps p (raise e) = h
      executed-Keeps p (ok ran) = concluded-Keeps s _ _ (record w { ran = w.ran ++ ran }) h

      carried_out-Keeps : (o : Option Proposal) → Keeps s (carried_out spine s w o)
      carried_out-Keeps none = concluded-Keeps s _ _ w h
      carried_out-Keeps (some p) =
          if_elim (Keeps s) (s.decision == "reject") _ _ (concluded-Keeps s _ _ w h)
            (if_elim (Keeps s) s.execute _ _ (executed-Keeps p _) (concluded-Keeps s _ _ w h))

      after_checks-Keeps :
          (r : Fallible DispatchError (Unit {0})) → Keeps s (after_checks spine s w r)
      after_checks-Keeps (raise e) = h
      after_checks-Keeps (ok u) = carried_out-Keeps s.proposal

  abbrev pub AllRendered : System → Type 0
  AllRendered c = AllEntries (λ _ s. Rendered spine s.proposal) c.checkpoints

  -- an incident that is opened changes nothing, or has a rendered proposal and ran no command
  opened-cases :
      (event : AlarmEvent) (stub : List EvidenceItem) (c : System)
      → (opened event stub c ≡ c)
        ⊎ ((s : State) × (w : World) × (opened event stub c
              ≡ record { checkpoints = Dict.put event.incident_id s c.checkpoints; world = w })
            × Rendered spine s.proposal
            × (w.ran ≡ c.world.ran))
  unfolding opened after_opening
  opened-cases event stub c =
      let thread = Dict.get event.incident_id c.checkpoints in
      elim (run_to_approval-Rendered spine event stub thread c.world) [
        | inl (key, v, raised, _) ↦ inl (ap (after_opening event.incident_id c) raised)
        | inr (s, w, done, p) ↦
            inr (s, w, ap (after_opening event.incident_id c) done, p.proposes, p.runs_nothing)
      ]

  after-AreTemplates :
      (c d : System) → Step c d → AreTemplates c.world.ran → AreTemplates d.world.ran
  unfolding resumed
  after-AreTemplates c _ (opens event stub) h = elim (opened-cases event stub c) [
    | inl same ↦ subst (λ d. AreTemplates d.world.ran) (sym same) h
    | inr (s, w, same, _, ran) ↦
        subst (λ d. AreTemplates d.world.ran) (sym same) (subst AreTemplates (sym ran) h)
  ]
  after-AreTemplates c _ (resumes id decision to_execute snapshot s _ _) h =
      execute-AreTemplates (approval decision to_execute s) c.world h
  after-AreTemplates c _ (repeats id s _) h = execute-AreTemplates s c.world h
  after-AreTemplates c _ (edits files) h = h

  after-AllRendered : (c d : System) → Step c d → AllRendered c → AllRendered d
  unfolding resumed Keeps approval
  after-AllRendered c _ (opens event stub) h = elim (opened-cases event stub c) [
    | inl same ↦ subst AllRendered (sym same) h
    | inr (s, w, same, rendered, _) ↦ subst AllRendered (sym same) (
        Dict.AllEntries-put (λ _ s'. Rendered spine s'.proposal) event.incident_id s c.checkpoints
          rendered h)
  ]
  after-AllRendered c _ (resumes id decision to_execute snapshot s _ saved) h =
      Dict.AllEntries-put (λ _ s. Rendered spine s.proposal) id _ c.checkpoints
        (execute-Keeps (approval decision to_execute s) c.world
          (Dict.AllEntries-get (λ _ s. Rendered spine s.proposal) id s c.checkpoints saved h))
        h
  after-AllRendered c _ (repeats id s saved) h =
      Dict.AllEntries-put (λ _ s. Rendered spine s.proposal) id _ c.checkpoints
        (execute-Keeps s c.world
          (Dict.AllEntries-get (λ _ s. Rendered spine s.proposal) id s c.checkpoints saved h))
        h
  after-AllRendered c _ (edits files) h = h

  -- However incidents are opened, decided and run again, and whatever is written to files meanwhile,
  -- all commands that were ever run are those of the templates at values of their allow lists, and
  -- each checkpoint's proposal has the commands and the hash of its selection.
  pub Reached-AreTemplates :
      (files : Dict String String) (c : System)
      → Reached files c
      → AreTemplates c.world.ran × AllRendered c
  Reached-AreTemplates files _ starts = (none_ran, tt)
  Reached-AreTemplates files _ (steps c d before step) =
      let (templates, rendered) = Reached-AreTemplates files c before in
      (after-AreTemplates c d step templates, after-AllRendered c d step rendered)
