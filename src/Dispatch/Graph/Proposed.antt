-- ===== src/Dispatch/Graph/Proposed.antt =====
-- graph.py: the proposal of a pending record, and the commands that an approval takes from it.
use net_cortex.Prelude.{
  String, false, not, Option, none, some, List, [], ◌∷◌, ◌≡◌, refl, sym, ap, ◌∙◌, ◌⊎◌, append-nil,
  map, ◌==◌, ==_iff, string_eq, filter, if◌then◌else◌, is_empty, concat, Bool-cases, inl, inr,
  arith,
}
use Prim.Native.String.{len, slice, ◌++◌}
use text.Mathlib.TextPositions.{slice-append_left}
use net_cortex.Prelude.Dict
use net_cortex.Prelude.Results.{Fallible, ok, raise, >>=-eq-ok, ok_injective}
use net_cortex.Prelude.Json.{Json, json_eq}
use net_cortex.Prelude.Dict.{get-put}
use net_cortex.Dispatch.Evidence.{EvidenceItem, AlarmEvent, keyed, is_hashable}
use net_cortex.Dispatch.Correlation.{Link}
use net_cortex.Dispatch.Correlation.Hashed.{
  AreHashable, HasUnhashable, link-AreHashable, link-HasUnhashable,
}
use net_cortex.Dispatch.Executor.{
  Sandbox, DispatchError, unhashable, Selection, dry_run, render, observe_only_note,
}
use net_cortex.Dispatch.Executor.Templates.{
  IsTemplate, observes, restarts, reverts, reseeds, reruns, render-IsTemplate,
}
use net_cortex.Dispatch.Record.{Proposal}
use net_cortex.Dispatch.Graph.{
  Spine, State, World, gathered, thread_values, correlated, proposed_with, proposed, propose_from,
  pending, write_record, record_text, with_log, run_to_approval,
}
use net_cortex.Dispatch.Graph.Execution.{commands_of}

-- a text that does not begin as the note does is not the note
begins_apart :
    (s t : String)
    → slice observe_only_note 0 (len s) == s ≡ false
    → s ++ t == observe_only_note ≡ false
begins_apart s t d = elim (Bool-cases (s ++ t == observe_only_note)) [
  | inl same ↦ absurd (
      ground (
        arith,
        (==_iff (slice observe_only_note 0 (len s)) s).1 (
            ap (λ u. slice u 0 (len s)) (sym ((==_iff (s ++ t) observe_only_note).0 same))
            ∙ slice-append_left s t),
      ))
  | inr differ ↦ differ
]

-- the commands that are left when the note is filtered out
abbrev noteless : List String → List String
noteless cs = filter (λ c. not (c == observe_only_note)) cs

noteless-template :
    (sandbox : Sandbox) (cs : List String) → IsTemplate sandbox cs → noteless cs ≡ cs
unfolding concat string_eq
noteless-template sandbox _ observes = refl
noteless-template sandbox _ (restarts services nf p q) =
    rw (begins_apart "docker compose --project-directory " _ refl) refl
noteless-template sandbox _ (reverts path p) = rw (begins_apart "git -C " _ refl) refl
noteless-template sandbox _ (reseeds imsi p) =
    rw (begins_apart "docker compose --project-directory " _ refl) refl
noteless-template sandbox _ (reruns scenario p) = rw (begins_apart "bash " _ refl) refl

noteless-or_note :
    (cs : List String)
    → noteless cs ≡ cs
    → noteless (if is_empty cs then observe_only_note ∷ [] else cs) ≡ cs
unfolding string_eq
noteless-or_note [] h = refl
noteless-or_note (c ∷ cs) h = h

module _ (spine : Spine) where
  -- the commands and the hash of a proposal are those of its selection
  abbrev pub IsRendered : Proposal → Type 0
  IsRendered p =
      (dry_run spine.sandbox p.selection ≡ ok p.commands) × (p.hash ≡ spine.digest p.selection)

  abbrev pub Rendered : Option Proposal → Type 0
  Rendered none = Unit
  Rendered (some p) = IsRendered p

  proposed-Rendered :
      (s : Selection) (r : Fallible DispatchError (List String))
      → dry_run spine.sandbox s ≡ r
      → Rendered (proposed spine.digest s r)
  unfolding proposed
  proposed-Rendered s (ok commands) h = (h, refl)
  proposed-Rendered s (raise e) h = tt

  propose_from-Rendered : (o : Option Selection) → Rendered (propose_from spine o)
  unfolding propose_from
  propose_from-Rendered none = tt
  propose_from-Rendered (some s) = proposed-Rendered s (dry_run spine.sandbox s) refl

  -- what is known of a run that stops at its pending record
  pub record IsPending (event : AlarmEvent) (stub : List EvidenceItem) (thread : Option State)
      (w : World) (s : State) (after : World) : Type 0 where
    pub gathers : s.evidence ≡ gathered spine event stub
    pub hashed : AreHashable is_hashable (map keyed s.evidence)
    pub links : correlated spine event s.evidence ≡ ok s.links
    pub proposes : Rendered s.proposal
    pub is_open : s.approval ≡ "pending"
    pub keeps_log : s.execution_log ≡ (thread_values spine event thread).execution_log
    pub writes :
        (path : String)
        → Dict.get path after.files
          ≡ (if path == s.record_path then some (record_text spine s) else Dict.get path w.files)
    pub runs_nothing : after.ran ≡ w.ran

  proposed_with-cases :
      (event : AlarmEvent) (stub : List EvidenceItem) (thread : Option State) (w : World)
      (r : Fallible (String × Json) (List (Link Json)))
      → correlated spine event (gathered spine event stub) ≡ r
      → let result =
          proposed_with spine event
            (gathered spine event stub)
            (thread_values spine event thread)
            w
            r in
        ((key : String) × (v : Json) × (result ≡ raise (unhashable key v))
          × HasUnhashable is_hashable (map keyed (gathered spine event stub)) key v)
        ⊎ ((s : State) × (after : World) × (result ≡ ok (s, after))
            × IsPending event stub thread w s after)
  unfolding proposed_with pending with_log write_record correlated
  proposed_with-cases event stub thread w (raise (key, v)) h =
      inl (key, v, refl, link-HasUnhashable is_hashable _ _ key v h)
  proposed_with-cases event stub thread w (ok links) h = inr (
    _,
    _,
    refl,
    record {
      gathers = refl;
      hashed = link-AreHashable is_hashable _ _ links h;
      links = h;
      proposes = propose_from-Rendered _;
      is_open = refl;
      keeps_log = append-nil _;
      writes = λ path. get-put path _ _ w.files;
      runs_nothing = refl;
    },
  )

  -- A run of an incident raises, and then it names a key of its evidence whose value, a list or a
  -- dict, has no hash. Or all values have one, and it stops with the evidence gathered and linked, a
  -- proposal, if it has one, whose commands are what the templates give for its selection and whose
  -- hash is the selection's digest, pending, and with the log of the thread's earlier runs; of the
  -- files just the record's is written, with the record of that state, and no command is run.
  pub run_to_approval-Rendered :
      (event : AlarmEvent) (stub : List EvidenceItem) (thread : Option State) (w : World)
      → ((key : String) × (v : Json) × (run_to_approval spine event stub thread w
            ≡ raise (unhashable key v))
          × HasUnhashable is_hashable (map keyed (gathered spine event stub)) key v)
        ⊎ ((s : State) × (after : World) × (run_to_approval spine event stub thread w
              ≡ ok (s, after))
            × IsPending event stub thread w s after)
  unfolding run_to_approval
  run_to_approval-Rendered event stub thread w =
      proposed_with-cases event stub thread w (correlated spine event (gathered spine event stub))
        refl

  -- What an approval takes from a rendered proposal is what the templates give.
  pub commands_of-rendered :
      (p : Proposal)
      → IsRendered p
      → render spine.sandbox p.selection.action p.selection.args ≡ ok (commands_of p)
  unfolding commands_of dry_run
  commands_of-rendered p (commands, hash) =
      let (cs, rendered, h) =
        >>=-eq-ok (render spine.sandbox p.selection.action p.selection.args) _ p.commands
          commands in
      rendered
      ∙ ap ok (
          sym (
            ap noteless (sym (ok_injective _ p.commands h))
            ∙ noteless-or_note cs (
                noteless-template spine.sandbox cs (
                  render-IsTemplate spine.sandbox p.selection.action p.selection.args cs
                    rendered))))
