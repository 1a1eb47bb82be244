-- ===== src/Dispatch/Proposal/Valid.antt =====
-- run_proposal of proposal.py: the selections that it returns.
use net_cortex.Prelude.{
  String, true, false, not, ◌&&◌, Option, none, some, List, [], ◌∷◌, ◌≡◌, ◌≢◌, refl, ap, subst,
  some-injective, ◌⊎◌, inl, inr, ◌==◌, string_eq, if◌then◌else◌, contains, is_empty, Bool-cases,
  arith,
}
use net_cortex.Prelude.Json
use net_cortex.Prelude.Json.{Json, Fields, null, bool, num, str, arr, obj, end, field}
use net_cortex.Prelude.Results.{Fallible, ok, raise}
use net_cortex.Dispatch.Evidence.{EvidenceItem, AlarmEvent}
use net_cortex.Dispatch.Executor.{Selection, actions}
use net_cortex.Dispatch.Runbook.{bind_placeholders}
use net_cortex.Dispatch.Runbook.Bound.{AreBound, bind_placeholders-AreBound}
use net_cortex.Dispatch.Proposal.{
  Proposing, justification_of, action_of, args_of, no_fields, when_bound, chosen_selection,
  selected, run_proposal, incident_text,
}

justification_of-some : (j : Json) (s : String) → justification_of j ≡ some s → s == "" ≡ false
unfolding justification_of
justification_of-some (str t) s h = ground arith
justification_of-some null s h = cc
justification_of-some (bool b) s h = cc
justification_of-some (num n) s h = cc
justification_of-some (arr xs) s h = cc
justification_of-some (obj fs) s h = cc

action_of-some : (j : Json) (s : String) → action_of j ≡ some s → contains actions s ≡ true
unfolding action_of
action_of-some (str t) s h = ground arith
action_of-some null s h = cc
action_of-some (bool b) s h = cc
action_of-some (num n) s h = cc
action_of-some (arr xs) s h = cc
action_of-some (obj fs) s h = cc

args_of-some : (j : Json) (fs : Fields) → args_of j ≡ some fs → j ≡ obj fs
unfolding args_of
args_of-some (obj gs) fs h = ap obj (some-injective gs fs h)
args_of-some null fs h = absurd (cc)
args_of-some (bool b) fs h = absurd (cc)
args_of-some (num n) fs h = absurd (cc)
args_of-some (str t) fs h = absurd (cc)
args_of-some (arr xs) fs h = absurd (cc)

is_empty-nil : {A : Type 0} (xs : List A) → is_empty xs ≡ true → xs ≡ []
is_empty-nil [] h = refl
is_empty-nil (x ∷ xs) h = absurd (cc)

module _ (placeholder : String → Option String) (evidence : List EvidenceItem) where
  -- a selection of the vocabulary: an action of it, a text that is not empty, no args where nothing
  -- is to be done, and args that are the given ones, with their placeholders bound where there is
  -- evidence
  pub record IsValid (given : Fields) (s : Selection) : Type 0 where
    known : contains actions s.action ≡ true
    justified : s.justification == "" ≡ false
    bare : s.action == "observe_only" && not (no_fields given) ≡ false
    args_bound :
        ((evidence ≡ []) × (s.args ≡ given))
        ⊎ ((evidence ≢ []) × AreBound placeholder evidence given s.args)

  when_bound-some :
      (action justification : String) (r : Fallible String Fields) (s : Selection)
      → when_bound action justification r ≡ some s
      → (args : Fields) × (r ≡ ok args)
        × (record { action = action; args = args; justification = justification } ≡ s)
  unfolding when_bound
  when_bound-some action justification (raise e) s h = cc
  when_bound-some action justification (ok args) s h = (args, refl, some-injective _ s h)

  bound_or_same :
      (given args : Fields)
      → (if is_empty evidence then ok given else bind_placeholders placeholder evidence given)
        ≡ ok args
      → ((evidence ≡ []) × (args ≡ given))
        ⊎ ((evidence ≢ []) × AreBound placeholder evidence given args)
  bound_or_same given args h = elim (Bool-cases (is_empty evidence)) [
    | inl empty ↦ inl (is_empty-nil evidence empty, ground (arith, rw empty at h))
    | inr some_items ↦ inr (
      λ nothing. absurd (cc (ap is_empty nothing, some_items)),
      bind_placeholders-AreBound placeholder evidence given args (rw some_items at h),
    )
  ]

  chosen_selection-IsValid :
      (a : Option String) (g : Option Fields) (j : Option String) (s : Selection)
      → ((t : String) → a ≡ some t → contains actions t ≡ true)
      → ((t : String) → j ≡ some t → t == "" ≡ false)
      → chosen_selection placeholder evidence a g j ≡ some s
      → (given : Fields) × (g ≡ some given) × IsValid given s
  unfolding chosen_selection
  chosen_selection-IsValid none g j s known justified h = absurd (cc)
  chosen_selection-IsValid (some a) none j s known justified h = absurd (cc)
  chosen_selection-IsValid (some a) (some given) none s known justified h = absurd (cc)
  chosen_selection-IsValid (some a) (some given) (some j) s known justified h =
      elim (Bool-cases (a == "observe_only" && not (no_fields given))) [
        | inl args ↦ absurd (ground (arith, rw args at h))
        | inr bare ↦
            let (args, bound, same) = when_bound-some a j _ s (rw bare at h) in
            (
              given,
              refl,
              subst (IsValid given) same (record {
                known = known a refl;
                justified = justified j refl;
                bare = bare;
                args_bound = bound_or_same given args bound;
              }),
            )
      ]

  selected-IsValid :
      (o : Option Json) (s : Selection)
      → selected placeholder evidence o ≡ some s
      → (fields given : Fields) × (o ≡ some (obj fields))
        × (Json.get "args" fields ≡ obj given)
        × IsValid given s
  unfolding selected
  selected-IsValid none s h = absurd (cc)
  selected-IsValid (some null) s h = absurd (cc)
  selected-IsValid (some (bool b)) s h = absurd (cc)
  selected-IsValid (some (num n)) s h = absurd (cc)
  selected-IsValid (some (str t)) s h = absurd (cc)
  selected-IsValid (some (arr xs)) s h = absurd (cc)
  selected-IsValid (some (obj fields)) s h =
      let (given, is_args, valid) =
        chosen_selection-IsValid (action_of (Json.get "action" fields))
          (args_of (Json.get "args" fields)) (justification_of (Json.get "justification" fields)) s
          (action_of-some _) (justification_of-some _) h in
      (fields, given, refl, args_of-some _ given is_args, valid)

-- A proposal comes from an object that the proposer gave for the incident's text. Its action is one
-- of the vocabulary, its justification is not empty, and an observation has no args. Where there is
-- no evidence its args are the object's; where there is, they are the object's with every
-- placeholder bound.
pub run_proposal-IsValid :
    (p : Proposing) (event : AlarmEvent) (root_cause : String) (evidence : List EvidenceItem)
    (s : Selection)
    → run_proposal p event root_cause evidence ≡ some s
    → (fields given : Fields) × (p.proposer
          (incident_text p.spell p.dumps event p.runbooks evidence)
          root_cause
        ≡ some (obj fields))
      × (Json.get "args" fields ≡ obj given)
      × IsValid p.placeholder evidence given s
unfolding run_proposal
run_proposal-IsValid p event root_cause evidence s h = selected-IsValid p.placeholder evidence _ s h
