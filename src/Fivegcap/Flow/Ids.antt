-- ===== src/Fivegcap/Flow/Ids.antt =====
-- `build_flows` of flow.py: the ids of the flows, and the count of the messages.
use net_cortex.Prelude.{
  ℕ, suc, ◌+◌, ◌≡◌, refl, sym, ap, ◌∙◌, Option, none, some, List, [], ◌∷◌, ◌++◌, map, arith,
  map-append, Bool-cases, Option-cases, inl, inr, nat_eq, pair_eq, option_eq, length, length-append,
  sum, sum-append, count_from, count_from-append, ap₂, ◌⊎◌,
}
use net_cortex.Prelude.Dict
use net_cortex.Prelude.Dict.{values-put_new, map-values-put, sum-values-put}
use net_cortex.Fivegcap.Messages.{NgapMsg, NasMsg}
use net_cortex.Fivegcap.Flow.{
  Flow, Builder, flow_key, is_associated, flow_for, step_associated, step, run, initial,
  build_flows, handle,
}
use net_cortex.Fivegcap.Flow.Stages.{handle-SameFlow, step_associated-flows}

abbrev pub message_count : Flow → ℕ
message_count f = length f.messages

-- the messages held by the flows and beside them
abbrev total : List Flow → List NgapMsg → ℕ
total flows unassociated = sum (map message_count flows) + length unassociated

abbrev ids : List Flow → List ℕ
ids = map (λ f. f.flow_id)

abbrev IsNumbered : Builder → Type 0
IsNumbered b =
    (ids (Dict.values b.flows) ≡ count_from 1 (length (Dict.values b.flows)))
    × (b.next_id ≡ suc (length (Dict.values b.flows)))

length-ids : (fs : List Flow) → length (ids fs) ≡ length fs
length-ids [] = refl
length-ids (f ∷ fs) = ap suc (length-ids fs)

one_more : (n : ℕ) → suc n ≡ 1 + n
one_more n = omega arith

longer : (fs : List Flow) (f : Flow) → suc (length fs) ≡ length (fs ++ f ∷ [])
longer fs f = omega (arith, length-append fs (f ∷ []))

extended :
    (fs : List Flow) (f : Flow)
    → count_from 1 (length fs) ++ suc (length fs) ∷ [] ≡ count_from 1 (length (fs ++ f ∷ []))
extended fs f =
    ap (λ n. count_from 1 (length fs) ++ n ∷ []) (one_more (length fs))
    ∙ count_from-append 1 (length fs)
    ∙ ap (λ n. count_from 1 n) (longer fs f)

module _ (nas_decode : List ℕ → Option ℕ → NasMsg) (b : Builder) (ng : NgapMsg) where
  next : Flow
  next = (handle nas_decode ng (flow_for b ng).1 b.open_procs b.ngap_starts).flow

  next-messages : length next.messages ≡ length (flow_for b ng).1.messages + 1
  unfolding next
  next-messages =
      let same = handle-SameFlow nas_decode ng (flow_for b ng).1 b.open_procs b.ngap_starts in
      ap length same.messages ∙ length-append (flow_for b ng).1.messages _

  next-flow_id : next.flow_id ≡ (flow_for b ng).1.flow_id
  unfolding next
  next-flow_id =
      (handle-SameFlow nas_decode ng (flow_for b ng).1 b.open_procs b.ngap_starts).flow_id

  flows_after : (step_associated nas_decode b ng).flows ≡ Dict.put (flow_key ng) next b.flows
  unfolding next
  flows_after = step_associated-flows nas_decode b ng

  -- where the key is new, one flow with the next id is added
  module _ (fresh : Dict.get (flow_key ng) b.flows ≡ none) where
    new_values :
        Dict.values (step_associated nas_decode b ng).flows ≡ Dict.values b.flows ++ next ∷ []
    new_values = ap Dict.values flows_after ∙ values-put_new (flow_key ng) next b.flows fresh

    new_id : next.flow_id ≡ b.next_id
    unfolding flow_for
    new_id = next-flow_id ∙ ground arith

    new_message : length next.messages ≡ 1
    unfolding flow_for
    new_message = next-messages ∙ ground arith

    new_next_id : (step_associated nas_decode b ng).next_id ≡ suc b.next_id
    unfolding step_associated flow_for
    new_next_id = ground arith

    IsNumbered-new : IsNumbered b → IsNumbered (step_associated nas_decode b ng)
    IsNumbered-new (numbers, bound) = (
      rw new_values (
          map-append (λ f. f.flow_id) (Dict.values b.flows) (next ∷ [])
          ∙ ap₂ (λ xs n. xs ++ n ∷ []) numbers (new_id ∙ bound)
          ∙ extended (Dict.values b.flows) next),
      rw new_values
          (new_next_id ∙ omega (arith, bound, length-append (Dict.values b.flows) (next ∷ []))),
    )

  -- where the key is known, its flow keeps its id
  module _ (f : Flow) (known : Dict.get (flow_key ng) b.flows ≡ some f) where
    same_id : next.flow_id ≡ f.flow_id
    unfolding flow_for
    same_id = next-flow_id ∙ ground arith

    same_ids : ids (Dict.values (step_associated nas_decode b ng).flows) ≡ ids (Dict.values b.flows)
    same_ids =
        ap (λ d. ids (Dict.values d)) flows_after
        ∙ map-values-put (λ g. g.flow_id) (flow_key ng) f next b.flows known same_id

    same_next_id : (step_associated nas_decode b ng).next_id ≡ b.next_id
    unfolding step_associated flow_for
    same_next_id = ground arith

    same_length :
        length (Dict.values (step_associated nas_decode b ng).flows) ≡ length (Dict.values b.flows)
    same_length = sym (length-ids _) ∙ ap length same_ids ∙ length-ids _

    IsNumbered-known : IsNumbered b → IsNumbered (step_associated nas_decode b ng)
    IsNumbered-known (numbers, bound) =
        (rw same_length (same_ids ∙ numbers), rw same_length (same_next_id ∙ bound))

    one_more_message : length next.messages ≡ length f.messages + 1
    unfolding flow_for
    one_more_message = next-messages ∙ ground arith

module _ (nas_decode : List ℕ → Option ℕ → NasMsg) where
  step-IsNumbered : (b : Builder) (ng : NgapMsg) → IsNumbered b → IsNumbered (step nas_decode b ng)
  unfolding step
  step-IsNumbered b ng h = elim (Bool-cases (is_associated ng)) [
    | inl e ↦ rw e (cases (Option-cases (Dict.get (flow_key ng) b.flows)))
    | inr e ↦ rw e h
  ]
    where
      cases :
          (Dict.get (flow_key ng) b.flows ≡ none)
            ⊎ ((f : Flow) × (Dict.get (flow_key ng) b.flows ≡ some f))
          → IsNumbered (step_associated nas_decode b ng)
      cases (inl e) = IsNumbered-new nas_decode b ng e h
      cases (inr (f, e)) = IsNumbered-known nas_decode b ng f e h

  run-IsNumbered :
      (msgs : List NgapMsg) (b : Builder) → IsNumbered b → IsNumbered (run nas_decode b msgs)
  unfolding run
  run-IsNumbered [] b h = h
  run-IsNumbered (ng ∷ msgs) b h =
      run-IsNumbered msgs (step nas_decode b ng) (step-IsNumbered b ng h)

  -- The flows that `build_flows` returns have the ids 1, 2, 3, … in their order.
  pub build_flows-ids :
      (msgs : List NgapMsg)
      → map (λ f. f.flow_id) (build_flows nas_decode msgs).0
        ≡ count_from 1 (length (build_flows nas_decode msgs).0)
  unfolding build_flows
  build_flows-ids msgs = (run-IsNumbered msgs initial (unfold Dict.values in (refl, refl))).0

  added :
      (b : Builder) (ng : NgapMsg)
      → sum (map message_count (Dict.values (step_associated nas_decode b ng).flows))
        ≡ sum (map message_count (Dict.values b.flows)) + 1
  added b ng = elim (Option-cases (Dict.get (flow_key ng) b.flows)) [
    | inl e ↦ rw (new_values nas_decode b ng e) (
        ap sum (map-append message_count (Dict.values b.flows) _)
        ∙ sum-append (map message_count (Dict.values b.flows)) _
        ∙ omega (arith, new_message nas_decode b ng e))
    | inr (f, e) ↦ rw (flows_after nas_decode b ng) (
        omega (
          arith,
          sum-values-put message_count (flow_key ng) f (next nas_decode b ng) b.flows e,
          one_more_message nas_decode b ng f e,
        ))
  ]

  same_unassociated :
      (b : Builder) (ng : NgapMsg) → (step_associated nas_decode b ng).unassociated ≡ b.unassociated
  unfolding step_associated flow_for
  same_unassociated b ng = ground arith

  step-total :
      (b : Builder) (ng : NgapMsg)
      → total (Dict.values (step nas_decode b ng).flows) (step nas_decode b ng).unassociated
        ≡ total (Dict.values b.flows) b.unassociated + 1
  unfolding step
  step-total b ng = elim (Bool-cases (is_associated ng)) [
    | inl e ↦ rw e (omega (arith, added b ng, ap length (same_unassociated b ng)))
    | inr e ↦ rw e (omega (arith, length-append b.unassociated (ng ∷ [])))
  ]

  run-total :
      (msgs : List NgapMsg) (b : Builder)
      → total (Dict.values (run nas_decode b msgs).flows) (run nas_decode b msgs).unassociated
        ≡ total (Dict.values b.flows) b.unassociated + length msgs
  unfolding run
  run-total [] b = omega arith
  run-total (ng ∷ msgs) b = run-total msgs (step nas_decode b ng) ∙ omega (arith, step-total b ng)

  -- The messages of the flows and those beside them are as many as the messages of the capture.
  pub build_flows-total :
      (msgs : List NgapMsg)
      → sum (map message_count (build_flows nas_decode msgs).0)
          + length (build_flows nas_decode msgs).1
        ≡ length msgs
  unfolding build_flows
  build_flows-total msgs = run-total msgs initial ∙ unfold Dict.values in omega arith
