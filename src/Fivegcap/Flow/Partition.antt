-- ===== src/Fivegcap/Flow/Partition.antt =====
-- `build_flows` of flow.py: which messages each flow holds.
use net_cortex.Prelude.{
  ℕ, Bool, ◌≡◌, refl, Option, none, some, List, [], ◌∷◌, ◌++◌, map, arith, ◌==◌, nat_eq, pair_eq,
  option_eq, Bool-cases, Option-cases, inl, inr, not, if◌then◌else◌, ap, ◌∙◌, filter, append-nil,
  append_assoc, map-append, ◌&&◌, All, true, false, sym, ap₂, subst, ◌≢◌, Pairwise,
}
use net_cortex.Prelude.Dict
use net_cortex.Prelude.Dict.{
  Dict, get-put, NodupKeys, put-NodupKeys, AllEntries, AllEntries-put, AllEntries-get,
  AllEntries-of-get, All-values, get-nil, values-Pairwise_ne,
}
use net_cortex.Fivegcap.Messages.{NgapMsg, NasMsg}
use net_cortex.Fivegcap.Flow.{
  Flow, Builder, FlowKey, flow_key, is_associated, flow_for, step_associated, step, run, initial,
  build_flows, handle,
}
use net_cortex.Fivegcap.Flow.Stages.{handle-SameFlow, step_associated-flows}

-- the messages of a flow, without their NAS parts
abbrev pub ngap_messages : Flow → List NgapMsg
ngap_messages f = map (λ m. m.0) f.messages

abbrev pub key_of : Flow → FlowKey
key_of f = (f.assoc, f.ran_ue_id)

-- the message is one of the UE with that key
abbrev pub belongs : FlowKey → NgapMsg → Bool
belongs k ng = is_associated ng && k == flow_key ng

abbrev held : Option Flow → List NgapMsg
held none = []
held (some f) = ngap_messages f

abbrev messages_of : FlowKey → Builder → List NgapMsg
messages_of k b = held (Dict.get k b.flows)

abbrev IsKeyed : Builder → Type 0
IsKeyed b = NodupKeys b.flows × AllEntries (λ k f. k ≡ key_of f) b.flows

flow_for-messages :
    (b : Builder) (ng : NgapMsg) → ngap_messages (flow_for b ng).1 ≡ messages_of (flow_key ng) b
unfolding flow_for
flow_for-messages b ng = ground arith

flow_for-key :
    (b : Builder) (ng : NgapMsg)
    → AllEntries (λ k f. k ≡ key_of f) b.flows
    → flow_key ng ≡ key_of (flow_for b ng).1
unfolding flow_for
flow_for-key b ng h = elim (Option-cases (Dict.get (flow_key ng) b.flows)) [
  | inl e ↦ rw (e, flow_for)
  | inr (f, e) ↦ rw (e, flow_for) (AllEntries-get (λ k f. k ≡ key_of f) (flow_key ng) f b.flows e h)
]

if-cons :
    (t : Bool) (ng : NgapMsg) (ms : List NgapMsg)
    → (if t then ng ∷ [] else []) ++ ms ≡ (if t then ng ∷ ms else ms)
if-cons true ng ms = refl
if-cons false ng ms = refl

written :
    (k j : FlowKey) (f : Flow) (o : Option Flow) (ms : List NgapMsg)
    → (k ≡ j → ngap_messages f ≡ held o ++ ms)
    → held (if k == j then some f else o) ≡ held o ++ (if k == j then ms else [])
written k j f o ms h = ground (arith, append-nil (held o))

module _ (nas_decode : List ℕ → Option ℕ → NasMsg) where
  handle-messages :
      (b : Builder) (ng : NgapMsg)
      → ngap_messages (handle nas_decode ng (flow_for b ng).1 b.open_procs b.ngap_starts).flow
        ≡ messages_of (flow_key ng) b ++ ng ∷ []
  handle-messages b ng =
      ap (map (λ m. m.0))
        (handle-SameFlow nas_decode ng (flow_for b ng).1 b.open_procs b.ngap_starts).messages
      ∙ map-append (λ m. m.0) (flow_for b ng).1.messages _
      ∙ ap (λ ms. ms ++ ng ∷ []) (flow_for-messages b ng)

  step-messages :
      (b : Builder) (ng : NgapMsg) (k : FlowKey)
      → messages_of k (step nas_decode b ng)
        ≡ messages_of k b ++ (if belongs k ng then ng ∷ [] else [])
  unfolding step
  step-messages b ng k = elim (Bool-cases (is_associated ng)) [
    | inl e ↦ rw e (
        ap (λ d. held (Dict.get k d)) (step_associated-flows nas_decode b ng)
        ∙ ap held (get-put k (flow_key ng) _ b.flows)
        ∙ written k (flow_key ng) _ (Dict.get k b.flows) (ng ∷ [])
            (λ e. rw e (handle-messages b ng)))
    | inr e ↦ rw e (sym (append-nil (messages_of k b)))
  ]

  run-messages :
      (msgs : List NgapMsg) (b : Builder) (k : FlowKey)
      → messages_of k (run nas_decode b msgs) ≡ messages_of k b ++ filter (belongs k) msgs
  unfolding run
  run-messages [] b k = sym (append-nil (messages_of k b))
  run-messages (ng ∷ msgs) b k =
      run-messages msgs (step nas_decode b ng) k
      ∙ ap (λ ms. ms ++ filter (belongs k) msgs) (step-messages b ng k)
      ∙ append_assoc (messages_of k b) _ _
      ∙ ap (λ ms. messages_of k b ++ ms) (if-cons (belongs k ng) ng (filter (belongs k) msgs))

  step-IsKeyed : (b : Builder) (ng : NgapMsg) → IsKeyed b → IsKeyed (step nas_decode b ng)
  unfolding step
  step-IsKeyed b ng h = elim (Bool-cases (is_associated ng)) [
    | inl e ↦
        rw (e, step_associated-flows nas_decode b ng)
          (
            put-NodupKeys (flow_key ng) _ b.flows h.0,
            AllEntries-put (λ k f. k ≡ key_of f) (flow_key ng) _ b.flows
                (let same =
                    handle-SameFlow nas_decode ng (flow_for b ng).1 b.open_procs b.ngap_starts in
                  flow_for-key b ng h.1 ∙ sym (ap₂ (λ a r. (a, r)) same.assoc same.ran_ue_id))
                h.1,
          )
    | inr e ↦ rw e h
  ]

  run-IsKeyed : (msgs : List NgapMsg) (b : Builder) → IsKeyed b → IsKeyed (run nas_decode b msgs)
  unfolding run
  run-IsKeyed [] b h = h
  run-IsKeyed (ng ∷ msgs) b h = run-IsKeyed msgs (step nas_decode b ng) (step-IsKeyed b ng h)

  step-unassociated :
      (b : Builder) (ng : NgapMsg)
      → (step nas_decode b ng).unassociated
        ≡ b.unassociated ++ (if not (is_associated ng) then ng ∷ [] else [])
  unfolding step step_associated flow_for
  step-unassociated b ng = ground (arith, append-nil b.unassociated)

  run-unassociated :
      (msgs : List NgapMsg) (b : Builder)
      → (run nas_decode b msgs).unassociated
        ≡ b.unassociated ++ filter (λ ng. not (is_associated ng)) msgs
  unfolding run
  run-unassociated [] b = sym (append-nil b.unassociated)
  run-unassociated (ng ∷ msgs) b =
      run-unassociated msgs (step nas_decode b ng)
      ∙ ap (λ ms. ms ++ filter (λ m. not (is_associated m)) msgs) (step-unassociated b ng)
      ∙ append_assoc b.unassociated _ _
      ∙ ap (λ ms. b.unassociated ++ ms)
          (if-cons (not (is_associated ng)) ng (filter (λ m. not (is_associated m)) msgs))

  -- Each flow that `build_flows` returns holds exactly the UE-associated messages with its
  -- association and RAN UE id, in the order of the capture, and no two flows have one key; the
  -- messages without a UE id are returned beside them, in order.
  pub build_flows-partition :
      (msgs : List NgapMsg)
      → All
          (λ f. ngap_messages f ≡ filter (belongs (key_of f)) msgs)
          (build_flows nas_decode msgs).0
        × Pairwise (λ f g. key_of f ≢ key_of g) (build_flows nas_decode msgs).0
        × ((build_flows nas_decode msgs).1 ≡ filter (λ ng. not (is_associated ng)) msgs)
  unfolding build_flows
  build_flows-partition msgs =
      let b = run nas_decode initial msgs in
      let (nodup, keyed) = run-IsKeyed msgs initial (tt, tt) in
      (
        All-values _ b.flows (
            AllEntries-of-get _ b.flows nodup (λ k f g.
              let at : k ≡ key_of f = AllEntries-get (λ j h. j ≡ key_of h) k f b.flows g keyed in
              subst (λ j. ngap_messages f ≡ filter (belongs j) msgs) at
                (sym (ap held g)
                  ∙ run-messages msgs initial k
                  ∙ ap (λ o. held o ++ filter (belongs k) msgs) (get-nil k)))),
        values-Pairwise_ne key_of b.flows nodup keyed,
        run-unassociated msgs initial,
      )
