-- ===== src/Fivegcap/Flow/Timely.antt =====
-- `build_flows` of flow.py: the recorded procedures, over a whole capture in time order.
use net_cortex.Prelude.{
  ℕ, ◌≤◌, ◌≡◌, refl, Option, List, [], ◌∷◌, arith, Bool-cases, Option-cases, inl, inr, nat_eq,
  pair_eq, option_eq, string_eq, All, All-mono, Pairwise,
}
use net_cortex.Prelude.Dict
use net_cortex.Prelude.Dict.{
  Dict, AllEntries, AllValues, AllEntries-put, AllEntries-pop, AllEntries-get, AllEntries-mono,
  All-values,
}
use net_cortex.Fivegcap.Messages.{NgapMsg, NasMsg}
use net_cortex.Fivegcap.Flow.{
  Flow, Builder, kind_eq, flow_key, is_associated, flow_for, step, run, initial, build_flows,
  handle, nas_of, adopt_amf_id,
}
use net_cortex.Fivegcap.Flow.Stages.{
  step_associated-flows, step_associated-opens, step_associated-starts,
}
use net_cortex.Fivegcap.Flow.Closing.{
  HasEnded, Ended, Started, IsTimed, release-IsTimed, nas_level-IsTimed, ngap_level-IsTimed,
}

-- what holds of the variables of `build_flows` before a message of time `now` or later
record IsTimely (now : ℕ) (b : Builder) : Type 0 where
  flows : AllValues Ended b.flows
  opens : AllValues (Started now) b.open_procs
  starts : AllValues (All (Started now)) b.ngap_starts

IsTimely-le : {m n : ℕ} {b : Builder} → m ≤ n → IsTimely m b → IsTimely n b
IsTimely-le {m} {n} {b} le h = record {
  flows = h.flows;
  opens = AllEntries-mono _ _ (λ _ p (s : Started m p). omega arith) b.open_procs h.opens;
  starts =
      AllEntries-mono _ _
        (λ _ ps s. All-mono (Started m) (Started n) (λ p (t : Started m p). omega arith) ps s)
        b.ngap_starts h.starts;
}

flow_for-Ended : (b : Builder) (ng : NgapMsg) → AllValues Ended b.flows → Ended (flow_for b ng).1
unfolding flow_for
flow_for-Ended b ng h = elim (Option-cases (Dict.get (flow_key ng) b.flows)) [
  | inl e ↦ rw (e, flow_for) tt
  | inr (f, e) ↦ rw (e, flow_for) (AllEntries-get _ (flow_key ng) f b.flows e h)
]

module _ (nas_decode : List ℕ → Option ℕ → NasMsg) where
  nas_of-procedures :
      (ng : NgapMsg) (f : Flow)
      → (nas_of nas_decode ng (adopt_amf_id ng f)).1.procedures ≡ f.procedures
  unfolding nas_of
  nas_of-procedures ng f = ground arith

  handle-IsTimed :
      (b : Builder) (ng : NgapMsg)
      → IsTimely ng.ts b
      → IsTimed ng.ts (handle nas_decode ng (flow_for b ng).1 b.open_procs b.ngap_starts)
  unfolding handle
  handle-IsTimed b ng h = ngap_level-IsTimed ng.ts ng _ refl (
      nas_level-IsTimed ng.ts _ ng _ refl (
        release-IsTimed ng.ts ng _ (record {
          flow = rw (nas_of-procedures ng (flow_for b ng).1) (flow_for-Ended b ng h.flows);
          opens = h.opens;
          starts = h.starts;
        })))

  step-IsTimely :
      (b : Builder) (ng : NgapMsg) → IsTimely ng.ts b → IsTimely ng.ts (step nas_decode b ng)
  unfolding step
  step-IsTimely b ng h = elim (Bool-cases (is_associated ng)) [
    | inl e ↦ rw e (
        let w = handle-IsTimed b ng h in
        record {
          flows =
              rw (step_associated-flows nas_decode b ng)
                (AllEntries-put _ _ _ b.flows w.flow h.flows);
          opens = rw (step_associated-opens nas_decode b ng) w.opens;
          starts = rw (step_associated-starts nas_decode b ng) w.starts;
        })
    | inr e ↦ rw e (record { flows = h.flows; opens = h.opens; starts = h.starts })
  ]

  run-Ended :
      (now : ℕ) (msgs : List NgapMsg) (b : Builder)
      → All (λ ng. now ≤ ng.ts) msgs
      → Pairwise (λ m n. m.ts ≤ n.ts) msgs
      → IsTimely now b
      → AllValues Ended (run nas_decode b msgs).flows
  unfolding run
  run-Ended now [] b later sorted h = h.flows
  run-Ended now (ng ∷ msgs) b (le, later) (after, sorted) h =
      run-Ended ng.ts msgs (step nas_decode b ng) after sorted
        (step-IsTimely b ng (IsTimely-le le h))

  -- In a capture whose messages are in time order, every procedure that a flow records has an end
  -- message, an end time that is not before its start, and an outcome, accept or reject.
  pub build_flows-HasEnded :
      (msgs : List NgapMsg)
      → Pairwise (λ m n. m.ts ≤ n.ts) msgs
      → All (λ f. All HasEnded f.procedures) (build_flows nas_decode msgs).0
  unfolding build_flows
  build_flows-HasEnded msgs sorted = All-values Ended _ (
      run-Ended 0 msgs initial (all_later msgs) sorted
        (record { flows = tt; opens = tt; starts = tt }))
    where
      all_later : (ms : List NgapMsg) → All (λ ng. 0 ≤ ng.ts) ms
      all_later [] = tt
      all_later (m ∷ ms) = (omega arith, all_later ms)
