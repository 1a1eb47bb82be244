-- ===== src/Fivegcap/Flow/Stages.antt =====
-- `handle` of flow.py: the identity and the messages of a flow at each stage.
use net_cortex.Prelude.{
  ℕ, String, ◌≡◌, refl, Option, List, [], ◌∷◌, ◌++◌, arith, nat_eq, pair_eq, option_eq,
  Option-cases, inl, inr, ap, ◌∙◌,
}
use net_cortex.Prelude.Dict
use net_cortex.Prelude.Dict.{Dict, put-put, get-put}
use net_cortex.Fivegcap.Messages.{NgapMsg, NasMsg}
use net_cortex.Fivegcap.Flow.{
  Flow, Kind, Outcome, Work, Procedure, Builder, flow_key, release, close_nas, nas_named, nas_level,
  start_ngap, complete_ngap, complete_oldest, close_opened, start_ngap, ngap_level, nas_of, handle,
  flow_for, step_associated, adopt_amf_id,
}

pub record SameFlow (f g : Flow) : Type 0 where
  pub flow_id : g.flow_id ≡ f.flow_id
  pub assoc : g.assoc ≡ f.assoc
  pub ran_ue_id : g.ran_ue_id ≡ f.ran_ue_id
  pub partial : g.partial ≡ f.partial
  pub messages : g.messages ≡ f.messages

pub SameFlow-refl : (f : Flow) → SameFlow f f
SameFlow-refl f = record {
  flow_id = refl;
  assoc = refl;
  ran_ue_id = refl;
  partial = refl;
  messages = refl;
}

pub SameFlow-trans : {f g h : Flow} → SameFlow f g → SameFlow g h → SameFlow f h
SameFlow-trans p q = record {
  flow_id = q.flow_id ∙ p.flow_id;
  assoc = q.assoc ∙ p.assoc;
  ran_ue_id = q.ran_ue_id ∙ p.ran_ue_id;
  partial = q.partial ∙ p.partial;
  messages = q.messages ∙ p.messages;
}

release-SameFlow : (ng : NgapMsg) (w : Work) → SameFlow w.flow (release ng w).flow
unfolding release
release-SameFlow ng w = ground arith

close_nas-SameFlow :
    (ts : ℕ) (name start : String) (w : Work) → SameFlow w.flow (close_nas ts name start w).flow
unfolding close_nas close_opened
close_nas-SameFlow ts name start w = ground arith

nas_named-SameFlow :
    (ts : ℕ) (name : String) (w : Work) → SameFlow w.flow (nas_named ts name w).flow
unfolding nas_named close_nas close_opened
nas_named-SameFlow ts name w = ground arith

nas_level-SameFlow :
    (ng : NgapMsg) (nas : Option NasMsg) (w : Work) → SameFlow w.flow (nas_level ng nas w).flow
unfolding nas_level nas_named close_nas close_opened
nas_level-SameFlow ng nas w = ground arith

complete_ngap-SameFlow :
    (w : Work) (kind : Kind) (name : String) (outcome : Outcome) (ts : ℕ)
    → SameFlow w.flow (complete_ngap w kind name outcome ts).flow
unfolding complete_ngap complete_oldest
complete_ngap-SameFlow w kind name outcome ts = ground arith

ngap_level-SameFlow : (ng : NgapMsg) (w : Work) → SameFlow w.flow (ngap_level ng w).flow
unfolding ngap_level complete_ngap complete_oldest start_ngap
ngap_level-SameFlow ng w = ground arith

-- The flow after the message: the flow before it with the message, and its NAS part, at the end.
module _ (nas_decode : List ℕ → Option ℕ → NasMsg) where
  nas_of-SameFlow :
      (ng : NgapMsg) (f : Flow) → SameFlow f (nas_of nas_decode ng (adopt_amf_id ng f)).1
  unfolding nas_of
  nas_of-SameFlow ng f = ground arith

  pub handle-SameFlow :
      (ng : NgapMsg) (f : Flow) (open_procs : Dict (ℕ × String) Procedure)
      (ngap_starts : Dict (ℕ × Kind) (List Procedure))
      → SameFlow
          (record f {
            messages = f.messages ++ (ng, (nas_of nas_decode ng (adopt_amf_id ng f)).0) ∷ [];
          })
          (handle nas_decode ng f open_procs ngap_starts).flow
  unfolding handle
  handle-SameFlow ng f open_procs ngap_starts =
      let (nas, f') = nas_of nas_decode ng (adopt_amf_id ng f) in
      let w : Work = record {
        flow = record f' { messages = f'.messages ++ (ng, nas) ∷ [] };
        open_procs = open_procs;
        ngap_starts = ngap_starts;
      } in
      let same = nas_of-SameFlow ng f in
      let r = release ng w in
      SameFlow-trans
        (record {
          flow_id = same.flow_id;
          assoc = same.assoc;
          ran_ue_id = same.ran_ue_id;
          partial = same.partial;
          messages = ap (λ ms. ms ++ (ng, nas) ∷ []) same.messages;
        })
        (SameFlow-trans (release-SameFlow ng w) (
          SameFlow-trans (nas_level-SameFlow ng nas r)
            (ngap_level-SameFlow ng (nas_level ng nas r))))

  pub step_associated-flows :
      (b : Builder) (ng : NgapMsg)
      → (step_associated nas_decode b ng).flows
        ≡ Dict.put
            (flow_key ng)
            (handle nas_decode ng (flow_for b ng).1 b.open_procs b.ngap_starts).flow
            b.flows
  unfolding step_associated flow_for
  step_associated-flows b ng = elim (Option-cases (Dict.get (flow_key ng) b.flows)) [
    | inl e ↦ rw (e, flow_for) (put-put (flow_key ng) _ _ b.flows)
    | inr (f, e) ↦ rw (e, flow_for)
  ]

  pub step_associated-opens :
      (b : Builder) (ng : NgapMsg)
      → (step_associated nas_decode b ng).open_procs
        ≡ (handle nas_decode ng (flow_for b ng).1 b.open_procs b.ngap_starts).open_procs
  unfolding step_associated flow_for
  step_associated-opens b ng = elim (Option-cases (Dict.get (flow_key ng) b.flows)) [
    | inl e ↦ rw (e, flow_for)
    | inr (f, e) ↦ rw (e, flow_for)
  ]

  pub step_associated-starts :
      (b : Builder) (ng : NgapMsg)
      → (step_associated nas_decode b ng).ngap_starts
        ≡ (handle nas_decode ng (flow_for b ng).1 b.open_procs b.ngap_starts).ngap_starts
  unfolding step_associated flow_for
  step_associated-starts b ng = elim (Option-cases (Dict.get (flow_key ng) b.flows)) [
    | inl e ↦ rw (e, flow_for)
    | inr (f, e) ↦ rw (e, flow_for)
  ]
