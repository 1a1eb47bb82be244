-- ===== src/Fivegcap/Flow/Closing.antt =====
-- `handle` of flow.py: how one message records and ends procedures.
use net_cortex.Prelude.{
  ℕ, ◌≤◌, String, ◌≡◌, ◌≢◌, refl, true, false, Bool, Option, none, some, List, [], ◌∷◌, arith,
  Bool-cases, Option-cases, inl, inr, nat_eq, pair_eq, option_eq, string_eq, All, All-append, any,
  if◌then◌else◌, ends_with, ◌==◌, contains, ◌||◌, truthy, or_else,
}
use net_cortex.Prelude.Dict
use net_cortex.Prelude.Dict.{
  Dict, AllEntries, AllValues, AllEntries-put, AllEntries-pop, AllEntries-get, AllEntries-mono,
  All-values,
}
use net_cortex.Fivegcap.Messages.{NgapMsg, NasMsg}
use net_cortex.Fivegcap.Flow.{
  Flow, Work, Procedure, Kind, Outcome, opened, accept, reject, kind_eq, release, close_nas,
  nas_named, nas_level, start_ngap, complete_ngap, complete_oldest, close_opened, ngap_level,
  finish, releases, reg_start, pdu_start, reg_end, pdu_end, registration, pdu_session_est,
}

pub record HasEnded (p : Procedure) : Type 0 where
  pub end_ts : ℕ
  pub end_msg : String
  pub ends_at : p.end_ts ≡ some end_ts
  pub ends_by : p.end_msg ≡ some end_msg
  pub outcome : p.outcome ≢ opened
  pub ordered : p.start_ts ≤ end_ts

abbrev pub Ended : Flow → Type 0
Ended f = All HasEnded f.procedures

abbrev pub Started : ℕ → Procedure → Type 0
Started now p = p.start_ts ≤ now

-- what holds of the working state at time `now`
pub record IsTimed (now : ℕ) (w : Work) : Type 0 where
  pub flow : Ended w.flow
  pub opens : AllValues (Started now) w.open_procs
  pub starts : AllValues (All (Started now)) w.ngap_starts

finish-HasEnded :
    (p : Procedure) (now : ℕ) (msg : String) (outcome : Outcome)
    → Started now p
    → outcome ≢ opened
    → HasEnded (finish p now msg outcome)
finish-HasEnded p now msg outcome h ne = record {
  end_ts = now;
  end_msg = msg;
  ends_at = refl;
  ends_by = refl;
  outcome = ne;
  ordered = h;
}

ended : (name : String) → (if ends_with name "Accept" then accept else reject) ≢ opened
ended name = ground arith

if-IsTimed :
    {now : ℕ} (t : Bool) (u v : Work)
    → IsTimed now u
    → IsTimed now v
    → IsTimed now (if t then u else v)
if-IsTimed true u v h k = h
if-IsTimed false u v h k = k

module _ (now : ℕ) where
  pub release-IsTimed : (ng : NgapMsg) (w : Work) → IsTimed now w → IsTimed now (release ng w)
  unfolding release
  release-IsTimed ng w h = elim (Bool-cases (contains releases ng.name)) [
    | inl e ↦ rw e (record {
      flow = h.flow;
      opens = h.opens;
      starts = AllEntries-pop _ _ _ (AllEntries-pop _ _ w.ngap_starts h.starts);
    })
    | inr e ↦ rw e h
  ]

  start_ngap-IsTimed :
      (w : Work) (kind : Kind) (msg : String)
      → IsTimed now w
      → IsTimed now (start_ngap w kind now msg)
  unfolding start_ngap
  start_ngap-IsTimed w kind msg h =
      elim (Option-cases (Dict.get (w.flow.flow_id, kind) w.ngap_starts)) [
        | inl e ↦ rw e (record {
          flow = h.flow;
          opens = h.opens;
          starts = AllEntries-put _ _ _ w.ngap_starts (omega arith, tt) h.starts;
        })
        | inr (ps, e) ↦ rw e (record {
          flow = h.flow;
          opens = h.opens;
          starts =
              AllEntries-put _ _ _ w.ngap_starts
                (All-append (Started now) ps _ (AllEntries-get _ _ ps w.ngap_starts e h.starts)
                  (omega arith, tt))
                h.starts;
        })
      ]

  complete_oldest-IsTimed :
      (w : Work) (kind : Kind) (name : String) (outcome : Outcome) (o : Option (List Procedure))
      → outcome ≢ opened
      → Dict.get (w.flow.flow_id, kind) w.ngap_starts ≡ o
      → IsTimed now w
      → IsTimed now (complete_oldest w kind name outcome now o)
  unfolding complete_oldest
  complete_oldest-IsTimed w kind name outcome none ne e h = h
  complete_oldest-IsTimed w kind name outcome (some []) ne e h = h
  complete_oldest-IsTimed w kind name outcome (some (p ∷ rest)) ne e h =
      let held = AllEntries-get _ _ (p ∷ rest) w.ngap_starts e h.starts in
      record {
        flow =
            All-append HasEnded w.flow.procedures _ h.flow
              (finish-HasEnded p now name outcome held.0 ne, tt);
        opens = h.opens;
        starts = AllEntries-put _ _ rest w.ngap_starts held.1 h.starts;
      }

  complete_ngap-IsTimed :
      (w : Work) (kind : Kind) (name : String) (outcome : Outcome)
      → outcome ≢ opened
      → IsTimed now w
      → IsTimed now (complete_ngap w kind name outcome now)
  unfolding complete_ngap
  complete_ngap-IsTimed w kind name outcome ne h =
      elim (Bool-cases (any (λ p. p.kind == kind) w.flow.procedures)) [
        | inl e ↦ rw e (record {
          flow = h.flow;
          opens = h.opens;
          starts = AllEntries-pop _ _ w.ngap_starts h.starts;
        })
        | inr e ↦ rw e (complete_oldest-IsTimed w kind name outcome _ ne refl h)
      ]

  close_opened-IsTimed :
      (name start : String) (w : Work) (o : Option Procedure)
      → Dict.get (w.flow.flow_id, start) w.open_procs ≡ o
      → IsTimed now w
      → IsTimed now (close_opened now name start w o)
  unfolding close_opened
  close_opened-IsTimed name start w none e h = h
  close_opened-IsTimed name start w (some p) e h = record {
    flow = All-append HasEnded w.flow.procedures _ h.flow (
      finish-HasEnded p now name _ (AllEntries-get _ _ p w.open_procs e h.opens) (ended name),
      tt,
    );
    opens = AllEntries-pop _ _ w.open_procs h.opens;
    starts = h.starts;
  }

  nas_named-IsTimed :
      (name : String) (w : Work) → IsTimed now w → IsTimed now (nas_named now name w)
  unfolding nas_named close_nas
  nas_named-IsTimed name w h = elim (Bool-cases (name == reg_start || name == pdu_start)) [
    | inl e ↦ rw e (record {
      flow = h.flow;
      opens = AllEntries-put _ _ _ w.open_procs (omega arith) h.opens;
      starts = h.starts;
    })
    | inr e ↦ rw e (
        if-IsTimed (contains reg_end name) _ _ (close_opened-IsTimed name reg_start w _ refl h) (
          if-IsTimed (contains pdu_end name) _ _ (close_opened-IsTimed name pdu_start w _ refl h)
            h))
  ]

  pub nas_level-IsTimed :
      (nas : Option NasMsg) (ng : NgapMsg) (w : Work)
      → ng.ts ≡ now
      → IsTimed now w
      → IsTimed now (nas_level ng nas w)
  unfolding nas_level
  nas_level-IsTimed none ng w t h = h
  nas_level-IsTimed (some nas) ng w t h = elim (Option-cases nas.name) [
    | inl e ↦ rw e h
    | inr (name, e) ↦
        rw (e, t)
          (if-IsTimed (truthy nas.unparsed) _ _ h (nas_named-IsTimed (or_else nas.inner name) w h))
  ]

  pub ngap_level-IsTimed :
      (ng : NgapMsg) (w : Work) → ng.ts ≡ now → IsTimed now w → IsTimed now (ngap_level ng w)
  unfolding ngap_level
  ngap_level-IsTimed ng w t h = elim (Option-cases ng.name) [
    | inl e ↦ rw e h
    | inr (name, e) ↦
        rw (e, t)
          (if-IsTimed (name == "InitialUEMessage") _ _ (start_ngap-IsTimed w registration name h) (
            if-IsTimed (name == "InitialContextSetupRequest") _ _
              (complete_ngap-IsTimed w registration name accept (λ q. cc) h)
              (if-IsTimed (name == "InitialContextSetupFailure") _ _
                (complete_ngap-IsTimed w registration name reject (λ q. cc) h)
                (if-IsTimed (name == "PDUSessionResourceSetupRequest") _ _
                  (start_ngap-IsTimed w pdu_session_est name h)
                  (if-IsTimed (name == "PDUSessionResourceSetupResponse") _ _
                    (complete_ngap-IsTimed w pdu_session_est name accept (λ q. cc) h)
                    (if-IsTimed (name == "PDUSessionResourceSetupFailure") _ _
                      (complete_ngap-IsTimed w pdu_session_est name reject (λ q. cc) h) h))))))
  ]
