-- ===== src/Fivegcap/Flow.antt =====
-- flow.py: the N2 messages of one UE make a Flow, and its exchanges make Procedures. The decoder
-- of NAS payloads (`nas_decode`) is an argument.
mod Stages
pub mod Partition
pub mod Ids
pub mod Closing
pub mod Timely
pub mod Tests
use net_cortex.Prelude.{
  ℕ, suc, String, Bool, ◌&&◌, ◌||◌, not, Option, none, some, List, [], ◌∷◌, ◌++◌, leb,
  if◌then◌else◌, ◌==◌, Eq, nat_eq, string_eq, option_eq, pair_eq, contains, any, truthy, or_else,
  is_some, ends_with,
}
use net_cortex.Prelude.Dict
use net_cortex.Prelude.Dict.{Dict}
use net_cortex.Fivegcap.Messages.{NgapMsg, NasMsg}

pub data Kind : Type 0 where
  registration pdu_session_est : Kind

pub data Outcome : Type 0 where
  opened accept reject : Outcome

kind_dec : Discrete Kind
kind_dec = hlevel

instance unfoldable pub kind_eq : Eq Kind
unfolding kind_dec
kind_eq = record { dec = kind_dec }

abbrev pub reg_start : String
reg_start = "5GMMRegistrationRequest"

abbrev pub reg_end : List String
reg_end = "5GMMRegistrationAccept" ∷ "5GMMRegistrationReject" ∷ []

abbrev pub pdu_start : String
pdu_start = "5GSMPDUSessionEstabRequest"

abbrev pub pdu_end : List String
pdu_end = "5GSMPDUSessionEstabAccept" ∷ "5GSMPDUSessionEstabReject" ∷ []

pub record Procedure : Type 0 where
  pub kind : Kind
  pub start_ts : ℕ
  pub start_msg : String
  pub end_ts : Option ℕ
  pub end_msg : Option String
  pub outcome : Outcome

pub record Flow : Type 0 where
  pub flow_id : ℕ
  pub assoc : ℕ × ℕ
  pub ran_ue_id : Option ℕ
  pub amf_ue_id : Option ℕ
  pub partial : Bool
  pub messages : List (NgapMsg × Option NasMsg)
  pub procedures : List Procedure
  pub ciph_algo : Option ℕ

-- `tuple(sorted(msg.assoc))`, which also stands for `frozenset(msg.assoc)`
unfoldable pub sorted_assoc : ℕ × ℕ → ℕ × ℕ
sorted_assoc (a, b) = if leb a b then (a, b) else (b, a)

abbrev pub FlowKey : Type 0
FlowKey = (ℕ × ℕ) × Option ℕ

unfoldable pub flow_key : NgapMsg → FlowKey
flow_key ng = (sorted_assoc ng.assoc, ng.ran_ue_id)

-- The variables of `build_flows`. `flows` and `order` hold the same objects in the same order, so
-- one dict in insertion order stands for both; a flow is written back under its key.
pub record Builder : Type 0 where
  pub flows : Dict FlowKey Flow
  pub unassociated : List NgapMsg
  pub next_id : ℕ
  pub open_procs : Dict (ℕ × String) Procedure
  pub ngap_starts : Dict (ℕ × Kind) (List Procedure)

abbrev pub initial : Builder
initial = record { flows = []; unassociated = []; next_id = 1; open_procs = []; ngap_starts = [] }

abbrev new_flow : ℕ → NgapMsg → Flow
new_flow id ng = record {
  flow_id = id;
  assoc = sorted_assoc ng.assoc;
  ran_ue_id = ng.ran_ue_id;
  amf_ue_id = ng.amf_ue_id;
  partial = not (ng.name == some "InitialUEMessage");
  messages = [];
  procedures = [];
  ciph_algo = none;
}

-- the flow of the message, found or created
unfoldable pub flow_for : Builder → NgapMsg → Builder × Flow
unfolding flow_key
flow_for b ng = elim (Dict.get (flow_key ng) b.flows) [
  | some f ↦ (b, f)
  | none ↦
      let f = new_flow b.next_id ng in
      (record b { flows = Dict.put (flow_key ng) f b.flows; next_id = suc b.next_id }, f)
]

-- `_nas_of`: the payload decoded under the flow's ciphering algorithm, and the flow with the
-- algorithm that the message selects
unfoldable pub nas_of : (List ℕ → Option ℕ → NasMsg) → NgapMsg → Flow → Option NasMsg × Flow
nas_of nas_decode ng f = elim ng.nas_pdu [
  | none ↦ (none, f)
  | some [] ↦ (none, f)
  | some (x ∷ xs) ↦
      let nas = nas_decode (x ∷ xs) f.ciph_algo in
      (
        some nas,
        if not (is_some f.ciph_algo) && is_some nas.ciph_algo
            then record f { ciph_algo = nas.ciph_algo }
            else f,
      )
]

-- the working state while one message is handled: the flow object and the two dicts
pub record Work : Type 0 where
  pub flow : Flow
  pub open_procs : Dict (ℕ × String) Procedure
  pub ngap_starts : Dict (ℕ × Kind) (List Procedure)

abbrev finish : Procedure → ℕ → String → Outcome → Procedure
finish p ts msg outcome = record p { end_ts = some ts; end_msg = some msg; outcome = outcome }

abbrev started : Kind → ℕ → String → Procedure
started kind ts msg = record {
  kind = kind;
  start_ts = ts;
  start_msg = msg;
  end_ts = none;
  end_msg = none;
  outcome = opened;
}

abbrev with_procedure : Flow → Procedure → Flow
with_procedure f p = record f { procedures = f.procedures ++ p ∷ [] }

-- the end of `complete_ngap`: the oldest open start of the kind, if there is one, is completed
unfoldable pub complete_oldest : Work → Kind → String → Outcome → ℕ → Option (List Procedure) → Work
complete_oldest w kind end_name outcome ts none = w
complete_oldest w kind end_name outcome ts (some []) = w
complete_oldest w kind end_name outcome ts (some (p ∷ rest)) = record w {
  flow = with_procedure w.flow (finish p ts end_name outcome);
  ngap_starts = Dict.put (w.flow.flow_id, kind) rest w.ngap_starts;
}

unfoldable pub complete_ngap : Work → Kind → String → Outcome → ℕ → Work
complete_ngap w kind end_name outcome ts =
    if any (λ p. p.kind == kind) w.flow.procedures
    then record w { ngap_starts = Dict.pop (w.flow.flow_id, kind) w.ngap_starts }
    else complete_oldest w kind end_name outcome ts (Dict.get (w.flow.flow_id, kind) w.ngap_starts)

-- `ngap_starts.setdefault((f.flow_id, kind), []).append(Procedure(…))`
unfoldable pub start_ngap : Work → Kind → ℕ → String → Work
start_ngap w kind ts msg =
    let key : ℕ × Kind = (w.flow.flow_id, kind) in
    let p = started kind ts msg in
    record w {
      ngap_starts = elim (Dict.get key w.ngap_starts) [
        | none ↦ Dict.put key (p ∷ []) w.ngap_starts
        | some ps ↦ Dict.put key (ps ++ p ∷ []) w.ngap_starts
      ];
    }

abbrev releases : List (Option String)
releases =
    some "UEContextReleaseRequest"
    ∷ some "UEContextReleaseCommand"
    ∷ some "UEContextReleaseComplete"
    ∷ []

-- a release drops the open NGAP starts of the flow
unfoldable pub release : NgapMsg → Work → Work
release ng w =
    if contains releases ng.name
    then record w {
      ngap_starts =
          Dict.pop (w.flow.flow_id, pdu_session_est)
            (Dict.pop (w.flow.flow_id, registration) w.ngap_starts);
    }
    else w

unfoldable pub close_opened : ℕ → String → String → Work → Option Procedure → Work
close_opened ts name start w none = w
close_opened ts name start w (some p) = record w {
  flow =
      with_procedure w.flow (finish p ts name (if ends_with name "Accept" then accept else reject));
  open_procs = Dict.pop (w.flow.flow_id, start) w.open_procs;
}

-- a NAS end message closes the procedure that its start message opened
unfoldable pub close_nas : ℕ → String → String → Work → Work
close_nas ts name start w =
    close_opened ts name start w (Dict.get (w.flow.flow_id, start) w.open_procs)

unfoldable pub nas_named : ℕ → String → Work → Work
nas_named ts name w =
    if name == reg_start || name == pdu_start
    then record w {
      open_procs =
          Dict.put (w.flow.flow_id, name)
            (started (if name == reg_start then registration else pdu_session_est) ts name)
            w.open_procs;
    }
    else if contains reg_end name
    then close_nas ts name reg_start w
    else if contains pdu_end name
    then close_nas ts name pdu_start w
    else w

unfoldable pub nas_level : NgapMsg → Option NasMsg → Work → Work
nas_level ng none w = w
nas_level ng (some nas) w = elim nas.name [
  | none ↦ w
  | some name ↦ if truthy nas.unparsed then w else nas_named ng.ts (or_else nas.inner name) w
]

unfoldable pub ngap_level : NgapMsg → Work → Work
ngap_level ng w = elim ng.name [
  | none ↦ w
  | some name ↦
      if name == "InitialUEMessage"
      then start_ngap w registration ng.ts name
      else if name == "InitialContextSetupRequest"
      then complete_ngap w registration name accept ng.ts
      else if name == "InitialContextSetupFailure"
      then complete_ngap w registration name reject ng.ts
      else if name == "PDUSessionResourceSetupRequest"
      then start_ngap w pdu_session_est ng.ts name
      else if name == "PDUSessionResourceSetupResponse"
      then complete_ngap w pdu_session_est name accept ng.ts
      else if name == "PDUSessionResourceSetupFailure"
      then complete_ngap w pdu_session_est name reject ng.ts
      else w
]

abbrev adopt_amf_id : NgapMsg → Flow → Flow
adopt_amf_id ng f =
    if not (is_some f.amf_ue_id) && is_some ng.amf_ue_id
    then record f { amf_ue_id = ng.amf_ue_id }
    else f

abbrev pub is_associated : NgapMsg → Bool
is_associated ng = is_some ng.ran_ue_id || is_some ng.amf_ue_id

module _ (nas_decode : List ℕ → Option ℕ → NasMsg) where
  -- what an associated message does to its flow and to the open procedures
  unfoldable pub handle :
      NgapMsg → Flow → Dict (ℕ × String) Procedure → Dict (ℕ × Kind) (List Procedure) → Work
  handle ng f open_procs ngap_starts =
      let (nas, f') = nas_of nas_decode ng (adopt_amf_id ng f) in
      ngap_level ng (
        nas_level ng nas (
          release ng (record {
            flow = record f' { messages = f'.messages ++ (ng, nas) ∷ [] };
            open_procs = open_procs;
            ngap_starts = ngap_starts;
          })))

  unfoldable pub step_associated : Builder → NgapMsg → Builder
  unfolding flow_for handle
  step_associated b ng =
      let (b', f) = flow_for b ng in
      let w = handle ng f b'.open_procs b'.ngap_starts in
      record b' {
        flows = Dict.put (flow_key ng) w.flow b'.flows;
        open_procs = w.open_procs;
        ngap_starts = w.ngap_starts;
      }

  -- the body of the loop over the messages
  unfoldable pub step : Builder → NgapMsg → Builder
  step b ng =
      if is_associated ng
      then step_associated b ng
      else record b { unassociated = b.unassociated ++ ng ∷ [] }

  unfoldable pub run : Builder → List NgapMsg → Builder
  run b [] = b
  run b (ng ∷ msgs) = run (step b ng) msgs

  unfoldable pub build_flows : List NgapMsg → List Flow × List NgapMsg
  build_flows msgs = let b = run initial msgs in (Dict.values b.flows, b.unassociated)
