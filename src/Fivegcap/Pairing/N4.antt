-- ===== src/Fivegcap/Pairing/N4.antt =====
-- pfcp.py: `pair_procedures`, the PFCP procedures of a capture and the requests without a response.
pub mod Once
pub mod Answers
mod Tests
use net_cortex.Prelude.{
  ℕ, suc, ◌-◌, String, Option, none, some, List, [], ◌∷◌, ◌++◌, map, if◌then◌else◌, ◌==◌, nat_eq,
  string_eq, option_eq, pair_eq, contains, truthy,
}
use net_cortex.Prelude.Dict
use net_cortex.Prelude.Dict.{Dict}
use net_cortex.Prelude.Sorting.{sort_by}
use net_cortex.Fivegcap.Messages.{PfcpMsg}

pub data N4Outcome : Type 0 where
  accept reject unknown timeout : N4Outcome

pub record N4Procedure : Type 0 where
  pub kind : String
  pub start_ts : ℕ
  pub end_ts : ℕ
  pub start_msg : Option String
  pub end_msg : Option String
  pub outcome : N4Outcome
  pub cause : Option ℕ
  pub cause_name : Option String
  pub req_index : Option ℕ
  pub rsp_index : Option ℕ

-- `REQ_KIND`
abbrev pub req_kinds : Dict ℕ String
req_kinds =
    (1, "heartbeat")
    ∷ (3, "pfd_management")
    ∷ (5, "association_setup")
    ∷ (7, "association_update")
    ∷ (9, "association_release")
    ∷ (12, "node_report")
    ∷ (14, "session_set_deletion")
    ∷ (50, "session_establishment")
    ∷ (52, "session_modification")
    ∷ (54, "session_deletion")
    ∷ (56, "session_report")
    ∷ []

unfoldable pub req_kind : ℕ → Option String
req_kind t = Dict.get t req_kinds

-- the two ends of a path, and the sequence number
abbrev pub End : Type 0
End = Option String × Option ℕ

abbrev pub PathKey : Type 0
PathKey = (End × End) × Option ℕ

unfoldable pub request_key : PfcpMsg → PathKey
request_key m = (((m.src_ip, m.src_port), (m.dst_ip, m.dst_port)), m.seq)

-- a response travels the request's path in reverse
unfoldable pub response_key : PfcpMsg → PathKey
response_key m = (((m.dst_ip, m.dst_port), (m.src_ip, m.src_port)), m.seq)

-- a request that waits: the message, its index and its kind
pub record Waiting : Type 0 where
  pub request : PfcpMsg
  pub index : ℕ
  pub kind : String

pub record PairState : Type 0 where
  pub pending : Dict PathKey Waiting
  pub procedures : List N4Procedure

unfoldable pub outcome_of_cause : Option ℕ → N4Outcome
outcome_of_cause none = unknown
outcome_of_cause (some c) = if contains (1 ∷ 2 ∷ 3 ∷ []) c then accept else reject

unfoldable pub answered : Waiting → String → PfcpMsg → ℕ → N4Procedure
answered w kind m i = record {
  kind = kind;
  start_ts = w.request.ts;
  end_ts = m.ts;
  start_msg = w.request.name;
  end_msg = m.name;
  outcome = outcome_of_cause m.cause;
  cause = m.cause;
  cause_name = m.cause_name;
  req_index = some w.index;
  rsp_index = some i;
}

unfoldable pub timed_out : Waiting → N4Procedure
timed_out w = record {
  kind = w.kind;
  start_ts = w.request.ts;
  end_ts = w.request.ts;
  start_msg = w.request.name;
  end_msg = none;
  outcome = timeout;
  cause = none;
  cause_name = none;
  req_index = some w.index;
  rsp_index = none;
}

-- a request: a retransmission keeps the first send
unfoldable pub on_request : PfcpMsg → ℕ → String → Option Waiting → PairState → PairState
on_request m i kind (some first) st = st
on_request m i kind none st = record st {
  pending = Dict.put (request_key m) (record { request = m; index = i; kind = kind }) st.pending;
}

-- a response ends the request that waits for it
unfoldable pub on_response : PfcpMsg → ℕ → String → Option Waiting → PairState → PairState
on_response m i kind none st = st
on_response m i kind (some w) st = record {
  pending = Dict.pop (response_key m) st.pending;
  procedures = st.procedures ++ answered w kind m i ∷ [];
}

unfoldable pub try_response : PfcpMsg → ℕ → Option String → PairState → PairState
try_response m i none st = st
try_response m i (some kind) st = on_response m i kind (Dict.get (response_key m) st.pending) st

unfoldable pub on_typed : PfcpMsg → ℕ → ℕ → Option String → PairState → PairState
on_typed m i t (some kind) st = on_request m i kind (Dict.get (request_key m) st.pending) st
on_typed m i t none st = try_response m i (req_kind (t - 1)) st

unfoldable pub on_message : PfcpMsg → ℕ → Option ℕ → PairState → PairState
on_message m i none st = st
on_message m i (some t) st = on_typed m i t (req_kind t) st

unfoldable pub pair_step : PfcpMsg → ℕ → PairState → PairState
pair_step m i st = if truthy m.unparsed then st else on_message m i m.msg_type st

unfoldable pub pair_from : ℕ → List PfcpMsg → PairState → PairState
pair_from i [] st = st
pair_from i (m ∷ ms) st = pair_from (suc i) ms (pair_step m i st)

abbrev pub nothing_paired : PairState
nothing_paired = record { pending = []; procedures = [] }

-- the procedures by their start, and the requests that still wait
unfoldable pub closed : PairState → List N4Procedure × List PfcpMsg
closed st = (
  sort_by (λ p. p.start_ts) (st.procedures ++ map timed_out (Dict.values st.pending)),
  map (λ w. w.request) (Dict.values st.pending),
)

unfoldable pub pair_procedures : List PfcpMsg → List N4Procedure × List PfcpMsg
unfolding closed
pair_procedures ms = closed (pair_from 0 ms nothing_paired)
