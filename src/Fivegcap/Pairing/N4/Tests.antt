-- ===== src/Fivegcap/Pairing/N4/Tests.antt =====
-- A session establishment that is answered, and a deletion that is not.
use net_cortex.Prelude.{
  ℕ, String, Option, none, some, List, [], ◌∷◌, ◌≡◌, refl, ◌⊎◌, All, Pairwise, length, nat_eq,
  string_eq, option_eq, pair_eq,
}
use net_cortex.Prelude.Dict
use net_cortex.Prelude.Sorting.{sort_by, insert}
use net_cortex.Fivegcap.Messages.{PfcpMsg}
use net_cortex.Fivegcap.Pairing.N4
use net_cortex.Fivegcap.Pairing.N4.{pair_procedures}
use net_cortex.Fivegcap.Pairing.N4.Once.{IsOfOther}
use net_cortex.Fivegcap.Pairing.N4.Answers.{IsAnswered, IsUnanswered, pair_procedures-IsAnswered}

abbrev message : ℕ → ℕ → ℕ → Option ℕ → String → String → PfcpMsg
message ts type seq cause src dst = record {
  ts = ts;
  msg_type = some type;
  name = none;
  seq = some seq;
  cause = cause;
  cause_name = none;
  f_teids = [];
  unparsed = none;
  src_ip = some src;
  dst_ip = some dst;
  src_port = some 8805;
  dst_port = some 8805;
}

abbrev session : List PfcpMsg
session =
    message 10 50 1 none "10.0.0.3" "10.0.0.4"
    ∷ message 12 51 1 (some 1) "10.0.0.4" "10.0.0.3"
    ∷ message 15 54 2 none "10.0.0.3" "10.0.0.4"
    ∷ []

one_unpaired : length (pair_procedures session).1 ≡ 1
unfolding pair_procedures N4.closed N4.pair_from N4.pair_step N4.on_message N4.on_typed
    N4.on_request N4.on_response N4.try_response N4.req_kind N4.request_key N4.response_key
    N4.answered N4.timed_out N4.outcome_of_cause Dict.get Dict.put Dict.pop Dict.values sort_by
    insert nat_eq string_eq option_eq pair_eq
one_unpaired = refl

two_procedures : length (pair_procedures session).0 ≡ 2
unfolding pair_procedures N4.closed N4.pair_from N4.pair_step N4.on_message N4.on_typed
    N4.on_request N4.on_response N4.try_response N4.req_kind N4.request_key N4.response_key
    N4.answered N4.timed_out N4.outcome_of_cause Dict.get Dict.put Dict.pop Dict.values sort_by
    insert nat_eq string_eq option_eq pair_eq
two_procedures = refl

pair_procedures-IsAnswered_example :
    All (λ p. IsAnswered session p ⊎ IsUnanswered session p) (pair_procedures session).0
    × Pairwise IsOfOther (pair_procedures session).0
pair_procedures-IsAnswered_example = pair_procedures-IsAnswered session
