-- ===== src/Fivegcap/Pairing/Sbi/Tests.antt =====
-- A request and its response on one stream, and a request without a response.
use net_cortex.Prelude.{
  ℕ, Option, none, some, List, [], ◌∷◌, ◌≡◌, refl, All, nat_eq, string_eq, option_eq, pair_eq,
}
use net_cortex.Prelude.Dict
use net_cortex.Fivegcap.Messages.{SbiMsg, Conn, Direction, request, response}
use net_cortex.Fivegcap.Pairing.Sbi
use net_cortex.Fivegcap.Pairing.Sbi.{pair_procedures}
use net_cortex.Fivegcap.Pairing.Sbi.Pairs.{IsOfPair, pair_procedures-IsOfPair}

abbrev between : Conn
between = ((some "10.0.0.2", 40000), (some "10.0.0.5", 80))

abbrev message : ℕ → ℕ → Direction → Option ℕ → SbiMsg
message ts stream direction status = record {
  ts = ts;
  stream_id = stream;
  direction = direction;
  method = none;
  path = none;
  status = status;
  name = some "Nudm_UEAuthentication";
  supi = none;
  unparsed = none;
  conn = some between;
}

abbrev exchange : List SbiMsg
exchange =
    message 1 1 request none ∷ message 2 3 request none ∷ message 5 1 response (some 200) ∷ []

one_unpaired : (pair_procedures exchange).1 ≡ 1
unfolding pair_procedures Sbi.pairs_of Sbi.pair_conns Sbi.pair_streams Sbi.count_unpaired
    Sbi.file_all Sbi.file_message Sbi.file_conn Sbi.file_side Sbi.file_under Sbi.streams_of Dict.get
    Dict.put nat_eq string_eq option_eq pair_eq
one_unpaired = refl

pair_procedures-IsOfPair_example : All (IsOfPair exchange) (pair_procedures exchange).0
pair_procedures-IsOfPair_example = pair_procedures-IsOfPair exchange
