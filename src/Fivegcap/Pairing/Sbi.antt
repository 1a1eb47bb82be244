-- ===== src/Fivegcap/Pairing/Sbi.antt =====
-- sbi.py: `pair_procedures`, the SBI procedures of a capture and the number of requests without a
-- response. The text that an f-string writes for a status is that of the number, or None.
pub mod Pairs
mod Tests
use net_cortex.Prelude.{
  ℕ, zero, suc, ◌+◌, String, Bool, true, false, ◌&&◌, ◌||◌, Option, none, some, List, [], ◌∷◌, ◌++◌,
  map, if◌then◌else◌, ◌==◌, nat_eq, string_eq, option_eq, pair_eq, leb, ltb, or_else, truthy,
  is_some, show, concat, length,
}
use net_cortex.Prelude.Dict
use net_cortex.Prelude.Dict.{Dict}
use net_cortex.Prelude.Sorting.{sort_by}
use net_cortex.Fivegcap.Messages.{SbiMsg, Conn, Direction, request, response}

pub data SbiOutcome : Type 0 where
  accept reject timeout : SbiOutcome

pub record SbiProcedure : Type 0 where
  pub kind : String
  pub start_ts : ℕ
  pub end_ts : ℕ
  pub start_msg : String
  pub end_msg : Option String
  pub outcome : SbiOutcome
  pub status : Option ℕ
  pub conn : Option Conn
  pub stream_id : Option ℕ

-- `reqs` and `rsps`: by connection, and then by stream
abbrev pub Streams : Type 0
Streams = Dict Conn (Dict ℕ SbiMsg)

pub record Buckets : Type 0 where
  pub reqs : Streams
  pub rsps : Streams

unfoldable pub streams_of : Option (Dict ℕ SbiMsg) → Dict ℕ SbiMsg
streams_of none = []
streams_of (some d) = d

-- `bucket.setdefault(m.conn, {})[m.stream_id] = m`
unfoldable pub file_under : Conn → SbiMsg → Streams → Streams
file_under conn m d = Dict.put conn (Dict.put m.stream_id m (streams_of (Dict.get conn d))) d

unfoldable pub file_side : Direction → Conn → SbiMsg → Buckets → Buckets
file_side request conn m b = record b { reqs = file_under conn m b.reqs }
file_side response conn m b = record b { rsps = file_under conn m b.rsps }

unfoldable pub file_conn : Option Conn → SbiMsg → Buckets → Buckets
file_conn none m b = b
file_conn (some conn) m b = file_side m.direction conn m b

unfoldable pub file_message : SbiMsg → Buckets → Buckets
file_message m b = if truthy m.unparsed then b else file_conn m.conn m b

unfoldable pub file_all : List SbiMsg → Buckets → Buckets
file_all [] b = b
file_all (m ∷ ms) b = file_all ms (file_message m b)

unfoldable pub start_text : SbiMsg → String
start_text m =
    if truthy m.method
    then concat (or_else m.method "" ∷ " " ∷ path_text m.path ∷ [])
    else or_else m.path "?"
  where
    path_text : Option String → String
    path_text none = "None"
    path_text (some p) = p

unfoldable pub status_text : Option ℕ → String
status_text none = "None"
status_text (some n) = show n

-- `rsp.status or 0`
unfoldable pub status_or_zero : Option ℕ → ℕ
status_or_zero none = 0
status_or_zero (some n) = n

unfoldable pub outcome_of_status : Option ℕ → SbiOutcome
outcome_of_status s =
    if leb 200 (status_or_zero s) && ltb (status_or_zero s) 300 then accept else reject

-- the procedure of a request, with its response or without one
unfoldable pub procedure_of : SbiMsg → Option SbiMsg → SbiProcedure
procedure_of req none = record {
  kind = or_else req.name "unknown";
  start_ts = req.ts;
  end_ts = req.ts;
  start_msg = start_text req;
  end_msg = none;
  outcome = timeout;
  status = none;
  conn = req.conn;
  stream_id = some req.stream_id;
}
procedure_of req (some rsp) = record {
  kind = or_else req.name "unknown";
  start_ts = req.ts;
  end_ts = rsp.ts;
  start_msg = start_text req;
  end_msg = some (status_text rsp.status);
  outcome = outcome_of_status rsp.status;
  status = rsp.status;
  conn = req.conn;
  stream_id = some req.stream_id;
}

-- the requests of a connection, each with the response on its stream
unfoldable pub pair_streams : Dict ℕ SbiMsg → Dict ℕ SbiMsg → List (SbiMsg × Option SbiMsg)
pair_streams [] rsps = []
pair_streams ((sid, req) ∷ reqs) rsps = (req, Dict.get sid rsps) ∷ pair_streams reqs rsps

unfoldable pub pair_conns : Streams → Streams → List (SbiMsg × Option SbiMsg)
pair_conns [] rsps = []
pair_conns ((conn, reqs) ∷ d) rsps =
    pair_streams reqs (streams_of (Dict.get conn rsps)) ++ pair_conns d rsps

unfoldable pub count_unpaired : List (SbiMsg × Option SbiMsg) → ℕ
count_unpaired [] = 0
count_unpaired ((req, none) ∷ ps) = suc (count_unpaired ps)
count_unpaired ((req, some rsp) ∷ ps) = count_unpaired ps

abbrev pub no_messages : Buckets
no_messages = record { reqs = []; rsps = [] }

unfoldable pub pairs_of : List SbiMsg → List (SbiMsg × Option SbiMsg)
pairs_of ms = let b : Buckets = file_all ms no_messages in pair_conns b.reqs b.rsps

unfoldable pub pair_procedures : List SbiMsg → List SbiProcedure × ℕ
pair_procedures ms = (
  sort_by (λ p. p.start_ts) (map (λ (req, rsp). procedure_of req rsp) (pairs_of ms)),
  count_unpaired (pairs_of ms),
)
