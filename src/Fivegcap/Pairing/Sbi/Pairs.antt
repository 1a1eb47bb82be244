-- ===== src/Fivegcap/Pairing/Sbi/Pairs.antt =====
-- pair_procedures of sbi.py: where its procedures come from.
use net_cortex.Prelude.{
  ℕ, suc, ◌+◌, false, Option, none, some, List, [], ◌∷◌, map, ◌≡◌, refl, ap, inl, inr, All,
  All-append, get_elem?, Bool-cases, truthy, arith, nat_eq, string_eq, option_eq, pair_eq,
}
use net_cortex.Prelude.Dict
use net_cortex.Prelude.Dict.{Dict, AllEntries, AllEntries-put, AllEntries-get}
use net_cortex.Prelude.Sorting.{sort_by-All}
use net_cortex.Fivegcap.Messages.{SbiMsg, Conn, Direction, request, response}
use net_cortex.Fivegcap.Pairing.Sbi.{
  SbiProcedure, Streams, Buckets, streams_of, file_under, file_side, file_conn, file_message,
  file_all, procedure_of, pair_streams, pair_conns, no_messages, pairs_of, pair_procedures,
}

module _ (ms : List SbiMsg) where
  -- a parsed message of the capture, in a direction, on a connection and a stream
  abbrev pub IsOn : Direction → Conn → ℕ → SbiMsg → Type 0
  IsOn side conn sid m =
      ((i : ℕ) × (get_elem? ms i ≡ some m))
      × (truthy m.unparsed ≡ false)
      × (m.direction ≡ side)
      × (m.conn ≡ some conn)
      × (m.stream_id ≡ sid)

  abbrev pub HasResponse : Conn → ℕ → Option SbiMsg → Type 0
  HasResponse conn sid none = Unit
  HasResponse conn sid (some rsp) = IsOn response conn sid rsp

  -- a request, and what answers it
  abbrev pub IsPair : (SbiMsg × Option SbiMsg) → Type 0
  IsPair (req, rsp) =
      (conn : Conn) × (sid : ℕ) × IsOn request conn sid req × HasResponse conn sid rsp

  abbrev FiledOk : Direction → Streams → Type 0
  FiledOk side = AllEntries (λ conn d. AllEntries (IsOn side conn) d)

  abbrev BucketsOk : Buckets → Type 0
  BucketsOk b = FiledOk request b.reqs × FiledOk response b.rsps

  streams_of-Ok :
      (side : Direction) (conn : Conn) (d : Streams) (o : Option (Dict ℕ SbiMsg))
      → Dict.get conn d ≡ o
      → FiledOk side d
      → AllEntries (IsOn side conn) (streams_of o)
  unfolding streams_of
  streams_of-Ok side conn d none g h = tt
  streams_of-Ok side conn d (some streams) g h =
      AllEntries-get (λ conn d. AllEntries (IsOn side conn) d) conn streams d g h

  file_under-FiledOk :
      (side : Direction) (conn : Conn) (m : SbiMsg) (d : Streams)
      → IsOn side conn m.stream_id m
      → FiledOk side d
      → FiledOk side (file_under conn m d)
  unfolding file_under
  file_under-FiledOk side conn m d on h =
      AllEntries-put (λ conn d. AllEntries (IsOn side conn) d) conn _ d
        (AllEntries-put (IsOn side conn) m.stream_id m _ on
          (streams_of-Ok side conn d (Dict.get conn d) refl h))
        h

  file_side-BucketsOk :
      (side : Direction) (conn : Conn) (m : SbiMsg) (b : Buckets)
      → IsOn side conn m.stream_id m
      → BucketsOk b
      → BucketsOk (file_side side conn m b)
  unfolding file_side
  file_side-BucketsOk request conn m b on (q, r) =
      (file_under-FiledOk request conn m b.reqs on q, r)
  file_side-BucketsOk response conn m b on (q, r) =
      (q, file_under-FiledOk response conn m b.rsps on r)

  file_conn-BucketsOk :
      (o : Option Conn) (m : SbiMsg) (b : Buckets) (i : ℕ)
      → m.conn ≡ o
      → get_elem? ms i ≡ some m
      → truthy m.unparsed ≡ false
      → BucketsOk b
      → BucketsOk (file_conn o m b)
  unfolding file_conn
  file_conn-BucketsOk none m b i c at parsed h = h
  file_conn-BucketsOk (some conn) m b i c at parsed h =
      file_side-BucketsOk m.direction conn m b ((i, at), parsed, refl, c, refl) h

  file_message-BucketsOk :
      (m : SbiMsg) (b : Buckets) (i : ℕ)
      → get_elem? ms i ≡ some m
      → BucketsOk b
      → BucketsOk (file_message m b)
  unfolding file_message
  file_message-BucketsOk m b i at h = elim (Bool-cases (truthy m.unparsed)) [
    | inl refused ↦ rw refused h
    | inr parsed ↦ rw parsed (file_conn-BucketsOk m.conn m b i refl at parsed h)
  ]

  file_all-BucketsOk :
      (rest : List SbiMsg) (b : Buckets) (i : ℕ)
      → ((j n : ℕ) → n ≡ i + j → get_elem? ms n ≡ get_elem? rest j)
      → BucketsOk b
      → BucketsOk (file_all rest b)
  unfolding file_all
  file_all-BucketsOk [] b i at h = h
  file_all-BucketsOk (m ∷ rest) b i at h =
      file_all-BucketsOk rest (file_message m b) (suc i) (λ j n q. at (suc j) n (omega (arith, q)))
        (file_message-BucketsOk m b i (at 0 i (omega arith)) h)

  has_response :
      (conn : Conn) (sid : ℕ) (rsps : Dict ℕ SbiMsg) (o : Option SbiMsg)
      → Dict.get sid rsps ≡ o
      → AllEntries (IsOn response conn) rsps
      → HasResponse conn sid o
  has_response conn sid rsps none g h = tt
  has_response conn sid rsps (some rsp) g h = AllEntries-get (IsOn response conn) sid rsp rsps g h

  pair_streams-IsPair :
      (conn : Conn) (reqs rsps : Dict ℕ SbiMsg)
      → AllEntries (IsOn request conn) reqs
      → AllEntries (IsOn response conn) rsps
      → All IsPair (pair_streams reqs rsps)
  unfolding pair_streams
  pair_streams-IsPair conn [] rsps q r = tt
  pair_streams-IsPair conn ((sid, req) ∷ reqs) rsps (on, q) r =
      ((conn, sid, on, has_response conn sid rsps _ refl r), pair_streams-IsPair conn reqs rsps q r)

  pair_conns-IsPair :
      (reqs rsps : Streams)
      → FiledOk request reqs
      → FiledOk response rsps
      → All IsPair (pair_conns reqs rsps)
  unfolding pair_conns
  pair_conns-IsPair [] rsps q r = tt
  pair_conns-IsPair ((conn, streams) ∷ reqs) rsps (here, q) r =
      All-append IsPair (pair_streams streams (streams_of (Dict.get conn rsps))) _
        (pair_streams-IsPair conn streams _ here
          (streams_of-Ok response conn rsps (Dict.get conn rsps) refl r))
        (pair_conns-IsPair reqs rsps q r)

  pairs_of-IsPair : All IsPair (pairs_of ms)
  unfolding pairs_of
  pairs_of-IsPair =
      let (q, r) =
        file_all-BucketsOk ms no_messages 0 (λ j n q. ap (get_elem? ms) (omega (arith, q)))
          (tt, tt) in
      pair_conns-IsPair _ _ q r

  -- the procedure is that of a request with what answers it
  abbrev pub IsOfPair : SbiProcedure → Type 0
  IsOfPair p =
      (req : SbiMsg) × (rsp : Option SbiMsg) × IsPair (req, rsp) × (p ≡ procedure_of req rsp)

  of_pairs :
      (ps : List (SbiMsg × Option SbiMsg))
      → All IsPair ps
      → All IsOfPair (map (λ (req, rsp). procedure_of req rsp) ps)
  of_pairs [] h = tt
  of_pairs ((req, rsp) ∷ ps) (p, h) = ((req, rsp, p, refl), of_pairs ps h)

  -- Every SBI procedure is made of a parsed request of the capture and a parsed response on the same
  -- connection and stream, or is the timeout of a request.
  pub pair_procedures-IsOfPair : All IsOfPair (pair_procedures ms).0
  unfolding pair_procedures
  pair_procedures-IsOfPair = sort_by-All _ IsOfPair _ (of_pairs (pairs_of ms) pairs_of-IsPair)
