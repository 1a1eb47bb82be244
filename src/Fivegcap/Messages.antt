-- ===== src/Fivegcap/Messages.antt =====
-- The decoded messages of the three planes: `NgapMsg` (ngap.py), `NasMsg` (nas.py), `PfcpMsg`
-- (pfcp.py) and `SbiMsg` (sbi.py), less the raw bytes and the decoded information elements, which
-- nothing modelled here reads. A timestamp is a number of capture ticks: a float is only copied
-- and compared by this code.
use net_cortex.Prelude.{ℕ, String, Option, List, Bool}

-- a GTP tunnel, (teid, ip)
abbrev pub Tunnel : Type 0
Tunnel = ℕ × String

pub record NgapMsg : Type 0 where
  pub ts : ℕ
  pub assoc : ℕ × ℕ
  pub name : Option String
  pub ran_ue_id : Option ℕ
  pub amf_ue_id : Option ℕ
  pub nas_pdu : Option (List ℕ)
  pub f_teids : List Tunnel
  pub unparsed : Option String

pub record NasMsg : Type 0 where
  pub name : Option String
  pub protected : Bool
  pub inner : Option String
  pub cause : Option ℕ
  pub ciph_algo : Option ℕ
  pub supi : Option String
  pub unparsed : Option String

pub record PfcpMsg : Type 0 where
  pub ts : ℕ
  pub msg_type : Option ℕ
  pub name : Option String
  pub seq : Option ℕ
  pub cause : Option ℕ
  pub cause_name : Option String
  pub f_teids : List Tunnel
  pub unparsed : Option String
  pub src_ip : Option String
  pub dst_ip : Option String
  pub src_port : Option ℕ
  pub dst_port : Option ℕ

pub data Direction : Type 0 where
  request response : Direction

-- the two TCP endpoints of a connection, (ip, port) each, in a fixed order: a frozenset of two
abbrev pub Conn : Type 0
Conn = (Option String × ℕ) × (Option String × ℕ)

pub record SbiMsg : Type 0 where
  pub ts : ℕ
  pub stream_id : ℕ
  pub direction : Direction
  pub method : Option String
  pub path : Option String
  pub status : Option ℕ
  pub name : Option String
  pub supi : Option String
  pub unparsed : Option String
  pub conn : Option Conn
