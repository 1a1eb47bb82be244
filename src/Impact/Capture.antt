-- ===== src/Impact/Capture.antt =====
-- capture.py: the roles that a decoded capture proves, and the blast radius of a Change. A section
-- that is absent and one that is empty read alike here, so both are empty lists; a pointer is the
-- structure that its text spells. `upper` and `lower` are Python's `str.upper` and `str.lower`.
use net_cortex.Prelude.{
  ℕ, suc, String, Bool, false, ◌&&◌, Option, none, some, List, [], ◌∷◌, ◌++◌, if◌then◌else◌, ◌==◌,
  nat_eq, string_eq, option_eq, any, find, get_elem?, leb, or_else, is_some, has_text, before_char,
  drop_first, show, concat,
}
use Prim.Native.Char.{code}

-- The decoded documents, as far as they are read.
pub record Message : Type 0 where
  pub name : Option String
  pub src_ip : Option String
  pub dst_ip : Option String
  pub direction : Option String

pub record ProcedureEntry : Type 0 where
  pub kind : Option String
  pub outcome : Option String
  pub flow_id : Option ℕ

pub record FlowEntry : Type 0 where
  pub flow_id : Option ℕ
  pub messages : List Message
  pub procedures : List ProcedureEntry
  pub sbi_refs : List ℕ

pub record Plane : Type 0 where
  pub messages : List Message
  pub procedures : List ProcedureEntry

pub data Pointer : Type 0 where
  flow_message flow_procedure : ℕ → ℕ → Pointer
  n4_message sbi_message n4_procedure sbi_procedure : ℕ → Pointer

unfoldable pub pointer_text : Pointer → String
pointer_text (flow_message f m) = concat ("flows/" ∷ show f ∷ "/messages/" ∷ show m ∷ [])
pointer_text (flow_procedure f p) = concat ("flows/" ∷ show f ∷ "/procedures/" ∷ show p ∷ [])
pointer_text (n4_message i) = concat ("n4/messages/" ∷ show i ∷ [])
pointer_text (sbi_message i) = concat ("sbi/messages/" ∷ show i ∷ [])
pointer_text (n4_procedure i) = concat ("n4/procedures/" ∷ show i ∷ [])
pointer_text (sbi_procedure i) = concat ("sbi/procedures/" ∷ show i ∷ [])

pub record Role : Type 0 where
  pub role : String
  pub ip : String
  pub evidence : Pointer

pub record ProcedureHit : Type 0 where
  pub pointer : Pointer
  pub kind : String
  pub outcome : String

pub record KpiStats : Type 0 where
  pub count : ℕ
  pub successes : ℕ
  pub failures : ℕ

pub record AffectedNf : Type 0 where
  pub role : String
  pub ip : String
  pub evidence : Pointer
  pub procedures : List ProcedureHit
  pub kpis : KpiStats

pub record BlastResult : Type 0 where
  pub target : Option Role
  pub affected : List AffectedNf
  pub unknown_peers : ℕ
  pub unknown_peer_pointers : List Pointer

pub record CaptureState : Type 0 where
  pub path : Option String
  pub flows : List FlowEntry
  pub n4 : Plane
  pub sbi : Plane
  pub exists : Bool
  pub n4_path : Option String
  pub sbi_path : Option String

-- `CaptureState.consulted`
unfoldable pub capture_consulted : CaptureState → Bool
capture_consulted c = is_some c.path && c.exists

-- `CaptureState.pointer_source`
unfoldable pub pointer_source : CaptureState → Pointer → Option String
pointer_source c (flow_message f m) = c.path
pointer_source c (flow_procedure f p) = c.path
pointer_source c (n4_message i) = if is_some c.n4_path then c.n4_path else c.path
pointer_source c (n4_procedure i) = if is_some c.n4_path then c.n4_path else c.path
pointer_source c (sbi_message i) = if is_some c.sbi_path then c.sbi_path else c.path
pointer_source c (sbi_procedure i) = if is_some c.sbi_path then c.sbi_path else c.path

unfoldable pub flow_messages : Option FlowEntry → List Message
flow_messages none = []
flow_messages (some f) = f.messages

unfoldable pub message_at : CaptureState → Pointer → Option Message
unfolding flow_messages
message_at c (flow_message f m) = get_elem? (flow_messages (get_elem? c.flows f)) m
message_at c (n4_message i) = get_elem? c.n4.messages i
message_at c (sbi_message i) = get_elem? c.sbi.messages i
message_at c (flow_procedure f p) = none
message_at c (n4_procedure i) = none
message_at c (sbi_procedure i) = none

-- `add`: a role with an IP, once
unfoldable pub add : String → Option String → Pointer → List Role → List Role
add role none evidence roles = roles
add role (some ip) evidence roles =
    if ip == ""
    then roles
    else if any (λ r. r.role == role && r.ip == ip) roles
    then roles
    else roles ++ (record { role = role; ip = ip; evidence = evidence }) ∷ []

-- the messages of a list with their pointers
unfoldable pub located : (ℕ → Pointer) → ℕ → List Message → List (Pointer × Message)
located at i [] = []
located at i (m ∷ ms) = (at i, m) ∷ located at (suc i) ms

unfoldable pub located_flows : ℕ → List FlowEntry → List (Pointer × Message)
located_flows f [] = []
located_flows f (flow ∷ flows) =
    located (flow_message f) 0 flow.messages ++ located_flows (suc f) flows

-- gNB and AMF: the first InitialUEMessage names both ends
unfoldable pub add_ends : String → String → Option (Pointer × Message) → List Role → List Role
unfolding add
add_ends source destination none roles = roles
add_ends source destination (some (at, m)) roles =
    add destination m.dst_ip at (add source m.src_ip at roles)

-- the text of `^N[a-z]{2}$`, which also matches before a newline at the end
unfoldable pub lower_tail : ℕ → String → Bool
lower_tail n String.[] = leb 2 n
lower_tail n (String.◌∷◌ c String.[]) =
    if leb b'a' (code c) && leb (code c) b'z' then leb 1 n else code c == 10 && leb 2 n
lower_tail n (String.◌∷◌ c (String.◌∷◌ d s)) =
    leb b'a' (code c) && leb (code c) b'z' && lower_tail (suc n) (String.◌∷◌ d s)

unfoldable pub is_sbi_family : String → Bool
unfolding lower_tail
is_sbi_family String.[] = false
is_sbi_family (String.◌∷◌ c s) = code c == b'N' && lower_tail 0 s

module _ (upper lower : String → String) where
  -- `_sbi_role_of`
  unfoldable pub sbi_role_of : Message → Option String
  unfolding is_sbi_family
  sbi_role_of m =
      let family = before_char b'_' (or_else m.name "") in
      if is_sbi_family family then some (upper (drop_first family)) else none

  abbrev pub is_initial : (Pointer × Message) → Bool
  is_initial (at, m) = m.name == some "InitialUEMessage"

  abbrev pub names_text : String → (Pointer × Message) → Bool
  names_text text (at, m) = has_text (lower (or_else m.name "")) text

  -- the PFCP message that names both ends: the association setup, or else the first session
  unfoldable pub chosen : List (Pointer × Message) → Option (Pointer × Message)
  chosen ms =
      or_first (find (names_text "association setup request") ms)
        (find (names_text "pfcp session establishment request") ms)
    where
      or_first :
          Option (Pointer × Message) → Option (Pointer × Message) → Option (Pointer × Message)
      or_first (some m) other = some m
      or_first none other = other

  unfoldable pub add_role : Option String → Option String → Pointer → List Role → List Role
  add_role none ip at roles = roles
  add_role (some role) ip at roles = if role == "" then roles else add role ip at roles

  -- SBI producers: the destination of a request
  unfoldable pub add_producers : List (Pointer × Message) → List Role → List Role
  unfolding add_role
  add_producers [] roles = roles
  add_producers ((at, m) ∷ ms) roles =
      add_producers ms (
        if m.direction == some "request" then add_role (sbi_role_of m) m.dst_ip at roles else roles)

  unfoldable pub infer_roles : CaptureState → List Role
  unfolding add_ends chosen add_producers
  infer_roles c =
      let ends = add_ends "gNB" "AMF" (find is_initial (located_flows 0 c.flows)) [] in
      let planes = add_ends "SMF" "UPF" (chosen (located n4_message 0 c.n4.messages)) ends in
      add_producers (located sbi_message 0 c.sbi.messages) planes
