-- ===== src/Impact/Radius/Partners.antt =====
-- blast_radius of capture.py: the NFs that it returns.
use net_cortex.Prelude.{
  String, false, ◌||◌, Option, none, some, List, [], ◌∷◌, ◌≡◌, refl, ◌∙◌, ap, if◌then◌else◌, ◌==◌,
  string_eq, option_eq, is_some, All, arith, Bool-cases, if_elim, Option-cases, inl, inr,
}
use net_cortex.Prelude.Dict
use net_cortex.Prelude.Dict.{
  Dict, AllEntries, get-put, get-nil, AllEntries-put, AllEntries-mono, All-values,
}
use net_cortex.Prelude.Sorting.{sort_le-All}
use net_cortex.Impact.Change.{Change}
use net_cortex.Impact.Capture.{
  AffectedNf, ProcedureEntry, Pointer, Role, Message, CaptureState, BlastResult, infer_roles,
  capture_consulted,
}
use net_cortex.Impact.Radius.{
  Peers, no_peers, set_default, same_role, affected_by, note_role, note_peer, note_message,
  note_messages, nf_le, attributed, attribute_planes, peers_of, radius_of, blast_radius, target_of,
  all_messages,
}
use net_cortex.Impact.Radius.Attribution.{KpisAgree, attributed-KpisAgree, attribute_planes-All}

pub set_default-get :
    {V : Type 0} (j k : String) (v : V) (d : Dict String V)
    → is_some (Dict.get j (set_default k v d)) ≡ (j == k || is_some (Dict.get j d))
unfolding set_default
set_default-get j k v d = elim (Option-cases (Dict.get k d)) [
  | inl fresh ↦ rw fresh (ground (arith, get-put j k v d))
  | inr (w, old) ↦ rw old (ground (arith, old))
]

set_default-All :
    {V : Type 0} (P : String → V → Type 0) (k : String) (v : V) (d : Dict String V)
    → P k v
    → AllEntries P d
    → AllEntries P (set_default k v d)
unfolding set_default
set_default-All P k v d p h = elim (Option-cases (Dict.get k d)) [
  | inl fresh ↦ rw fresh (AllEntries-put P k v d p h)
  | inr (w, old) ↦ rw old h
]

module _ (upper : String → String) (change : Change) (target : Role) where
  -- what every partner is
  abbrev pub IsPartner : String → AffectedNf → Type 0
  IsPartner ip nf =
      (nf.ip ≡ ip)
      × ((ip == "" || ip == target.ip) ≡ false)
      × (same_role upper nf.role change.target ≡ false)
      × KpisAgree nf

  abbrev pub PartnersOk : Peers → Type 0
  PartnersOk st = AllEntries IsPartner st.partners

module _ (upper : String → String) (change : Change) (roles : Dict String Role)
    (target : Role) where
  note_role-PartnersOk :
      (ip : String) (at : Pointer) (r : Option Role) (st : Peers)
      → ((ip == "" || ip == target.ip) ≡ false)
      → PartnersOk upper change target st
      → PartnersOk upper change target (note_role upper change roles target ip at r st)
  unfolding note_role affected_by
  note_role-PartnersOk ip at none st n h = h
  note_role-PartnersOk ip at (some peer) st n h =
      elim (Bool-cases (same_role upper peer.role change.target)) [
        | inl same ↦ rw same h
        | inr other ↦ rw other (
            set_default-All (IsPartner upper change target) ip _ st.partners
              (refl, n, other, (refl, refl, refl)) h)
      ]

  note_peer-PartnersOk :
      (o : Option String) (at : Pointer) (st : Peers)
      → PartnersOk upper change target st
      → PartnersOk upper change target (note_peer upper change roles target o at st)
  unfolding note_peer
  note_peer-PartnersOk none at st h = h
  note_peer-PartnersOk (some ip) at st h = elim (Bool-cases (ip == "" || ip == target.ip)) [
    | inl skip ↦ rw skip h
    | inr peer ↦ rw peer (note_role-PartnersOk ip at (Dict.get ip roles) st peer h)
  ]

  note_message-PartnersOk :
      (m : Pointer × Message) (st : Peers)
      → PartnersOk upper change target st
      → PartnersOk upper change target (note_message upper change roles target m st)
  unfolding note_message
  note_message-PartnersOk (at, m) st h =
      if_elim (PartnersOk upper change target) (m.src_ip == some target.ip) _ _
        (note_peer-PartnersOk m.dst_ip at _ met) met
    where
      met : PartnersOk upper change target (
          if m.dst_ip == some target.ip
          then note_peer upper change roles target m.src_ip at st
          else st)
      met =
          if_elim (PartnersOk upper change target) (m.dst_ip == some target.ip) _ _
            (note_peer-PartnersOk m.src_ip at st h) h

  pub note_messages-PartnersOk :
      (ms : List (Pointer × Message)) (st : Peers)
      → PartnersOk upper change target st
      → PartnersOk upper change target (note_messages upper change roles target ms st)
  unfolding note_messages
  note_messages-PartnersOk [] st h = h
  note_messages-PartnersOk (m ∷ ms) st h =
      note_messages-PartnersOk ms _ (note_message-PartnersOk m st h)

module _ (upper lower : String → String) (change : Change) (c : CaptureState) where
  abbrev pub AffectedOk : Option Role → AffectedNf → Type 0
  AffectedOk none nf = ⊥
  AffectedOk (some target) nf =
      ((nf.ip == "" || nf.ip == target.ip) ≡ false)
      × (same_role upper nf.role change.target ≡ false)
      × KpisAgree nf

  attributed-IsPartner :
      (target : Role) (ip : String) (nf : AffectedNf) (at : Pointer) (p : ProcedureEntry)
      → IsPartner upper change target ip nf
      → IsPartner upper change target ip (attributed nf at p)
  unfolding attributed
  attributed-IsPartner target ip nf at p (i, n, r, k) = (i, n, r, attributed-KpisAgree nf at p k)

  pub peers_of-partners :
      (target : Role)
      → AllEntries
          (IsPartner upper change target)
          (attribute_planes c (peers_of upper lower change c target).partners)
  unfolding peers_of
  peers_of-partners target =
      attribute_planes-All _ (attributed-IsPartner target) c _
        (note_messages-PartnersOk upper change _ target (all_messages c) no_peers tt)

  radius_of-AffectedOk :
      (t : Option Role)
      → All
          (AffectedOk (radius_of upper lower change c t).target)
          (radius_of upper lower change c t).affected
  unfolding radius_of
  radius_of-AffectedOk none = tt
  radius_of-AffectedOk (some target) =
      sort_le-All nf_le _ _
        (All-values _ _ (AllEntries-mono _ _ forget _ (peers_of-partners target)))
    where
      forget :
          (ip : String) (nf : AffectedNf)
          → IsPartner upper change target ip nf
          → AffectedOk (some target) nf
      forget ip nf (i, n, r, k) = (ap (λ a. a == "" || a == target.ip) i ∙ n, r, k)

  -- Every NF that a blast radius holds has an IP that is neither empty nor the target's, a role that
  -- is not the Change's target, and stats that count its attributed procedures and their outcomes.
  pub blast_radius-AffectedOk :
      All
        (AffectedOk (blast_radius upper lower change c).target)
        (blast_radius upper lower change c).affected
  unfolding blast_radius
  blast_radius-AffectedOk =
      if_elim (λ (r : BlastResult). All (AffectedOk r.target) r.affected) (capture_consulted c) _ _
        (radius_of-AffectedOk (target_of upper lower change (infer_roles upper lower c))) tt
