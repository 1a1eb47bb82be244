-- ===== src/Impact/Radius/Knowledge.antt =====
-- blast_radius of capture.py: what becomes of each peer of the target.
use net_cortex.Prelude.{
  String, Bool, true, false, ◌||◌, Option, none, some, List, [], ◌∷◌, ◌≡◌, refl, sym, ◌∙◌, ap,
  if◌then◌else◌, ◌==◌, ==_iff, string_eq, option_eq, is_some, any, All, All-mono, subst, length,
  arith, Bool-cases, if_elim, inl, inr,
}
use net_cortex.Prelude.Dict
use net_cortex.Prelude.Dict.{Dict, AllEntries, AllEntries-mono}
use net_cortex.Prelude.Sorting.{sort_le, insert_le}
use net_cortex.Impact.Change.{Change}
use net_cortex.Impact.Capture.{
  AffectedNf, Pointer, Role, Message, CaptureState, BlastResult, infer_roles, capture_consulted,
}
use net_cortex.Impact.Radius.{
  Peers, no_peers, same_role, affected_by, note_role, note_peer, note_message, note_messages, nf_le,
  peers_of, radius_of, blast_radius, target_of, role_by_ip, all_messages,
}
use net_cortex.Impact.Radius.Attribution.{attribute_planes-get}
use net_cortex.Impact.Radius.Partners.{set_default-get, peers_of-partners}

-- the peer's role is the Change's target, or one that the test knows
abbrev pub role_placed : (String → String) → Change → Option Role → Bool → Bool → Bool
role_placed upper change none unknown affected = unknown
role_placed upper change (some peer) unknown affected =
    same_role upper peer.role change.target || affected

module _ (upper : String → String) (change : Change) (roles : Dict String Role)
    (target : Role) where
  -- an end of a message that is no peer, or one that was noted
  abbrev pub noted : Peers → Option String → Bool
  noted st none = true
  noted st (some ip) =
      ip == ""
      || ip == target.ip
      || role_placed upper change (Dict.get ip roles) (is_some (Dict.get ip st.unknown_ips))
          (is_some (Dict.get ip st.partners))

  abbrev pub Noted : Peers → Option String → Type 0
  Noted st o = noted st o ≡ true

  note_role-Noted :
      (ip : String) (at : Pointer) (r : Option Role) (st : Peers) (o : Option String)
      → Noted st o
      → Noted (note_role upper change roles target ip at r st) o
  unfolding note_role
  note_role-Noted ip at none st none h = refl
  note_role-Noted ip at (some peer) st none h = refl
  note_role-Noted ip at none st (some j) h =
      ground (arith, h, set_default-get j ip at st.unknown_ips)
  note_role-Noted ip at (some peer) st (some j) h =
      ground
        (arith, h, set_default-get j ip (affected_by upper (record peer { ip = ip })) st.partners)

  note_peer-Noted :
      (p : Option String) (at : Pointer) (st : Peers) (o : Option String)
      → Noted st o
      → Noted (note_peer upper change roles target p at st) o
  unfolding note_peer
  note_peer-Noted none at st o h = h
  note_peer-Noted (some ip) at st o h =
      if_elim (λ st'. Noted st' o) (ip == "" || ip == target.ip) _ _ h
        (note_role-Noted ip at (Dict.get ip roles) st o h)

  note_role_self :
      (ip : String) (at : Pointer) (r : Option Role) (st : Peers)
      → Dict.get ip roles ≡ r
      → Noted (note_role upper change roles target ip at r st) (some ip)
  unfolding note_role
  note_role_self ip at none st e = ground (arith, e, set_default-get ip ip at st.unknown_ips)
  note_role_self ip at (some peer) st e =
      ground
        (arith, e, set_default-get ip ip (affected_by upper (record peer { ip = ip })) st.partners)

  note_peer_self :
      (p : Option String) (at : Pointer) (st : Peers)
      → Noted (note_peer upper change roles target p at st) p
  unfolding note_peer
  note_peer_self none at st = refl
  note_peer_self (some ip) at st = elim (Bool-cases (ip == "" || ip == target.ip)) [
    | inl skip ↦ rw skip (ground (arith, skip))
    | inr peer ↦ rw peer (rw peer at (note_role_self ip at (Dict.get ip roles) st refl))
  ]

  -- the other end of each message that the target sends or receives
  abbrev pub EndsNoted : Peers → (Pointer × Message) → Type 0
  EndsNoted st (at, m) =
      (m.dst_ip ≡ some target.ip → Noted st m.src_ip)
      × (m.src_ip ≡ some target.ip → Noted st m.dst_ip)

  note_message-Noted :
      (m : Pointer × Message) (st : Peers) (o : Option String)
      → Noted st o
      → Noted (note_message upper change roles target m st) o
  unfolding note_message
  note_message-Noted (at, m) st o h =
      if_elim (λ st'. Noted st' o) (m.src_ip == some target.ip) _ _
        (note_peer-Noted m.dst_ip at _ o met) met
    where
      met :
          Noted
            (if m.dst_ip == some target.ip
              then note_peer upper change roles target m.src_ip at st
              else st)
            o
      met =
          if_elim (λ st'. Noted st' o) (m.dst_ip == some target.ip) _ _
            (note_peer-Noted m.src_ip at st o h) h

  note_message_self :
      (m : Pointer × Message) (st : Peers)
      → EndsNoted (note_message upper change roles target m st) m
  unfolding note_message
  note_message_self (at, m) st = (
    λ d.
        if_elim (λ st'. Noted st' m.src_ip) (m.src_ip == some target.ip) _ _
          (note_peer-Noted m.dst_ip at _ m.src_ip (received d)) (received d),
    λ s. rw ((==_iff m.src_ip (some target.ip)).1 s) (note_peer_self m.dst_ip at _),
  )
    where
      received :
          m.dst_ip ≡ some target.ip
          → Noted
              (if m.dst_ip == some target.ip
                then note_peer upper change roles target m.src_ip at st
                else st)
              m.src_ip
      received d = rw ((==_iff m.dst_ip (some target.ip)).1 d) (note_peer_self m.src_ip at st)

  note_messages-Noted :
      (ms : List (Pointer × Message)) (st : Peers) (o : Option String)
      → Noted st o
      → Noted (note_messages upper change roles target ms st) o
  unfolding note_messages
  note_messages-Noted [] st o h = h
  note_messages-Noted (m ∷ ms) st o h = note_messages-Noted ms _ o (note_message-Noted m st o h)

  pub note_messages-EndsNoted :
      (ms : List (Pointer × Message)) (st : Peers)
      → All (EndsNoted (note_messages upper change roles target ms st)) ms
  unfolding note_messages
  note_messages-EndsNoted [] st = tt
  note_messages-EndsNoted (m ∷ ms) st = (
    (
      λ d. note_messages-Noted ms _ m.1.src_ip ((note_message_self m st).0 d),
      λ s. note_messages-Noted ms _ m.1.dst_ip ((note_message_self m st).1 s),
    ),
    note_messages-EndsNoted ms (note_message upper change roles target m st),
  )

any-insert :
    (p : AffectedNf → Bool) (x : AffectedNf) (ys : List AffectedNf)
    → any p (insert_le nf_le x ys) ≡ (p x || any p ys)
unfolding insert_le
any-insert p x [] = refl
any-insert p x (y ∷ ys) = ground (arith, any-insert p x ys)

any-sort_le : (p : AffectedNf → Bool) (xs : List AffectedNf) → any p (sort_le nf_le xs) ≡ any p xs
unfolding sort_le
any-sort_le p [] = refl
any-sort_le p (x ∷ xs) = any-insert p x (sort_le nf_le xs) ∙ ap (λ b. p x || b) (any-sort_le p xs)

-- a partner that the dict holds is found by its IP
any-values :
    (ip : String) (d : Dict String AffectedNf)
    → AllEntries (λ j nf. nf.ip ≡ j) d
    → is_some (Dict.get ip d) ≡ any (λ nf. nf.ip == ip) (Dict.values d)
unfolding Dict.get Dict.values
any-values ip [] h = refl
any-values ip ((j, nf) ∷ d) (p, h) = ground (arith, p, any-values ip d h)

if_true : (b r : Bool) → (b ≡ true → r ≡ true) → (if b then r else true) ≡ true
if_true true r f = f refl
if_true false r f = refl

no_keys :
    {V : Type 0} (ip : String) (d : Dict String V) → length d ≡ 0 → is_some (Dict.get ip d) ≡ false
unfolding Dict.get
no_keys ip [] h = refl
no_keys ip (x ∷ d) h = absurd (ground arith)

module _ (upper lower : String → String) (change : Change) (c : CaptureState) where
  -- the end of a message is no peer, or has a role, and is the Change's target or affected
  abbrev pub placed : Role → List AffectedNf → Option String → Bool
  placed target affected none = true
  placed target affected (some ip) =
      ip == ""
      || ip == target.ip
      || role_placed upper change (Dict.get ip (role_by_ip (infer_roles upper lower c) [])) false
          (any (λ nf. nf.ip == ip) affected)

  abbrev pub EndsPlaced : Option Role → List AffectedNf → (Pointer × Message) → Type 0
  EndsPlaced none affected m = ⊥
  EndsPlaced (some target) affected (at, m) =
      ((if m.dst_ip == some target.ip then placed target affected m.src_ip else true) ≡ true)
      × ((if m.src_ip == some target.ip then placed target affected m.dst_ip else true) ≡ true)

  affected_iff_partner :
      (target : Role) (ip : String)
      → any (λ nf. nf.ip == ip) (radius_of upper lower change c (some target)).affected
        ≡ is_some (Dict.get ip (peers_of upper lower change c target).partners)
  unfolding radius_of
  affected_iff_partner target ip =
      any-sort_le (λ nf. nf.ip == ip) _
      ∙ sym (
          any-values ip _ (
            AllEntries-mono _ _ (λ j nf (i, _, _, _). i) _
              (peers_of-partners upper lower change c target)))
      ∙ attribute_planes-get ip c _

  unknown_peers-length :
      (target : Role)
      → (radius_of upper lower change c (some target)).unknown_peers ≡ 0
      → length (peers_of upper lower change c target).unknown_ips ≡ 0
  unfolding radius_of
  unknown_peers-length target u = u

  radius_of-target :
      (target : Role) → (radius_of upper lower change c (some target)).target ≡ some target
  unfolding radius_of
  radius_of-target target = refl

  no_target : is_some (radius_of upper lower change c none).target ≡ true → ⊥
  unfolding radius_of
  no_target l = ground arith

  ends_of :
      (target : Role)
      → All
          (EndsNoted upper change
            (role_by_ip (infer_roles upper lower c) [])
            target
            (peers_of upper lower change c target))
          (all_messages c)
  unfolding peers_of
  ends_of target =
      note_messages-EndsNoted upper change (role_by_ip (infer_roles upper lower c) []) target
        (all_messages c) no_peers

  placed_of_noted :
      (target : Role) (o : Option String)
      → (radius_of upper lower change c (some target)).unknown_peers ≡ 0
      → noted upper change
          (role_by_ip (infer_roles upper lower c) [])
          target
          (peers_of upper lower change c target)
          o
        ≡ true
      → placed target (radius_of upper lower change c (some target)).affected o ≡ true
  placed_of_noted target none u h = refl
  placed_of_noted target (some ip) u h =
      rw (affected_iff_partner target ip) (rw (no_keys ip _ (unknown_peers-length target u)) at h)

  radius_of-EndsPlaced :
      (t : Option Role)
      → is_some (radius_of upper lower change c t).target ≡ true
      → (radius_of upper lower change c t).unknown_peers ≡ 0
      → All
          (EndsPlaced
            (radius_of upper lower change c t).target
            (radius_of upper lower change c t).affected)
          (all_messages c)
  radius_of-EndsPlaced none l u = absurd (no_target l)
  radius_of-EndsPlaced (some target) l u =
      subst
        (λ t.
          All (EndsPlaced t (radius_of upper lower change c (some target)).affected)
            (all_messages c))
        (sym (radius_of-target target))
        (All-mono _ _
          (λ m (d, s). (
            if_true (m.1.dst_ip == some target.ip) _
                (λ e. placed_of_noted target m.1.src_ip u (d ((==_iff _ _).0 e))),
            if_true (m.1.src_ip == some target.ip) _
                (λ e. placed_of_noted target m.1.dst_ip u (s ((==_iff _ _).0 e))),
          ))
          (all_messages c) (ends_of target))

  -- Where the target is located and no peer is unknown, the other end of each message that it sends
  -- or receives has a role that the capture proves, and is an affected NF unless this is the target's.
  pub blast_radius-EndsPlaced :
      (located : is_some (blast_radius upper lower change c).target ≡ true)
      (known : (blast_radius upper lower change c).unknown_peers ≡ 0)
      → All
          (EndsPlaced
            (blast_radius upper lower change c).target
            (blast_radius upper lower change c).affected)
          (all_messages c)
  unfolding blast_radius
  blast_radius-EndsPlaced =
      if_elim
        (λ (r : BlastResult).
          is_some r.target ≡ true
          → r.unknown_peers ≡ 0
          → All (EndsPlaced r.target r.affected) (all_messages c))
        (capture_consulted c) _ _
        (radius_of-EndsPlaced (target_of upper lower change (infer_roles upper lower c)))
        (λ l u. absurd (ground arith))
