-- ===== src/Impact/Radius/Attribution.antt =====
-- blast_radius of capture.py: the attribution of procedures to the partners.
use net_cortex.Prelude.{
  ℕ, suc, ◌+◌, String, Bool, Option, none, some, List, [], ◌∷◌, ◌++◌, ◌≡◌, refl, ◌∙◌, ◌==◌,
  string_eq, nat_eq, filter, length, is_some, arith, Bool-cases, inl, inr, or_else, length-append,
}
use net_cortex.Prelude.Dict
use net_cortex.Prelude.Dict.{Dict, AllEntries}
use net_cortex.Impact.Capture.{
  Message, ProcedureEntry, FlowEntry, AffectedNf, ProcedureHit, CaptureState, Pointer,
  flow_procedure, n4_procedure, sbi_procedure,
}
use net_cortex.Impact.Radius.{
  attributed, attribute, attribute_all, attribute_flows, attribute_sbi, attribute_planes,
  attribute_through, flow_of, flow_by_id, count_if, on_n4,
}

-- how many of the hits have an outcome
abbrev pub count_outcome : String → List ProcedureHit → ℕ
count_outcome o hits = length (filter (λ h. h.outcome == o) hits)

count_outcome-append :
    (o : String) (hits : List ProcedureHit) (h : ProcedureHit)
    → count_outcome o (hits ++ h ∷ []) ≡ count_outcome o hits + count_if (h.outcome == o)
count_outcome-append o [] h = ground arith
count_outcome-append o (x ∷ xs) h = ground (arith, count_outcome-append o xs h)

-- the stats of an NF count its procedures and their outcomes
abbrev pub KpisAgree : AffectedNf → Type 0
KpisAgree nf =
    (nf.kpis.count ≡ length nf.procedures)
    × (nf.kpis.successes ≡ count_outcome "accept" nf.procedures)
    × (nf.kpis.failures ≡ count_outcome "reject" nf.procedures)

pub attributed-KpisAgree :
    (nf : AffectedNf) (at : Pointer) (p : ProcedureEntry)
    → KpisAgree nf
    → KpisAgree (attributed nf at p)
unfolding attributed
attributed-KpisAgree nf at p (n, s, f) = (
  omega (arith, n, length-append nf.procedures (hit ∷ [])),
  omega (arith, s, count_outcome-append "accept" nf.procedures hit),
  omega (arith, f, count_outcome-append "reject" nf.procedures hit),
)
  where
    hit : ProcedureHit
    hit = record { pointer = at; kind = or_else p.kind ""; outcome = or_else p.outcome "" }

module _ (P : String → AffectedNf → Type 0)
    (keep : (ip : String) (nf : AffectedNf) (at : Pointer) (p : ProcedureEntry)
      → P ip nf
      → P ip (attributed nf at p)) where
  attribute-All :
      (picks : String → AffectedNf → Bool) (at : Pointer) (p : ProcedureEntry)
      (d : Dict String AffectedNf)
      → AllEntries P d
      → AllEntries P (attribute picks at p d)
  unfolding attribute
  attribute-All picks at p [] h = tt
  attribute-All picks at p ((ip, nf) ∷ d) (q, h) = elim (Bool-cases (picks ip nf)) [
    | inl yes_ ↦ rw yes_ (keep ip nf at p q, attribute-All picks at p d h)
    | inr no_ ↦ rw no_ (q, attribute-All picks at p d h)
  ]

  attribute_all-All :
      (picks : String → AffectedNf → Bool) (at : ℕ → Pointer) (i : ℕ) (ps : List ProcedureEntry)
      (d : Dict String AffectedNf)
      → AllEntries P d
      → AllEntries P (attribute_all picks at i ps d)
  unfolding attribute_all
  attribute_all-All picks at i [] d h = h
  attribute_all-All picks at i (p ∷ ps) d h =
      attribute_all-All picks at (suc i) ps (attribute picks (at i) p d)
        (attribute-All picks (at i) p d h)

  attribute_flows-All :
      (i : ℕ) (flows : List FlowEntry) (d : Dict String AffectedNf)
      → AllEntries P d
      → AllEntries P (attribute_flows i flows d)
  unfolding attribute_flows
  attribute_flows-All i [] d h = h
  attribute_flows-All i (flow ∷ flows) d h =
      attribute_flows-All (suc i) flows _
        (attribute_all-All _ (flow_procedure i) 0 flow.procedures d h)

  attribute_through-All :
      (ms : List Message) (at : Pointer) (p : ProcedureEntry) (f : Option FlowEntry)
      (d : Dict String AffectedNf)
      → AllEntries P d
      → AllEntries P (attribute_through ms at p f d)
  unfolding attribute_through
  attribute_through-All ms at p none d h = h
  attribute_through-All ms at p (some flow) d h = attribute-All _ at p d h

  attribute_sbi-All :
      (ms : List Message) (fs : Dict ℕ FlowEntry) (i : ℕ) (ps : List ProcedureEntry)
      (d : Dict String AffectedNf)
      → AllEntries P d
      → AllEntries P (attribute_sbi ms fs i ps d)
  unfolding attribute_sbi
  attribute_sbi-All ms fs i [] d h = h
  attribute_sbi-All ms fs i (p ∷ ps) d h =
      attribute_sbi-All ms fs (suc i) ps _
        (attribute_through-All ms (sbi_procedure i) p (flow_of p.flow_id fs) d h)

  pub attribute_planes-All :
      (c : CaptureState) (d : Dict String AffectedNf)
      → AllEntries P d
      → AllEntries P (attribute_planes c d)
  unfolding attribute_planes
  attribute_planes-All c d h =
      attribute_sbi-All c.sbi.messages (flow_by_id c.flows []) 0 c.sbi.procedures _ (
        attribute_all-All on_n4 n4_procedure 0 c.n4.procedures _
          (attribute_flows-All 0 c.flows d h))

-- the partners are the same
attribute-get :
    (j : String) (picks : String → AffectedNf → Bool) (at : Pointer) (p : ProcedureEntry)
    (d : Dict String AffectedNf)
    → is_some (Dict.get j (attribute picks at p d)) ≡ is_some (Dict.get j d)
unfolding attribute Dict.get
attribute-get j picks at p [] = refl
attribute-get j picks at p ((ip, nf) ∷ d) = ground (arith, attribute-get j picks at p d)

attribute_all-get :
    (j : String) (picks : String → AffectedNf → Bool) (at : ℕ → Pointer) (i : ℕ)
    (ps : List ProcedureEntry) (d : Dict String AffectedNf)
    → is_some (Dict.get j (attribute_all picks at i ps d)) ≡ is_some (Dict.get j d)
unfolding attribute_all
attribute_all-get j picks at i [] d = refl
attribute_all-get j picks at i (p ∷ ps) d =
    attribute_all-get j picks at (suc i) ps (attribute picks (at i) p d)
    ∙ attribute-get j picks (at i) p d

attribute_flows-get :
    (j : String) (i : ℕ) (flows : List FlowEntry) (d : Dict String AffectedNf)
    → is_some (Dict.get j (attribute_flows i flows d)) ≡ is_some (Dict.get j d)
unfolding attribute_flows
attribute_flows-get j i [] d = refl
attribute_flows-get j i (flow ∷ flows) d =
    attribute_flows-get j (suc i) flows _
    ∙ attribute_all-get j _ (flow_procedure i) 0 flow.procedures d

attribute_through-get :
    (j : String) (ms : List Message) (at : Pointer) (p : ProcedureEntry) (f : Option FlowEntry)
    (d : Dict String AffectedNf)
    → is_some (Dict.get j (attribute_through ms at p f d)) ≡ is_some (Dict.get j d)
unfolding attribute_through
attribute_through-get j ms at p none d = refl
attribute_through-get j ms at p (some flow) d = attribute-get j _ at p d

attribute_sbi-get :
    (j : String) (ms : List Message) (fs : Dict ℕ FlowEntry) (i : ℕ) (ps : List ProcedureEntry)
    (d : Dict String AffectedNf)
    → is_some (Dict.get j (attribute_sbi ms fs i ps d)) ≡ is_some (Dict.get j d)
unfolding attribute_sbi
attribute_sbi-get j ms fs i [] d = refl
attribute_sbi-get j ms fs i (p ∷ ps) d =
    attribute_sbi-get j ms fs (suc i) ps _
    ∙ attribute_through-get j ms (sbi_procedure i) p (flow_of p.flow_id fs) d

pub attribute_planes-get :
    (j : String) (c : CaptureState) (d : Dict String AffectedNf)
    → is_some (Dict.get j (attribute_planes c d)) ≡ is_some (Dict.get j d)
unfolding attribute_planes
attribute_planes-get j c d =
    attribute_sbi-get j c.sbi.messages (flow_by_id c.flows []) 0 c.sbi.procedures _
    ∙ attribute_all-get j on_n4 n4_procedure 0 c.n4.procedures _
    ∙ attribute_flows-get j 0 c.flows d
