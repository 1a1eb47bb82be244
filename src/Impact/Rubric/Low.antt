-- ===== src/Impact/Rubric/Low.antt =====
-- grade of rubric.py: what the grade LOW takes for granted.
use net_cortex.Prelude.{
  ℕ, String, Bool, true, false, Option, none, some, List, [], ◌∷◌, ◌++◌, ◌≡◌, refl, sym, ◌∙◌, ◌==◌,
  nat_eq, string_eq, find, All, is_empty, length, arith, Bool-cases, inl, inr, ◌<◌,
}
use net_cortex.Prelude.Dict
use net_cortex.Prelude.Sorting.{sort_le, sort_le-cons}
use net_cortex.Impact.Change.{ChangeType, upgrade, config, change_type_eq, Change}
use net_cortex.Impact.Capture.{Pointer, Role, CaptureState, BlastResult, message_at}
use net_cortex.Impact.SpecGraph.{SpecGraphState, RefPartner, by_id}
use net_cortex.Impact.Criticality.{
  CriticalHit, is_critical, message_name, entity_name, hits_of, radius_pointers, capture_hits,
  cited_ids, specgraph_hits,
}
use net_cortex.Impact.Evidence.{
  Host, Evidence, ChangeRecord, change_records, EpisodeMention, triage_episode_mentions,
  dispatch_episode_mentions, report_mentions,
}
use net_cortex.Impact.Signals.{
  low, HistoricalSignal, no_history, Criticality, non_critical, BlastRadius, narrow, grade_matrix,
  blast_from_count,
}
use net_cortex.Impact.History.{
  is_failed_on, all_consulted, assess_quiet, assess_found, assess_history, failed_record,
}
use net_cortex.Impact.BlastFactor.{assess_radius, known_count}
use net_cortex.Impact.CriticalFactor.{assess_hits}
use net_cortex.Impact.Rubric.{grade, assess_blast, assess_criticality, radius, partners}

grade_matrix-low :
    (h : HistoricalSignal) (c : Criticality) (b : BlastRadius)
    → grade_matrix h c b ≡ low
    → (h ≡ no_history) × (c ≡ non_critical) × (b ≡ narrow)
unfolding grade_matrix
grade_matrix-low h c b e = ground arith

grade-low_signals :
    (host : Host) (change : Change) (e : Evidence)
    → (grade host change e).grade ≡ low
    → ((assess_history host change e).0 ≡ no_history)
      × ((assess_criticality host change e).0 ≡ non_critical)
      × ((assess_blast host change e).0 ≡ narrow)
unfolding grade
grade-low_signals host change e h = grade_matrix-low _ _ _ h

empty_of : {A : Type 0} (xs : List A) → is_empty xs ≡ true → xs ≡ []
empty_of [] h = refl
empty_of (x ∷ xs) h = absurd (ground arith)

assess_quiet-no_history :
    (t : String) (e : Evidence) (ms : List EpisodeMention) (rs : List (String × List ℕ))
    → (assess_quiet t e ms rs).0 ≡ no_history
    → (all_consulted e ≡ true) × (is_empty ms ≡ true) × (is_empty rs ≡ true)
unfolding assess_quiet
assess_quiet-no_history t e ms rs h = ground arith

assess_found-no_history :
    (host : Host) (change : Change) (e : Evidence) (r : Option ChangeRecord)
    → (assess_found host change e r).0 ≡ no_history
    → (r ≡ none)
      × (all_consulted e ≡ true)
      × (is_empty (
            triage_episode_mentions host e.triage_episodes change.target
            ++ dispatch_episode_mentions host e.dispatch_episodes change.target)
          ≡ true)
      × (is_empty (report_mentions host e.reports change.target) ≡ true)
unfolding assess_found
assess_found-no_history host change e (some r) h = absurd (ground arith)
assess_found-no_history host change e none h =
    let (a, m, r) = assess_quiet-no_history _ _ _ _ h in (refl, a, m, r)

abbrev pub RadiusAt : BlastResult → List RefPartner → Option Role → Type 0
RadiusAt r ps none = length ps ≡ 1
RadiusAt r ps (some target) = (r.unknown_peers ≡ 0) × (length r.affected < 2)

-- the radius is known and has at most one other NF
abbrev pub KnownRadius : BlastResult → List RefPartner → Type 0
KnownRadius r ps = RadiusAt r ps r.target

assess_radius-narrow :
    (e : Evidence) (t : String) (r : BlastResult) (o : Option Role) (ps : List RefPartner)
    → (assess_radius e t r o ps).0 ≡ narrow
    → RadiusAt r ps o
unfolding assess_radius blast_from_count known_count
assess_radius-narrow e t r none [] h = absurd (ground arith)
assess_radius-narrow e t r none (p ∷ ps) h = ground arith
assess_radius-narrow e t r (some target) ps h = (ground arith, ground arith)

upgrade_of : (t : ChangeType) → (t == config) ≡ false → t ≡ upgrade
unfolding change_type_eq
upgrade_of upgrade h = refl
upgrade_of config h = absurd (ground arith)

assess_blast-narrow :
    (host : Host) (change : Change) (e : Evidence)
    → (assess_blast host change e).0 ≡ narrow
    → (change.type ≡ upgrade) × KnownRadius (radius host change e) (partners host change e)
unfolding assess_blast
assess_blast-narrow host change e h = elim (Bool-cases (change.type == config)) [
  | inl is_config ↦ absurd (ground (arith, rw is_config at h))
  | inr is_upgrade ↦ (
    upgrade_of change.type is_upgrade,
    assess_radius-narrow e change.target _ (radius host change e).target _ (rw is_upgrade at h),
  )
]

assess_hits-non_critical :
    (e : Evidence) (t : String) (r : BlastResult) (ps : List RefPartner)
    (wire : List (CriticalHit Pointer)) (refs : List (CriticalHit String))
    → (assess_hits e t r ps wire refs).0 ≡ non_critical
    → (is_empty wire ≡ true) × (is_empty refs ≡ true)
unfolding assess_hits
assess_hits-non_critical e t r ps wire refs h = ground arith

find-none : {A : Type 0} (p : A → Bool) (xs : List A) → find p xs ≡ none → All (λ x. p x ≡ false) xs
find-none p [] h = tt
find-none p (x ∷ xs) h = (ground arith, find-none p xs (ground arith))

append-empty : {A : Type 0} (xs ys : List A) → is_empty (xs ++ ys) ≡ true → (xs ≡ []) × (ys ≡ [])
append-empty [] ys h = (refl, empty_of ys h)
append-empty (x ∷ xs) ys h = absurd (ground arith)

failed_record-none :
    (host : Host) (change : Change) (e : Evidence)
    → all_consulted e ≡ true
    → failed_record host change e.history ≡ none
    → All (λ r. is_failed_on change r ≡ false) (change_records host e.history)
unfolding failed_record all_consulted
failed_record-none host change e a h = find-none _ _ (ground arith)

assess_criticality-non_critical :
    (host : Host) (change : Change) (e : Evidence)
    → (assess_criticality host change e).0 ≡ non_critical
    → (is_empty (capture_hits e.capture (radius host change e)) ≡ true)
      × (is_empty (specgraph_hits e.specgraph (partners host change e)) ≡ true)
unfolding assess_criticality
assess_criticality-non_critical host change e h = elim (Bool-cases (change.type == config)) [
  | inl is_config ↦ absurd (ground (arith, rw is_config at h))
  | inr is_upgrade ↦ assess_hits-non_critical e change.target _ _ _ _ (rw is_upgrade at h)
]

assess_history-found :
    (host : Host) (change : Change) (e : Evidence)
    → (assess_history host change e).0 ≡ no_history
    → (assess_found host change e (failed_record host change e.history)).0 ≡ no_history
unfolding assess_history
assess_history-found host change e h = h

-- a pointer's message, if there is one, is of no critical interface
abbrev pub IsUncritical : CaptureState → Pointer → Type 0
IsUncritical c p = is_critical (message_name (message_at c p)) ≡ false

-- nor is the entity of a reference
abbrev pub IsUncriticalEntity : SpecGraphState → String → Type 0
IsUncriticalEntity g id = is_critical (entity_name (Dict.get id (by_id g.entities []))) ≡ false

sort_le-nil : {A : Type 0} (le : A → A → Bool) (xs : List A) → sort_le le xs ≡ [] → xs ≡ []
unfolding sort_le
sort_le-nil le [] h = refl
sort_le-nil le (x ∷ xs) h = let (p, rest, same) = sort_le-cons le x xs in absurd (cc (sym same ∙ h))

hits_of-nil :
    {P : Type 0} (name : P → String) (ps : List P)
    → hits_of name ps ≡ []
    → All (λ p. is_critical (name p) ≡ false) ps
unfolding hits_of
hits_of-nil name [] h = tt
hits_of-nil name (p ∷ ps) h = elim (Bool-cases (is_critical (name p))) [
  | inl hit ↦ absurd (cc (rw hit at h))
  | inr miss ↦ (miss, hits_of-nil name ps (rw miss at h))
]

capture_hits-nil :
    (c : CaptureState) (r : BlastResult)
    → capture_hits c r ≡ []
    → All (IsUncritical c) (radius_pointers r)
unfolding capture_hits
capture_hits-nil c r h = hits_of-nil _ (radius_pointers r) (sort_le-nil _ _ h)

specgraph_hits-nil :
    (g : SpecGraphState) (ps : List RefPartner)
    → specgraph_hits g ps ≡ []
    → All (IsUncriticalEntity g) (cited_ids ps)
unfolding specgraph_hits
specgraph_hits-nil g ps h = hits_of-nil _ (cited_ids ps) (sort_le-nil _ _ h)

-- what is known of a Change whose risk is LOW
pub record IsQuiet (host : Host) (change : Change) (e : Evidence) : Type 0 where
  pub upgrades : change.type ≡ upgrade
  pub read : all_consulted e ≡ true
  pub no_failure : All (λ r. is_failed_on change r ≡ false) (change_records host e.history)
  pub no_triage : triage_episode_mentions host e.triage_episodes change.target ≡ []
  pub no_dispatch : dispatch_episode_mentions host e.dispatch_episodes change.target ≡ []
  pub no_report : report_mentions host e.reports change.target ≡ []
  pub no_wire_hit : All (IsUncritical e.capture) (radius_pointers (radius host change e))
  pub no_graph_hit : All (IsUncriticalEntity e.specgraph) (cited_ids (partners host change e))
  pub known_radius : KnownRadius (radius host change e) (partners host change e)

-- A Change is graded LOW only if it is an upgrade, all four historical stores were read, no record
-- is a failed one of its type and target, no Episode and no report mentions the target, none of the
-- messages that prove the target and the affected NFs, one for each, is of a critical interface, no
-- entity that a reference dependency cites is one, and the radius is known: the target is located, no
-- peer is unknown and at most one NF is affected, or it is not located and has one partner.
pub grade-IsQuiet :
    (host : Host) (change : Change) (e : Evidence)
    → (grade host change e).grade ≡ low
    → IsQuiet host change e
grade-IsQuiet host change e h =
    let (history, criticality, blast) = grade-low_signals host change e h in
    let (no_failed, read, mentions, reports) =
      assess_found-no_history host change e _ (assess_history-found host change e history) in
    let (triage, dispatch) = append-empty _ _ mentions in
    let (wire, refs) = assess_criticality-non_critical host change e criticality in
    let (upgrades, radius_known) = assess_blast-narrow host change e blast in
    record {
      upgrades = upgrades;
      read = read;
      no_failure = failed_record-none host change e read no_failed;
      no_triage = triage;
      no_dispatch = dispatch;
      no_report = empty_of _ reports;
      no_wire_hit = capture_hits-nil e.capture _ (empty_of _ wire);
      no_graph_hit = specgraph_hits-nil e.specgraph _ (empty_of _ refs);
      known_radius = radius_known;
    }
