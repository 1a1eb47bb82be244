-- ===== src/Impact/Rubric/High.antt =====
-- grade of rubric.py: the Change Records that failed.
use net_cortex.Prelude.{
  ℕ, zero, suc, ◌+◌, String, Bool, true, Option, none, some, List, [], ◌∷◌, ◌≡◌, refl, sym, ap₂,
  subst, ◌∙◌, find, is_some, get_elem?, arith, some-injective,
}
use net_cortex.Impact.Change.{Change, change_type_eq}
use net_cortex.Impact.Evidence.{
  Host, Evidence, ChangeRecord, StoreState, change_records, change_records_from, record_of,
  keep_some, store_consulted,
}
use net_cortex.Impact.Signals.{high, failure_match, Criticality, BlastRadius, grade_matrix}
use net_cortex.Impact.History.{is_failed_on, assess_found, assess_history, failed_record}
use net_cortex.Impact.Rubric.{grade}

find-keep_some :
    {A : Type 0} (p : A → Bool) (o : Option A) (xs : List A)
    → is_some (find p xs) ≡ true
    → is_some (find p (keep_some o xs)) ≡ true
unfolding keep_some
find-keep_some p none xs h = h
find-keep_some p (some x) xs h = ground arith

find_kept :
    {A : Type 0} (p : A → Bool) (x : A) (xs : List A)
    → p x ≡ true
    → is_some (find p (keep_some (some x) xs)) ≡ true
unfolding keep_some
find_kept p x xs h = ground arith

module _ (host : Host) where
  -- a record that a line holds is among the records
  find_records :
      (p : ChangeRecord → Bool) (start : ℕ) (lines : List String) (i n : ℕ) (line : String)
      (r : ChangeRecord)
      → get_elem? lines i ≡ some line
      → n ≡ start + i
      → record_of n (host.loads line) ≡ some r
      → p r ≡ true
      → is_some (find p (change_records_from host start lines)) ≡ true
  unfolding change_records_from
  find_records p start [] i n line r at q holds h = absurd (ground arith)
  find_records p start (x ∷ xs) zero n line r at q holds h =
      subst (λ o. is_some (find p (keep_some o (change_records_from host (suc start) xs))) ≡ true)
        (sym (
          ap₂ (λ k t. record_of k (host.loads t)) (omega (arith, q)) (some-injective x line at)
          ∙ holds))
        (find_kept p r _ h)
  find_records p start (x ∷ xs) (suc i) n line r at q holds h =
      find-keep_some p _ _ (find_records p (suc start) xs i n line r at (omega (arith, q)) holds h)

  assess_found-failure :
      (change : Change) (e : Evidence) (o : Option ChangeRecord)
      → is_some o ≡ true
      → (assess_found host change e o).0 ≡ failure_match
  unfolding assess_found
  assess_found-failure change e none h = absurd (ground arith)
  assess_found-failure change e (some r) h = refl

  failed_record-some :
      (change : Change) (s : StoreState) (i : ℕ) (line : String) (r : ChangeRecord)
      → store_consulted s ≡ true
      → get_elem? s.lines i ≡ some line
      → record_of (1 + i) (host.loads line) ≡ some r
      → is_failed_on change r ≡ true
      → is_some (failed_record host change s) ≡ true
  unfolding failed_record change_records
  failed_record-some change s i line r read at holds h =
      rw read (find_records _ 1 s.lines i (1 + i) line r at refl holds h)

  assess_history-failure :
      (change : Change) (e : Evidence)
      → is_some (failed_record host change e.history) ≡ true
      → (assess_history host change e).0 ≡ failure_match
  unfolding assess_history
  assess_history-failure change e h =
      assess_found-failure change e (failed_record host change e.history) h

grade_matrix-failure : (c : Criticality) (b : BlastRadius) → grade_matrix failure_match c b ≡ high
unfolding grade_matrix
grade_matrix-failure c b = refl

grade-failure :
    (host : Host) (change : Change) (e : Evidence)
    → (assess_history host change e).0 ≡ failure_match
    → (grade host change e).grade ≡ high
unfolding grade
grade-failure host change e h = rw h (grade_matrix-failure _ _)

-- Where a line of the Change History that was read holds a record of a failed Change with the type
-- and target of this one, the Change is graded HIGH, whatever the other evidence is.
pub grade-failed_high :
    (host : Host) (change : Change) (e : Evidence) (i : ℕ) (line : String) (r : ChangeRecord)
    → store_consulted e.history ≡ true
    → get_elem? e.history.lines i ≡ some line
    → record_of (1 + i) (host.loads line) ≡ some r
    → is_failed_on change r ≡ true
    → (grade host change e).grade ≡ high
grade-failed_high host change e i line r read at holds h = grade-failure host change e (
    assess_history-failure host change e
      (failed_record-some host change e.history i line r read at holds h))
