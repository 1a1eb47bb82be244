-- ===== src/Impact/Signals.antt =====
-- rubric.py: the signals of the three factors, and the matrix that grades them.
use net_cortex.Prelude.{
  ℕ, String, Bool, true, false, ◌&&◌, ◌||◌, Option, none, some, List, [], ◌∷◌, if◌then◌else◌,
  nat_eq, string_eq, leb,
}
use net_cortex.Impact.Change.{change_type_eq}

pub data RiskGrade : Type 0 where
  high medium low insufficient_evidence : RiskGrade

pub data HistoricalSignal : Type 0 where
  failure_match contact no_history unknown_history : HistoricalSignal

pub data Criticality : Type 0 where
  critical non_critical unknown_criticality : Criticality

pub data BlastRadius : Type 0 where
  wide narrow unknown_radius : BlastRadius

unfoldable pub blast_from_count : Option ℕ → BlastRadius
blast_from_count none = unknown_radius
blast_from_count (some n) = if leb 2 n then wide else narrow

pub record Factor : Type 0 where
  pub name : String
  pub finding : String
  pub citation : String

pub record Rubric : Type 0 where
  pub grade : RiskGrade
  pub factors : List Factor

abbrev is_failure_match : HistoricalSignal → Bool
is_failure_match failure_match = true
is_failure_match contact = false
is_failure_match no_history = false
is_failure_match unknown_history = false

abbrev is_contact : HistoricalSignal → Bool
is_contact contact = true
is_contact failure_match = false
is_contact no_history = false
is_contact unknown_history = false

abbrev is_no_history : HistoricalSignal → Bool
is_no_history no_history = true
is_no_history failure_match = false
is_no_history contact = false
is_no_history unknown_history = false

abbrev is_critical_signal : Criticality → Bool
is_critical_signal critical = true
is_critical_signal non_critical = false
is_critical_signal unknown_criticality = false

abbrev is_non_critical : Criticality → Bool
is_non_critical non_critical = true
is_non_critical critical = false
is_non_critical unknown_criticality = false

abbrev is_wide : BlastRadius → Bool
is_wide wide = true
is_wide narrow = false
is_wide unknown_radius = false

abbrev is_narrow : BlastRadius → Bool
is_narrow narrow = true
is_narrow wide = false
is_narrow unknown_radius = false

unfoldable pub grade_matrix : HistoricalSignal → Criticality → BlastRadius → RiskGrade
grade_matrix history criticality blast =
    if is_failure_match history || is_critical_signal criticality
    then high
    else if is_contact history || is_wide blast
    then medium
    else if is_no_history history && is_non_critical criticality && is_narrow blast
    then low
    else insufficient_evidence

-- a finding that is there under a condition
abbrev pub list_or_none : Bool → String → List String
list_or_none b s = if b then s ∷ [] else []
