-- ===== src/Impact/History.antt =====
-- rubric.py: the historical factor, from the stores of past Changes, Episodes and reports.
use net_cortex.Prelude.{
  ℕ, String, Bool, ◌&&◌, ◌||◌, not, Option, none, some, List, [], ◌∷◌, ◌++◌, map, if◌then◌else◌,
  ◌==◌, nat_eq, string_eq, find, is_empty, show, concat, join, spelled,
}
use net_cortex.Impact.Change.{change_type_eq, Change, describe}
use net_cortex.Impact.Evidence.{
  Host, Evidence, StoreState, store_consulted, store_describe, reports_consulted, reports_describe,
  ChangeRecord, change_records, has_failed, EpisodeMention, triage_episode_mentions,
  dispatch_episode_mentions, report_mentions,
}
use net_cortex.Impact.Signals.{
  HistoricalSignal, failure_match, contact, no_history, unknown_history, Factor, list_or_none,
}

abbrev historical : String → String → Factor
historical finding citation = record {
  name = "historical evidence";
  finding = finding;
  citation = citation;
}

-- a failed Change Record on the target
unfoldable pub is_failed_on : Change → ChangeRecord → Bool
is_failed_on change r =
    r.change.type == change.type && r.change.target == change.target && has_failed r.outcome

unfoldable pub contact_factor : String → List EpisodeMention → List (String × List ℕ) → Factor
contact_factor target mentions reports =
    historical
      (join "; " (
        list_or_none (not (is_empty mentions)) (
          concat
            ("past Episodes touch " ∷ target ∷ ": " ∷ join ", " (map (λ m. m.label) mentions) ∷ []))
        ++ list_or_none (not (is_empty reports)) (
            concat (
              "post-incident reports mention "
              ∷ target
              ∷ ": "
              ∷ join ", " (map (λ r. r.0) reports)
              ∷ []))))
      (join ", " (
        map (λ m. m.citation) mentions
        ++ map (λ (path, lines). concat (path ∷ ":" ∷ join "," (map show lines) ∷ [])) reports))

unfoldable pub all_consulted : Evidence → Bool
all_consulted e =
    store_consulted e.history
    && store_consulted e.triage_episodes
    && store_consulted e.dispatch_episodes
    && reports_consulted e.reports

unfoldable pub any_consulted : Evidence → Bool
any_consulted e =
    store_consulted e.history
    || store_consulted e.triage_episodes
    || store_consulted e.dispatch_episodes
    || reports_consulted e.reports

unfoldable pub quiet_factor : String → Evidence → Factor
quiet_factor target e =
    historical
      (join "; " (
        (if store_consulted e.history
          then "no failed Change Records in Change History"
          else concat ("Change History " ∷ store_describe e.history ∷ []))
        ∷ (if store_consulted e.triage_episodes
            then concat ("no Triage Episodes touch " ∷ target ∷ [])
            else concat ("Triage Episodes " ∷ store_describe e.triage_episodes ∷ []))
        ∷ (if store_consulted e.dispatch_episodes
            then concat ("no Dispatch Episodes touch " ∷ target ∷ [])
            else concat ("Dispatch Episodes " ∷ store_describe e.dispatch_episodes ∷ []))
        ∷ (if reports_consulted e.reports
            then concat ("no post-incident reports mention " ∷ target ∷ [])
            else concat ("Post-incident reports " ∷ reports_describe e.reports ∷ []))
        ∷ []))
      (join ", " (
        list_or_none (store_consulted e.history) (spelled e.history.path)
        ++ list_or_none (store_consulted e.triage_episodes) (spelled e.triage_episodes.path)
        ++ list_or_none (store_consulted e.dispatch_episodes) (spelled e.dispatch_episodes.path)
        ++ list_or_none (reports_consulted e.reports) (spelled e.reports.path)))

-- no record of the history is a failed one on the target
unfoldable pub assess_quiet :
    String → Evidence → List EpisodeMention → List (String × List ℕ) → HistoricalSignal × Factor
assess_quiet target e mentions reports =
    if not (is_empty mentions) || not (is_empty reports)
    then (contact, contact_factor target mentions reports)
    else if not (any_consulted e)
    then (unknown_history, historical "not determinable" "no historical stores consulted")
    else (if all_consulted e then no_history else unknown_history, quiet_factor target e)

unfoldable pub failed_record : Host → Change → StoreState → Option ChangeRecord
failed_record host change s =
    if store_consulted s then find (is_failed_on change) (change_records host s) else none

unfoldable pub assess_found :
    Host → Change → Evidence → Option ChangeRecord → HistoricalSignal × Factor
assess_found host change e (some r) = (
  failure_match,
  historical (concat ("a failed Change Record on " ∷ change.target ∷ ": " ∷ describe r.change ∷ []))
      (concat (spelled e.history.path ∷ ":" ∷ show r.line ∷ [])),
)
assess_found host change e none =
    assess_quiet change.target e
      (triage_episode_mentions host e.triage_episodes change.target
        ++ dispatch_episode_mentions host e.dispatch_episodes change.target)
      (report_mentions host e.reports change.target)

-- `_assess_history`
unfoldable pub assess_history : Host → Change → Evidence → HistoricalSignal × Factor
assess_history host change e = assess_found host change e (failed_record host change e.history)
