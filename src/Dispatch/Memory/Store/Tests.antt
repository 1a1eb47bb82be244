-- ===== src/Dispatch/Memory/Store/Tests.antt =====
-- A store of a corrupt line and one Episode, whose text is its incident's id and its Outcome.
use net_cortex.Prelude.{
  String, true, false, Option, none, some, List, [], ◌∷◌, ◌++◌, any, ◌≡◌, refl, ◌⊎◌, if◌then◌else◌,
  ◌==◌, string_eq, option_eq,
}
use net_cortex.Prelude.Results.{ok, raise}
use net_cortex.Dispatch.Memory.{Episode}
use net_cortex.Dispatch.Memory.Store
use net_cortex.Dispatch.Memory.Store.{load, add, set_outcome, no_episode}
use net_cortex.Dispatch.Memory.Store.Refined.{
  EndsLine, closed_all, unread, IsClosed, load-add, set_outcome-IsClosed,
}

abbrev pub decided : Episode
decided = record {
  incident_id = "i1";
  procedure = none;
  scenario = none;
  evidence_keys = [];
  causes = [];
  action = none;
  args = none;
  narrative = "";
  justification = none;
  decision = "approved-executed";
  outcome = none;
  outcome_evidence = none;
  created_at = 0;
}

abbrev pub resolved : Episode
resolved = record decided { outcome = some "resolved"; outcome_evidence = none }

-- one text before, and one after the Outcome is set
abbrev pub parse : String → Option Episode
parse s = if s == "open" then some decided else if s == "closed" then some resolved else none

abbrev pub dump : Episode → String
dump e = if e.outcome == some "resolved" then "closed" else "open"

abbrev pub file : List String
file = "corrupt" ∷ "open" ∷ "" ∷ []

closes :
    set_outcome parse dump "i1" "resolved" none file ≡ ok ("corrupt" ∷ "closed" ∷ "" ∷ [], resolved)
unfolding set_outcome load Store.rewrite_lines Store.last_updated Store.written Store.with_outcome
    string_eq option_eq
closes = refl

load-add_example :
    (load parse dump (add parse dump decided file) ≡ load parse dump file ++ decided ∷ [])
    × EndsLine (add parse dump decided file)
unfolding string_eq option_eq
load-add_example = load-add parse dump decided file (refl, refl) refl

set_outcome-IsClosed_example :
    let es = load parse dump file in
    let r = set_outcome parse dump "i1" "resolved" none file in
    ((any (λ e. e.incident_id == "i1") es ≡ false) × (r ≡ raise (no_episode "i1")))
    ⊎ ((any (λ e. e.incident_id == "i1") es ≡ true)
        × (after : List String) × (e : Episode) × (r ≡ ok (after, e))
        × (load parse dump after ≡ closed_all parse dump "i1" "resolved" none es)
        × (unread parse dump after ≡ unread parse dump file)
        × IsClosed parse dump "i1" "resolved" none e)
unfolding string_eq option_eq Store.with_outcome
set_outcome-IsClosed_example =
    set_outcome-IsClosed parse dump "i1" "resolved" none "corrupt" ("open" ∷ "" ∷ [])
      (tt, ((refl, refl), (tt, tt)))
