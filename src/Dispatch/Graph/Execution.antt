-- ===== src/Dispatch/Graph/Execution.antt =====
-- graph.py: the node `execute`, the approval before it, and the guards of run_approval.
use net_cortex.Prelude.{
  String, Bool, not, ◌&&◌, ◌||◌, Option, none, some, List, [], ◌∷◌, ◌++◌, map, filter,
  if◌then◌else◌, ◌==◌, string_eq, concat, contains, leb, is_empty, nat_eq,
}
use net_cortex.Prelude.Parts.{after_prefix}
use net_cortex.Prelude.Dict
use net_cortex.Prelude.Dict.{Dict}
use net_cortex.Prelude.Results.{Fallible, ok, raise, ◌>>=◌, ◌>>◌, guard}
use net_cortex.Dispatch.Executor.{DispatchError, Selection, observe_only_note, apply}
use net_cortex.Dispatch.Record.{Proposal}
use net_cortex.Dispatch.Memory.{Episode, evidence_pairs, causes_of, episode_valid}
use net_cortex.Dispatch.Graph.{Spine, State, World, with_log, write_record}
use Prim.Native.Char.{Char, code}

-- `[0-9a-f]`
abbrev pub is_hex : Char → Bool
is_hex c = (leb 48 (code c) && leb (code c) 57) || (leb 97 (code c) && leb (code c) 102)

abbrev pub with_char : Char → Option String → Option String
with_char c none = none
with_char c (some s) = some (String.◌∷◌ c s)

-- the hexadecimal digits before a back quote
unfoldable pub hex_quoted : String → Option String
hex_quoted String.[] = none
hex_quoted (String.◌∷◌ c s) =
    let rest = hex_quoted s in
    if code c == 96 then some "" else if is_hex c then with_char c rest else none

unfoldable pub at_least_one : Option String → Option String
at_least_one none = none
at_least_one (some s) = if s == "" then none else some s

unfoldable pub hash_at : String → Option String
unfolding after_prefix hex_quoted at_least_one
hash_at s = matched (after_prefix "Proposal hash: `" s)
  where
    matched : Option String → Option String
    matched none = none
    matched (some rest) = at_least_one (hex_quoted rest)

abbrev pub first_of : Option String → Option String → Option String
first_of none later = later
first_of (some s) later = some s

-- `_HASH_RE.search`, the first match
unfoldable pub find_hash : String → Option String
unfolding hash_at
find_hash String.[] = none
find_hash (String.◌∷◌ c s) = first_of (hash_at (String.◌∷◌ c s)) (find_hash s)

abbrev pub or_no_hash : Option String → Fallible DispatchError String
or_no_hash none = raise DispatchError.no_hash
or_no_hash (some h) = ok h

abbrev pub or_no_file : String → Option String → Fallible DispatchError String
or_no_file path none = raise (DispatchError.no_record path)
or_no_file path (some text) = ok text

unfoldable pub read_record_hash : String → Dict String String → Fallible DispatchError String
unfolding find_hash
read_record_hash path files = do
  text ← or_no_file path (Dict.get path files)
  or_no_hash (find_hash text)

-- `approval`: the decision that the interrupt is resumed with
unfoldable pub approval : String → Bool → State → State
approval decision execute s = record s { decision = decision; execute = execute }

-- what LangGraph tells of a thread: the nodes that are next, and whether it has values
pub record Snapshot : Type 0 where
  pub next : List String
  pub has_values : Bool

-- the guards of `run_approval`
unfoldable pub may_resume : String → String → Snapshot → Fallible DispatchError (Unit {0})
may_resume incident_id decision snapshot = do
  guard (contains ("approve" ∷ "reject" ∷ []) decision) (DispatchError.unknown_decision decision)
  guard (not (is_empty snapshot.next && not snapshot.has_values))
      (DispatchError.no_checkpoint incident_id)
  guard (not (is_empty snapshot.next)) (DispatchError.not_awaiting incident_id)

-- a field of an Episode that comes from the proposal, where there is one
abbrev pub of_selection : {A : Type 0} → (Selection → A) → Option Proposal → Option A
of_selection f none = none
of_selection f (some p) = some (f p.selection)

-- the two checks before anything is done
unfoldable pub checked : State → World → Option Proposal → Fallible DispatchError (Unit {0})
unfolding read_record_hash
checked s w none = guard (s.decision == "reject") DispatchError.no_proposal
checked s w (some p) = do
  hash ← read_record_hash s.record_path w.files
  guard (hash == p.hash) DispatchError.hash_differs

-- `[c for c in proposal["commands"] if c != OBSERVE_ONLY_NOTE]`
unfoldable pub commands_of : Proposal → List String
commands_of p = filter (λ c. not (c == observe_only_note)) p.commands

unfoldable pub dry_run_lines : List String → List String
dry_run_lines [] = concat ("dry-run: " ∷ observe_only_note ∷ []) ∷ []
dry_run_lines (c ∷ cs) = map (λ d. concat ("dry-run: " ∷ d ∷ [])) (c ∷ cs)

unfoldable pub executed_lines : List String → List String
executed_lines cs = map (λ d. concat ("executed: " ∷ d ∷ [])) cs

module _ (spine : Spine) where
  -- the Episode of a decision; the Alarm event has no scenario
  unfoldable pub episode : State → String → Episode
  episode s decision = record {
    incident_id = s.event.incident_id;
    procedure = s.event.procedure;
    scenario = none;
    evidence_keys = evidence_pairs s.evidence;
    causes = causes_of s.evidence;
    action = of_selection (λ x. x.action) s.proposal;
    args = of_selection (λ x. x.args) s.proposal;
    narrative = s.root_cause;
    justification = of_selection (λ x. x.justification) s.proposal;
    decision = decision;
    outcome = none;
    outcome_evidence = none;
    created_at = spine.now;
  }

  -- `_write_episode`
  unfoldable pub write_episode : State → String → World → World × Fallible DispatchError (Unit {0})
  unfolding episode
  write_episode s decision w =
      if not spine.has_episodes
      then (w, ok tt)
      else if episode_valid (episode s decision)
      then (record w { episodes = w.episodes ++ episode s decision ∷ [] }, ok tt)
      else (w, raise DispatchError.invalid_episode)

  -- the record, then the Episode, of a decision that was carried out
  unfoldable pub concluded :
      State → String → List String → World → World × Fallible DispatchError State
  unfolding write_episode
  concluded s decision lines w =
      let after = with_log spine decision lines s in
      let (w1, r) = write_episode after decision (write_record spine after w) in
      (w1, r >>= λ _. ok after)

  unfoldable pub executed :
      State
      → Proposal
      → World
      → Fallible DispatchError (List String)
      → World × Fallible DispatchError State
  unfolding concluded executed_lines dry_run_lines
  executed s p w (raise e) = (w, raise e)
  executed s p w (ok ran) =
      concluded s "approved-executed"
        (dry_run_lines (commands_of p) ++ executed_lines (commands_of p))
        (record w { ran = w.ran ++ ran })

  unfoldable pub approved : State → Proposal → World → World × Fallible DispatchError State
  unfolding executed
  approved s p w =
      if s.execute
      then executed s p w (apply spine.sandbox p.selection (commands_of p))
      else concluded s "approved-dry-run" (dry_run_lines (commands_of p)) w

  unfoldable pub rejected : State → World → World × Fallible DispatchError State
  unfolding concluded
  rejected s w = concluded s "rejected" ("rejected: no commands applied" ∷ []) w

  -- a decision whose checks have passed; without a proposal it is a rejection
  unfoldable pub carried_out :
      State → World → Option Proposal → World × Fallible DispatchError State
  unfolding approved rejected
  carried_out s w none = rejected s w
  carried_out s w (some p) = if s.decision == "reject" then rejected s w else approved s p w

  unfoldable pub after_checks :
      State → World → Fallible DispatchError (Unit {0}) → World × Fallible DispatchError State
  unfolding carried_out
  after_checks s w (raise e) = (w, raise e)
  after_checks s w (ok _) = carried_out s w s.proposal

  -- the node `execute`: the world that it leaves, and the state or the error
  unfoldable pub execute : State → World → World × Fallible DispatchError State
  unfolding after_checks checked
  execute s w = after_checks s w (checked s w s.proposal)
