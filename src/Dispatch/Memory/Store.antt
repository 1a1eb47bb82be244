-- ===== src/Dispatch/Memory/Store.antt =====
-- memory.py: the file of Episodes, as its lines; a file that is not there has none. `parse` and `dump`
-- are pydantic's `model_validate_json`, which gives nothing where it raises, and `model_dump_json`.
pub mod Refined
pub mod Tests
use net_cortex.Prelude.{
  ℕ, String, Bool, true, false, not, Option, none, some, List, [], ◌∷◌, ◌++◌, if◌then◌else◌, ◌==◌,
  string_eq, concat, is_some,
}
use net_cortex.Prelude.Results.{Fallible, ok, raise}
use net_cortex.Dispatch.Memory.{Episode}

-- the `ValueError`, and the `FileNotFoundError` of a store that is not there
pub data StoreError : Type 0 where
  no_episode : String → StoreError
  no_store : StoreError

-- the operator's verdict
unfoldable pub with_outcome : String → Option String → Episode → Episode
with_outcome outcome evidence e = record e { outcome = some outcome; outcome_evidence = evidence }

module _ (parse : String → Option Episode) (dump : Episode → String) where
  abbrev pub kept : Option Episode → List Episode → List Episode
  kept none rest = rest
  kept (some e) rest = e ∷ rest

  -- `load`
  unfoldable pub load : List String → List Episode
  load [] = []
  load (line ∷ lines) = let rest = load lines in if line == "" then rest else kept (parse line) rest

  -- `add`: the text goes to the end of the last line, and begins a new one
  unfoldable pub add : Episode → List String → List String
  add e [] = dump e ∷ "" ∷ []
  add e (line ∷ []) = concat (line ∷ dump e ∷ []) ∷ "" ∷ []
  add e (line ∷ next ∷ lines) = line ∷ add e (next ∷ lines)

  module _ (incident_id outcome : String) (evidence : Option String) where
    abbrev pub rewritten : String → Option Episode → String
    rewritten line none = line
    rewritten line (some e) =
        if e.incident_id == incident_id then dump (with_outcome outcome evidence e) else line

    -- the lines with the incident's rewritten, and every other one as it was read
    unfoldable pub rewrite_lines : List String → List String
    rewrite_lines [] = []
    rewrite_lines (line ∷ lines) =
        (if line == "" then line else rewritten line (parse line)) ∷ rewrite_lines lines

    -- the last Episode of the incident, with its Outcome
    unfoldable pub last_updated : List Episode → Option Episode → Option Episode
    unfolding with_outcome
    last_updated [] found = found
    last_updated (e ∷ es) found =
        last_updated es
          (if e.incident_id == incident_id then some (with_outcome outcome evidence e) else found)

    unfoldable pub written :
        List String → Option Episode → Fallible StoreError (List String × Episode)
    written lines none = raise (no_episode incident_id)
    written lines (some e) = ok (lines, e)

    -- `set_outcome`: the lines that are written and the Episode that is returned
    unfoldable pub set_outcome : List String → Fallible StoreError (List String × Episode)
    unfolding rewrite_lines last_updated load written
    set_outcome [] = raise no_store
    set_outcome (line ∷ lines) =
        written (rewrite_lines (line ∷ lines)) (last_updated (load (line ∷ lines)) none)
