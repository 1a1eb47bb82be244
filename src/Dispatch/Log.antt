-- ===== src/Dispatch/Log.antt =====
-- log.py: the pull of the sandbox's logs for an incident's window, and the items that cite its lines.
-- `LogSeams` holds what is read from outside: the runner of a command, the extraction by a language
-- model, and Python's functions on texts, times and regular expressions.
pub mod Cited
mod Tests
use net_cortex.Prelude.{
  ℕ, zero, suc, String, Bool, ◌&&◌, not, Option, none, some, List, [], ◌∷◌, map, if◌then◌else◌,
  ◌==◌, string_eq, leb, ltb, get_elem?, concat, join, show, ◌≡◌, refl,
}
use net_cortex.Prelude.Json
use net_cortex.Prelude.Json.{Json, Fields, Items, nil, cons, null, bool, num, str, arr, obj, end}
use net_cortex.Prelude.Results.{Fallible, ok, raise}
use net_cortex.Dispatch.Evidence.{EvidenceItem, AlarmEvent, log}

-- `subprocess.CompletedProcess`; `returncode` is its decimal text
pub record Completed : Type 0 where
  pub returncode : String
  pub stderr : String
  pub stdout : String

pub record LogSeams : Type 0 where
  pub root : String
  -- `_rfc3339`, `str.strip` and `str.splitlines`
  pub rfc3339 : ℕ → String
  pub strip : String → String
  pub splitlines : String → List String
  -- `_ANSI_RE.sub("", text)`, the number that `_LOG_INDEX` matches, and `_line_ts`
  pub strip_ansi : String → String
  pub log_index : String → Option ℕ
  pub line_ts : String → Option ℕ
  -- it raises what `run_log_agent` catches, or gives the finished command
  pub log_runner : String → Fallible String Completed
  -- nothing where it raises
  pub extractor : String → AlarmEvent → Option Json

infixl 5 ◌>>=◌
abbrev pub ◌>>=◌ {ℓ κ} : {A : Type ℓ} {B : Type κ} → Option A → (A → Option B) → Option B
none >>= f = none
some a >>= f = f a

unfoldable pub logs_command : LogSeams → AlarmEvent → String
logs_command s event = concat (
    "docker compose --project-directory "
    ∷ s.root
    ∷ "/core logs --no-color --timestamps --since "
    ∷ s.rfc3339 event.start
    ∷ " --until "
    ∷ s.rfc3339 event.end
    ∷ [])

abbrev pub logs_failed : String → String → String
logs_failed code detail = concat (
    "docker compose logs failed (exit "
    ∷ code
    ∷ ")"
    ∷ (if detail == "" then [] else ": " ∷ detail ∷ []))

unfoldable pub pulled : LogSeams → Fallible String Completed → Fallible String String
pulled s (raise e) = raise e
pulled s (ok result) =
    if result.returncode == "0"
    then ok (s.strip_ansi result.stdout)
    else raise (logs_failed result.returncode (s.strip result.stderr))

unfoldable pub run_docker_logs : LogSeams → AlarmEvent → Fallible String String
unfolding logs_command pulled
run_docker_logs s event = pulled s (s.log_runner (logs_command s event))

-- `isinstance(value, str)`
unfoldable pub string_of : Json → Option String
string_of (str s) = some s
string_of null = none
string_of (bool b) = none
string_of (num n) = none
string_of (arr xs) = none
string_of (obj fields) = none

abbrev pub filled : String → Option String
filled s = if s == "" then none else some s

-- `keys if isinstance(keys, dict) else {}`
unfoldable pub keys_or_none : Json → Fields
keys_or_none (obj fields) = fields
keys_or_none null = end
keys_or_none (bool b) = end
keys_or_none (num n) = end
keys_or_none (str s) = end
keys_or_none (arr xs) = end

-- the line of a 1-based index
unfoldable pub cited_line : List String → ℕ → Option String
cited_line lines zero = none
cited_line lines (suc i) = get_elem? lines i

abbrev pub log_citation : ℕ → String
log_citation n = concat ("log:" ∷ show n ∷ [])

-- the item of a line that the window holds
unfoldable pub log_item : Fields → ℕ → String → ℕ → Option EvidenceItem
unfolding string_of keys_or_none
log_item proposed n line ts = do
  kind ← string_of (Json.get "kind" proposed) >>= filled
  entry ← string_of (Json.get "entry" proposed) >>= filled
  some (record {
    source = log;
    kind = kind;
    ts = ts;
    entry = entry;
    cause = none;
    endpoints = none;
    keys = keys_or_none (Json.get "keys" proposed);
    citation = log_citation n;
    line = some line;
  })

unfoldable pub ground_fields : LogSeams → List String → AlarmEvent → Fields → Option EvidenceItem
unfolding string_of cited_line log_item
ground_fields s lines event proposed = do
  citation ← string_of (Json.get "citation" proposed)
  n ← s.log_index (s.strip citation)
  line ← cited_line lines n
  ts ← s.line_ts line
  if leb event.start ts && leb ts event.end then log_item proposed n line ts else none

unfoldable pub ground_log_item : LogSeams → List String → AlarmEvent → Json → Option EvidenceItem
unfolding ground_fields
ground_log_item s lines event (obj proposed) = ground_fields s lines event proposed
ground_log_item s lines event null = none
ground_log_item s lines event (bool b) = none
ground_log_item s lines event (num n) = none
ground_log_item s lines event (str t) = none
ground_log_item s lines event (arr xs) = none

-- `[f"[{i + 1:03d}] {line}"]`
abbrev pub padded : ℕ → String
padded n =
    if ltb n 10
    then concat ("00" ∷ show n ∷ [])
    else if ltb n 100
    then concat ("0" ∷ show n ∷ [])
    else show n

unfoldable pub numbered : ℕ → List String → List String
numbered n [] = []
numbered n (line ∷ lines) = concat ("[" ∷ padded n ∷ "] " ∷ line ∷ []) ∷ numbered (suc n) lines

abbrev pub with_item : Option EvidenceItem → List EvidenceItem → List EvidenceItem
with_item none items = items
with_item (some item) items = item ∷ items

unfoldable pub ground_all : LogSeams → List String → AlarmEvent → Items → List EvidenceItem
unfolding ground_log_item
ground_all s lines event nil = []
ground_all s lines event (cons p ps) =
    with_item (ground_log_item s lines event p) (ground_all s lines event ps)

unfoldable pub ground_answer : LogSeams → List String → AlarmEvent → Option Json → List EvidenceItem
unfolding ground_all
ground_answer s lines event (some (arr proposals)) = ground_all s lines event proposals
ground_answer s lines event none = []
ground_answer s lines event (some null) = []
ground_answer s lines event (some (bool b)) = []
ground_answer s lines event (some (num n)) = []
ground_answer s lines event (some (str t)) = []
ground_answer s lines event (some (obj fields)) = []

unfoldable pub extracted : LogSeams → AlarmEvent → List String → List EvidenceItem
unfolding numbered ground_answer
extracted s event lines =
    ground_answer s lines event (s.extractor (join "\n" (numbered 1 lines)) event)

unfoldable pub from_pull : LogSeams → AlarmEvent → Fallible String String → List EvidenceItem
unfolding extracted
from_pull s event (raise e) = []
from_pull s event (ok text) = extracted s event (s.splitlines text)

unfoldable pub run_log_agent : LogSeams → AlarmEvent → List EvidenceItem
unfolding run_docker_logs from_pull
run_log_agent s event = from_pull s event (run_docker_logs s event)
