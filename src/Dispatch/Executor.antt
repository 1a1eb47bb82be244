-- ===== src/Dispatch/Executor.antt =====
-- executor.py: the command templates of the five actions, and the guarded run of a proposal.
-- `Sandbox` holds what the templates read from outside: the sandbox's root, the services that its
-- compose file declares (none where there is no such file), and Python's functions on paths and texts.
pub mod Templates
mod Tests
use net_cortex.Prelude.{
  ℕ, zero, suc, String, Bool, true, false, ◌&&◌, ◌||◌, not, Option, none, some, List, [], ◌∷◌, ◌++◌,
  if◌then◌else◌, ◌==◌, Eq, nat_eq, string_eq, list_eq, contains, is_empty, concat,
}
use net_cortex.Prelude.Json
use net_cortex.Prelude.Json.{Json, Fields, null, bool, num, str, arr, obj}
use net_cortex.Prelude.Results.{Fallible, ok, raise, ◌>>=◌, ◌>>◌, guard}
use Prim.Native.Char.{Char}

pub record Sandbox : Type 0 where
  pub root : String
  pub services : Option (List String)
  -- `str(value)` and `str(Path(text))`
  pub spell : Json → String
  pub path_text : String → String
  -- whether `(root / path).resolve()` lies under `root.resolve()`
  pub holds_path : String → Bool
  -- `\d`
  pub is_digit : Char → Bool

-- The errors of executor.py and graph.py: their `ValueError`s, the `FileNotFoundError` of a record
-- that is not there, the `ValidationError` of an Episode, and the `TypeError` of a list or a dict in
-- a dict's key.
pub data DispatchError : Type 0 where
  not_in_vocabulary bad_imsi : String → DispatchError
  unknown_service unknown_scenario : Json → DispatchError
  no_compose_file outside_sandbox commands_differ : DispatchError
  no_proposal no_hash hash_differs invalid_episode : DispatchError
  no_record : String → DispatchError
  unhashable : String → Json → DispatchError
  unknown_decision no_checkpoint not_awaiting : String → DispatchError

abbrev pub actions : List String
actions =
    "restart_nf" ∷ "revert_config" ∷ "reseed_subscriber" ∷ "rerun_capture" ∷ "observe_only" ∷ []

abbrev pub scenarios : List String
scenarios =
    "auth_failure" ∷ "registration_reject" ∷ "registration_timeout" ∷ "pdu_session_reject_slice"
    ∷ "pdu_session_reject_other" ∷ "pdu_session_timeout" ∷ "pdu_session_rsp_timeout"
    ∷ "sbi_udm_timeout" ∷ "sbi_nssf_reject" ∷ "n4_upf_timeout" ∷ []

abbrev pub observe_only_note : String
observe_only_note = "observe only — no commands"

-- a text that a list of texts holds
unfoldable pub known_text : List String → Json → Option String
known_text texts (str s) = if contains texts s then some s else none
known_text texts null = none
known_text texts (bool b) = none
known_text texts (num n) = none
known_text texts (arr xs) = none
known_text texts (obj fields) = none

-- `str(args.get(key, ""))`
unfoldable pub spelled_arg : Sandbox → Option Json → String
spelled_arg sandbox none = ""
spelled_arg sandbox (some j) = sandbox.spell j

-- the digits that are left of `\d{14,15}`: at least `low`, and at most `low + spare`
unfoldable pub digits_left : Sandbox → ℕ → ℕ → String → Bool
digits_left sandbox low spare String.[] = low == 0
digits_left sandbox zero zero (String.◌∷◌ c s) = false
digits_left sandbox zero (suc spare) (String.◌∷◌ c s) =
    sandbox.is_digit c && digits_left sandbox zero spare s
digits_left sandbox (suc low) spare (String.◌∷◌ c s) =
    sandbox.is_digit c && digits_left sandbox low spare s

unfoldable pub is_imsi : Sandbox → String → Bool
unfolding digits_left
is_imsi sandbox s = digits_left sandbox 14 1 s

-- a service or a scenario that is known, or else the error
unfoldable pub known_or : DispatchError → Option String → Fallible DispatchError String
known_or e none = raise e
known_or e (some s) = ok s

-- `core_services`
unfoldable pub core_services : Sandbox → Fallible DispatchError (List String)
core_services sandbox = found sandbox.services
  where
    found : Option (List String) → Fallible DispatchError (List String)
    found none = raise no_compose_file
    found (some services) = ok services

unfoldable pub render_restart : Sandbox → Fields → Fallible DispatchError (List String)
unfolding core_services known_text known_or
render_restart sandbox args = do
  services ← core_services sandbox
  nf ← known_or (unknown_service (Json.get "nf" args)) (known_text services (Json.get "nf" args))
  ok (
      concat ("docker compose --project-directory " ∷ sandbox.root ∷ "/core restart " ∷ nf ∷ [])
      ∷ [])

unfoldable pub render_revert : Sandbox → Fields → Fallible DispatchError (List String)
unfolding spelled_arg
render_revert sandbox args = do
  let path = sandbox.path_text (spelled_arg sandbox (Json.lookup "path" args))
  guard (sandbox.holds_path path) outside_sandbox
  ok (concat ("git -C " ∷ sandbox.root ∷ " checkout -- " ∷ path ∷ []) ∷ [])

unfoldable pub render_reseed : Sandbox → Fields → Fallible DispatchError (List String)
unfolding spelled_arg is_imsi
render_reseed sandbox args = do
  let imsi = spelled_arg sandbox (Json.lookup "imsi" args)
  guard (is_imsi sandbox imsi) (bad_imsi imsi)
  ok (
      concat
        ("docker compose --project-directory " ∷ sandbox.root ∷ "/core run --rm seed " ∷ imsi ∷ [])
      ∷ [])

unfoldable pub render_rerun : Sandbox → Fields → Fallible DispatchError (List String)
unfolding known_text known_or
render_rerun sandbox args = do
  scenario ←
      known_or (unknown_scenario (Json.get "scenario" args))
        (known_text scenarios (Json.get "scenario" args))
  ok (concat ("bash " ∷ sandbox.root ∷ "/capture.sh --scenario " ∷ scenario ∷ []) ∷ [])

unfoldable pub render : Sandbox → String → Fields → Fallible DispatchError (List String)
unfolding render_restart render_revert render_reseed render_rerun
render sandbox action args =
    if not (contains actions action)
    then raise (not_in_vocabulary action)
    else if action == "restart_nf"
    then render_restart sandbox args
    else if action == "revert_config"
    then render_revert sandbox args
    else if action == "reseed_subscriber"
    then render_reseed sandbox args
    else if action == "rerun_capture"
    then render_rerun sandbox args
    else ok []

-- the three fields that the language model gives
pub record Selection : Type 0 where
  pub action : String
  pub args : Fields
  pub justification : String

-- `Executor.dry_run`
unfoldable pub dry_run : Sandbox → Selection → Fallible DispatchError (List String)
dry_run sandbox s = do
  commands ← render sandbox s.action s.args
  ok (if is_empty commands then observe_only_note ∷ [] else commands)

-- `Executor.apply`: the commands that the runner is called with, in their order
unfoldable pub apply : Sandbox → Selection → List String → Fallible DispatchError (List String)
apply sandbox s commands = do
  expected ← render sandbox s.action s.args
  guard (commands == expected) commands_differ
  ok commands
