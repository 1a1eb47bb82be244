-- ===== src/Dispatch/Executor/Tests.antt =====
-- A restart of a declared service, and the run of its command.
use net_cortex.Prelude.{String, [], ◌∷◌, ◌≡◌, refl, string_eq, list_eq, concat, nat_eq}
use net_cortex.Prelude.Json
use net_cortex.Prelude.Json.{Json, Fields, str, null, bool, num, arr, obj, end, field}
use net_cortex.Prelude.Results.{ok}
use net_cortex.Dispatch.Examples.{sandbox}
use net_cortex.Dispatch.Executor
use net_cortex.Dispatch.Executor.{Sandbox, DispatchError, Selection, render, apply}
use net_cortex.Dispatch.Executor.Templates.{IsTemplate, render-IsTemplate}

abbrev pub restart_args : Fields
restart_args = field "nf" (str "smf") end

abbrev pub restart_command : String
restart_command = "docker compose --project-directory /sb/core restart smf"

render_restart_amf : render sandbox "restart_nf" restart_args ≡ ok (restart_command ∷ [])
unfolding render Executor.render_restart Executor.core_services Executor.known_text
    Executor.known_or Json.get string_eq concat
render_restart_amf = refl

render-IsTemplate_example : IsTemplate sandbox (restart_command ∷ [])
render-IsTemplate_example =
    render-IsTemplate sandbox "restart_nf" restart_args (restart_command ∷ []) render_restart_amf
