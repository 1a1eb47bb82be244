-- ===== src/Dispatch/Executor/Templates.antt =====
-- render and apply of executor.py: the commands that they give.
use net_cortex.Prelude.{
  String, Bool, true, false, not, Option, none, some, List, [], ◌∷◌, ◌≡◌, sym, ap, ◌∙◌, subst, inl,
  inr, ◌==◌, ==_iff, string_eq, list_eq, contains, concat, if◌then◌else◌, Option-cases, arith,
}
use net_cortex.Prelude.Json
use net_cortex.Prelude.Json.{Json, Fields, null, bool, num, str, arr, obj}
use net_cortex.Prelude.Results.{Fallible, ok, raise, guard, >>=-eq-ok, ok_injective, guard-ok}
use net_cortex.Dispatch.Executor.{
  Sandbox, DispatchError, actions, scenarios, known_text, known_or, core_services, spelled_arg,
  is_imsi, render_restart, render_revert, render_reseed, render_rerun, render, Selection, apply,
  outside_sandbox, bad_imsi, commands_differ, not_in_vocabulary,
}

module _ (sandbox : Sandbox) where
  -- a command of one template, at a value that its allow list holds
  pub data IsTemplate : List String → Type 0 where
    observes : IsTemplate []
    restarts :
        (services : List String) (nf : String)
        → sandbox.services ≡ some services
        → contains services nf ≡ true
        → IsTemplate (
            concat
              ("docker compose --project-directory " ∷ sandbox.root ∷ "/core restart " ∷ nf ∷ [])
            ∷ [])
    reverts :
        (path : String)
        → sandbox.holds_path path ≡ true
        → IsTemplate (concat ("git -C " ∷ sandbox.root ∷ " checkout -- " ∷ path ∷ []) ∷ [])
    reseeds :
        (imsi : String)
        → is_imsi sandbox imsi ≡ true
        → IsTemplate (
            concat (
              "docker compose --project-directory " ∷ sandbox.root ∷ "/core run --rm seed " ∷ imsi
              ∷ [])
            ∷ [])
    reruns :
        (scenario : String)
        → contains scenarios scenario ≡ true
        → IsTemplate
            (concat ("bash " ∷ sandbox.root ∷ "/capture.sh --scenario " ∷ scenario ∷ []) ∷ [])

  known_text-some :
      (texts : List String) (j : Json) (s : String)
      → known_text texts j ≡ some s
      → contains texts s ≡ true
  unfolding known_text
  known_text-some texts (str t) s h = ground arith
  known_text-some texts null s h = absurd (ground arith)
  known_text-some texts (bool b) s h = absurd (ground arith)
  known_text-some texts (num n) s h = absurd (ground arith)
  known_text-some texts (arr xs) s h = absurd (ground arith)
  known_text-some texts (obj fs) s h = absurd (ground arith)

  known_or-ok :
      (e : DispatchError) (o : Option String) (s : String) → known_or e o ≡ ok s → o ≡ some s
  unfolding known_or
  known_or-ok e none s h = absurd (ground arith)
  known_or-ok e (some t) s h = ground arith

  core_services-ok :
      (services : List String)
      → core_services sandbox ≡ ok services
      → sandbox.services ≡ some services
  unfolding core_services
  core_services-ok services h = elim (Option-cases sandbox.services) [
    | inl missing ↦ absurd (ground (arith, rw missing at h))
    | inr (found, e) ↦ ground (arith, rw e at h)
  ]

  render_restart-IsTemplate :
      (args : Fields) (cs : List String) → render_restart sandbox args ≡ ok cs → IsTemplate cs
  unfolding render_restart
  render_restart-IsTemplate args cs h =
      let (services, found, h1) = >>=-eq-ok (core_services sandbox) _ cs h in
      let (nf, known, h2) =
        >>=-eq-ok (known_or _ (known_text services (Json.get "nf" args))) _ cs h1 in
      subst IsTemplate (ok_injective _ cs h2) (
        restarts services nf (core_services-ok services found)
          (known_text-some services _ nf (known_or-ok _ _ nf known)))

  render_revert-IsTemplate :
      (args : Fields) (cs : List String) → render_revert sandbox args ≡ ok cs → IsTemplate cs
  unfolding render_revert
  render_revert-IsTemplate args cs h =
      let (u, held, h1) = >>=-eq-ok (guard (sandbox.holds_path _) outside_sandbox) _ cs h in
      subst IsTemplate (ok_injective _ cs h1) (reverts _ (guard-ok _ _ u held))

  render_reseed-IsTemplate :
      (args : Fields) (cs : List String) → render_reseed sandbox args ≡ ok cs → IsTemplate cs
  unfolding render_reseed
  render_reseed-IsTemplate args cs h =
      let (u, digits, h1) =
        >>=-eq-ok
          (guard (is_imsi sandbox (spelled_arg sandbox (Json.lookup "imsi" args))) (bad_imsi _)) _
          cs h in
      subst IsTemplate (ok_injective _ cs h1) (reseeds _ (guard-ok _ _ u digits))

  render_rerun-IsTemplate :
      (args : Fields) (cs : List String) → render_rerun sandbox args ≡ ok cs → IsTemplate cs
  unfolding render_rerun
  render_rerun-IsTemplate args cs h =
      let (scenario, known, h1) =
        >>=-eq-ok (known_or _ (known_text scenarios (Json.get "scenario" args))) _ cs h in
      subst IsTemplate (ok_injective _ cs h1)
        (reruns scenario (known_text-some scenarios _ scenario (known_or-ok _ _ scenario known)))

  branch :
      (b : Bool) (x y : Fallible DispatchError (List String)) (cs : List String)
      → (x ≡ ok cs → IsTemplate cs)
      → (y ≡ ok cs → IsTemplate cs)
      → (if b then x else y) ≡ ok cs
      → IsTemplate cs
  branch true x y cs f g h = f h
  branch false x y cs f g h = g h

  -- The commands that are rendered are none, or one of the four templates at a value that its allow
  -- list holds: a declared service, a path under the sandbox, 14 or 15 digits, or a known scenario.
  pub render-IsTemplate :
      (action : String) (args : Fields) (cs : List String)
      → render sandbox action args ≡ ok cs
      → IsTemplate cs
  unfolding render
  render-IsTemplate action args cs =
      branch (not (contains actions action)) (raise (not_in_vocabulary action)) _ cs
        (λ h. absurd (ground (arith, h)))
        (branch (action == "restart_nf") _ _ cs (render_restart-IsTemplate args cs) (
          branch (action == "revert_config") _ _ cs (render_revert-IsTemplate args cs) (
            branch (action == "reseed_subscriber") _ _ cs (render_reseed-IsTemplate args cs) (
              branch (action == "rerun_capture") _ _ cs (render_rerun-IsTemplate args cs)
                (λ h. subst IsTemplate (ok_injective [] cs h) observes)))))

  -- What the runner is called with is what the proposal's own fields render.
  pub apply-render :
      (s : Selection) (cs ran : List String)
      → apply sandbox s cs ≡ ok ran
      → (ran ≡ cs) × (render sandbox s.action s.args ≡ ok cs)
  unfolding apply
  apply-render s cs ran h =
      let (expected, rendered, h1) = >>=-eq-ok (render sandbox s.action s.args) _ ran h in
      let (u, same, h2) = >>=-eq-ok (guard (cs == expected) commands_differ) _ ran h1 in
      (
        sym (ok_injective cs ran h2),
        rendered ∙ ap ok (sym ((==_iff cs expected).0 (guard-ok _ _ u same))),
      )
