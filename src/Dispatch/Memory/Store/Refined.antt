-- ===== src/Dispatch/Memory/Store/Refined.antt =====
-- The Episode store of memory.py as a list of Episodes: what adding one and setting an Outcome do to
-- what is loaded.
use net_cortex.Prelude.{
  String, Bool, true, false, not, Option, none, some, List, [], ◌∷◌, ◌++◌, map, any, All, filter,
  is_some, ◌||◌, ◌⊎◌, ◌≡◌, refl, sym, ap, ◌∙◌, if◌then◌else◌, if-false, ◌==◌, ==_iff, string_eq,
  concat, Bool-cases, Option-cases, inl, inr,
}
use text.Mathlib.TextLemmas.{nil-append, append-nil}
use net_cortex.Prelude.Results.{ok, raise}
use net_cortex.Dispatch.Memory.{Episode}
use net_cortex.Dispatch.Memory.Store.{
  no_episode, with_outcome, kept, load, add, rewrite_lines, last_updated, written, set_outcome,
}

-- the last line is empty, as `add` leaves it
abbrev pub EndsLine : List String → Type 0
EndsLine [] = Unit
EndsLine (line ∷ []) = line ≡ ""
EndsLine (line ∷ next ∷ lines) = EndsLine (next ∷ lines)

module _ (parse : String → Option Episode) (dump : Episode → String) where
  -- pydantic reads back what it writes for an Episode, which is no empty text
  abbrev pub IsReadBack : Episode → Type 0
  IsReadBack e = (parse (dump e) ≡ some e) × (dump e == "" ≡ false)

  load-dumped :
      (e : Episode) (lines : List String)
      → IsReadBack e
      → load parse dump (dump e ∷ lines) ≡ e ∷ load parse dump lines
  unfolding load
  load-dumped e lines (same, filled) =
      if-false (dump e == "") _ _ filled ∙ ap (λ o. kept parse dump o (load parse dump lines)) same

  load-blank : (lines : List String) → load parse dump ("" ∷ lines) ≡ load parse dump lines
  unfolding load string_eq
  load-blank lines = refl

  concat-blank : (s : String) → concat ("" ∷ s ∷ []) ≡ s
  unfolding concat
  concat-blank s = nil-append _ ∙ append-nil s

  -- a line before others, by whether it is empty and what it holds
  abbrev placed : Bool → Option Episode → List Episode → List Episode
  placed blank o rest = if blank then rest else kept parse dump o rest

  placed-append :
      (blank : Bool) (o : Option Episode) (es fs : List Episode)
      → placed blank o (es ++ fs) ≡ placed blank o es ++ fs
  placed-append true o es fs = refl
  placed-append false none es fs = refl
  placed-append false (some e) es fs = refl

  ends-cons :
      (line : String) (e : Episode) (lines : List String)
      → EndsLine (add parse dump e lines)
      → EndsLine (line ∷ add parse dump e lines)
  unfolding add
  ends-cons line e [] h = h
  ends-cons line e (l ∷ []) h = h
  ends-cons line e (l ∷ m ∷ lines) h = h

  -- An Episode that pydantic reads back from its text, which is not empty, and that is added to a file
  -- whose last line is empty, is loaded after all the others, and the last line is empty again.
  pub load-add :
      (e : Episode) (lines : List String)
      → IsReadBack e
      → EndsLine lines
      → (load parse dump (add parse dump e lines) ≡ load parse dump lines ++ e ∷ [])
        × EndsLine (add parse dump e lines)
  unfolding add load
  load-add e [] back h = (load-dumped e ("" ∷ []) back ∙ ap (◌∷◌ e) (load-blank []), refl)
  load-add e (line ∷ []) back h = (
    ap (λ l. load parse dump (concat (l ∷ dump e ∷ []) ∷ "" ∷ [])) h
        ∙ ap (λ d. load parse dump (d ∷ "" ∷ [])) (concat-blank (dump e))
        ∙ load-dumped e ("" ∷ []) back
        ∙ ap (◌∷◌ e) (load-blank [])
        ∙ ap (λ es. es ++ e ∷ []) (sym (ap (λ l. load parse dump (l ∷ [])) h ∙ load-blank [])),
    refl,
  )
  load-add e (line ∷ next ∷ lines) back h =
      let (loaded, ends) = load-add e (next ∷ lines) back h in
      (
        ap (placed (line == "") (parse line)) loaded
            ∙ placed-append (line == "") (parse line) (load parse dump (next ∷ lines)) (e ∷ []),
        ends-cons line e (next ∷ lines) ends,
      )

  -- what is loaded, where the incident's Episodes have the Outcome
  abbrev pub closed_all : String → String → Option String → List Episode → List Episode
  closed_all incident_id outcome evidence =
      map (λ e. if e.incident_id == incident_id then with_outcome outcome evidence e else e)

  -- the same of the Episodes of some lines, with the Outcome
  abbrev pub AreReadBack : String → Option String → List String → Type 0
  AreReadBack outcome evidence = All (λ line. held (parse line))
    where
      held : Option Episode → Type 0
      held none = Unit
      held (some e) = IsReadBack (with_outcome outcome evidence e)

  load-rewrite_lines :
      (incident_id outcome : String) (evidence : Option String) (lines : List String)
      → AreReadBack outcome evidence lines
      → load parse dump (rewrite_lines parse dump incident_id outcome evidence lines)
        ≡ closed_all incident_id outcome evidence (load parse dump lines)
  unfolding load rewrite_lines
  load-rewrite_lines incident_id outcome evidence [] back = refl
  load-rewrite_lines incident_id outcome evidence (line ∷ lines) (held, back) =
      let after = rewrite_lines parse dump incident_id outcome evidence lines in
      let rest = load-rewrite_lines incident_id outcome evidence lines back in
      elim (Bool-cases (line == "")) [
        | inl blank ↦ rw blank (rw blank rest)
        | inr filled ↦ elim (Option-cases (parse line)) [
          | inl corrupt ↦ rw filled (rw corrupt (rw filled (rw corrupt rest)))
          | inr (e, valid) ↦ elim (Bool-cases (e.incident_id == incident_id)) [
            | inl its ↦ rw filled (
                rw valid (
                  rw its (
                    rw (rw valid at held).1
                      (rw (rw valid at held).0 (ap (◌∷◌ (with_outcome outcome evidence e)) rest)))))
            | inr other ↦ rw filled (rw valid (rw other (rw filled (rw valid (ap (◌∷◌ e) rest)))))
          ]
        ]
      ]

  -- the lines that hold no Episode
  abbrev pub unread : List String → List String
  unread = filter (λ line. line == "" || not (is_some (parse line)))

  unread-rewrite_lines :
      (incident_id outcome : String) (evidence : Option String) (lines : List String)
      → AreReadBack outcome evidence lines
      → unread (rewrite_lines parse dump incident_id outcome evidence lines) ≡ unread lines
  unfolding rewrite_lines
  unread-rewrite_lines incident_id outcome evidence [] back = refl
  unread-rewrite_lines incident_id outcome evidence (line ∷ lines) (held, back) =
      let rest = unread-rewrite_lines incident_id outcome evidence lines back in
      elim (Bool-cases (line == "")) [
        | inl blank ↦ rw blank (rw blank (ap (◌∷◌ line) rest))
        | inr filled ↦ elim (Option-cases (parse line)) [
          | inl corrupt ↦ rw filled (rw corrupt (rw filled (rw corrupt (ap (◌∷◌ line) rest))))
          | inr (e, valid) ↦ elim (Bool-cases (e.incident_id == incident_id)) [
            | inl its ↦
                rw filled
                  (rw valid (rw its (rw (rw valid at held).1 (rw (rw valid at held).0 rest))))
            | inr other ↦ rw filled (rw valid (rw other (rw filled (rw valid rest))))
          ]
        ]
      ]

  module _ (incident_id outcome : String) (evidence : Option String) where
    abbrev is_its : Episode → Bool
    is_its e = e.incident_id == incident_id

    -- an Episode of the incident with the Outcome
    abbrev pub IsClosed : Episode → Type 0
    IsClosed e =
        (e.incident_id ≡ incident_id) × (e.outcome ≡ some outcome) × (e.outcome_evidence ≡ evidence)

    last_updated_cases :
        (es : List Episode) (found : Option Episode)
        → ((any is_its es ≡ false)
            × (last_updated parse dump incident_id outcome evidence es found ≡ found))
          ⊎ ((any is_its es ≡ true)
              × (e : Episode) × (last_updated parse dump incident_id outcome evidence es found
                  ≡ some e)
              × IsClosed e)
    unfolding last_updated
    last_updated_cases [] found = inl (refl, refl)
    last_updated_cases (e ∷ es) found = elim (Bool-cases (is_its e)) [
      | inl its ↦
          let named = (==_iff e.incident_id incident_id).0 its in
          let closed = with_outcome outcome evidence e in
          elim (last_updated_cases es (some closed)) [
            | inl (_, same) ↦ inr (rw its (refl, closed, same, (named, refl, refl)))
            | inr (_, last, is_last, is_closed) ↦ inr (rw its (refl, last, is_last, is_closed))
          ]
      | inr other ↦ elim (last_updated_cases es found) [
        | inl (missing, same) ↦ inl (rw other (missing, same))
        | inr (there_is, last, is_last, is_closed) ↦
            inr (rw other (there_is, last, is_last, is_closed))
      ]
    ]

    -- Where pydantic reads back what it writes for the store's Episodes with the Outcome, and never
    -- writes an empty text, setting the Outcome raises if no Episode of a store that is there is the
    -- incident's. Else it writes lines of which the Episodes are those before, the incident's with the Outcome, and the unread lines
    -- those before; and it returns an Episode of the incident with the Outcome.
    pub set_outcome-IsClosed :
        (line : String) (lines : List String)
        → AreReadBack outcome evidence (line ∷ lines)
        → let es = load parse dump (line ∷ lines) in
          let r = set_outcome parse dump incident_id outcome evidence (line ∷ lines) in
          ((any is_its es ≡ false) × (r ≡ raise (no_episode incident_id)))
          ⊎ ((any is_its es ≡ true)
              × (after : List String) × (e : Episode) × (r ≡ ok (after, e))
              × (load parse dump after ≡ closed_all incident_id outcome evidence es)
              × (unread after ≡ unread (line ∷ lines))
              × IsClosed e)
    unfolding set_outcome written
    set_outcome-IsClosed line lines back =
        let after = rewrite_lines parse dump incident_id outcome evidence (line ∷ lines) in
        elim (last_updated_cases (load parse dump (line ∷ lines)) none) [
          | inl (missing, same) ↦
              inl (missing, ap (written parse dump incident_id outcome evidence after) same)
          | inr (there_is, e, last, closed) ↦ inr (
            there_is,
            after,
            e,
            ap (written parse dump incident_id outcome evidence after) last,
            load-rewrite_lines incident_id outcome evidence (line ∷ lines) back,
            unread-rewrite_lines incident_id outcome evidence (line ∷ lines) back,
            closed,
          )
        ]
