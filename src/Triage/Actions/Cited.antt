-- ===== src/Triage/Actions/Cited.antt =====
-- execute_action of search.py, and the run of the search over it: what an Episode cites.
use net_cortex.Prelude.{
  ℕ, zero, suc, String, Bool, true, Option, none, some, some-injective, List, [], ◌∷◌, ◌≡◌, refl,
  sym, ap, subst, ◌∙◌, ◌⊎◌, inl, inr, filter, any, if_elim, if_split, ◌==◌, ==_iff, string_eq,
  Bool-cases, Option-cases, arith,
}
use net_cortex.Prelude.Results.{Fallible, ok, raise}
use mathlib.Core.List.{Memᴰ}
use mathlib.Core.List.Memᴰ.{head, tail}
use net_cortex.Triage.Actions.{
  Episode, CitedEvidence, DecodedCapture, Inventory, message_inventory, matches, is_grounded,
  grounded_evidence, Tools, judged, finalize_with, finalize, execute_tool, execute_action,
  parse_action, lats_searcher,
}
use net_cortex.Triage.Search.{Floats}
use net_cortex.Triage.Search.Run.{SearchResult, run}
use net_cortex.Triage.Search.Grounded.{IsAnswer, run-IsAnswer}

-- a cited evidence item that names a decoded message: its name, its time to half a millisecond, and
-- its cause where one is cited
pub record IsCited (capture : DecodedCapture) (episode : Episode) : Type 0 where
  pub ev : CitedEvidence
  pub at : ℕ
  pub entry : (String × ℕ) × Option ℕ
  pub is_cited : Memᴰ ev episode.cited_evidence
  pub is_timed : ev.ts ≡ some at
  pub is_decoded : Memᴰ entry (message_inventory capture)
  pub is_match : matches ev at entry ≡ true

any-Member :
    {A : Type 0} (p : A → Bool) (xs : List A) → any p xs ≡ true → (x : A) × Memᴰ x xs × (p x ≡ true)
any-Member p [] h = absurd (cc)
any-Member p (x ∷ xs) h = elim (Bool-cases (p x)) [
  | inl fits ↦ (x, head refl, fits)
  | inr misses ↦ let (y, later, q) = any-Member p xs (rw misses at h) in (y, tail later, q)
]

filter-first :
    {A : Type 0} (p : A → Bool) (xs ys : List A) (y : A)
    → filter p xs ≡ y ∷ ys
    → Memᴰ y xs × (p y ≡ true)
filter-first p [] ys y h = absurd (cc)
filter-first p (x ∷ xs) ys y h = elim (Bool-cases (p x)) [
  | inl kept ↦
      let same : x ≡ y = ground (arith, rw kept at h) in
      (head (sym same), subst (λ z. p z ≡ true) same kept)
  | inr lost ↦ let (later, q) = filter-first p xs ys y (rw lost at h) in (tail later, q)
]

is_grounded-match :
    (inventory : Inventory) (ev : CitedEvidence)
    → is_grounded inventory ev ≡ true
    → (at : ℕ) × (entry : (String × ℕ) × Option ℕ) × (ev.ts ≡ some at)
      × Memᴰ entry inventory
      × (matches ev at entry ≡ true)
unfolding is_grounded
is_grounded-match inventory ev h = elim (Option-cases ev.ts) [
  | inl untimed ↦ absurd (ground (arith, rw untimed at h))
  | inr (at, timed) ↦
      let (entry, member, q) = any-Member (matches ev at) inventory (rw timed at h) in
      (at, entry, timed, member, q)
]

-- an Episode that an Action submits: the Action is a finalize, its argument is the JSON of the
-- Episode, and the Episode cites a decoded message
pub record IsAccepted (t : Tools) (capture : DecodedCapture) (action : String) (episode : Episode)
    : Type 0 where
  pub argument : String
  pub is_finalize : parse_action t action ≡ ("finalize", argument)
  pub is_json : t.validate argument ≡ ok episode
  pub cites : IsCited capture episode

judged-IsCited :
    (capture : DecodedCapture) (episode e : Episode) (evs : List CitedEvidence)
    → grounded_evidence capture episode ≡ evs
    → (judged episode evs).1 ≡ some e
    → (episode ≡ e) × IsCited capture episode
unfolding judged grounded_evidence
judged-IsCited capture episode e [] g h = absurd (cc)
judged-IsCited capture episode e (ev ∷ evs) g h =
    let (cited, grounded) =
      filter-first (is_grounded (message_inventory capture)) episode.cited_evidence evs ev g in
    let (at, entry, timed, decoded, matched) =
      is_grounded-match (message_inventory capture) ev grounded in
    (
      some-injective episode e h,
      record {
        ev = ev;
        at = at;
        entry = entry;
        is_cited = cited;
        is_timed = timed;
        is_decoded = decoded;
        is_match = matched;
      },
    )

module _ (t : Tools) (capture : DecodedCapture) where
  finalize_with-IsCited :
      (r : Fallible String Episode) (e : Episode)
      → (finalize_with capture r).1 ≡ some e
      → (r ≡ ok e) × IsCited capture e
  unfolding finalize_with
  finalize_with-IsCited (raise exc) e h = absurd (cc)
  finalize_with-IsCited (ok episode) e h =
      let (same, cited) =
        judged-IsCited capture episode e (grounded_evidence capture episode) refl h in
      (ap ok same, subst (IsCited capture) same cited)

  execute_tool-IsAccepted :
      (action tool argument : String) (e : Episode)
      → (execute_tool t capture action (tool, argument)).1 ≡ some e
      → (tool ≡ "finalize") × (t.validate argument ≡ ok e) × IsCited capture e
  unfolding execute_tool finalize
  execute_tool-IsAccepted action tool argument e =
      let Accepts : String × Option Episode → Type 0 = λ r.
        r.1 ≡ some e → (tool ≡ "finalize") × (t.validate argument ≡ ok e) × IsCited capture e in
      if_elim Accepts (tool == "inspect") _ _ (λ h. absurd (cc))
        (if_elim Accepts (tool == "topology") _ _ (λ h. absurd (cc))
          (if_elim Accepts (tool == "spec") _ _ (λ h. absurd (cc))
            (if_elim Accepts (tool == "memory") _ _ (λ h. absurd (cc))
              (if_split Accepts (tool == "finalize") _ _
                (λ is_finalize h.
                  let (is_json, cites) = finalize_with-IsCited (t.validate argument) e h in
                  ((==_iff tool "finalize").0 is_finalize, is_json, cites))
                (λ other h. absurd (cc))))))

  pub execute_action-IsAccepted :
      (action : String) (e : Episode)
      → (execute_action t capture action).1 ≡ some e
      → IsAccepted t capture action e
  unfolding execute_action
  execute_action-IsAccepted action e h =
      let (tool, argument) = parse_action t action in
      let (is_finalize, is_json, cites) = execute_tool-IsAccepted action tool argument e h in
      record {
        argument = argument;
        is_finalize = ap (λ u. (u, argument)) is_finalize;
        is_json = is_json;
        cites = cites;
      }

  -- The Episode of a search's result, if it has one, was submitted by an Action that parses to a
  -- finalize, whose argument validates to that Episode; and it cites an evidence item that names a
  -- decoded message: its name, its time to half a millisecond, and the message's cause where the
  -- item has one.
  pub run-IsAccepted :
      {R : Type 0} (floats : Floats R) (expand : String → String → ℕ → Option (List String))
      (evaluate : String → String → Option (R × String)) (exploration : R) (max_depth : ℕ)
      (objective : String) (n_branches max_rollouts : ℕ) (exits : Bool) (r : SearchResult Episode R)
      → run
          (lats_searcher t capture floats expand evaluate exploration max_depth)
          objective
          n_branches
          max_rollouts
          exits
        ≡ some r
      → (r.episode ≡ none)
        ⊎ ((e : Episode) × (r.episode ≡ some e) × (action : String) × IsAccepted t capture action e)
  unfolding run
  run-IsAccepted floats expand evaluate exploration max_depth objective n_branches zero exits r h =
      absurd (cc)
  run-IsAccepted floats expand evaluate exploration max_depth objective n_branches
        (suc max_rollouts) exits r h =
      let s = lats_searcher t capture floats expand evaluate exploration max_depth in
      let (r1, ran, _, _, _, answer) = run-IsAnswer s objective n_branches max_rollouts exits in
      accepted r (subst (IsAnswer s objective) (some-injective r1 r (sym ran ∙ h)) answer)
    where
      accepted :
          (r : SearchResult Episode _)
          → IsAnswer
              (lats_searcher t capture floats expand evaluate exploration max_depth)
              objective
              r
          → (r.episode ≡ none)
            ⊎ ((e : Episode) × (r.episode ≡ some e)
                × (action : String) × IsAccepted t capture action e)
      accepted r (inl nothing) = inl nothing
      accepted r (inr (before, info, _, _, given)) = elim (Option-cases r.episode) [
        | inl nothing ↦ inl nothing
        | inr (e, found) ↦
            inr (e, found, info.action, execute_action-IsAccepted info.action e (sym given ∙ found))
      ]
