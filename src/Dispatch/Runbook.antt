-- ===== src/Dispatch/Runbook.antt =====
-- runbook.py: which Runbooks match an incident, and the binding of placeholders in an action's args.
-- `spell` is Python's `str`, `placeholder` the name that `^\{(\w+)\}$` finds in a text, and a date is
-- its ordinal.
pub mod Matches
pub mod Bound
mod Tests
use net_cortex.Prelude.{
  ℕ, suc, ◌+◌, ◌*◌, String, Bool, true, false, ◌&&◌, not, Option, none, some, List, [], ◌∷◌, ◌++◌,
  map, if◌then◌else◌, ◌==◌, nat_eq, string_eq, pair_eq, contains, filter, length, leb, or_else,
  text_le,
}
use net_cortex.Prelude.Json
use net_cortex.Prelude.Json.{Json, Fields, null, bool, num, str, arr, obj, end, field}
use net_cortex.Prelude.Results.{Fallible, ok, raise, ◌>>=◌}
use net_cortex.Prelude.Sorting.{sort_le}
use net_cortex.Prelude.Ranking.{take_three}
use net_cortex.Dispatch.Evidence.{EvidenceItem, AlarmEvent}

pub record Runbook : Type 0 where
  pub slug : String
  pub title : String
  pub procedure : Option String
  pub added : Option ℕ
  pub symptoms : Fields
  pub steps : List String
  pub action : String
  pub args : Fields

-- the pairs of a key and the text of its value, as a set
unfoldable pub add_pairs :
    (Json → String) → Fields → List (String × String) → List (String × String)
add_pairs spell end set = set
add_pairs spell (field key value rest) set =
    add_pairs spell rest
      (if contains set (key, spell value) then set else set ++ (key, spell value) ∷ [])

-- `_evidence_keys`
unfoldable pub evidence_keys :
    (Json → String) → List EvidenceItem → List (String × String) → List (String × String)
unfolding add_pairs
evidence_keys spell [] set = set
evidence_keys spell (item ∷ items) set = evidence_keys spell items (add_pairs spell item.keys set)

unfoldable pub score : (Json → String) → String → List (String × String) → Runbook → ℕ
unfolding add_pairs
score spell procedure keys r =
    3 * length (filter (contains keys) (add_pairs spell r.symptoms []))
    + (if or_else r.procedure "" == procedure then 2 else 0)

unfoldable pub scored :
    (Json → String) → String → List (String × String) → List Runbook → List (ℕ × Runbook)
scored spell procedure keys [] = []
scored spell procedure keys (r ∷ rs) =
    let rest = scored spell procedure keys rs in
    if leb 2 (score spell procedure keys r) then (score spell procedure keys r, r) ∷ rest else rest

-- `runbook.added or date.min`
abbrev pub added_or_min : Runbook → ℕ
added_or_min r = ordinal r.added
  where
    ordinal : Option ℕ → ℕ
    ordinal none = 1
    ordinal (some day) = day

-- the keys of the three sorts, the last of which decides first
abbrev pub slug_le : (ℕ × Runbook) → (ℕ × Runbook) → Bool
slug_le x y = text_le x.1.slug y.1.slug

abbrev pub newer_le : (ℕ × Runbook) → (ℕ × Runbook) → Bool
newer_le x y = leb (added_or_min y.1) (added_or_min x.1)

abbrev pub higher_le : (ℕ × Runbook) → (ℕ × Runbook) → Bool
higher_le x y = leb y.0 x.0

unfoldable pub ranked :
    (Json → String) → List Runbook → AlarmEvent → List EvidenceItem → List (ℕ × Runbook)
unfolding evidence_keys scored
ranked spell runbooks event evidence = sort_le higher_le (
    sort_le newer_le (
      sort_le slug_le
        (scored spell (or_else event.procedure "") (evidence_keys spell evidence []) runbooks)))

unfoldable pub match_runbooks :
    (Json → String) → List Runbook → AlarmEvent → List EvidenceItem → List Runbook
match_runbooks spell runbooks event evidence =
    map (λ x. x.1) (take_three (ranked spell runbooks event evidence))

-- the first item of the inventory that has the key
unfoldable pub first_value : String → List EvidenceItem → Option Json
first_value name [] = none
first_value name (item ∷ items) = found (Json.lookup name item.keys) (first_value name items)
  where
    found : Option Json → Option Json → Option Json
    found (some v) later = some v
    found none later = later

unfoldable pub bind_name : String → List EvidenceItem → Option String → Fallible String Json
bind_name text evidence none = ok (str text)
bind_name text evidence (some name) = bound (first_value name evidence)
  where
    bound : Option Json → Fallible String Json
    bound none = raise text
    bound (some v) = ok v

unfoldable pub bind_value :
    (String → Option String) → List EvidenceItem → Json → Fallible String Json
unfolding bind_name
bind_value placeholder evidence (str s) = bind_name s evidence (placeholder s)
bind_value placeholder evidence null = ok null
bind_value placeholder evidence (bool b) = ok (bool b)
bind_value placeholder evidence (num n) = ok (num n)
bind_value placeholder evidence (arr xs) = ok (arr xs)
bind_value placeholder evidence (obj fields) = ok (obj fields)

-- `bind_placeholders`: the error is the text of the placeholder that has no key
unfoldable pub bind_placeholders :
    (String → Option String) → List EvidenceItem → Fields → Fallible String Fields
bind_placeholders placeholder evidence end = ok end
bind_placeholders placeholder evidence (field key value rest) = do
  bound ← bind_value placeholder evidence value
  others ← bind_placeholders placeholder evidence rest
  ok (field key bound others)
