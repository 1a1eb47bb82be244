-- ===== src/Impact/Change/RoundTrip.antt =====
-- parse_change and to_record of change.py, one after the other.
use net_cortex.Prelude.{String, ◌≡◌, ◌≢◌, refl, arith, string_eq}
use net_cortex.Prelude.Json
use net_cortex.Prelude.Json.{Json, Fields, null, bool, num, str, arr, obj, field, end}
use net_cortex.Impact.Change.{
  Change, ChangeType, ChangeError, ok, upgrade, config, type_value, target_label, parse_change,
  parse_fields, to_record, type_of, non_empty, needs_target, needs_from, needs_to, change_type_eq,
}

-- the texts of the Change are not empty
pub record IsComplete (c : Change) : Type 0 where
  pub target : c.target ≢ ""
  pub before : c.before ≢ ""
  pub after : c.after ≢ ""

abbrev stored : ChangeType → String → String → String → Fields
stored t target before after =
    field "type" (str (type_value t))
      (field (target_label t) (str target) (field "from" (str before) (field "to" (str after) end)))

record Reads (t : ChangeType) (target before after : String) (fs : Fields) : Type 0 where
  type : type_of (Json.get "type" fs) ≡ ok t
  at_target : Json.get (target_label t) fs ≡ str target
  at_from : Json.get "from" fs ≡ str before
  at_to : Json.get "to" fs ≡ str after

stored-Reads :
    (t : ChangeType) (target before after : String)
    → Reads t target before after (stored t target before after)
unfolding Json.get string_eq type_of
stored-Reads upgrade target before after = record {
  type = refl;
  at_target = refl;
  at_from = refl;
  at_to = refl;
}
stored-Reads config target before after = record {
  type = refl;
  at_target = refl;
  at_from = refl;
  at_to = refl;
}

non_empty-str : (e : ChangeError) (s : String) → s ≢ "" → non_empty e (str s) ≡ ok s
unfolding non_empty
non_empty-str e s h = ground arith

parse_fields-Reads :
    (c : Change) (fs : Fields)
    → IsComplete c
    → Reads c.type c.target c.before c.after fs
    → parse_fields fs ≡ ok c
unfolding parse_fields
parse_fields-Reads c fs h r = rw (r.type) (
    rw (r.at_target) (
      rw (non_empty-str _ c.target h.target) (
        rw (r.at_from) (
          rw (non_empty-str _ c.before h.before)
            (rw r.at_to (rw (non_empty-str _ c.after h.after) refl))))))

-- A Change whose texts are not empty is read back from its stored record.
pub parse_change-to_record : (c : Change) → IsComplete c → parse_change (to_record c) ≡ ok c
unfolding parse_change to_record
parse_change-to_record c h =
    parse_fields-Reads c _ h (stored-Reads c.type c.target c.before c.after)

non_empty-ok :
    (e : ChangeError) (j : Json) (s : String) → non_empty e j ≡ ok s → (j ≡ str s) × (s ≢ "")
unfolding non_empty
non_empty-ok e (str t) s h = ground arith
non_empty-ok e null s h = cc
non_empty-ok e (bool b) s h = cc
non_empty-ok e (num n) s h = cc
non_empty-ok e (arr xs) s h = cc
non_empty-ok e (obj fs) s h = cc

type_of-ok : (j : Json) (t : ChangeType) → type_of j ≡ ok t → j ≡ str (type_value t)
unfolding type_of
type_of-ok (str s) t h = ground arith
type_of-ok null s h = cc
type_of-ok (bool b) s h = cc
type_of-ok (num n) s h = cc
type_of-ok (arr xs) s h = cc
type_of-ok (obj fs) s h = cc

parts_of :
    (fs : Fields) (c : Change)
    → parse_fields fs ≡ ok c
    → (type_of (Json.get "type" fs) ≡ ok c.type)
      × (non_empty (needs_target c.type (target_label c.type)) (Json.get (target_label c.type) fs)
          ≡ ok c.target)
      × (non_empty needs_from (Json.get "from" fs) ≡ ok c.before)
      × (non_empty needs_to (Json.get "to" fs) ≡ ok c.after)
unfolding parse_fields
parts_of fs c h = ground arith

-- A record parses only into a Change with no empty text, whose type, target and values are those
-- that the record's fields name.
pub parse_change_sound :
    (j : Json) (c : Change)
    → parse_change j ≡ ok c
    → IsComplete c
      × (fields : Fields) × (j ≡ obj fields)
      × (Json.get "type" fields ≡ str (type_value c.type))
      × (Json.get (target_label c.type) fields ≡ str c.target)
      × (Json.get "from" fields ≡ str c.before)
      × (Json.get "to" fields ≡ str c.after)
unfolding parse_change
parse_change_sound (obj fs) c h =
    let (type, target, before, after) = parts_of fs c h in
    let (at_target, some_target) = non_empty-ok _ _ c.target target in
    let (at_from, some_before) = non_empty-ok _ _ c.before before in
    let (at_to, some_after) = non_empty-ok _ _ c.after after in
    (
      record { target = some_target; before = some_before; after = some_after },
      fs,
      refl,
      type_of-ok _ c.type type,
      at_target,
      at_from,
      at_to,
    )
parse_change_sound null c h = cc
parse_change_sound (bool b) c h = cc
parse_change_sound (num n) c h = cc
parse_change_sound (str s) c h = cc
parse_change_sound (arr xs) c h = cc
