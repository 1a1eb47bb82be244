-- ===== src/Impact/Evidence.antt =====
-- evidence.py: what each store holds, and where it mentions the target of a Change. The library
-- functions that it calls are the fields of `Host`; what they return is not assumed to be anything.
use net_cortex.Prelude.{
  ℕ, suc, ◌-◌, String, Bool, true, false, ◌&&◌, not, Option, none, some, List, [], ◌∷◌,
  if◌then◌else◌, ◌==◌, nat_eq, string_eq, is_some, is_empty, contains, get_elem?, length, show,
  concat, spelled,
}
use net_cortex.Prelude.Json
use net_cortex.Prelude.Json.{
  Json, Items, Fields, null, bool, num, str, arr, obj, nil, cons, end, field,
}
use net_cortex.Impact.Change.{Change, Result, ok, raise, parse_change, failed_outcomes}
use net_cortex.Impact.Capture.{CaptureState, capture_consulted}
use net_cortex.Impact.SpecGraph.{SpecGraphState}

pub record Host : Type 0 where
  -- `str.upper`, `str.lower` and `" ".join(s.split())`
  pub upper : String → String
  pub lower : String → String
  pub collapse : String → String
  -- `re.search(rf"\b{re.escape(target)}\b", line, re.IGNORECASE)`, first the target
  pub has_word : String → String → Bool
  -- `json.loads`, which may raise
  pub loads : String → Option Json
  -- `str(value)`
  pub spell : Json → String

pub record StoreState : Type 0 where
  pub path : Option String
  pub lines : List String
  pub exists : Bool

unfoldable pub store_consulted : StoreState → Bool
store_consulted s = is_some s.path && s.exists

unfoldable pub store_describe : StoreState → String
store_describe s = told s.path
  where
    told : Option String → String
    told none = "not consulted"
    told (some path) =
        if not s.exists
        then concat (path ∷ " does not exist" ∷ [])
        else if is_empty s.lines
        then concat (path ∷ " is empty" ∷ [])
        else if length s.lines == 1
        then concat (path ∷ " has 1 entry" ∷ [])
        else concat (path ∷ " has " ∷ show (length s.lines) ∷ " entries" ∷ [])

-- one line of the Change History: its number, the Change and the outcome
pub record ChangeRecord : Type 0 where
  pub line : ℕ
  pub change : Change
  pub outcome : Json

-- `record.get("outcome", "")`
unfoldable pub outcome_of : Fields → Json
outcome_of fields = given (Json.lookup "outcome" fields)
  where
    given : Option Json → Json
    given none = str ""
    given (some j) = j

unfoldable pub with_change : ℕ → Fields → Result Change → Option ChangeRecord
with_change idx fields (raise e) = none
with_change idx fields (ok c) =
    some (record { line = idx; change = c; outcome = outcome_of fields })

unfoldable pub with_entry : ℕ → Fields → Option Json → Option ChangeRecord
unfolding with_change
with_entry idx fields none = none
with_entry idx fields (some j) = with_change idx fields (parse_change j)

unfoldable pub record_of : ℕ → Option Json → Option ChangeRecord
unfolding with_entry
record_of idx none = none
record_of idx (some (obj fields)) = with_entry idx fields (Json.lookup "change" fields)
record_of idx (some null) = none
record_of idx (some (bool b)) = none
record_of idx (some (num n)) = none
record_of idx (some (str s)) = none
record_of idx (some (arr xs)) = none

unfoldable pub keep_some {ℓ} : {A : Type ℓ} → Option A → List A → List A
keep_some none xs = xs
keep_some (some x) xs = x ∷ xs

-- `outcome in FAILED_OUTCOMES`
unfoldable pub has_failed : Json → Bool
has_failed (str s) = contains failed_outcomes s
has_failed null = false
has_failed (bool b) = false
has_failed (num n) = false
has_failed (arr xs) = false
has_failed (obj fields) = false

pub record EpisodeMention : Type 0 where
  pub label : String
  pub narrative : String
  pub citation : String

pub record ReportFile : Type 0 where
  pub path : String
  pub lines : List String

pub record ReportsState : Type 0 where
  pub path : Option String
  pub files : List ReportFile
  pub exists : Bool
  pub is_dir : Bool
  pub unreadable : ℕ

unfoldable pub reports_consulted : ReportsState → Bool
reports_consulted r = is_some r.path && r.exists && r.is_dir && r.unreadable == 0

unfoldable pub reports_describe : ReportsState → String
reports_describe r = told r.path
  where
    suffix : String
    suffix =
        if r.unreadable == 1
        then "; 1 unreadable"
        else if r.unreadable == 0
        then ""
        else concat ("; " ∷ show r.unreadable ∷ " unreadable" ∷ [])

    told : Option String → String
    told none = "not consulted"
    told (some path) =
        if not r.exists
        then concat (path ∷ " does not exist" ∷ [])
        else if not r.is_dir
        then concat (path ∷ " is not a directory" ∷ [])
        else if is_empty r.files
        then concat (path ∷ " holds no reports" ∷ suffix ∷ [])
        else if length r.files == 1
        then concat (path ∷ " holds 1 report" ∷ suffix ∷ [])
        else concat (path ∷ " holds " ∷ show (length r.files) ∷ " reports" ∷ suffix ∷ [])

unfoldable pub capture_describe : CaptureState → String
capture_describe c = told c.path
  where
    told : Option String → String
    told none = "not consulted"
    told (some path) =
        if not c.exists
        then concat (path ∷ " does not exist" ∷ [])
        else concat (
            path
            ∷ " holds "
            ∷ show (length c.flows)
            ∷ " flow(s), "
            ∷ show (length c.n4.messages)
            ∷ " N4 message(s), "
            ∷ show (length c.sbi.messages)
            ∷ " SBI message(s)"
            ∷ [])

-- a value that an `or` passes over
unfoldable pub is_falsy : Json → Bool
is_falsy null = true
is_falsy (bool b) = not b
is_falsy (num n) = n == 0
is_falsy (str s) = s == ""
is_falsy (arr nil) = true
is_falsy (arr (cons x xs)) = false
is_falsy (obj end) = true
is_falsy (obj (field k v rest)) = false

-- the two `label_of` functions: none where they raise an error that skips the line
unfoldable pub triage_typed : (Json → String) → ℕ → Option Json → Option String
triage_typed spell idx none = none
triage_typed spell idx (some j) = some (concat ("record " ∷ show idx ∷ " (" ∷ spell j ∷ ")" ∷ []))

unfoldable pub triage_label : (Json → String) → ℕ → Json → Option String
unfolding triage_typed
triage_label spell idx (obj fields) = triage_typed spell idx (Json.lookup "incident_type" fields)
triage_label spell idx null = none
triage_label spell idx (bool b) = none
triage_label spell idx (num n) = none
triage_label spell idx (str s) = none
triage_label spell idx (arr xs) = none

abbrev pub only_text : Json → Option String
only_text (str s) = some s
only_text null = none
only_text (bool b) = none
only_text (num n) = none
only_text (arr xs) = none
only_text (obj fields) = none

unfoldable pub dispatch_label : ℕ → Json → Option String
unfolding is_falsy
dispatch_label idx (obj fields) =
    let id = Json.get "incident_id" fields in
    if is_falsy id then some (concat ("record " ∷ show idx ∷ [])) else only_text id
dispatch_label idx null = none
dispatch_label idx (bool b) = none
dispatch_label idx (num n) = none
dispatch_label idx (str s) = none
dispatch_label idx (arr xs) = none

-- `episode.get("narrative")`
abbrev pub narrative_of : Json → Json
narrative_of (obj fields) = Json.get "narrative" fields
narrative_of null = null
narrative_of (bool b) = null
narrative_of (num n) = null
narrative_of (str s) = null
narrative_of (arr xs) = null

module _ (host : Host) where
  unfoldable pub change_records_from : ℕ → List String → List ChangeRecord
  unfolding keep_some
  change_records_from idx [] = []
  change_records_from idx (line ∷ lines) =
      keep_some (record_of idx (host.loads line)) (change_records_from (suc idx) lines)

  unfoldable pub change_records : StoreState → List ChangeRecord
  change_records s = change_records_from 1 s.lines

  -- `_line_mentions`
  unfoldable pub line_mentions_from : ℕ → String → List String → List ℕ
  line_mentions_from idx target [] = []
  line_mentions_from idx target (line ∷ lines) =
      let rest = line_mentions_from (suc idx) target lines in
      if host.has_word target line then idx ∷ rest else rest

  unfoldable pub line_mentions : List String → String → List ℕ
  line_mentions lines target = line_mentions_from 1 target lines

  -- a mention, from the label of the episode
  unfoldable pub labelled : Option String → ℕ → Json → Option String → Option EpisodeMention
  labelled path idx episode none = none
  labelled path idx episode (some label) =
      let narrative = host.collapse (host.spell (narrative_of episode)) in
      some (record {
        label = host.collapse label;
        narrative = if narrative == "" then "no narrative recorded" else narrative;
        citation = concat (spelled path ∷ ":" ∷ show idx ∷ []);
      })

  unfoldable pub mention_of :
      (ℕ → Json → Option String) → Option String → ℕ → Option Json → Option EpisodeMention
  unfolding labelled
  mention_of label_of path idx none = none
  mention_of label_of path idx (some episode) = labelled path idx episode (label_of idx episode)

  abbrev pub loads_line : Option String → Option Json
  loads_line none = none
  loads_line (some line) = host.loads line

  unfoldable pub mentions_at :
      (ℕ → Json → Option String) → StoreState → List ℕ → List EpisodeMention
  unfolding keep_some mention_of
  mentions_at label_of s [] = []
  mentions_at label_of s (idx ∷ idxs) =
      keep_some (mention_of label_of s.path idx (loads_line (get_elem? s.lines (idx - 1))))
        (mentions_at label_of s idxs)

  -- `_episode_mentions`
  unfoldable pub episode_mentions :
      (ℕ → Json → Option String) → StoreState → String → List EpisodeMention
  unfolding line_mentions mentions_at
  episode_mentions label_of s target = mentions_at label_of s (line_mentions s.lines target)

  unfoldable pub triage_episode_mentions : StoreState → String → List EpisodeMention
  triage_episode_mentions = episode_mentions (triage_label host.spell)

  unfoldable pub dispatch_episode_mentions : StoreState → String → List EpisodeMention
  dispatch_episode_mentions = episode_mentions dispatch_label

  unfoldable pub report_mentions_in : String → List ReportFile → List (String × List ℕ)
  report_mentions_in target [] = []
  report_mentions_in target (file ∷ files) =
      let rest = report_mentions_in target files in
      let lines = line_mentions file.lines target in
      if is_empty lines then rest else (file.path, lines) ∷ rest

  unfoldable pub report_mentions : ReportsState → String → List (String × List ℕ)
  unfolding report_mentions_in
  report_mentions r target = report_mentions_in target r.files

unfoldable pub capture_note : CaptureState → String → String
unfolding capture_describe
capture_note c target =
    if capture_consulted c
    then concat (target ∷ " not determinable in the capture" ∷ [])
    else if is_some c.path
    then concat ("capture " ∷ capture_describe c ∷ [])
    else "no capture consulted"

pub record Evidence : Type 0 where
  pub history : StoreState
  pub triage_episodes : StoreState
  pub dispatch_episodes : StoreState
  pub reports : ReportsState
  pub capture : CaptureState
  pub specgraph : SpecGraphState
