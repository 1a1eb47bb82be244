-- ===== src/Dispatch/Log/Cited.antt =====
-- run_log_agent of log.py: the items that it returns.
use net_cortex.Prelude.{
  ℕ, zero, suc, ◌≤◌, String, Bool, true, false, ◌&&◌, Option, none, some, some-injective, List, [],
  ◌≡◌, refl, sym, ap, subst, ◌⊎◌, All, get_elem?, join, leb→le, ◌==◌, string_eq, if◌then◌else◌, inl,
  inr, arith,
}
use net_cortex.Prelude.Json
use net_cortex.Prelude.Json.{Json, Fields, Items, nil, cons, null, bool, num, str, arr, obj}
use net_cortex.Prelude.Results.{ok, raise, Fallible-cases}
use net_cortex.Dispatch.Evidence.{EvidenceItem, AlarmEvent, log}
use net_cortex.Dispatch.Log.{
  LogSeams, ◌>>=◌, run_docker_logs, filled, string_of, cited_line, log_citation, log_item,
  ground_fields, ground_log_item, with_item, ground_all, ground_answer, numbered, extracted,
  from_pull, run_log_agent,
}

-- what follows from each value that a chain passes on
from_value {ℓ κ μ} :
    {A : Type ℓ} {B : Type κ} {R : Type μ} (o : Option A) (f : A → Option B) (b : B)
    → (o >>= f) ≡ some b
    → ((a : A) → o ≡ some a → f a ≡ some b → R)
    → R
from_value (some a) f b h k = k a refl h
from_value none f b h k = absurd (cc)

filled-some : (s t : String) → filled s ≡ some t → t == "" ≡ false
filled-some s t h = ground arith

filled_text-some : (j : Json) (t : String) → (string_of j >>= filled) ≡ some t → t == "" ≡ false
filled_text-some j t h = from_value (string_of j) filled t h (λ s m k. filled-some s t k)

cited_line-some :
    (lines : List String) (n : ℕ) (line : String)
    → cited_line lines n ≡ some line
    → (i : ℕ) × (n ≡ suc i) × (get_elem? lines i ≡ some line)
unfolding cited_line
cited_line-some lines zero line h = absurd (cc)
cited_line-some lines (suc i) line h = (i, refl, h)

if-some {ℓ} :
    {A : Type ℓ} (b : Bool) (o : Option A) (a : A)
    → (if b then o else none) ≡ some a
    → (b ≡ true) × (o ≡ some a)
if-some true o a h = (refl, h)
if-some false o a h = absurd (cc)

&&-true : (a b : Bool) → (a && b) ≡ true → (a ≡ true) × (b ≡ true)
&&-true true b h = (refl, h)
&&-true false b h = absurd (cc)

module _ (s : LogSeams) (lines : List String) (event : AlarmEvent) where
  -- an item of the log whose citation is the number of a line, with that line and its time, which
  -- the window holds
  pub record IsCited (e : EvidenceItem) : Type 0 where
    from_log : e.source ≡ log
    index : ℕ
    text : String
    is_line : get_elem? lines index ≡ some text
    cites : e.citation ≡ log_citation (suc index)
    carries : e.line ≡ some text
    dated : s.line_ts text ≡ some e.ts
    after_start : event.start ≤ e.ts
    before_end : e.ts ≤ event.end
    named : e.kind == "" ≡ false
    described : e.entry == "" ≡ false

  log_item-IsCited :
      (p : Fields) (n i : ℕ) (line : String) (ts : ℕ) (e : EvidenceItem)
      → n ≡ suc i
      → get_elem? lines i ≡ some line
      → s.line_ts line ≡ some ts
      → event.start ≤ ts
      → ts ≤ event.end
      → log_item p n line ts ≡ some e
      → IsCited e
  unfolding log_item
  log_item-IsCited p n i line ts e same l d after before h =
      from_value (string_of (Json.get "kind" p) >>= filled) _ e h (λ kind k h1.
        from_value (string_of (Json.get "entry" p) >>= filled) _ e h1 (λ entry t h2.
          subst IsCited (some-injective _ e h2) (record {
            from_log = refl;
            index = i;
            text = line;
            is_line = l;
            cites = ap log_citation same;
            carries = refl;
            dated = d;
            after_start = after;
            before_end = before;
            named = filled_text-some _ kind k;
            described = filled_text-some _ entry t;
          })))

  ground_fields-IsCited :
      (p : Fields) (e : EvidenceItem) → ground_fields s lines event p ≡ some e → IsCited e
  unfolding ground_fields
  ground_fields-IsCited p e h =
      from_value (string_of (Json.get "citation" p)) _ e h (λ citation c h1.
        from_value (s.log_index (s.strip citation)) _ e h1 (λ n m h2.
          from_value (cited_line lines n) _ e h2 (λ line l h3.
            from_value (s.line_ts line) _ e h3 (λ ts d h4.
              let (within, grounded) = if-some _ (log_item p n line ts) e h4 in
              let (after, before) = &&-true _ _ within in
              let (i, same, at) = cited_line-some lines n line l in
              log_item-IsCited p n i line ts e same at d (leb→le _ _ after) (leb→le _ _ before)
                grounded))))

  ground_log_item-IsCited :
      (j : Json) (e : EvidenceItem) → ground_log_item s lines event j ≡ some e → IsCited e
  unfolding ground_log_item
  ground_log_item-IsCited (obj p) e h = ground_fields-IsCited p e h
  ground_log_item-IsCited null e h = absurd (cc)
  ground_log_item-IsCited (bool b) e h = absurd (cc)
  ground_log_item-IsCited (num n) e h = absurd (cc)
  ground_log_item-IsCited (str t) e h = absurd (cc)
  ground_log_item-IsCited (arr xs) e h = absurd (cc)

  with_item-All :
      (o : Option EvidenceItem) (items : List EvidenceItem)
      → ((e : EvidenceItem) → o ≡ some e → IsCited e)
      → All IsCited items
      → All IsCited (with_item o items)
  with_item-All none items f h = h
  with_item-All (some e) items f h = (f e refl, h)

  ground_all-AreCited : (ps : Items) → All IsCited (ground_all s lines event ps)
  unfolding ground_all
  ground_all-AreCited nil = tt
  ground_all-AreCited (cons p ps) =
      with_item-All (ground_log_item s lines event p) _ (ground_log_item-IsCited p)
        (ground_all-AreCited ps)

  ground_answer-AreCited : (o : Option Json) → All IsCited (ground_answer s lines event o)
  unfolding ground_answer
  ground_answer-AreCited (some (arr ps)) = ground_all-AreCited ps
  ground_answer-AreCited none = tt
  ground_answer-AreCited (some null) = tt
  ground_answer-AreCited (some (bool b)) = tt
  ground_answer-AreCited (some (num n)) = tt
  ground_answer-AreCited (some (str t)) = tt
  ground_answer-AreCited (some (obj fields)) = tt

-- The items of the log are none where the pull fails. Else each cites, by its number from 1, a line
-- of the text that was pulled, and has that line, the line's own time, which lies in the incident's
-- window, the log as its source, and a kind and an entry that are not empty.
pub run_log_agent-AreCited :
    (s : LogSeams) (event : AlarmEvent)
    → ((e : String) × (run_docker_logs s event ≡ raise e) × (run_log_agent s event ≡ []))
      ⊎ ((text : String) × (run_docker_logs s event ≡ ok text)
          × All (IsCited s (s.splitlines text) event) (run_log_agent s event))
unfolding run_log_agent from_pull extracted
run_log_agent-AreCited s event = elim (Fallible-cases (run_docker_logs s event)) [
  | inr (e, h) ↦ inl (e, h, ap (from_pull s event) h)
  | inl (text, h) ↦
      let cited =
        ground_answer-AreCited s (s.splitlines text) event
          (s.extractor (join "\n" (numbered 1 (s.splitlines text))) event) in
      inr (
        text,
        h,
        subst (λ r. All (IsCited s (s.splitlines text) event) (from_pull s event r)) (sym h) cited,
      )
]
