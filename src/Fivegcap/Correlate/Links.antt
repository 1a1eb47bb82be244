-- ===== src/Fivegcap/Correlate/Links.antt =====
-- The two views of a plane's links in correlate.py, by message and by flow.
use net_cortex.Prelude.{
  ℕ, Bool, false, ◌||◌, ◌≡◌, refl, ap, ◌∙◌, Option, none, some, List, [], ◌∷◌, ◌++◌, ◌==◌, nat_eq,
  contains, arith,
}
use net_cortex.Prelude.Dict
use net_cortex.Prelude.Dict.{Dict, get-put, get-nil}
use net_cortex.Prelude.Sorting.{sort_by, insert, IsSorted, sort_by-IsSorted}
use net_cortex.Fivegcap.Correlate.{append_ref, sort_refs}
use net_cortex.Fivegcap.Correlate.Sets.{set_of, contains-append}

-- the link is to the flow `fid`
abbrev pub links_to : ℕ → Option (Option ℕ) → Bool
links_to fid none = false
links_to fid (some none) = false
links_to fid (some (some x)) = fid == x

-- the indices under each flow are those of the messages that link to it
abbrev pub Agree : Dict ℕ (Option ℕ) → Dict ℕ (List ℕ) → Type 0
Agree links refs = (fid i : ℕ) → contains (set_of fid refs) i ≡ links_to fid (Dict.get i links)

abbrev pub Unlinked : ℕ → Dict ℕ (Option ℕ) → Type 0
Unlinked i links = (fid : ℕ) → links_to fid (Dict.get i links) ≡ false

module _ (links : Dict ℕ (Option ℕ)) (refs : Dict ℕ (List ℕ)) (i : ℕ) (free : Unlinked i links)
    (h : Agree links refs) where
  pub Agree-put-none : Agree (Dict.put i none links) refs
  Agree-put-none fid j = ground (arith, get-put j i none links, h fid j, free fid)

  pub Agree-link : (fid : ℕ) → Agree (Dict.put i (some fid) links) (append_ref fid i refs)
  unfolding append_ref
  Agree-link fid g j = ground (
    arith,
    get-put j i (some fid) links,
    get-put g fid (set_of fid refs ++ i ∷ []) refs,
    contains-append (set_of fid refs) i j,
    h g j,
    h fid j,
    free g,
    free fid,
  )

pub Unlinked-put-none : (i : ℕ) (links : Dict ℕ (Option ℕ)) → Unlinked i (Dict.put i none links)
Unlinked-put-none i links fid = ground (arith, get-put i i none links)

contains-insert :
    (x y : ℕ) (xs : List ℕ) → contains (insert (λ i. i) x xs) y ≡ (y == x || contains xs y)
unfolding insert
contains-insert x y [] = refl
contains-insert x y (z ∷ xs) = ground (arith, contains-insert x y xs)

contains-sort_by : (xs : List ℕ) (y : ℕ) → contains (sort_by (λ i. i) xs) y ≡ contains xs y
unfolding sort_by
contains-sort_by [] y = refl
contains-sort_by (x ∷ xs) y =
    ground (arith, contains-insert x y (sort_by (λ i. i) xs), contains-sort_by xs y)

set_of-sort_refs :
    (fid : ℕ) (refs : Dict ℕ (List ℕ))
    → set_of fid (sort_refs refs) ≡ sort_by (λ i. i) (set_of fid refs)
unfolding Dict.get sort_refs sort_by
set_of-sort_refs fid [] = refl
set_of-sort_refs fid ((g, xs) ∷ refs) = ground (arith, set_of-sort_refs fid refs)

pub Agree-sort_refs :
    (links : Dict ℕ (Option ℕ)) (refs : Dict ℕ (List ℕ))
    → Agree links refs
    → Agree links (sort_refs refs)
Agree-sort_refs links refs h fid i =
    ap (λ xs. contains xs i) (set_of-sort_refs fid refs)
    ∙ contains-sort_by (set_of fid refs) i
    ∙ h fid i

pub sort_refs-IsSorted :
    (fid : ℕ) (refs : Dict ℕ (List ℕ)) → IsSorted (λ i. i) (set_of fid (sort_refs refs))
sort_refs-IsSorted fid refs =
    rw (set_of-sort_refs fid refs) (sort_by-IsSorted (λ i. i) (set_of fid refs))

pub Agree-nil : Agree [] []
Agree-nil fid i = ground (arith, get-nil {V = Option ℕ} i, get-nil {V = List ℕ} fid)
