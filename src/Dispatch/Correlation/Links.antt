-- ===== src/Dispatch/Correlation/Links.antt =====
-- link of correlation.py: what its links join.
use net_cortex.Prelude.{
  ℕ, suc, ◌≤◌, ◌<◌, String, Bool, true, false, ◌&&◌, ◌||◌, Option, none, some, List, [], ◌∷◌, ◌++◌,
  ◌≡◌, refl, sym, ap, ◌∙◌, subst, if◌then◌else◌, ◌==◌, Eq, nat_eq, string_eq, pair_eq, option_eq,
  contains, get_elem?, length, leb, ltb, All, All-append, All-mono, Bool-cases, inl, inr, arith,
  append-nil, append_assoc,
}
use net_cortex.Prelude.Dict
use net_cortex.Prelude.Dict.{
  Dict, AllEntries, NodupKeys, put-NodupKeys, get-put, get-nil, AllEntries-of-get,
}
use net_cortex.Prelude.Results.{ok, >>=-eq-ok, ok_injective, if_else-ok}
use net_cortex.Prelude.Sorting.{sort_le-All}
use net_cortex.Dispatch.Correlation.{
  Keyed, Link, indexes_or_empty, ByValue, index_value, index_item, index_from, linkable, Linking,
  try_pair, pair_with, pair_all, link_values, link_le, links_of, link,
}

each_contained : (xs : List ℕ) → All (λ x. contains xs x ≡ true) xs
each_contained [] = tt
each_contained (x ∷ xs) = (
  ground arith,
  All-mono (λ y. contains xs y ≡ true) (λ y. contains (x ∷ xs) y ≡ true) (λ y h. ground (arith, h))
      xs (each_contained xs),
)

-- every item's keys are those of a dict
abbrev pub AreDicts : {V : Type 0} → List (Keyed V) → Type 0
AreDicts [] = Unit
AreDicts (item ∷ items) = NodupKeys item.keys × AreDicts items

module _ {V : Type 0} ⦃e : Eq V⦄ where
  abbrev pub carries : String → V → Keyed V → Bool
  carries key value item = Dict.get key item.keys == some (some value)

  -- the indexes of the items that carry a key value
  abbrev pub carriers : String → V → ℕ → List (Keyed V) → List ℕ
  carriers key value i [] = []
  carriers key value i (item ∷ items) =
      let rest = carriers key value (suc i) items in
      if carries key value item then i ∷ rest else rest

  module _ (hashable : V → Bool) where
    index_value-get :
        (i : ℕ) (k : String) (v : Option V) (key : String) (value : V) (d after : ByValue V)
        → index_value hashable i k v d ≡ ok after
        → indexes_or_empty (Dict.get (key, value) after)
          ≡ indexes_or_empty (Dict.get (key, value) d)
            ++ (if k == key && v == some value then i ∷ [] else [])
    unfolding index_value
    index_value-get i k none key value d after h =
        subst
          (λ u.
            indexes_or_empty (Dict.get (key, value) u)
            ≡ indexes_or_empty (Dict.get (key, value) d)
              ++ (if k == key && none == some value then i ∷ [] else []))
          (ok_injective d after h)
          (ground (arith, append-nil (indexes_or_empty (Dict.get (key, value) d))))
    index_value-get i k (some v) key value d after h =
        let (_, same) = if_else-ok (hashable v) _ (k, v) after h in
        subst
          (λ u.
            indexes_or_empty (Dict.get (key, value) u)
            ≡ indexes_or_empty (Dict.get (key, value) d)
              ++ (if k == key && some v == some value then i ∷ [] else []))
          same
          (ground (
            arith,
            get-put (key, value) (k, v) (indexes_or_empty (Dict.get (k, v) d) ++ i ∷ []) d,
            append-nil (indexes_or_empty (Dict.get (key, value) d)),
          ))

    index_item-get :
        (i : ℕ) (keys : Dict String (Option V)) (key : String) (value : V) (d after : ByValue V)
        → NodupKeys keys
        → index_item hashable i keys d ≡ ok after
        → indexes_or_empty (Dict.get (key, value) after)
          ≡ indexes_or_empty (Dict.get (key, value) d)
            ++ (if Dict.get key keys == some (some value) then i ∷ [] else [])
    unfolding index_item Dict.get option_eq
    index_item-get i [] key value d after n h =
        subst
          (λ u.
            indexes_or_empty (Dict.get (key, value) u)
            ≡ indexes_or_empty (Dict.get (key, value) d) ++ [])
          (ok_injective d after h) (sym (append-nil (indexes_or_empty (Dict.get (key, value) d))))
    index_item-get i ((k, v) ∷ keys) key value d after (fresh, n) h =
        let (d1, h1, h2) =
          >>=-eq-ok (index_value hashable i k v d) (λ d'. index_item hashable i keys d') after h in
        index_item-get i keys key value d1 after n h2 ∙ elim (Bool-cases (key == k)) [
          | inl same ↦ ground (
            arith,
            index_value-get i k v key value d d1 h1,
            append-nil (indexes_or_empty (Dict.get (key, value) d1)),
            fresh,
          )
          | inr other ↦ ground (
            arith,
            index_value-get i k v key value d d1 h1,
            append-nil (indexes_or_empty (Dict.get (key, value) d)),
          )
        ]

    index_from-get :
        (i : ℕ) (items : List (Keyed V)) (key : String) (value : V) (d after : ByValue V)
        → AreDicts items
        → index_from hashable i items d ≡ ok after
        → indexes_or_empty (Dict.get (key, value) after)
          ≡ indexes_or_empty (Dict.get (key, value) d) ++ carriers key value i items
    unfolding index_from
    index_from-get i [] key value d after n h =
        subst
          (λ u.
            indexes_or_empty (Dict.get (key, value) u)
            ≡ indexes_or_empty (Dict.get (key, value) d) ++ [])
          (ok_injective d after h) (sym (append-nil _))
    index_from-get i (item ∷ items) key value d after (n, ns) h =
        let (d1, h1, h2) =
          >>=-eq-ok (index_item hashable i item.keys d) (λ d'. index_from hashable (suc i) items d')
            after h in
        index_from-get (suc i) items key value d1 after ns h2
        ∙ ap (λ l. l ++ carriers key value (suc i) items)
            (index_item-get i item.keys key value d d1 n h1)
        ∙ append_assoc (indexes_or_empty (Dict.get (key, value) d)) _ _
        ∙ ap (λ l. indexes_or_empty (Dict.get (key, value) d) ++ l) (head (carries key value item))
      where
        head :
            (b : Bool)
            → (if b then i ∷ [] else []) ++ carriers key value (suc i) items ≡ (
                if b
                then i ∷ carriers key value (suc i) items
                else carriers key value (suc i) items)
        head true = refl
        head false = refl

    index_value-NodupKeys :
        (i : ℕ) (k : String) (v : Option V) (d after : ByValue V)
        → NodupKeys d
        → index_value hashable i k v d ≡ ok after
        → NodupKeys after
    unfolding index_value
    index_value-NodupKeys i k none d after n h = subst NodupKeys (ok_injective d after h) n
    index_value-NodupKeys i k (some v) d after n h =
        let (_, same) = if_else-ok (hashable v) _ (k, v) after h in
        subst NodupKeys same (put-NodupKeys (k, v) _ d n)

    index_item-NodupKeys :
        (i : ℕ) (keys : Dict String (Option V)) (d after : ByValue V)
        → NodupKeys d
        → index_item hashable i keys d ≡ ok after
        → NodupKeys after
    unfolding index_item
    index_item-NodupKeys i [] d after n h = subst NodupKeys (ok_injective d after h) n
    index_item-NodupKeys i ((k, v) ∷ keys) d after n h =
        let (d1, h1, h2) =
          >>=-eq-ok (index_value hashable i k v d) (λ d'. index_item hashable i keys d') after h in
        index_item-NodupKeys i keys d1 after (index_value-NodupKeys i k v d d1 n h1) h2

    index_from-NodupKeys :
        (i : ℕ) (items : List (Keyed V)) (d after : ByValue V)
        → NodupKeys d
        → index_from hashable i items d ≡ ok after
        → NodupKeys after
    unfolding index_from
    index_from-NodupKeys i [] d after n h = subst NodupKeys (ok_injective d after h) n
    index_from-NodupKeys i (item ∷ items) d after n h =
        let (d1, h1, h2) =
          >>=-eq-ok (index_item hashable i item.keys d) (λ d'. index_from hashable (suc i) items d')
            after h in
        index_from-NodupKeys (suc i) items d1 after (index_item-NodupKeys i item.keys d d1 n h1) h2

  abbrev IsIndexed : List (Keyed V) → String × V → List ℕ → Type 0
  IsIndexed items (key, value) is = is ≡ carriers key value 0 items

  index_from-IsIndexed :
      (hashable : V → Bool) (items : List (Keyed V)) (d : ByValue V)
      → AreDicts items
      → index_from hashable 0 items [] ≡ ok d
      → AllEntries (IsIndexed items) d
  index_from-IsIndexed hashable items d n h =
      AllEntries-of-get (IsIndexed items) d (index_from-NodupKeys hashable 0 items [] d tt h)
        (λ (key, value) is g.
          ap indexes_or_empty (sym g)
          ∙ index_from-get hashable 0 items key value [] d n h
          ∙ ap (λ o. indexes_or_empty o ++ carriers key value 0 items) (get-nil (key, value)))

  module _ (window : ℕ × ℕ) (evidence : List (Keyed V)) where
    -- the items of a link carry its key value and at most these do, and they may be linked
    pub record IsLinked (l : Link V) : Type 0 where
      pub first : contains (carriers l.key l.value 0 evidence) l.a ≡ true
      pub second : contains (carriers l.key l.value 0 evidence) l.b ≡ true
      pub unambiguous : length (carriers l.key l.value 0 evidence) ≤ 2
      pub ordered : l.a < l.b
      pub linked : linkable window (get_elem? evidence l.a) (get_elem? evidence l.b) ≡ true

    abbrev LinksOk : Linking V → Type 0
    LinksOk st = All IsLinked st.links

    module _ (key : String) (value : V) (few : length (carriers key value 0 evidence) ≤ 2) where
      try_pair-LinksOk :
          (a b : ℕ) (st : Linking V)
          → contains (carriers key value 0 evidence) a ≡ true
          → contains (carriers key value 0 evidence) b ≡ true
          → LinksOk st
          → LinksOk (try_pair window evidence key value a b st)
      unfolding try_pair
      try_pair-LinksOk a b st ca cb h = elim (Bool-cases (leb b a || contains st.seen (a, b))) [
        | inl skip ↦ rw skip h
        | inr fresh ↦
            elim (Bool-cases (linkable window (get_elem? evidence a) (get_elem? evidence b))) [
              | inl joins ↦
                  rw (fresh, joins)
                    (All-append IsLinked st.links _ h (
                      record {
                        first = ca;
                        second = cb;
                        unambiguous = few;
                        ordered = ground (arith, fresh);
                        linked = joins;
                      },
                      tt,
                    ))
              | inr apart ↦ rw (fresh, apart) h
            ]
      ]

      pair_with-LinksOk :
          (a : ℕ) (bs : List ℕ) (st : Linking V)
          → contains (carriers key value 0 evidence) a ≡ true
          → All (λ b. contains (carriers key value 0 evidence) b ≡ true) bs
          → LinksOk st
          → LinksOk (pair_with window evidence key value a bs st)
      unfolding pair_with
      pair_with-LinksOk a [] st ca cbs h = h
      pair_with-LinksOk a (b ∷ bs) st ca (cb, cbs) h =
          pair_with-LinksOk a bs _ ca cbs (try_pair-LinksOk a b st ca cb h)

      pair_all-LinksOk :
          (xs bs : List ℕ) (st : Linking V)
          → All (λ b. contains (carriers key value 0 evidence) b ≡ true) xs
          → All (λ b. contains (carriers key value 0 evidence) b ≡ true) bs
          → LinksOk st
          → LinksOk (pair_all window evidence key value xs bs st)
      unfolding pair_all
      pair_all-LinksOk [] bs st cxs cbs h = h
      pair_all-LinksOk (a ∷ xs) bs st (ca, cxs) cbs h =
          pair_all-LinksOk xs bs _ cxs cbs (pair_with-LinksOk a bs st ca cbs h)

    link_values-LinksOk :
        (d : ByValue V) (st : Linking V)
        → AllEntries (IsIndexed evidence) d
        → LinksOk st
        → LinksOk (link_values window evidence d st)
    unfolding link_values
    link_values-LinksOk [] st i h = h
    link_values-LinksOk (((key, value), is) ∷ d) st (q, i) h =
        link_values-LinksOk d _ i (elim (Bool-cases (ltb 2 (length is))) [
          | inl many ↦ rw many h
          | inr few ↦ rw few (
              pair_all-LinksOk key value (ground (arith, few, q)) is is st
                (subst (λ c. All (λ b. contains c b ≡ true) is) q (each_contained is))
                (subst (λ c. All (λ b. contains c b ≡ true) is) q (each_contained is)) h)
        ])

  -- Where the evidence is linked, every link joins two items, the lower index first, that carry its
  -- key value as at most two items do, whose times lie in the window and whose common keys agree.
  pub link-IsLinked :
      (hashable : V → Bool) (window : ℕ × ℕ) (evidence : List (Keyed V)) (links : List (Link V))
      → AreDicts evidence
      → link hashable evidence window ≡ ok links
      → All (IsLinked window evidence) links
  unfolding link links_of
  link-IsLinked hashable window evidence links n h =
      let (d, indexed, linked) =
        >>=-eq-ok (index_from hashable 0 evidence []) (λ d'. ok (links_of evidence window d')) links
          h in
      subst (All (IsLinked window evidence)) (ok_injective _ links linked) (
        sort_le-All link_le (IsLinked window evidence) _ (
          link_values-LinksOk window evidence d _
            (index_from-IsIndexed hashable evidence d n indexed) tt))
