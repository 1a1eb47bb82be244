-- ===== src/Dispatch/Correlation/Hashed.antt =====
-- link of correlation.py: when the evidence is linked at all, by the values that have a hash.
use net_cortex.Prelude.{
  ℕ, suc, String, Bool, true, false, Option, none, some, List, [], ◌∷◌, ◌≡◌, refl, sym, subst, ap,
  Eq, pair_eq, string_eq, All, inl, inr,
}
use net_cortex.Prelude.Dict.{Dict}
use net_cortex.Prelude.Results.{ok, raise, >>=-eq-ok, >>=-eq-raise, if_else-ok, if_else-raise}
use mathlib.Core.List.{Memᴰ}
use mathlib.Core.List.Memᴰ.{head, tail}
use net_cortex.Dispatch.Correlation.{
  Keyed, Link, ByValue, index_value, index_item, index_from, links_of, link,
}

module _ {V : Type 0} ⦃e : Eq V⦄ (hashable : V → Bool) where
  -- a value that is there has a hash
  abbrev pub HasHash : String × Option V → Type 0
  HasHash (key, none) = Unit
  HasHash (key, some v) = hashable v ≡ true

  -- all values of the items' keys have one
  abbrev pub AreHashable : List (Keyed V) → Type 0
  AreHashable items = All (λ item. All HasHash item.keys) items

  -- an item has a key whose value has none
  pub record HasUnhashable (items : List (Keyed V)) (key : String) (v : V) : Type 0 where
    pub item : Keyed V
    pub is_item : Memᴰ item items
    pub is_key : Memᴰ (key, some v) item.keys
    pub no_hash : hashable v ≡ false

  index_item-ok :
      (i : ℕ) (keys : Dict String (Option V)) (d after : ByValue V)
      → index_item hashable i keys d ≡ ok after
      → All HasHash keys
  unfolding index_item index_value
  index_item-ok i [] d after h = tt
  index_item-ok i ((k, none) ∷ keys) d after h = (tt, index_item-ok i keys d after h)
  index_item-ok i ((k, some v) ∷ keys) d after h =
      let (d1, h1, h2) =
        >>=-eq-ok (index_value hashable i k (some v) d) (λ d'. index_item hashable i keys d') after
          h in
      ((if_else-ok (hashable v) _ (k, v) d1 h1).0, index_item-ok i keys d1 after h2)

  index_from-ok :
      (i : ℕ) (items : List (Keyed V)) (d after : ByValue V)
      → index_from hashable i items d ≡ ok after
      → AreHashable items
  unfolding index_from
  index_from-ok i [] d after h = tt
  index_from-ok i (item ∷ items) d after h =
      let (d1, h1, h2) =
        >>=-eq-ok (index_item hashable i item.keys d) (λ d'. index_from hashable (suc i) items d')
          after h in
      (index_item-ok i item.keys d d1 h1, index_from-ok (suc i) items d1 after h2)

  index_item-raise :
      (i : ℕ) (keys : Dict String (Option V)) (d : ByValue V) (key : String) (v : V)
      → index_item hashable i keys d ≡ raise (key, v)
      → Memᴰ (key, some v) keys × (hashable v ≡ false)
  unfolding index_item index_value
  index_item-raise i [] d key v h = absurd (cc)
  index_item-raise i ((k, none) ∷ keys) d key v h =
      let (later, q) = index_item-raise i keys d key v h in (tail later, q)
  index_item-raise i ((k, some w) ∷ keys) d key v h =
      elim (>>=-eq-raise (index_value hashable i k (some w) d) (λ d'. index_item hashable i keys d')
        (key, v) h) [
          | inl here ↦
              let (q, same) = if_else-raise (hashable w) _ (k, w) (key, v) here in
              (
                head (ap (λ (u : String × V). (u.0, some u.1)) (sym same)),
                subst (λ (u : String × V). hashable u.1 ≡ false) same q,
              )
          | inr (d1, _, h2) ↦
              let (later, q) = index_item-raise i keys d1 key v h2 in (tail later, q)
        ]

  index_from-raise :
      (i : ℕ) (items : List (Keyed V)) (d : ByValue V) (key : String) (v : V)
      → index_from hashable i items d ≡ raise (key, v)
      → HasUnhashable items key v
  unfolding index_from
  index_from-raise i [] d key v h = absurd (cc)
  index_from-raise i (item ∷ items) d key v h =
      elim (>>=-eq-raise (index_item hashable i item.keys d)
        (λ d'. index_from hashable (suc i) items d') (key, v) h) [
          | inl here ↦
              let (member, q) = index_item-raise i item.keys d key v here in
              record { item = item; is_item = head refl; is_key = member; no_hash = q }
          | inr (d1, _, h2) ↦
              let found = index_from-raise (suc i) items d1 key v h2 in
              record {
                item = found.item;
                is_item = tail found.is_item;
                is_key = found.is_key;
                no_hash = found.no_hash;
              }
        ]

  -- Evidence that is linked has no value without a hash.
  pub link-AreHashable :
      (evidence : List (Keyed V)) (window : ℕ × ℕ) (links : List (Link V))
      → link hashable evidence window ≡ ok links
      → AreHashable evidence
  unfolding link
  link-AreHashable evidence window links h =
      let (d, indexed, _) =
        >>=-eq-ok (index_from hashable 0 evidence []) (λ d'. ok (links_of evidence window d')) links
          h in
      index_from-ok 0 evidence [] d indexed

  -- The error of a link names a key of an item and its value, which has no hash.
  pub link-HasUnhashable :
      (evidence : List (Keyed V)) (window : ℕ × ℕ) (key : String) (v : V)
      → link hashable evidence window ≡ raise (key, v)
      → HasUnhashable evidence key v
  unfolding link
  link-HasUnhashable evidence window key v h =
      elim (>>=-eq-raise (index_from hashable 0 evidence [])
        (λ d'. ok (links_of evidence window d')) (key, v) h) [
          | inl indexing ↦ index_from-raise 0 evidence [] key v indexing
          | inr (d, _, linked) ↦ absurd (cc)
        ]
