-- ===== src/Dispatch/Correlation.antt =====
-- correlation.py: which evidence items are linked. The values of keys are of any type with an
-- equality, as Python's `==` decides it, and `hashable` tells which of them have a hash; a timestamp
-- is a number of ticks.
pub mod Links
pub mod Hashed
mod Tests
use net_cortex.Prelude.{
  ℕ, suc, String, Bool, true, false, ◌&&◌, ◌||◌, not, Option, none, some, List, [], ◌∷◌, ◌++◌,
  if◌then◌else◌, ◌==◌, Eq, nat_eq, string_eq, pair_eq, contains, any, get_elem?, length, leb, ltb,
  text_le,
}
use net_cortex.Prelude.Dict
use net_cortex.Prelude.Dict.{Dict}
use net_cortex.Prelude.Results.{Fallible, ok, raise, ◌>>=◌}
use net_cortex.Prelude.Sorting.{sort_le}

-- what `link` reads of an evidence item
pub record Keyed (V : Type 0) : Type 0 where
  pub ts : ℕ
  pub keys : Dict String (Option V)

pub record Link (V : Type 0) : Type 0 where
  pub a : ℕ
  pub b : ℕ
  pub key : String
  pub value : V

abbrev pub indexes_or_empty : Option (List ℕ) → List ℕ
indexes_or_empty none = []
indexes_or_empty (some is) = is

-- `by_value`: the indexes of the items that carry a key value
abbrev pub ByValue : Type 0 → Type 0
ByValue V = Dict (String × V) (List ℕ)

pub record Linking (V : Type 0) : Type 0 where
  pub seen : List (ℕ × ℕ)
  pub links : List (Link V)

module _ {V : Type 0} ⦃e : Eq V⦄ where
  -- a value that has no hash cannot be in a dict's key: its `TypeError` is the key and the value
  unfoldable pub index_value :
      (V → Bool) → ℕ → String → Option V → ByValue V → Fallible (String × V) (ByValue V)
  index_value hashable i key none d = ok d
  index_value hashable i key (some v) d =
      if hashable v
      then ok (Dict.put (key, v) (indexes_or_empty (Dict.get (key, v) d) ++ i ∷ []) d)
      else raise (key, v)

  unfoldable pub index_item :
      (V → Bool) → ℕ → Dict String (Option V) → ByValue V → Fallible (String × V) (ByValue V)
  unfolding index_value
  index_item hashable i [] d = ok d
  index_item hashable i ((key, value) ∷ keys) d =
      index_value hashable i key value d >>= λ d'. index_item hashable i keys d'

  unfoldable pub index_from :
      (V → Bool) → ℕ → List (Keyed V) → ByValue V → Fallible (String × V) (ByValue V)
  unfolding index_item
  index_from hashable i [] d = ok d
  index_from hashable i (item ∷ items) d =
      index_item hashable i item.keys d >>= λ d'. index_from hashable (suc i) items d'

  -- whether a key has other values in the two items
  unfoldable pub differs : Option V → Option (Option V) → Bool
  differs none other = false
  differs (some v) none = false
  differs (some v) (some none) = false
  differs (some v) (some (some w)) = not (v == w)

  unfoldable pub disagree : Dict String (Option V) → Dict String (Option V) → Bool
  unfolding differs
  disagree [] other = false
  disagree ((key, value) ∷ keys) other = differs value (Dict.get key other) || disagree keys other

  unfoldable pub in_window : ℕ × ℕ → Keyed V → Bool
  in_window (start, end) item = leb start item.ts && leb item.ts end

  -- whether two items may be linked
  unfoldable pub linkable : ℕ × ℕ → Option (Keyed V) → Option (Keyed V) → Bool
  unfolding in_window
  linkable window none other = false
  linkable window (some x) none = false
  linkable window (some x) (some y) =
      in_window window x && in_window window y && not (disagree x.keys y.keys)

  module _ (window : ℕ × ℕ) (evidence : List (Keyed V)) (key : String) (value : V) where
    -- one turn of the two inner loops
    unfoldable pub try_pair : ℕ → ℕ → Linking V → Linking V
    try_pair a b st =
        if leb b a || contains st.seen (a, b)
        then st
        else if linkable window (get_elem? evidence a) (get_elem? evidence b)
        then record {
          seen = (a, b) ∷ st.seen;
          links = st.links ++ (record { a = a; b = b; key = key; value = value }) ∷ [];
        }
        else st

    unfoldable pub pair_with : ℕ → List ℕ → Linking V → Linking V
    pair_with a [] st = st
    pair_with a (b ∷ bs) st = pair_with a bs (try_pair a b st)

    unfoldable pub pair_all : List ℕ → List ℕ → Linking V → Linking V
    pair_all [] bs st = st
    pair_all (a ∷ rest) bs st = pair_all rest bs (pair_with a bs st)

  -- a value that more than two items carry is ambiguous, and links nothing
  unfoldable pub link_values : ℕ × ℕ → List (Keyed V) → ByValue V → Linking V → Linking V
  link_values window evidence [] st = st
  link_values window evidence (((key, value), is) ∷ d) st =
      link_values window evidence d
        (if ltb 2 (length is) then st else pair_all window evidence key value is is st)

  abbrev pub link_le : Link V → Link V → Bool
  link_le x y =
      if x.a == y.a then (if x.b == y.b then text_le x.key y.key else leb x.b y.b) else leb x.a y.a

  -- the links of the pairs of `by_value`
  unfoldable pub links_of : List (Keyed V) → ℕ × ℕ → ByValue V → List (Link V)
  unfolding link_values
  links_of evidence window d =
      let linked : Linking V = link_values window evidence d (record { seen = []; links = [] }) in
      sort_le link_le linked.links

  unfoldable pub link : (V → Bool) → List (Keyed V) → ℕ × ℕ → Fallible (String × V) (List (Link V))
  unfolding index_from links_of
  link hashable evidence window =
      index_from hashable 0 evidence [] >>= λ d. ok (links_of evidence window d)
