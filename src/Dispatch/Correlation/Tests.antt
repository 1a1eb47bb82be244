-- ===== src/Dispatch/Correlation/Tests.antt =====
-- Two items of one UE, and three that share a flow: only the first two are linked.
use net_cortex.Prelude.{
  ℕ, String, some, List, [], ◌∷◌, ◌≡◌, refl, All, true, not, ◌==◌, nat_eq, string_eq, option_eq,
  pair_eq,
}
use net_cortex.Prelude.Dict
use net_cortex.Prelude.Dict.{get-nil}
use net_cortex.Prelude.Results.{ok, raise}
use net_cortex.Prelude.Sorting.{sort_le, insert_le}
use net_cortex.Dispatch.Correlation
use net_cortex.Dispatch.Correlation.{Keyed, Link, link}
use net_cortex.Dispatch.Correlation.Links.{IsLinked, AreDicts, link-IsLinked}

abbrev item : ℕ → String → Keyed String
item ts supi = record { ts = ts; keys = ("supi", some supi) ∷ ("flow_id", some "1") ∷ [] }

abbrev inventory : List (Keyed String)
inventory = item 3 "a" ∷ item 4 "b" ∷ item 5 "a" ∷ []

abbrev link_a : Link String
link_a = record { a = 0; b = 2; key = "supi"; value = "a" }

two_linked : link (λ v. true) inventory (0, 9) ≡ ok (link_a ∷ [])
unfolding link Correlation.links_of Correlation.index_from Correlation.index_item
    Correlation.index_value Correlation.link_values Correlation.pair_all Correlation.pair_with
    Correlation.try_pair Correlation.linkable Correlation.in_window Correlation.disagree
    Correlation.differs Dict.get Dict.put nat_eq string_eq option_eq pair_eq sort_le insert_le
two_linked = refl

inventory-AreDicts : AreDicts inventory
unfolding Dict.get string_eq
inventory-AreDicts = ((refl, (refl, tt)), ((refl, (refl, tt)), ((refl, (refl, tt)), tt)))

-- a value that has no hash
not_linked : link (λ v. not (v == "a")) inventory (0, 9) ≡ raise ("supi", "a")
unfolding link Correlation.index_from Correlation.index_item Correlation.index_value string_eq
not_linked = refl

link-IsLinked_example : All (IsLinked (0, 9) inventory) (link_a ∷ [])
link-IsLinked_example =
    link-IsLinked (λ v. true) (0, 9) inventory (link_a ∷ []) inventory-AreDicts two_linked
