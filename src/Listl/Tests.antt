-- ===== src/Listl/Tests.antt =====
-- src/ylistl.h: lists of links at concrete addresses.
use ylib.Base.{◌≡◌, [], ◌∷◌, ◌==◌, if◌then◌else◌, arith, true}
use ylib.Base.Run.{done}
use ylib.Listl.{Memory, remove, foreach, foreach_safe, size, contains}
use ylib.Listl.Links.{IsList}
use ylib.Listl.Edit.{remove-IsList}
use ylib.Listl.Visit.{foreach_lem}
use ylib.Listl.Iterate.{
  foreach_reverse, foreach_item, foreach_item_reverse, foreach_item_safe, containerof,
}
use ylib.Listl.Iterate.Items.{foreach_item_lem, removes, Emptied}

-- the head 1, and the links 3 and 2
abbrev two_links : Memory
two_links = record {
  next = λ i. if i == 1 then 3 else if i == 3 then 2 else if i == 2 then 1 else 0;
  prev = λ i. if i == 1 then 2 else if i == 2 then 3 else if i == 3 then 1 else 0;
}

two_links-IsList : IsList two_links 1 (3 ∷ 2 ∷ [])
two_links-IsList = record { links = ground arith; distinct = ground arith }

remove-IsList_example : IsList (remove two_links 2) 1 (3 ∷ [])
remove-IsList_example = remove-IsList two_links 1 2 (3 ∷ []) [] two_links-IsList

foreach_lem_example :
    (foreach two_links 3 1 ≡ done (3 ∷ 2 ∷ []))
    × (size two_links 3 1 ≡ done 2)
    × (contains two_links 3 1 2 ≡ done true)
    × (foreach_safe two_links 1 1 ≡ done [])
foreach_lem_example = foreach_lem two_links 1 2 (3 ∷ 2 ∷ []) two_links-IsList (omega arith)

-- the links stand 16 bytes into their structures, which wrap around at these small addresses
foreach_item_lem_example :
    (foreach_reverse two_links 3 1 ≡ done (2 ∷ 3 ∷ []))
    × (foreach_item two_links 16 3 1 ≡ done (containerof 3 16 ∷ containerof 2 16 ∷ []))
    × (foreach_item_reverse two_links 16 3 1 ≡ done (containerof 2 16 ∷ containerof 3 16 ∷ []))
    × Emptied 1
        (containerof 3 16 ∷ containerof 2 16 ∷ [])
        (foreach_item_safe (removes 16) two_links 16 3 1)
foreach_item_lem_example =
    foreach_item_lem two_links 1 16 (3 ∷ 2 ∷ []) (omega arith) (omega arith) (ground arith)
      two_links-IsList
