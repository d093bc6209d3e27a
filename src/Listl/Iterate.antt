-- ===== src/Listl/Iterate.antt =====
-- src/ylistl.h: the iterations from the last link on, and those over the structures that the links stand in.
-- `offset` is where the link stands in its structure, and addresses are 64 bits wide.
pub mod Items
use ylib.Base.{ℕ, zero, suc, ◌+◌, ◌-◌, ◌%◌, ◌^◌, List, [], ◌∷◌, ◌==◌, if◌then◌else◌}
use ylib.Base.Run.{Run, done, out_of_fuel, ◌>>=◌}
use ylib.Listl.{Memory}

-- `ylistl_foreach_reverse` from `cur` on
pub reverse_from : Memory → ℕ → ℕ → ℕ → Run (List ℕ)
reverse_from m head zero cur = out_of_fuel
reverse_from m head (suc fuel) cur =
    let rest = reverse_from m head fuel (m.prev cur) in
    if cur == head then done [] else (rest >>= λ xs. done (cur ∷ xs))

pub foreach_reverse : Memory → ℕ → ℕ → Run (List ℕ)
unfolding reverse_from
foreach_reverse m fuel head = reverse_from m head fuel (m.prev head)

abbrev pub address_mod : ℕ
address_mod = 2 ^ 64

-- `YYcontainerof`
pub containerof : ℕ → ℕ → ℕ
containerof link offset = (link + address_mod - offset) % address_mod

-- `&(cur)->member`
pub member : ℕ → ℕ → ℕ
member cur offset = (cur + offset) % address_mod

-- `ylistl_foreach_item` from `cur` on, and its reverse: `field` is `next` or `prev`
pub item_from : (ℕ → ℕ) → ℕ → ℕ → ℕ → ℕ → Run (List ℕ)
unfolding containerof member
item_from field head offset zero cur = out_of_fuel
item_from field head offset (suc fuel) cur =
    let rest = item_from field head offset fuel (containerof (field (member cur offset)) offset) in
    if member cur offset == head then done [] else (rest >>= λ xs. done (cur ∷ xs))

pub foreach_item : Memory → ℕ → ℕ → ℕ → Run (List ℕ)
unfolding item_from containerof
foreach_item m offset fuel head =
    item_from m.next head offset fuel (containerof (m.next head) offset)

pub foreach_item_reverse : Memory → ℕ → ℕ → ℕ → Run (List ℕ)
unfolding item_from containerof
foreach_item_reverse m offset fuel head =
    item_from m.prev head offset fuel (containerof (m.prev head) offset)

module _ (body : Memory → ℕ → Memory) where
  -- `ylistl_foreach_item_safe` from `cur` and `tmp` on, with what its body does to the links for an item
  pub item_safe_from : ℕ → ℕ → ℕ → Memory → ℕ → ℕ → Run (Memory × List ℕ)
  unfolding containerof member
  item_safe_from head offset zero m cur tmp = out_of_fuel
  item_safe_from head offset (suc fuel) m cur tmp =
      let m' = body m cur in
      let rest =
        item_safe_from head offset fuel m' tmp (containerof (m'.next (member tmp offset)) offset) in
      if member cur offset == head then done (m, []) else (rest >>= λ r. done (r.0, cur ∷ r.1))

  pub foreach_item_safe : Memory → ℕ → ℕ → ℕ → Run (Memory × List ℕ)
  unfolding item_safe_from containerof member
  foreach_item_safe m offset fuel head =
      let cur = containerof (m.next head) offset in
      item_safe_from head offset fuel m cur (containerof (m.next (member cur offset)) offset)
