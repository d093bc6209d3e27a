-- ===== src/Ylist.antt =====
-- src/list.c and src/ylist.h: lists of items, each in a node with a link, on Listl. A node is named by the
-- address of its link, and 0 is NULL. The items that are given to `ifree`, which is set, are part of the results.
pub mod Ends
mod Tests
use ylib.Base.{
  ℕ, zero, suc, ◌+◌, ◌-◌, ◌%◌, Bool, true, false, ◌&&◌, not, Option, none, some, List, [], ◌∷◌, leb,
  ◌==◌, if◌then◌else◌, u32_mod,
}
use ylib.Listl
use ylib.Listl.{Memory, init_link, add_prev, add_next}

-- `struct ylist`, whose head stands at `head`, the links, and the field `item` of each node
pub record Ylist : Type 0 where
  pub mem : Memory
  pub head : ℕ
  pub item : ℕ → ℕ
  pub sz : ℕ
  pub max : ℕ

-- 0, -EPERM and -ENOMEM
pub data Reply : Type 0 where
  accepted eperm out_of_memory : Reply

-- what a removal returns, and the items that were freed
pub record Removal : Type 0 where
  pub item : ℕ
  pub list : Ylist
  pub freed : List ℕ

-- the flag says whether there is memory
unfoldable pub create : (granted : Bool) → Memory → (head : ℕ) → (ℕ → ℕ) → (max : ℕ) → Option Ylist
create granted m head item max =
    if granted
    then some (record {
      mem = init_link m head;
      head = head;
      item = item;
      sz = 0;
      max = if max == 0 then u32_mod - 1 else max;
    })
    else none

abbrev pub is_empty : Ylist → Bool
is_empty l = l.sz == 0

abbrev pub is_full : Ylist → Bool
is_full l = not (l.max == 0) && leb l.max l.sz

-- the node at `n` with its item, and the count
abbrev pub with_node : Ylist → Memory → (n item : ℕ) → Ylist
with_node l m n item = record l {
  mem = m;
  item = λ i. if i == n then item else l.item i;
  sz = (l.sz + 1) % u32_mod;
}

-- `ylist_add_last`, when the allocator gives the node at `n`
unfoldable pub add_last : Ylist → (n item : ℕ) → Reply × Ylist
add_last l n item =
    if is_full l
    then (eperm, l)
    else if n == 0
    then (out_of_memory, l)
    else (accepted, with_node l (add_prev l.mem l.head n) n item)

unfoldable pub add_first : Ylist → (n item : ℕ) → Reply × Ylist
add_first l n item =
    if is_full l
    then (eperm, l)
    else if n == 0
    then (out_of_memory, l)
    else (accepted, with_node l (add_next l.mem l.head n) n item)

unfoldable pub peek_last : Ylist → ℕ
peek_last l = if is_empty l then 0 else l.item (l.mem.prev l.head)

unfoldable pub peek_first : Ylist → ℕ
peek_first l = if is_empty l then 0 else l.item (l.mem.next l.head)

-- `ylist_free_item` leaves NULL alone
abbrev pub free_item : (free : Bool) → ℕ → List ℕ
free_item free item = if free && not (item == 0) then item ∷ [] else []

unfoldable pub remove_node : Ylist → (lk : ℕ) → (free : Bool) → Removal
remove_node l lk free = record {
  item = l.item lk;
  list = record l { mem = Listl.remove l.mem lk; sz = (l.sz + u32_mod - 1) % u32_mod };
  freed = free_item free (l.item lk);
}

abbrev nothing : Ylist → Removal
nothing l = record { item = 0; list = l; freed = [] }

unfoldable pub remove_last : Ylist → (free : Bool) → Removal
unfolding remove_node
remove_last l free = if is_empty l then nothing l else remove_node l (l.mem.prev l.head) free

unfoldable pub remove_first : Ylist → (free : Bool) → Removal
unfolding remove_node
remove_first l free = if is_empty l then nothing l else remove_node l (l.mem.next l.head) free

-- `struct ylisti`
pub record Iterator : Type 0 where
  pub lnext : ℕ
  pub lcurr : ℕ

-- `YLISTI_FORWARD` and `YLISTI_BACKWARD`
pub data Direction : Type 0 where
  forward backward : Direction

abbrev pub onward : Direction → Memory → ℕ → ℕ
onward forward m = m.next
onward backward m = m.prev

-- `ylisti_create`
unfoldable pub iterate : Direction → Ylist → Iterator
iterate d l = record { lnext = onward d l.mem l.head; lcurr = l.head }

-- `ylisti_next`, with the item, or NULL at the end
unfoldable pub next : Direction → Ylist → Iterator → Iterator × ℕ
next d l itr =
    if itr.lnext == l.head
    then (itr, 0)
    else (record { lnext = onward d l.mem itr.lnext; lcurr = itr.lnext }, l.item itr.lnext)

unfoldable pub remove_current : Ylist → Iterator → (free : Bool) → Removal
unfolding remove_node
remove_current l itr free = if is_empty l then nothing l else remove_node l itr.lcurr free
