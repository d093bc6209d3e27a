-- ===== src/Listl.antt =====
-- src/ylistl.h: circular lists of links that stand inside the caller's nodes. A link is a number, its
-- address, and 0 is NULL; the memory holds the fields of all links. The macros that iterate
-- are the lists of the links for which their body runs.
pub mod Links
pub mod Edit
pub mod Ends
pub mod Replace
pub mod Visit
pub mod Iterate
mod Tests
use ylib.Base.{
  ℕ, zero, suc, ◌+◌, ltb, Bool, true, false, not, List, [], ◌∷◌, length, ◌==◌, if◌then◌else◌,
}
use ylib.Base.Run.{Run, done, fault, out_of_fuel, ◌>>=◌}

-- one more than INT_MAX
abbrev pub int_limit : ℕ
int_limit = 2147483648

-- `struct ylistl_link`, at each address
pub record Memory : Type 0 where
  pub next : ℕ → ℕ
  pub prev : ℕ → ℕ

abbrev pub set : (ℕ → ℕ) → ℕ → ℕ → ℕ → ℕ
set f i v j = if j == i then v else f j

pub init_link : Memory → ℕ → Memory
init_link m link = record { next = set m.next link link; prev = set m.prev link link }

abbrev pub is_empty : Memory → ℕ → Bool
is_empty m head = m.next head == head

abbrev pub has_next : Memory → ℕ → ℕ → Bool
has_next m head link = not (m.next link == head)

abbrev pub has_prev : Memory → ℕ → ℕ → Bool
has_prev m head link = not (m.prev link == head)

unfoldable pub add : Memory → ℕ → ℕ → ℕ → Memory
add m prev next anew = record {
  next = set (set m.next prev anew) anew next;
  prev = set (set m.prev next anew) anew prev;
}

pub add_next : Memory → ℕ → ℕ → Memory
add_next m link anew = add m link (m.next link) anew

pub add_prev : Memory → ℕ → ℕ → Memory
add_prev m link anew = add m (m.prev link) link anew

unfoldable pub add_first : Memory → ℕ → ℕ → Memory
unfolding add_next
add_first m head anew = add_next m head anew

unfoldable pub add_last : Memory → ℕ → ℕ → Memory
unfolding add_prev
add_last m head anew = add_prev m head anew

-- the second assignment reads `link` after the first
unfoldable pub remove : Memory → ℕ → Memory
remove m link =
    let m1 = record m { next = set m.next (m.prev link) (m.next link) } in
    record m1 { prev = set m1.prev (m1.next link) (m1.prev link) }

pub remove_first : Memory → ℕ → Memory × ℕ
remove_first m head = let lk = m.next head in (remove m lk, if lk == head then 0 else lk)

pub remove_last : Memory → ℕ → Memory × ℕ
remove_last m head = let lk = m.prev head in (remove m lk, if lk == head then 0 else lk)

-- one assignment after the other
pub replace : Memory → ℕ → ℕ → Memory
replace m old anew =
    let m1 = record m { next = set m.next anew (m.next old) } in
    let m2 = record m1 { prev = set m1.prev (m1.next anew) anew } in
    let m3 = record m2 { prev = set m2.prev anew (m2.prev old) } in
    record m3 { next = set m3.next (m3.prev anew) anew }

-- `ylistl_foreach` from `cur` on, on fuel
pub foreach_from : Memory → ℕ → ℕ → ℕ → Run (List ℕ)
foreach_from m head zero cur = out_of_fuel
foreach_from m head (suc fuel) cur =
    let rest = foreach_from m head fuel (m.next cur) in
    if cur == head then done [] else (rest >>= λ xs. done (cur ∷ xs))

unfoldable pub foreach : Memory → ℕ → ℕ → Run (List ℕ)
unfolding foreach_from
foreach m fuel head = foreach_from m head fuel (m.next head)

-- `ylistl_foreach_safe` from `cur` and `tmp` on
pub safe_from : Memory → ℕ → ℕ → ℕ → ℕ → Run (List ℕ)
safe_from m head zero cur tmp = out_of_fuel
safe_from m head (suc fuel) cur tmp =
    let rest = safe_from m head fuel tmp (m.next tmp) in
    if cur == head then done [] else (rest >>= λ xs. done (cur ∷ xs))

-- `ylistl_foreach_safe`, which starts with `cur` at the head
pub foreach_safe : Memory → ℕ → ℕ → Run (List ℕ)
unfolding safe_from
foreach_safe m fuel head = safe_from m head fuel head (m.next head)

-- the counter of `ylistl_size`, an `int` that must not overflow
pub count : List ℕ → ℕ → Run ℕ
count [] n = done n
count (x ∷ xs) n = let rest = count xs (n + 1) in if ltb (n + 1) int_limit then rest else fault

pub size : Memory → ℕ → ℕ → Run ℕ
unfolding foreach count
size m fuel head = foreach m fuel head >>= λ xs. count xs 0

-- the loop of `ylistl_contains` from `cur` on
pub contains_from : Memory → ℕ → ℕ → ℕ → ℕ → Run Bool
contains_from m head node zero cur = out_of_fuel
contains_from m head node (suc fuel) cur =
    let rest = contains_from m head node fuel (m.next cur) in
    if cur == head then done false else if cur == node then done true else rest

unfoldable pub contains : Memory → ℕ → ℕ → ℕ → Run Bool
unfolding contains_from
contains m fuel head node = contains_from m head node fuel (m.next head)

pub remove2 : Memory → ℕ → ℕ → ℕ → Run (Memory × Bool)
unfolding contains remove
remove2 m fuel head node = contains m fuel head node >>= λ found.
    done (if found then (remove m node, true) else (m, false))
