-- ===== src/Heap.antt =====
-- src/heap.c and src/yheap.h: a binary heap of nodes, the greatest first, in a growing buffer of
-- pointers. A node is a number, 0 is NULL. `slots` is what the buffer holds, and `index` the field `i` of
-- every node. Element 0 is a virtual root. The comparison is a parameter; where the code
-- passes the address of a slot for a node, that is a `Ref`.
pub mod Swap
pub mod Order
pub mod Down
pub mod Up
pub mod Push
pub mod Pop
pub mod Replace
pub mod Fill
pub mod Build
pub mod Heapify
pub mod Visit
mod Tests
use Prim.Native.Nat.{Ordering}
use ylib.Base.{
  ℕ, zero, suc, ◌+◌, ◌-◌, ◌*◌, ◌/◌, ◌%◌, Bool, true, false, ◌&&◌, not, Option, none, some, List, [],
  ◌∷◌, length, ltb, leb, ◌==◌, if◌then◌else◌, u32_mod, Status, ok, enomem, is_ok,
}
use ylib.Base.Run.{Run, done, fault, out_of_fuel, ◌>>=◌}
use ylib.Dynb
use ylib.Dynb.{Dynb}

-- `struct yheap`, with the memory that it points to; the flag says whether `vfree` is set
pub record Heap : Type 0 where
  pub b : Dynb
  pub vfree : Bool
  pub slots : ℕ → ℕ
  pub index : ℕ → ℕ

-- a pointer to a node, or to an element of the buffer
pub data Ref : Type 0 where
  node slot : ℕ → Ref

abbrev pub set : (ℕ → ℕ) → ℕ → ℕ → ℕ → ℕ
set f i v j = if j == i then v else f j

unfoldable pub lefti : ℕ → ℕ
lefti i = i * 2 % u32_mod

unfoldable pub righti : ℕ → ℕ
unfolding lefti
righti i = (lefti i + 1) % u32_mod

abbrev pub parenti : ℕ → ℕ
parenti i = i / 2

unfoldable pub lasti : Heap → ℕ
lasti h = (h.b.sz + u32_mod - 1) % u32_mod

abbrev pub is_validi : Heap → ℕ → Bool
is_validi h i = ltb 0 i && leb i (lasti h)

unfoldable pub gete : Heap → ℕ → Run ℕ
unfolding lasti
gete h i = if leb i (lasti h) then done (h.slots i) else fault

unfoldable pub sete : Heap → ℕ → ℕ → Run Heap
sete h i e =
    if ltb i h.b.limit
    then done
        (record h { slots = set h.slots i e; index = if ltb 0 i then set h.index e i else h.index })
    else fault

unfoldable pub adde : Heap → ℕ → Run Heap
unfolding lasti sete Dynb.incsz
adde h e = let h' = record h { b = Dynb.incsz h.b 1 } in sete h' (lasti h') e

unfoldable pub rmlaste : Heap → Heap
unfolding Dynb.decsz
rmlaste h = record h { b = Dynb.decsz h.b 1 }

unfoldable pub swap : Heap → ℕ → ℕ → Run Heap
unfolding gete sete
swap h i0 i1 = gete h i0 >>= λ tmp. gete h i1 >>= λ e. sete h i0 e >>= λ h'. sete h' i1 tmp

-- `cmp(a, b) < 0`
abbrev pub is_less : Ordering → Bool
is_less Ordering.lt = true
is_less _ = false

-- `cmp(a, b) > 0`
abbrev pub is_greater : Ordering → Bool
is_greater Ordering.gt = true
is_greater _ = false

pub add_all : Heap → List ℕ → Run Heap
unfolding adde
add_all h [] = done h
add_all h (e ∷ es) = adde h e >>= λ h'. add_all h' es

-- `has_cmp` says whether `cmp` is given, and `granted` whether there is memory for the header
pub create : (has_cmp granted : Bool) → (ℕ → Bool) → (index : ℕ → ℕ) → Bool → ℕ → Run (Option Heap)
unfolding adde
create has_cmp granted grant index vfree capacity =
    let limit = (if ltb capacity (4096 / 8) then 4096 / 8 else capacity) + 1 in
    let made : Run (Option Heap) = elim (Dynb.create grant (limit % u32_mod) 8 1) [
      | none ↦ fault
      | some b ↦ adde (record { b = b; vfree = vfree; slots = λ _. 0; index = index }) 0 >>= λ h.
          done (some h)
    ] in
    if not has_cmp then done none else if not granted then done none else made

pub sz : Heap → ℕ
unfolding lasti
sz h = lasti h

pub peek : Heap → Run ℕ
unfolding gete sz
peek h = if ltb 0 (sz h) then gete h 1 else done 0

module _ (cmp : ℕ → ℕ → Ordering) where
  unfoldable pub cmp_at : Heap → ℕ → ℕ → Run Ordering
  unfolding gete
  cmp_at h a b = gete h a >>= λ x. gete h b >>= λ y. done (cmp x y)

  -- the child `c` if it exists and is greater than the element at `i`, and else `i`
  unfoldable pub larger : Heap → ℕ → ℕ → Run ℕ
  unfolding lasti cmp_at
  larger h i c =
      if leb c (lasti h) then (cmp_at h i c >>= λ o. done (if is_less o then c else i)) else done i

  -- the loop of `down`, on fuel
  unfoldable pub down_loop : ℕ → Heap → ℕ → Run Heap
  unfolding larger swap lefti righti
  down_loop zero h p = out_of_fuel
  down_loop (suc fuel) h p = larger h p (lefti p) >>= λ i. larger h i (righti p) >>= λ i'.
      if i' == p then done h else (swap h p i' >>= λ h'. down_loop fuel h' i')

  unfoldable pub down : Heap → ℕ → Run Heap
  unfolding down_loop lasti
  down h i = if is_validi h i then down_loop (lasti h + 1) h i else fault

  -- the loop of `up`, on fuel
  unfoldable pub up_loop : ℕ → Heap → ℕ → Run Heap
  unfolding cmp_at swap
  up_loop zero h i = out_of_fuel
  up_loop (suc fuel) h i =
      let p = parenti i in
      if ltb 0 p
      then (cmp_at h i p >>= λ o.
          if is_greater o then (swap h i p >>= λ h'. up_loop fuel h' p) else done h)
      else done h

  unfoldable pub up : Heap → ℕ → Run Heap
  unfolding up_loop lasti
  up h i = if is_validi h i then up_loop (i + 1) h i else fault

  -- the loop of `yheap_create2` from `i` down to 1
  pub build : Heap → ℕ → Run Heap
  unfolding down
  build h zero = done h
  build h (suc i) = down h (suc i) >>= λ h'. build h' i

  pub create2 :
      (has_cmp granted : Bool) → (ℕ → Bool) → (index : ℕ → ℕ) → Bool → List ℕ → Run (Option Heap)
  unfolding create add_all build
  create2 has_cmp granted grant index vfree arr =
      create has_cmp granted grant index vfree (length arr) >>= λ o. elim o [
        | none ↦ done none
        | some h ↦ add_all h arr >>= λ h'. build h' (h'.b.sz / 2) >>= λ h''. done (some h'')
      ]

  pub push : (ℕ → Bool) → Heap → ℕ → Run (Status × Heap)
  unfolding adde up lasti
  push grant h e = elim (Dynb.expand2 grant 2 h.b 1) [
    | none ↦ out_of_fuel
    | some (st, b) ↦
        let h' = record h { b = b } in
        if is_ok st
        then (adde h' e >>= λ h''. up h'' (lasti h'') >>= λ r. done (ok, r))
        else done (st, h')
  ]

  pub pop : Heap → Run (ℕ × Heap)
  unfolding gete swap rmlaste down sz lasti
  pop h =
      if sz h == 0
      then done (0, h)
      else (gete h 1 >>= λ e. swap h 1 (lasti h) >>= λ h'.
          if ltb 0 (sz (rmlaste h'))
          then (down (rmlaste h') 1 >>= λ h''. done (e, h''))
          else done (e, rmlaste h'))

  -- `cmp_slot e` is what the comparison makes of the address of slot 1 and the node `e`
  pub pushpop : (cmp_slot : ℕ → Ordering) → Heap → ℕ → Run (Ref × Heap)
  unfolding sete down sz
  pushpop cmp_slot h e =
      if ltb 0 (sz h) && is_greater (cmp_slot e)
      then (sete h 1 e >>= λ h'. down h' 1 >>= λ h''. done (Ref.slot 1, h''))
      else done (Ref.node e, h)

  pub poppush : (ℕ → Bool) → Heap → ℕ → Run (Ref × Heap)
  unfolding sete down sz push
  poppush grant h e =
      if ltb 0 (sz h)
      then (sete h 1 e >>= λ h'. down h' 1 >>= λ h''. done (Ref.slot 1, h''))
      else (push grant h e >>= λ (st, h'). done (Ref.node 0, h'))

  pub heapify : Heap → ℕ → Run Heap
  unfolding up down cmp_at
  heapify h e =
      let i = h.index e in
      let p = parenti i in
      if not (is_validi h i)
      then fault
      else if i == 1
      then down h i
      else (cmp_at h i p >>= λ o. if is_greater o then up h i else down h i)

-- the nodes that the loop of `yheap_reset` frees, from the slot `p` on
pub nodes_from : (ℕ → ℕ) → ℕ → ℕ → List ℕ
nodes_from slots p zero = []
nodes_from slots p (suc n) = slots p ∷ nodes_from slots (suc p) n

-- the nodes that are freed, and the heap after it
pub reset : Heap → Run (List ℕ × Heap)
unfolding nodes_from sete
reset h =
    if ltb h.b.sz 1
    then fault
    else (let freed = if h.vfree then nodes_from h.slots 1 (h.b.sz - 1) else [] in
        sete h 0 0 >>= λ h'. done (freed, record h' { b = record (h'.b) { sz = 1 } }))

-- the loop of `yheap_iterates`, with `n` elements left
pub iterate : (ℕ → Bool) → Heap → ℕ → ℕ → Run ℕ
unfolding gete
iterate cb h i zero = done 0
iterate cb h i (suc n) = gete h i >>= λ e. if cb e then iterate cb h (suc i) n else done 1

pub iterates : (ℕ → Bool) → Heap → Run ℕ
unfolding iterate sz
iterates cb h = iterate cb h 1 (sz h)
