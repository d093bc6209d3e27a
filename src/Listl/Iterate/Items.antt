-- ===== src/Listl/Iterate/Items.antt =====
-- src/ylistl.h: what the iterations over structures visit, from either end, and while they are removed.
use ylib.Base.{
  ℕ, zero, suc, ◌+◌, ◌≤◌, ◌<◌, ◌≡◌, refl, ap, true, false, List, [], ◌∷◌, length, ◌==◌, arith,
}
use ylib.Base.Run.{Run, done}
use ylib.Listl.{Memory, remove}
use ylib.Listl.Links.{Links, Outside, IsList}
use ylib.Listl.Edit.{remove-IsList}
use ylib.Listl.Iterate.{
  address_mod, containerof, member, reverse_from, foreach_reverse, item_from, foreach_item,
  foreach_item_reverse, item_safe_from, foreach_item_safe,
}

-- the links of the first sequence from its end on, and then the second
abbrev pub rev_onto : List ℕ → List ℕ → List ℕ
rev_onto [] ys = ys
rev_onto (x ∷ xs) ys = rev_onto xs (x ∷ ys)

abbrev pub AreAddresses : List ℕ → Type 0
AreAddresses [] = Unit
AreAddresses (x ∷ xs) = (x < address_mod) × AreAddresses xs

-- the structures that these links stand in
abbrev pub items : ℕ → List ℕ → List ℕ
items offset [] = []
items offset (x ∷ xs) = containerof x offset ∷ items offset xs

-- `field` leads from `p` through `xs` to the head
abbrev Leads : (ℕ → ℕ) → ℕ → List ℕ → ℕ → Type 0
Leads field p [] head = p ≡ head
Leads field p (x ∷ xs) head = (p ≡ x) × Leads field (field x) xs head

next-Leads : (m : Memory) (a b : ℕ) (xs : List ℕ) → Links m a xs b → Leads m.next (m.next a) xs b
next-Leads m a b [] l = l.0
next-Leads m a b (x ∷ xs) l = (l.0, next-Leads m x b xs l.2)

prev-Leads :
    (m : Memory) (a b c : ℕ) (xs ys : List ℕ)
    → Links m a xs b
    → Leads m.prev a ys c
    → Leads m.prev (m.prev b) (rev_onto xs ys) c
prev-Leads m a b c [] ys l k = rw (l.1) k
prev-Leads m a b c (x ∷ xs) ys l k = prev-Leads m x b c xs (x ∷ ys) l.2 (refl, rw (l.1) k)

Outside-rev_onto :
    (n : ℕ) (xs ys : List ℕ) → Outside n xs → Outside n ys → Outside n (rev_onto xs ys)
Outside-rev_onto n [] ys o p = p
Outside-rev_onto n (x ∷ xs) ys o p = Outside-rev_onto n xs (x ∷ ys) o.1 (o.0, p)

AreAddresses-rev_onto :
    (xs ys : List ℕ) → AreAddresses xs → AreAddresses ys → AreAddresses (rev_onto xs ys)
AreAddresses-rev_onto [] ys o p = p
AreAddresses-rev_onto (x ∷ xs) ys o p = AreAddresses-rev_onto xs (x ∷ ys) o.1 (o.0, p)

length-rev_onto : (xs ys : List ℕ) → length (rev_onto xs ys) ≡ length xs + length ys
length-rev_onto [] ys = omega arith
length-rev_onto (x ∷ xs) ys = omega (arith, length-rev_onto xs (x ∷ ys))

-- the link of the structure that a link stands in is the link
member-containerof :
    (x offset : ℕ)
    → x < address_mod
    → offset ≤ address_mod
    → member (containerof x offset) offset ≡ x
unfolding member containerof
member-containerof x offset h k = omega arith

self : (n : ℕ) → (n == n) ≡ true
self n = ground arith

reverse_from-Leads :
    (m : Memory) (fuel head p : ℕ) (xs : List ℕ)
    → length xs < fuel
    → Outside head xs
    → Leads m.prev p xs head
    → reverse_from m head fuel p ≡ done xs
unfolding reverse_from
reverse_from-Leads m zero head p xs short o l = absurd (omega arith)
reverse_from-Leads m (suc fuel) head p [] short o l = rw (l, self head) refl
reverse_from-Leads m (suc fuel) head p (x ∷ xs) short o l =
    let other : (x == head) ≡ false = ground (arith, o.0) in
    rw (l.0, other, reverse_from-Leads m fuel head (m.prev x) xs (omega arith) o.1 l.1) refl

item_from-Leads :
    (field : ℕ → ℕ) (fuel head offset p : ℕ) (xs : List ℕ)
    → length xs < fuel
    → head < address_mod
    → offset ≤ address_mod
    → AreAddresses xs
    → Outside head xs
    → Leads field p xs head
    → item_from field head offset fuel (containerof p offset) ≡ done (items offset xs)
unfolding item_from
item_from-Leads field zero head offset p xs short h k a o l = absurd (omega arith)
item_from-Leads field (suc fuel) head offset p [] short h k a o l =
    rw (l, member-containerof head offset h k, self head) refl
item_from-Leads field (suc fuel) head offset p (x ∷ xs) short h k a o l =
    let other : (x == head) ≡ false = ground (arith, o.0) in
    let rest = item_from-Leads field fuel head offset (field x) xs (omega arith) h k a.1 o.1 l.1 in
    rw (l.0, member-containerof x offset a.0 k, other, rest) refl

-- the first link, or where the list ends
abbrev first_of : List ℕ → ℕ → ℕ
first_of [] b = b
first_of (x ∷ xs) b = x

next-first_of : (m : Memory) (a b : ℕ) (xs : List ℕ) → Links m a xs b → m.next a ≡ first_of xs b
next-first_of m a b [] l = l.0
next-first_of m a b (x ∷ xs) l = l.0

-- the body that takes the link of the item out of the list
abbrev pub removes : ℕ → Memory → ℕ → Memory
removes offset m cur = remove m (member cur offset)

-- the iteration ends with this memory and these items, and the list is empty in it
abbrev pub Emptied : ℕ → List ℕ → Run (Memory × List ℕ) → Type 0
Emptied head visited r = (m : Memory) × (r ≡ done (m, visited)) × IsList m head []

-- `tmp` is the item after the first one, if there is one
abbrev Ahead : ℕ → ℕ → ℕ → List ℕ → Type 0
Ahead head offset tmp [] = Unit
Ahead head offset tmp (x ∷ xs) = tmp ≡ containerof (first_of xs head) offset

first_of-address :
    (head : ℕ) (xs : List ℕ) → head < address_mod → AreAddresses xs → first_of xs head < address_mod
first_of-address head [] h a = h
first_of-address head (x ∷ xs) h a = a.0

next-Ahead :
    (m : Memory) (head offset : ℕ) (xs : List ℕ)
    → Links m head xs head
    → Ahead head offset (containerof (m.next (first_of xs head)) offset) xs
next-Ahead m head offset [] l = tt
next-Ahead m head offset (x ∷ xs) l = ap (λ p. containerof p offset) (next-first_of m x head xs l.2)

item_safe_from-Emptied :
    (fuel head offset : ℕ) (m : Memory) (xs : List ℕ) (tmp : ℕ)
    → length xs < fuel
    → head < address_mod
    → offset ≤ address_mod
    → AreAddresses xs
    → IsList m head xs
    → Ahead head offset tmp xs
    → Emptied head (items offset xs) (
        item_safe_from
          (removes offset)
          head
          offset
          fuel
          m
          (containerof (first_of xs head) offset)
          tmp)
unfolding item_safe_from
item_safe_from-Emptied zero head offset m xs tmp short h k a v e = absurd (omega arith)
item_safe_from-Emptied (suc fuel) head offset m [] tmp short h k a v e =
    (m, rw (member-containerof head offset h k, self head) refl, v)
item_safe_from-Emptied (suc fuel) head offset m (x ∷ xs) tmp short h k a v e =
    let other : (x == head) ≡ false = ground (arith, v.distinct.0.0) in
    let link = member-containerof x offset a.0 k in
    let v' = remove-IsList m head x [] xs v in
    let m' = remove m x in
    let tmp' = containerof (m'.next (first_of xs head)) offset in
    let (m2, r, w) =
      item_safe_from-Emptied fuel head offset m' xs tmp' (omega arith) h k a.1 v'
        (next-Ahead m' head offset xs v'.links) in
    let ahead = member-containerof (first_of xs head) offset (first_of-address head xs h a.1) k in
    (m2, rw (e, link, other, ahead, r) refl, w)

-- On a list, with the addresses below 2 ^ 64, `ylistl_foreach_reverse` visits the links from the last
-- one on, `ylistl_foreach_item` the structures that they stand in, `ylistl_foreach_item_reverse` those
-- in the opposite order, and `ylistl_foreach_item_safe` all of them while its body takes each one out
-- of the list, which is empty at the end. Each needs one round for each link and one more.
pub foreach_item_lem :
    (m : Memory) (head offset : ℕ) (xs : List ℕ)
    → head < address_mod
    → offset ≤ address_mod
    → AreAddresses xs
    → IsList m head xs
    → (foreach_reverse m (length xs + 1) head ≡ done (rev_onto xs []))
      × (foreach_item m offset (length xs + 1) head ≡ done (items offset xs))
      × (foreach_item_reverse m offset (length xs + 1) head ≡ done (items offset (rev_onto xs [])))
      × Emptied head
          (items offset xs)
          (foreach_item_safe (removes offset) m offset (length xs + 1) head)
unfolding foreach_reverse foreach_item foreach_item_reverse foreach_item_safe
foreach_item_lem m head offset xs h k a v =
    let back = prev-Leads m head head head xs [] v.links refl in
    let shorter : length (rev_onto xs []) < length xs + 1 = omega (arith, length-rev_onto xs []) in
    let apart = Outside-rev_onto head xs [] v.distinct.0 tt in
    let start = next-first_of m head head xs v.links in
    let ahead = member-containerof (first_of xs head) offset (first_of-address head xs h a) k in
    (
      reverse_from-Leads m (length xs + 1) head (m.prev head) (rev_onto xs []) shorter apart back,
      item_from-Leads m.next (length xs + 1) head offset (m.next head) xs (omega arith) h k a
          v.distinct.0 (next-Leads m head head xs v.links),
      item_from-Leads m.prev (length xs + 1) head offset (m.prev head) (rev_onto xs []) shorter h k
          (AreAddresses-rev_onto xs [] a tt) apart back,
      rw (start, ahead)
          (item_safe_from-Emptied (length xs + 1) head offset m xs
            (containerof (m.next (first_of xs head)) offset) (omega arith) h k a v
            (next-Ahead m head offset xs v.links)),
    )
