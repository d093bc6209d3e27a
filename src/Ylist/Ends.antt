-- ===== src/Ylist/Ends.antt =====
-- src/list.c: additions and removals at both ends of a list.
use ylib.Base.{
  ℕ, ◌+◌, ◌<◌, ◌≡◌, ◌≢◌, ◌∙◌, sym, ap, refl, subst, Bool, true, false, List, [], ◌∷◌, ◌++◌, map,
  length, length-append, ◌==◌, u32_mod, arith,
}
use ylib.Listl.{Memory}
use ylib.Listl
use ylib.Listl.Links.{Outside, IsList}
use ylib.Listl.Edit.{add_first-IsList, remove-IsList}
use ylib.Listl.Ends.{add_last-IsList, last-prev}
use mathlib.Core.List.{append-nil, head-eq_of_cons-eq, tail-eq_of_cons-eq}
use ylib.Ylist.{
  Direction, forward, backward, Ylist, Removal, accepted, is_full, is_empty, remove_node, add_last,
  add_first, peek_first, peek_last, remove_first, remove_last, with_node, free_item,
}

-- the list consists of the nodes `xs`, which hold these items
pub record Holds (l : Ylist) (xs : List ℕ) (items : List ℕ) : Type 0 where
  pub listed : IsList l.mem l.head xs
  pub contents : map l.item xs ≡ items
  pub counted : l.sz ≡ length xs
  pub narrow : length xs < u32_mod

-- a node outside a list does not change what it holds
map-with_node :
    (l : Ylist) (m : Memory) (n item : ℕ) (xs : List ℕ)
    → Outside n xs
    → map (with_node l m n item).item xs ≡ map l.item xs
map-with_node l m n item [] o = refl
map-with_node l m n item (x ∷ xs) o =
    let other : (x == n) ≡ false = ground (arith, o.0) in
    rw (other, map-with_node l m n item xs o.1) refl

map-snoc : (f : ℕ → ℕ) (n : ℕ) (xs : List ℕ) → map f (xs ++ (n ∷ [])) ≡ map f xs ++ (f n ∷ [])
map-snoc f n [] = refl
map-snoc f n (x ∷ xs) = ap (λ ys. f x ∷ ys) (map-snoc f n xs)

-- `ylist_add_last` and `ylist_add_first` of a new node, to a list that is not full, put the item at
-- the end, or at the start.
pub adds-Holds :
    (l : Ylist) (xs items : List ℕ) (n item : ℕ)
    → Holds l xs items
    → is_full l ≡ false
    → n ≢ 0
    → l.head ≢ n
    → Outside n xs
    → length xs + 1 < u32_mod
    → ((add_last l n item).0 ≡ accepted)
      × Holds (add_last l n item).1 (xs ++ (n ∷ [])) (items ++ (item ∷ []))
      × ((add_first l n item).0 ≡ accepted)
      × Holds (add_first l n item).1 (n ∷ xs) (item ∷ items)
unfolding add_last add_first Listl.add_last Listl.add_first
adds-Holds l xs items n item v room pos new o few =
    let positive : (n == 0) ≡ false = ground (arith, pos) in
    let same : (n == n) ≡ true = ground arith in
    rw (room, positive)
      (
        refl,
        record {
          listed = add_last-IsList l.mem l.head n xs new o v.listed;
          contents =
              map-snoc _ n xs
              ∙ rw (map-with_node l l.mem n item xs o, same)
                  (ap (λ ys. ys ++ (item ∷ [])) v.contents);
          counted = omega (arith, length-append xs (n ∷ []), v.counted);
          narrow = omega (arith, length-append xs (n ∷ []));
        },
        refl,
        record {
          listed = add_first-IsList l.mem l.head n xs new o v.listed;
          contents = rw (map-with_node l l.mem n item xs o, same) (ap (λ ys. item ∷ ys) v.contents);
          counted = omega (arith, v.counted);
          narrow = omega arith;
        },
      )

snoc-longer : (x a b : ℕ) (xs : List ℕ) → a ∷ [] ≡ x ∷ (xs ++ (b ∷ [])) → ⊥
snoc-longer x a b xs e = omega (arith, ap length e, length-append xs (b ∷ []))

-- two lists that end with an item are equal only if the items are, and what is before them
snoc-injective : (xs ys : List ℕ) (a b : ℕ) → xs ++ (a ∷ []) ≡ ys ++ (b ∷ []) → (xs ≡ ys) × (a ≡ b)
snoc-injective [] [] a b e = (refl, head-eq_of_cons-eq e)
snoc-injective [] (y ∷ ys) a b e = absurd (snoc-longer y a b ys e)
snoc-injective (x ∷ xs) [] a b e = absurd (snoc-longer x b a xs (sym e))
snoc-injective (x ∷ xs) (y ∷ ys) a b e =
    let (f, g) = snoc-injective xs ys a b (tail-eq_of_cons-eq e) in
    (λ i. head-eq_of_cons-eq e i ∷ f i, g)

-- How the removal of the item at one end ends.
abbrev pub Removed : (free : Bool) → (item : ℕ) → (xs items : List ℕ) → Removal → Type 0
Removed free item xs items r =
    (r.item ≡ item) × (r.freed ≡ free_item free item) × Holds r.list xs items

-- the removal of a node
remove_node-Removed :
    (l : Ylist) (x item : ℕ) (xs items : List ℕ) (free : Bool)
    → l.item x ≡ item
    → map l.item xs ≡ items
    → l.sz ≡ length xs + 1
    → length xs + 1 < u32_mod
    → IsList (Listl.remove l.mem x) l.head xs
    → Removed free item xs items (remove_node l x free)
unfolding remove_node
remove_node-Removed l x item xs items free e contents sz narrow v = (
  e,
  ap (free_item free) e,
  record { listed = v; contents = contents; counted = omega arith; narrow = omega arith },
)

-- the element at the end where an iteration in this direction starts
abbrev pub joined : Direction → ℕ → List ℕ → List ℕ
joined forward x xs = x ∷ xs
joined backward x xs = xs ++ (x ∷ [])

abbrev pub peek_end : Direction → Ylist → ℕ
peek_end forward = peek_first
peek_end backward = peek_last

abbrev pub remove_end : Direction → Ylist → (free : Bool) → Removal
remove_end forward = remove_first
remove_end backward = remove_last

-- `ylist_remove_first` of a list that is not empty returns its first item, which `ylist_peek_first`
-- returns too, and `ylist_remove_last` and `ylist_peek_last` do so at the other end. The other items stay. The
-- item is given to `ifree` if that is wanted, and it is not NULL.
pub removes-Holds :
    (l : Ylist) (x item : ℕ) (xs items : List ℕ) (free : Bool) (d : Direction)
    → Holds l (joined d x xs) (joined d item items)
    → (peek_end d l ≡ item) × Removed free item xs items (remove_end d l free)
unfolding peek_first peek_last remove_first remove_last
removes-Holds l x item xs items free forward v =
    let some_node : is_empty l ≡ false = ground (arith, v.counted) in
    let value = head-eq_of_cons-eq v.contents in
    rw (some_node, v.listed.links.0)
      (
        value,
        remove_node-Removed l x item xs items free value (tail-eq_of_cons-eq v.contents)
            (omega (arith, v.counted)) (omega (arith, v.narrow))
            (remove-IsList l.mem l.head x [] xs v.listed),
      )
removes-Holds l x item xs items free backward v =
    let counted : l.sz ≡ length xs + 1 = omega (arith, v.counted, length-append xs (x ∷ [])) in
    let some_node : is_empty l ≡ false = ground (arith, counted) in
    let (before, value) =
      snoc-injective (map l.item xs) items (l.item x) item
        (sym (map-snoc l.item x xs) ∙ v.contents) in
    let kept =
      subst (IsList (Listl.remove l.mem x) l.head) (append-nil xs)
        (remove-IsList l.mem l.head x xs [] v.listed) in
    rw (some_node, last-prev l.mem l.head x xs l.head v.listed.links)
      (
        value,
        remove_node-Removed l x item xs items free value before counted
            (omega (arith, v.narrow, length-append xs (x ∷ []))) kept,
      )
