-- ===== src/Listl/Ends.antt =====
-- src/ylistl.h: the last link, taking links off either end, and replacing one.
use ylib.Base.{ℕ, ◌≡◌, ◌≢◌, ◌∙◌, sym, refl, List, [], ◌∷◌, ◌++◌, arith, ◌==◌, false}
use ylib.Listl.{Memory, init_link, add, add_prev, add_last, remove, remove_first, remove_last}
use ylib.Listl.Links.{Links, Outside, IsDistinct, IsList}
use ylib.Listl.Edit.{remove-IsList}

Outside-snoc : (c n : ℕ) (xs : List ℕ) → Outside c xs → c ≢ n → Outside c (xs ++ (n ∷ []))
Outside-snoc c n [] o d = (d, tt)
Outside-snoc c n (x ∷ xs) o d = (o.0, Outside-snoc c n xs o.1 d)

IsDistinct-snoc : (n : ℕ) (xs : List ℕ) → Outside n xs → IsDistinct xs → IsDistinct (xs ++ (n ∷ []))
IsDistinct-snoc n [] o d = (tt, tt)
IsDistinct-snoc n (x ∷ xs) o d =
    (Outside-snoc x n xs d.0 (λ e. o.0 (sym e)), IsDistinct-snoc n xs o.1 d.1)

-- the link before the end is in the list
last-other :
    (m : Memory) (a c : ℕ) (xs : List ℕ) (b : ℕ)
    → Links m a xs b
    → c ≢ a
    → Outside c xs
    → c ≢ m.prev b
last-other m a c [] b l d o = λ e. d (e ∙ l.1)
last-other m a c (x ∷ xs) b l d o = last-other m x c xs b l.2 o.0 o.1

added-last :
    (m : Memory) (n a : ℕ) (xs : List ℕ) (head : ℕ)
    → head ≢ n
    → a ≢ n
    → Outside n xs
    → Outside head xs
    → Outside a xs
    → IsDistinct xs
    → Links m a xs head
    → Links (add m (m.prev head) head n) a (xs ++ (n ∷ [])) head
unfolding add
added-last m n a [] head new ne o h q d l =
    (ground (arith, l), ground (arith, l), (ground (arith, l), ground (arith, l)))
added-last m n a (x ∷ xs) head new ne o h q d (e, f, l) =
    let other = last-other m x a xs head l q.0 q.1 in
    (
      ground (arith, e, other, ne),
      ground (arith, f, h.0, o.0),
      added-last m n x xs head new (λ k. o.0 (sym k)) o.1 h.1 d.0 d.1 l,
    )

-- `ylistl_add_last` of a link outside the list puts it behind the others.
pub add_last-IsList :
    (m : Memory) (head n : ℕ) (xs : List ℕ)
    → head ≢ n
    → Outside n xs
    → IsList m head xs
    → IsList (add_last m head n) head (xs ++ (n ∷ []))
unfolding add_last add_prev
add_last-IsList m head n xs new o v = record {
  links = added-last m n head xs head new new o v.distinct.0 v.distinct.0 v.distinct.1 v.links;
  distinct = (Outside-snoc head n xs v.distinct.0 new, IsDistinct-snoc n xs o v.distinct.1);
}

-- the link that `ylistl_remove_first` or `ylistl_remove_last` returns is the one at that end
pub last-prev :
    (m : Memory) (a x : ℕ) (xs : List ℕ) (b : ℕ) → Links m a (xs ++ (x ∷ [])) b → m.prev b ≡ x
last-prev m a x [] b l = l.2.1
last-prev m a x (y ∷ xs) b l = last-prev m y x xs b l.2

Outside-last : (c x : ℕ) (xs : List ℕ) → Outside c (xs ++ (x ∷ [])) → c ≢ x
Outside-last c x [] o = o.0
Outside-last c x (y ∷ xs) o = Outside-last c x xs o.1

pub remove_first-IsList :
    (m : Memory) (head x : ℕ) (xs : List ℕ)
    → IsList m head (x ∷ xs)
    → (remove_first m head ≡ (remove m x, x)) × IsList (remove m x) head xs
unfolding remove_first
remove_first-IsList m head x xs v =
    let first = v.links.0 in
    let other : (x == head) ≡ false = ground (arith, v.distinct.0.0) in
    (rw (first, other) refl, remove-IsList m head x [] xs v)

pub remove_last-IsList :
    (m : Memory) (head x : ℕ) (xs : List ℕ)
    → IsList m head (xs ++ (x ∷ []))
    → (remove_last m head ≡ (remove m x, x)) × IsList (remove m x) head (xs ++ [])
unfolding remove_last
remove_last-IsList m head x xs v =
    let last = last-prev m head x xs head v.links in
    let other : (x == head) ≡ false = ground (arith, Outside-last head x xs v.distinct.0) in
    (rw (last, other) refl, remove-IsList m head x xs [] v)

-- `ylistl_init_link` of a head makes an empty list.
pub init_link-IsList : (m : Memory) (head : ℕ) → IsList (init_link m head) head []
unfolding init_link
init_link-IsList m head = record { links = ground arith; distinct = (tt, tt) }
