-- ===== src/Listl/Edit.antt =====
-- src/ylistl.h: what adding and removing links does to the sequence.
use ylib.Base.{ℕ, ◌≡◌, ◌≢◌, ◌∙◌, sym, List, [], ◌∷◌, ◌++◌, arith}
use ylib.Listl.{Memory, add, add_next, add_first, remove}
use ylib.Listl.Links.{Links, Outside, IsDistinct, IsList, Links-frame}

module _ (m : Memory) (x : ℕ) where
  removed-next : (i : ℕ) → i ≢ m.prev x → (remove m x).next i ≡ m.next i
  unfolding remove
  removed-next i other = ground (arith, other)

  removed-next-at : (remove m x).next (m.prev x) ≡ m.next x
  unfolding remove
  removed-next-at = ground arith

  removed-prev : (i : ℕ) → i ≢ m.next x → (remove m x).prev i ≡ m.prev i
  unfolding remove
  removed-prev i other = ground (arith, other)

  removed-prev-at : (remove m x).prev (m.next x) ≡ m.prev x
  unfolding remove
  removed-prev-at = ground arith

pub Outside-middle :
    (c x : ℕ) (ys zs : List ℕ) → Outside c (ys ++ (x ∷ zs)) → Outside c ys × (c ≢ x) × Outside c zs
Outside-middle c x [] zs o = (tt, o.0, o.1)
Outside-middle c x (y ∷ ys) zs o = let (p, q, r) = Outside-middle c x ys zs o.1 in ((o.0, p), q, r)

Outside-without : (c x : ℕ) (ys zs : List ℕ) → Outside c (ys ++ (x ∷ zs)) → Outside c (ys ++ zs)
Outside-without c x [] zs o = o.1
Outside-without c x (y ∷ ys) zs o = (o.0, Outside-without c x ys zs o.1)

IsDistinct-without : (x : ℕ) (ys zs : List ℕ) → IsDistinct (ys ++ (x ∷ zs)) → IsDistinct (ys ++ zs)
IsDistinct-without x [] zs d = d.1
IsDistinct-without x (y ∷ ys) zs d = (Outside-without y x ys zs d.0, IsDistinct-without x ys zs d.1)

-- the neighbours of a link are among its list
pub before-other :
    (m : Memory) (a x c : ℕ) (ys zs : List ℕ) (b : ℕ)
    → Links m a (ys ++ (x ∷ zs)) b
    → c ≢ a
    → Outside c ys
    → c ≢ m.prev x
before-other m a x c [] zs b l other o = λ e. other (e ∙ l.1)
before-other m a x c (y ∷ ys) zs b l other o = before-other m y x c ys zs b l.2 o.0 o.1

pub after-other :
    (m : Memory) (x c : ℕ) (zs : List ℕ) (b : ℕ)
    → Links m x zs b
    → c ≢ b
    → Outside c zs
    → c ≢ m.next x
after-other m x c [] b l other o = λ e. other (e ∙ l.0)
after-other m x c (z ∷ zs) b l other o = λ e. o.0 (e ∙ l.0)

pub rest-Links :
    (m : Memory) (a x : ℕ) (ys zs : List ℕ) (b : ℕ) → Links m a (ys ++ (x ∷ zs)) b → Links m x zs b
rest-Links m a x [] zs b l = l.2
rest-Links m a x (y ∷ ys) zs b l = rest-Links m y x ys zs b l.2

removed-Links :
    (m : Memory) (a x : ℕ) (ys zs : List ℕ) (b : ℕ)
    → Links m a (ys ++ (x ∷ zs)) b
    → Outside a (ys ++ (x ∷ zs))
    → IsDistinct (ys ++ (x ∷ zs))
    → Outside b (ys ++ (x ∷ zs))
    → Links (remove m x) a (ys ++ zs) b
removed-Links m a x [] [] b (e, f, (g, h)) o d q =
    (rw f at (removed-next-at m x) ∙ g, rw g at (removed-prev-at m x) ∙ f)
removed-Links m a x [] (z ∷ zs) b (e, f, (g, h, l)) o d q = (
  rw f at (removed-next-at m x) ∙ g,
  rw g at (removed-prev-at m x) ∙ f,
  Links-frame m (remove m x) (m.prev x) (m.next x) x z zs b (λ i p n. removed-next m x i p)
      (λ i p n. removed-prev m x i p) (λ k. o.1.0 (sym (k ∙ f))) (λ k. d.0.0 (sym k)) (rw f o.1.1)
      d.0.1 (rw g d.1.0) (λ k. q.1.0 (k ∙ g)) q.0 l,
)
removed-Links m a x (y ∷ ys) zs b (e, f, l) o d q =
    let (p, r, s) = Outside-middle a x (y ∷ ys) zs o in
    let (t, u, w) = Outside-middle y x ys zs d.0 in
    (
      removed-next m x a (before-other m y x a ys zs b l p.0 p.1) ∙ e,
      removed-prev m x y (after-other m x y zs b (rest-Links m y x ys zs b l) (λ k. q.0 (sym k)) w)
          ∙ f,
      removed-Links m y x ys zs b l d.0 d.1 q.1,
    )

-- `ylistl_remove` of a link in a list takes it out of the sequence, and keeps the order of the others.
pub remove-IsList :
    (m : Memory) (head x : ℕ) (ys zs : List ℕ)
    → IsList m head (ys ++ (x ∷ zs))
    → IsList (remove m x) head (ys ++ zs)
remove-IsList m head x ys zs v = record {
  links = removed-Links m head x ys zs head v.links v.distinct.0 v.distinct.1 v.distinct.0;
  distinct = (Outside-without head x ys zs v.distinct.0, IsDistinct-without x ys zs v.distinct.1);
}

added-first :
    (m : Memory) (head n : ℕ) (xs : List ℕ)
    → head ≢ n
    → Outside n xs
    → Outside head xs
    → IsDistinct xs
    → Links m head xs head
    → Links (add m head (m.next head) n) head (n ∷ xs) head
unfolding add
added-first m head n [] new o h d l = ground (arith, l)
added-first m head n (x ∷ xs) new o h d (e, f, l) = (
  ground arith,
  ground arith,
  (
    ground (arith, e, o.0),
    ground (arith, e, o.0),
    Links-frame m (add m head (m.next head) n) head x n x xs head (λ i p q. ground (arith, p, q))
        (λ i p q. ground (arith, p, q, e)) (λ k. h.0 (sym k)) (λ k. o.0 (sym k)) h.1 o.1 d.0 h.0 new
        l,
  ),
)

-- `ylistl_add_first` of a link outside the list puts it before the others.
pub add_first-IsList :
    (m : Memory) (head n : ℕ) (xs : List ℕ)
    → head ≢ n
    → Outside n xs
    → IsList m head xs
    → IsList (add_first m head n) head (n ∷ xs)
unfolding add_first add_next
add_first-IsList m head n xs new o v = record {
  links = added-first m head n xs new o v.distinct.0 v.distinct.1 v.links;
  distinct = ((new, v.distinct.0), (o, v.distinct.1));
}
