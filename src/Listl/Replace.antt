-- ===== src/Listl/Replace.antt =====
-- src/ylistl.h: `ylistl_replace`.
use ylib.Base.{ℕ, ◌≡◌, ◌≢◌, ◌∙◌, sym, List, [], ◌∷◌, ◌++◌, arith}
use ylib.Listl.{Memory, replace}
use ylib.Listl.Links.{Links, Outside, IsDistinct, IsList, Links-frame}
use ylib.Listl.Edit.{before-other, after-other, rest-Links, Outside-middle}

-- the two links around `old` are not NULL, and the new link is none of them
module _ (m : Memory) (old new : ℕ) (d : new ≢ m.next old) (e : new ≢ m.prev old) where
  replaced-next : (i : ℕ) → i ≢ new → i ≢ m.prev old → (replace m old new).next i ≡ m.next i
  unfolding replace
  replaced-next i p q = ground (arith, p, q, d, e)

  replaced-prev : (i : ℕ) → i ≢ new → i ≢ m.next old → (replace m old new).prev i ≡ m.prev i
  unfolding replace
  replaced-prev i p q = ground (arith, p, q, d, e)

  -- the new link has the place of the old one
  replaced-at :
      old ≢ m.next old
      → ((replace m old new).next new ≡ m.next old)
        × ((replace m old new).next (m.prev old) ≡ new)
        × ((replace m old new).prev (m.next old) ≡ new)
        × ((replace m old new).prev new ≡ m.prev old)
  unfolding replace
  replaced-at f = (
    ground (arith, d, e, f),
    ground (arith, d, e, f),
    ground (arith, d, e, f),
    ground (arith, d, e, f),
  )

  replaced-Links :
      (a : ℕ) (ys zs : List ℕ) (b : ℕ)
      → Links m a (ys ++ (old ∷ zs)) b
      → Outside a (ys ++ (old ∷ zs))
      → IsDistinct (ys ++ (old ∷ zs))
      → Outside b (ys ++ (old ∷ zs))
      → Outside new (ys ++ (old ∷ zs))
      → new ≢ a
      → new ≢ b
      → Links (replace m old new) a (ys ++ (new ∷ zs)) b
  replaced-Links a [] [] b (p, q, (r, s)) o t u w na nb =
      let (g, h, i, j) = replaced-at (λ k. u.0 (sym (k ∙ r))) in
      (rw q at h, j ∙ q, (g ∙ r, rw r at i))
  replaced-Links a [] (z ∷ zs) b (p, q, (r, s, l)) o t u w na nb =
      let (g, h, i, j) = replaced-at (λ k. t.0.0 (k ∙ r)) in
      (
        rw q at h,
        j ∙ q,
        (
          g ∙ r,
          rw r at i,
          Links-frame m (replace m old new) (m.prev old) (m.next old) new z zs b
              (λ k x y. replaced-next k y x) (λ k x y. replaced-prev k y x)
              (λ k. o.1.0 (sym (k ∙ q))) (λ k. w.1.0 (sym k)) (rw q o.1.1) w.1.1 (rw r t.1.0)
              (λ k. u.1.0 (k ∙ r)) (λ k. nb (sym k)) l,
        ),
      )
  replaced-Links a (y ∷ ys) zs b (p, q, l) o t u w na nb =
      let (f, g, h) = Outside-middle a old (y ∷ ys) zs o in
      let (i, j, k) = Outside-middle y old ys zs t.0 in
      (
        replaced-next a (λ x. na (sym x)) (before-other m y old a ys zs b l f.0 f.1) ∙ p,
        replaced-prev y (λ x. w.0 (sym x))
              (after-other m old y zs b (rest-Links m y old ys zs b l) (λ x. u.0 (sym x)) k)
            ∙ q,
        replaced-Links y ys zs b l t.0 t.1 u.1 w.1 w.0 nb,
      )

Outside-replaced :
    (c old new : ℕ) (ys zs : List ℕ)
    → c ≢ new
    → Outside c (ys ++ (old ∷ zs))
    → Outside c (ys ++ (new ∷ zs))
Outside-replaced c old new [] zs d o = (d, o.1)
Outside-replaced c old new (y ∷ ys) zs d o = (o.0, Outside-replaced c old new ys zs d o.1)

IsDistinct-replaced :
    (old new : ℕ) (ys zs : List ℕ)
    → Outside new (ys ++ (old ∷ zs))
    → IsDistinct (ys ++ (old ∷ zs))
    → IsDistinct (ys ++ (new ∷ zs))
IsDistinct-replaced old new [] zs o d = (o.1, d.1)
IsDistinct-replaced old new (y ∷ ys) zs o d = (
  Outside-replaced y old new ys zs (λ e. o.0 (sym e)) d.0,
  IsDistinct-replaced old new ys zs o.1 d.1,
)

-- `ylistl_replace` puts a link outside the list in the place of the old one.
pub replace-IsList :
    (m : Memory) (head old new : ℕ) (ys zs : List ℕ)
    → head ≢ new
    → Outside new (ys ++ (old ∷ zs))
    → IsList m head (ys ++ (old ∷ zs))
    → IsList (replace m old new) head (ys ++ (new ∷ zs))
replace-IsList m head old new ys zs d o v =
    let (g, _, h) = Outside-middle new old ys zs o in
    record {
      links =
          replaced-Links m old new
            (after-other m old new zs head (rest-Links m head old ys zs head v.links)
              (λ e. d (sym e)) h)
            (before-other m head old new ys zs head v.links (λ e. d (sym e)) g) head ys zs head
            v.links v.distinct.0 v.distinct.1 v.distinct.0 o (λ e. d (sym e)) (λ e. d (sym e));
      distinct = (
        Outside-replaced head old new ys zs d v.distinct.0,
        IsDistinct-replaced old new ys zs o v.distinct.1,
      );
    }
