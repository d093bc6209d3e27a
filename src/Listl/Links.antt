-- ===== src/Listl/Links.antt =====
-- src/ylistl.h: the sequence of links that a circular list represents.
use ylib.Base.{ℕ, ◌≡◌, ◌≢◌, ◌∙◌, sym, List, [], ◌∷◌}
use ylib.Listl.{Memory}

-- `xs` are the links between `a` and `b`, linked both ways
abbrev pub Links : Memory → ℕ → List ℕ → ℕ → Type 0
Links m a [] b = (m.next a ≡ b) × (m.prev b ≡ a)
Links m a (x ∷ xs) b = (m.next a ≡ x) × (m.prev x ≡ a) × Links m x xs b

-- the link is not in the list
abbrev pub Outside : ℕ → List ℕ → Type 0
Outside n [] = Unit
Outside n (x ∷ xs) = (n ≢ x) × Outside n xs

abbrev pub IsDistinct : List ℕ → Type 0
IsDistinct [] = Unit
IsDistinct (x ∷ xs) = Outside x xs × IsDistinct xs

-- the list with this head consists of the links `xs`, in this order
pub record IsList (m : Memory) (head : ℕ) (xs : List ℕ) : Type 0 where
  pub links : Links m head xs head
  pub distinct : Outside head xs × IsDistinct xs

-- a link whose fields are written elsewhere keeps its place
pub Links-frame :
    (m m' : Memory) (p q n a : ℕ) (xs : List ℕ) (b : ℕ)
    → ((i : ℕ) → i ≢ p → i ≢ n → m'.next i ≡ m.next i)
    → ((i : ℕ) → i ≢ q → i ≢ n → m'.prev i ≡ m.prev i)
    → a ≢ p
    → a ≢ n
    → Outside p xs
    → Outside n xs
    → Outside q xs
    → b ≢ q
    → b ≢ n
    → Links m a xs b
    → Links m' a xs b
Links-frame m m' p q n a [] b f g ap an op on oq bq bn l = (f a ap an ∙ l.0, g b bq bn ∙ l.1)
Links-frame m m' p q n a (x ∷ xs) b f g ap an op on oq bq bn l = (
  f a ap an ∙ l.0,
  g x (λ e. oq.0 (sym e)) (λ e. on.0 (sym e)) ∙ l.1,
  Links-frame m m' p q n x xs b f g (λ e. op.0 (sym e)) (λ e. on.0 (sym e)) op.1 on.1 oq.1 bq bn
      l.2,
)
