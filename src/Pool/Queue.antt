-- ===== src/Pool/Queue.antt =====
-- src/pool.c: a pool is a queue of at most `capacity` links.
use ylib.Base.{
  ℕ, ◌+◌, ◌≤◌, ◌≡◌, ◌≢◌, subst, refl, some, true, false, List, [], ◌∷◌, ◌++◌, ltb, length,
  if◌then◌else◌, arith, length-append, Bool-cases, inl, inr,
}
use ylib.Base.Run.{Returns, returns, Returns-bind}
use ylib.Listl.{Memory, init_link, add_last, is_empty}
use ylib.Listl.Links.{IsList, Outside}
use ylib.Listl.Ends.{init_link-IsList, add_last-IsList, remove_first-IsList}
use ylib.Pool.{Pool, Call, Answer, get, put, call, calls, create}

-- the specification: a queue and its capacity
unfoldable pub call_queue : ℕ → List ℕ → Call → Answer × List ℕ
call_queue capacity [] Call.get_call = (Answer.link 0, [])
call_queue capacity (x ∷ q) Call.get_call = (Answer.link x, q)
call_queue capacity q (Call.put_call lk) =
    if ltb (length q) capacity then (Answer.taken true, q ++ (lk ∷ [])) else (Answer.taken false, q)

unfoldable pub calls_queue : ℕ → List ℕ → List Call → List Answer × List ℕ
calls_queue capacity q [] = ([], q)
calls_queue capacity q (c ∷ cs) =
    let (a, q') = call_queue capacity q c in
    let (as', q'') = calls_queue capacity q' cs in (a ∷ as', q'')

-- the pool holds these links, in this order
pub record Represents (p : Pool) (q : List ℕ) : Type 0 where
  pub listed : IsList p.mem p.hd q
  pub counted : p.sz ≡ length q
  pub bounded : length q ≤ p.capacity

-- a link that is put is not in the pool already, and is not its head
abbrev pub IsLegal : ℕ → List ℕ → Call → Type 0
IsLegal hd q Call.get_call = Unit
IsLegal hd q (Call.put_call lk) = (hd ≢ lk) × Outside lk q

unfoldable pub AreLegal : ℕ → ℕ → List ℕ → List Call → Type 0
AreLegal hd capacity q [] = Unit
AreLegal hd capacity q (c ∷ cs) =
    IsLegal hd q c × AreLegal hd capacity (call_queue capacity q c).1 cs

-- what one call does to a pool is what the specification says
abbrev pub Follows : Pool → List ℕ → Call → Answer × Pool → Type 0
Follows p q c (a, p') =
    (a ≡ (call_queue p.capacity q c).0)
    × Represents p' (call_queue p.capacity q c).1
    × (p'.hd ≡ p.hd)
    × (p'.capacity ≡ p.capacity)

get-Follows :
    (p : Pool) (q : List ℕ)
    → Represents p q
    → Returns (Follows p q Call.get_call) (call p Call.get_call)
unfolding get call_queue
get-Follows p [] r =
    let empty : is_empty p.mem p.hd ≡ true = ground (arith, r.listed.links) in
    rw empty (returns (refl, r, refl, refl))
get-Follows p (x ∷ q) r =
    let first = r.listed.links.0 in
    let some_link : is_empty p.mem p.hd ≡ false = ground (arith, first, r.listed.distinct.0.0) in
    let counted : ltb 0 p.sz ≡ true = ground (arith, r.counted) in
    let (removed, listed) = remove_first-IsList p.mem p.hd x q r.listed in
    rw (some_link, removed, counted)
      (returns (
        refl,
        record {
          listed = listed;
          counted = omega (arith, r.counted);
          bounded = omega (arith, r.bounded);
        },
        refl,
        refl,
      ))

put-Follows :
    (p : Pool) (q : List ℕ) (lk : ℕ)
    → Represents p q
    → IsLegal p.hd q (Call.put_call lk)
    → Returns (Follows p q (Call.put_call lk)) (call p (Call.put_call lk))
unfolding put call_queue
put-Follows p q lk r l = elim (Bool-cases (ltb (length q) p.capacity)) [
  | inl e ↦
      let room : ltb p.sz p.capacity ≡ true = ground (arith, r.counted) in
      let p' : Pool = record p { mem = add_last p.mem p.hd lk; sz = p.sz + 1 } in
      let represents : Represents p' (q ++ (lk ∷ [])) = record {
        listed = add_last-IsList p.mem p.hd lk q l.0 l.1 r.listed;
        counted = omega (arith, r.counted, length-append q (lk ∷ []));
        bounded = ground (arith, length-append q (lk ∷ []));
      } in
      let good : Follows p q (Call.put_call lk) (Answer.taken true, p') =
        rw e (refl, represents, refl, refl) in
      rw room (returns good)
  | inr e ↦
      let full : ltb p.sz p.capacity ≡ false = ground (arith, r.counted) in
      let good : Follows p q (Call.put_call lk) (Answer.taken false, p) =
        rw e (refl, r, refl, refl) in
      rw full (returns good)
]

call-Follows :
    (p : Pool) (q : List ℕ) (c : Call)
    → Represents p q
    → IsLegal p.hd q c
    → Returns (Follows p q c) (call p c)
call-Follows p q Call.get_call r l = get-Follows p q r
call-Follows p q (Call.put_call lk) r l = put-Follows p q lk r l

-- the calls return what the specification says, and leave what it says
abbrev pub Implements : ℕ → List ℕ → List Call → List Answer × Pool → Type 0
Implements capacity q cs (as', p') =
    (as' ≡ (calls_queue capacity q cs).0) × Represents p' (calls_queue capacity q cs).1

-- the pool that `ypool_create` makes
abbrev pub created : Memory → (hd capacity : ℕ) → Pool
created mem hd capacity = record { mem = init_link mem hd; hd = hd; sz = 0; capacity = capacity }

pub created-Represents :
    (mem : Memory) (hd capacity : ℕ)
    → (create true mem hd capacity ≡ some (created mem hd capacity))
      × Represents (created mem hd capacity) []
unfolding create
created-Represents mem hd capacity =
    (refl, record { listed = init_link-IsList mem hd; counted = refl; bounded = omega arith })

-- Whatever calls of `ypool_get` and `ypool_put` follow on a pool that represents a queue, they
-- return what the queue of that capacity says, and the pool represents what is in the queue at the end, if
-- no link is put that is in the pool then, or is its head.
pub calls-Represents :
    (p : Pool) (q : List ℕ) (cs : List Call)
    → Represents p q
    → AreLegal p.hd p.capacity q cs
    → Returns (Implements p.capacity q cs) (calls p cs)
unfolding calls calls_queue AreLegal
calls-Represents p q [] r l = returns (refl, r)
calls-Represents p q (c ∷ cs) r l = Returns-bind (call-Follows p q c r l.0) λ (a, p') (e, r', h, k).
    let rest = calls-Represents p' (call_queue p.capacity q c).1 cs r' (rw (h, k) l.1) in
    Returns-bind
      (subst (λ n. Returns (Implements n (call_queue p.capacity q c).1 cs) (calls p' cs)) k rest)
      λ (as', p'') (f, g). returns (rw (e, f) refl, g)
