-- ===== src/Pool.antt =====
-- src/pool.c and src/ypool.h: a pool of links with a capacity, for one thread: the calls of the lock
-- are left out. The links stand in memory as src/ylistl.h has them; NULL is 0.
pub mod Queue
mod Tests
use ylib.Base.{
  ℕ, zero, suc, ◌+◌, ◌-◌, ◌<◌, Bool, true, false, Option, none, some, List, [], ◌∷◌, ◌++◌, ltb,
  length, if◌then◌else◌,
}
use ylib.Base.Run.{Run, done, fault, ◌>>=◌}
use ylib.Listl.{Memory, init_link, is_empty, add_last, remove_first}

-- `struct ypool` with the memory of its links; `hd` is the address of the head
pub record Pool : Type 0 where
  pub mem : Memory
  pub hd : ℕ
  pub sz : ℕ
  pub capacity : ℕ

-- `ypool_create`; the flag says whether the allocator grants the pool
pub create : Bool → Memory → (hd capacity : ℕ) → Option Pool
create granted mem hd capacity =
    if granted
    then some (record { mem = init_link mem hd; hd = hd; sz = 0; capacity = capacity })
    else none

pub get : Pool → Run (ℕ × Pool)
get p =
    if is_empty p.mem p.hd
    then done (0, p)
    else (let (mem, lk) = remove_first p.mem p.hd in
        if ltb 0 p.sz then done (lk, record p { mem = mem; sz = p.sz - 1 }) else fault)

pub put : Pool → ℕ → Bool × Pool
put p lk =
    if ltb p.sz p.capacity
    then (true, record p { mem = add_last p.mem p.hd lk; sz = p.sz + 1 })
    else (false, p)

-- the calls of a user of the pool, and what they return
pub data Call : Type 0 where
  get_call : Call
  put_call : ℕ → Call

pub data Answer : Type 0 where
  link : ℕ → Answer
  taken : Bool → Answer

abbrev pub call : Pool → Call → Run (Answer × Pool)
call p Call.get_call = get p >>= λ (lk, p'). done (Answer.link lk, p')
call p (Call.put_call lk) = let (r, p') = put p lk in done (Answer.taken r, p')

pub calls : Pool → List Call → Run (List Answer × Pool)
calls p [] = done ([], p)
calls p (c ∷ cs) = call p c >>= λ (a, p'). calls p' cs >>= λ (as', p''). done (a ∷ as', p'')
