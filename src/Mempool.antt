-- ===== src/Mempool.antt =====
-- src/mempool.c: a pool of blocks of one size, in groups of `grpsz` blocks, for the configuration
-- without CONFIG_MEMPOOL_DYNAMIC and one thread. An address is a number, 0 is NULL. `malloc k n` is
-- the address that the k-th call of the allocator within an operation returns for n bytes. Each
-- operation says which addresses it got from the allocator and which it gave back.
pub mod Valid
pub mod Put
pub mod Ledger
mod Tests
pub mod Get
pub mod Reached
pub mod Expand
use ylib.Base.{
  ℕ, zero, suc, ◌+◌, ◌-◌, ◌*◌, ◌/◌, ◌%◌, Bool, true, false, ◌&&◌, ◌||◌, not, List, [], ◌∷◌, ◌++◌,
  ltb, leb, ◌==◌, if◌then◌else◌, Status, ok, enomem, einval, is_ok,
}
use ylib.Base.Run.{Run, done, fault, ◌>>=◌}

-- `struct ymempool` at `self`, with the memory that it points to: `grps` and `strips` are the
-- pointers in the arrays `grp` and `fbp`, `fbps` what a strip holds, `index` the field `i` of every block
pub record Mempool : Type 0 where
  pub self : ℕ
  pub grp : ℕ
  pub grps : ℕ → ℕ
  pub grpsz : ℕ
  pub nrgrp : ℕ
  pub fbp : ℕ
  pub strips : ℕ → ℕ
  pub fbps : ℕ → ℕ → ℕ
  pub index : ℕ → ℕ
  pub esz : ℕ
  pub fbi : ℕ

abbrev pub set {ℓ} : {A : Type ℓ} → (ℕ → A) → ℕ → A → ℕ → A
set f i v j = if j == i then v else f j

-- one more than INT_MAX
abbrev pub int_limit : ℕ
int_limit = 2147483648

abbrev pub align_adjust : Mempool → ℕ
align_adjust mp = 8 - mp.esz % 8

abbrev pub esz : Mempool → ℕ
esz mp = mp.esz + align_adjust mp

-- `struct blk` has 16 bytes, and its field `d` 8 of them
abbrev pub blksz : Mempool → ℕ
blksz mp = 16 - 8 + esz mp

abbrev pub sz : Mempool → ℕ
sz mp = mp.nrgrp * mp.grpsz

abbrev pub usedsz : Mempool → ℕ
usedsz mp = mp.fbi

abbrev pub slot : Mempool → ℕ → ℕ
slot mp i = mp.fbps (i / mp.grpsz) (i % mp.grpsz)

unfoldable pub fbpblk : Mempool → ℕ → Run ℕ
fbpblk mp i =
    let b = slot mp i in if ltb (i / mp.grpsz) mp.nrgrp && (mp.index b == i) then done b else fault

abbrev pub is_freeblk : Mempool → ℕ → Bool
is_freeblk mp b = leb mp.fbi (mp.index b)

abbrev pub is_usedblk : Mempool → ℕ → Bool
is_usedblk mp b = not (is_freeblk mp b)

unfoldable pub setfbp : Mempool → ℕ → ℕ → Run Mempool
setfbp mp i b =
    let g = i / mp.grpsz in
    if ltb g mp.nrgrp
    then done (record mp {
      fbps = set mp.fbps g (set (mp.fbps g) (i % mp.grpsz) b);
      index = set mp.index b i;
    })
    else fault

-- an `int` past INT_MAX overflows
pub need_shrink : Mempool → Run Bool
need_shrink mp =
    if ltb (mp.fbi * 2) int_limit then done (ltb (mp.fbi * 2 / mp.grpsz) mp.nrgrp) else fault

pub shrink : Mempool → ℕ → Mempool
shrink mp margin = mp

-- `if (p) yfree(p)`
abbrev pub if_any : ℕ → List ℕ
if_any p = if p == 0 then [] else p ∷ []

-- what an operation got from the allocator, what it gave back, and its result
pub record Outcome {ℓ} (V : Type ℓ) : Type ℓ where
  pub got : List ℕ
  pub freed : List ℕ
  pub value : V

-- The loop that initializes the blocks of a new group, before the block `i`, with `n` blocks left:
-- the strip and the fields `i`.
pub init_blocks : (base bsz first : ℕ) → ℕ → ℕ → (ℕ → ℕ) × (ℕ → ℕ) → (ℕ → ℕ) × (ℕ → ℕ)
init_blocks base bsz first i zero s = s
init_blocks base bsz first i (suc n) s =
    init_blocks base bsz first (suc i) n
      (set (s.0) i (base + i * bsz), set (s.1) (base + i * bsz) (first + i))

-- `expand` once nothing can fail
abbrev pub expanded : Mempool → (newgrp newfbp strip group : ℕ) → Mempool
expanded mp newgrp newfbp strip group =
    let s = init_blocks group (blksz mp) (sz mp) 0 mp.grpsz ((λ _. 0), mp.index) in
    record mp {
      grp = newgrp;
      grps = set mp.grps mp.nrgrp group;
      nrgrp = mp.nrgrp + 1;
      fbp = newfbp;
      strips = set mp.strips mp.nrgrp strip;
      fbps = set mp.fbps mp.nrgrp (s.0);
      index = s.1;
    }

-- the sizes and the offsets of the blocks in a group are of type `int`: past INT_MAX they overflow
pub expand : (ℕ → ℕ → ℕ) → Mempool → Run (Outcome (Status × Mempool))
expand malloc mp =
    let newgrp = malloc 0 (8 * (mp.nrgrp + 1)) in
    let newfbp = malloc 1 (8 * (mp.nrgrp + 1)) in
    let strip = malloc 2 (8 * mp.grpsz) in
    let group = malloc 3 (mp.grpsz * blksz mp) in
    let arrays = if_any newgrp ++ if_any newfbp in
    if leb int_limit (blksz mp)
    then fault
    else if (newgrp == 0) || (newfbp == 0)
    then done (record { got = arrays; freed = arrays; value = (enomem, mp) })
    else if (strip == 0) || (group == 0)
    then done (record {
      got = arrays ++ (if_any strip ++ if_any group);
      freed = if_any strip ++ (if_any group ++ arrays);
      value = (enomem, mp);
    })
    else if ltb (sz mp + mp.grpsz) int_limit && ltb ((mp.grpsz - 1) * blksz mp) int_limit
    then done (record {
      got = newgrp ∷ newfbp ∷ strip ∷ group ∷ [];
      freed = mp.grp ∷ mp.fbp ∷ [];
      value = (ok, expanded mp newgrp newfbp strip group);
    })
    else fault

pub create :
    (malloc : ℕ → ℕ → ℕ) → (index : ℕ → ℕ) → (grpsz elemsz : ℕ) → Run (Outcome (ℕ × Mempool))
unfolding expand
create malloc index grpsz elemsz =
    let self = malloc 0 112 in
    let fbp = malloc 1 8 in
    let grp = malloc 2 8 in
    let mp : Mempool = record {
      self = self;
      grp = grp;
      grps = λ _. 0;
      grpsz = grpsz;
      nrgrp = 0;
      fbp = fbp;
      strips = λ _. 0;
      fbps = λ _ _. 0;
      index = index;
      esz = elemsz;
      fbi = 0;
    } in
    if not (ltb 0 grpsz && ltb 0 elemsz)
    then fault
    else if self == 0
    then done (record { got = []; freed = []; value = (0, mp) })
    else if fbp == 0
    then done (record { got = self ∷ []; freed = self ∷ []; value = (0, mp) })
    else if grp == 0
    then done (record { got = self ∷ fbp ∷ []; freed = fbp ∷ self ∷ []; value = (0, mp) })
    else expand (λ k n. malloc (3 + k) n) mp >>= λ o.
        let got = self ∷ fbp ∷ grp ∷ o.got in
        let mp' = o.value.1 in
        if is_ok (o.value.0)
        then done (record { got = got; freed = o.freed; value = (self, mp') })
        else done (record {
          got = got;
          freed = o.freed ++ (mp'.grp ∷ mp'.fbp ∷ self ∷ []);
          value = (0, mp');
        })

-- the loop of `ymempool_destroy` before the group `i`, with `n` groups left
pub groups : (strips grps : ℕ → ℕ) → ℕ → ℕ → List ℕ
groups strips grps i zero = []
groups strips grps i (suc n) = strips i ∷ grps i ∷ groups strips grps (suc i) n

-- what `ymempool_destroy` gives back
pub destroy : Mempool → List ℕ
unfolding groups
destroy mp = groups mp.strips mp.grps 0 mp.nrgrp ++ (mp.fbp ∷ mp.grp ∷ mp.self ∷ [])

-- the rest of `ymempool_get` once there is a free block
unfoldable pub take_block : Mempool → Run (ℕ × Mempool)
unfolding fbpblk
take_block mp = fbpblk mp mp.fbi >>= λ b.
    if mp.index b == mp.fbi then done (b + 8, record mp { fbi = mp.fbi + 1 }) else fault

pub get : (ℕ → ℕ → ℕ) → Mempool → Run (Outcome (ℕ × Mempool))
unfolding expand take_block
get malloc mp =
    if leb (sz mp) mp.fbi
    then (expand malloc mp >>= λ o.
        if is_ok (o.value.0)
        then (take_block (o.value.1) >>= λ r.
            done (record { got = o.got; freed = o.freed; value = r }))
        else done (record { got = o.got; freed = o.freed; value = (0, o.value.1) }))
    else (take_block mp >>= λ r. done (record { got = []; freed = []; value = r }))

pub put : Mempool → ℕ → Run Mempool
unfolding fbpblk setfbp need_shrink shrink
put mp block =
    let b = block - 8 in
    if ltb 0 mp.fbi && ltb (mp.index b) mp.fbi
    then (let mp1 = record mp { fbi = mp.fbi - 1 } in
        fbpblk mp1 mp1.fbi >>= λ ub.
        let ti = mp1.index b in
        setfbp mp1 (mp1.index ub) b >>= λ mp2. setfbp mp2 ti ub >>= λ mp3.
        need_shrink mp3 >>= λ too_large. done (if too_large then shrink mp3 1 else mp3))
    else fault

-- `ymempool_shrink` and `ymempool_stop_shrink`: -1, and -EINVAL
abbrev pub stop_shrink : Mempool → Status
stop_shrink mp = einval
