-- ===== src/Hashl.antt =====
-- src/hashl.c and src/yhashl.h: hash tables whose nodes the caller provides. A bucket is the list of
-- the nodes whose links it holds. The type of keys, the hash function and the equality of keys (true where the
-- C function returns 0) are parameters.
pub mod Table
pub mod Rehash
pub mod Remap
pub mod Remove
pub mod Replace
pub mod Set
pub mod Numbers
mod Tests
use ylib.Base.{
  ℕ, zero, suc, ◌+◌, ◌-◌, ◌*◌, ◌/◌, ◌%◌, ◌^◌, Bool, true, false, ◌&&◌, ◌||◌, Option, none, some,
  List, [], ◌∷◌, ◌++◌, ltb, ◌==◌, if◌then◌else◌, u32_mod, Status, ok, enomem, einval,
}

-- `struct yhashl_node`, at the address `at`
pub record Node (K : Type 0) : Type 0 where
  pub at : ℕ
  pub key : K
  pub hv32 : ℕ

-- a node out of the table, where its key is a pointer that may be NULL
pub record Loose (K : Type 0) : Type 0 where
  pub at : ℕ
  pub key : Option K
  pub hv32 : ℕ

-- `struct yhashl`, without the two functions
pub record Hashl (K : Type 0) : Type 0 where
  pub map : ℕ → List (Node K)
  pub mapbits : ℕ
  pub sz : ℕ

-- MAX_HBITS, MIN_HBITS and DEFAULT_HBITS
abbrev pub max_hbits : ℕ
max_hbits = 32

abbrev pub min_hbits : ℕ
min_hbits = 4

abbrev pub default_hbits : ℕ
default_hbits = 8

-- the functions of a table whose keys are pointers or numbers
abbrev pub hf_default_ptr : ℕ → ℕ
hf_default_ptr k = k % u32_mod

abbrev pub keq_default_ptr : ℕ → ℕ → Bool
keq_default_ptr k0 k1 = k0 == k1

unfoldable pub hv__ : ℕ → ℕ → ℕ
hv__ mapbits hv32 = hv32 / 2 ^ (32 - mapbits)

-- the buckets of `bits` bits: past 31 the shift is not defined, and 0 stands for what it gives
abbrev pub buckets : ℕ → ℕ
buckets bits = 2 ^ bits % u32_mod

-- the number of bits that `yhashl_hremap` takes
abbrev pub clamp : ℕ → ℕ
clamp bits0 =
    let bits = if ltb bits0 min_hbits then min_hbits else bits0 in
    if ltb max_hbits bits then max_hbits else bits

module _ {K : Type 0} where
  -- `yhashl_node_init`
  abbrev pub node_init : Node K → Loose K
  node_init n = record { at = n.at; key = none; hv32 = 0 }

  abbrev pub hv_ : Hashl K → ℕ → ℕ
  hv_ h hv32 = hv__ h.mapbits hv32

  abbrev pub hv : Hashl K → Node K → ℕ
  hv h n = hv_ h n.hv32

  abbrev pub hmapsz : Hashl K → ℕ
  hmapsz h = buckets h.mapbits

  -- the links of a bucket without the one at this address
  unfoldable pub remove_link : ℕ → List (Node K) → List (Node K)
  remove_link at [] = []
  remove_link at (n ∷ ns) = if n.at == at then remove_link at ns else n ∷ remove_link at ns

  -- the links of a bucket with another node in the place of the one at this address
  pub replace_link : ℕ → Node K → List (Node K) → List (Node K)
  replace_link at anew [] = []
  replace_link at anew (n ∷ ns) = (if n.at == at then anew else n) ∷ replace_link at anew ns

  abbrev pub set_bucket : (ℕ → List (Node K)) → ℕ → List (Node K) → ℕ → List (Node K)
  set_bucket map i ns j = if j == i then ns else map j

  -- the inner loop of `yhashl_hremap`
  unfoldable pub reassign : ℕ → List (Node K) → (ℕ → List (Node K)) → ℕ → List (Node K)
  reassign bits [] map = map
  reassign bits (n ∷ ns) map =
      let i = hv__ bits n.hv32 in reassign bits ns (set_bucket map i (map i ++ (n ∷ [])))

  -- the outer loop before the bucket `i`, with `left` buckets to go
  unfoldable pub reassign_all :
      ℕ → (ℕ → List (Node K)) → ℕ → ℕ → (ℕ → List (Node K)) → ℕ → List (Node K)
  unfolding reassign
  reassign_all bits oldmap i zero map = map
  reassign_all bits oldmap i (suc left) map =
      reassign_all bits oldmap (suc i) left (reassign bits (oldmap i) map)

  -- `malloc n` tells whether the allocator grants n bytes
  unfoldable pub hremap : (ℕ → Bool) → Hashl K → ℕ → Status × Hashl K
  unfolding reassign_all
  hremap malloc h bits0 =
      let bits = clamp bits0 in
      if h.mapbits == bits
      then (ok, h)
      else if malloc (16 * buckets bits)
      then (ok, record h { map = reassign_all bits h.map 0 (hmapsz h) (λ _. []); mapbits = bits })
      else (enomem, h)

  -- the table before it is the one that is written to
  unfoldable pub init2 : (ℕ → Bool) → Hashl K → ℕ → Status × Hashl K
  init2 malloc h initbits =
      if ltb initbits min_hbits || ltb max_hbits initbits
      then (einval, h)
      else (let h' = record h { mapbits = initbits; sz = 0 } in
          if malloc (16 * buckets initbits)
          then (ok, record h' { map = λ _. [] })
          else (enomem, h'))

  abbrev pub init : (ℕ → Bool) → Hashl K → Status × Hashl K
  init malloc h = init2 malloc h default_hbits

  -- what `yhashl_foreach` visits, from the bucket `i` on, with `left` buckets to go
  unfoldable pub visit : (ℕ → List (Node K)) → ℕ → ℕ → List (Node K)
  visit map i zero = []
  visit map i (suc left) = map i ++ visit map (suc i) left

  abbrev pub foreach : Hashl K → List (Node K)
  foreach h = visit h.map 0 (hmapsz h)

  module _ (hfunc : K → ℕ) (keq : K → K → Bool) where
    -- does the loop of `yhashl_get` stop at the node?
    abbrev pub is_match : ℕ → K → Node K → Bool
    is_match hv32 key n = (n.hv32 == hv32) && keq key n.key

    unfoldable pub find : ℕ → K → List (Node K) → Option (Node K)
    find hv32 key [] = none
    find hv32 key (n ∷ ns) =
        let rest = find hv32 key ns in if is_match hv32 key n then some n else rest

    unfoldable pub get : Hashl K → K → Option (Node K)
    unfolding find
    get h key = find (hfunc key) key (h.map (hv_ h (hfunc key)))

    -- the table, the fields that it writes to the node at this address, and the node that it replaces
    unfoldable pub set : Hashl K → K → (nnew : ℕ) → Hashl K × Node K × Option (Loose K)
    unfolding get replace_link
    set h key nnew = elim (get h key) [
      | none ↦
          let n : Node K = record { at = nnew; key = key; hv32 = hfunc key } in
          let i = hv h n in
          (record h { map = set_bucket h.map i (n ∷ h.map i); sz = (h.sz + 1) % u32_mod }, n, none)
      | some n ↦
          let n' = record n { at = nnew } in
          (record h { map = λ i. replace_link n.at n' (h.map i) }, n', some (node_init n))
    ]

    unfoldable pub node_remove : Hashl K → ℕ → Hashl K
    unfolding remove_link
    node_remove h n = record h {
      map = λ i. remove_link n (h.map i);
      sz = (h.sz + u32_mod - 1) % u32_mod;
    }

    unfoldable pub remove : Hashl K → K → Hashl K × Option (Node K)
    unfolding get node_remove
    remove h key = elim (get h key) [ none ↦ (h, none) | some n ↦ (node_remove h n.at, some n) ]
