-- ===== src/Lru.antt =====
-- src/lru.c: a cache of the data used last, on top of src/hash.c. The nodes (`struct lnode`) are numbers, their addresses,
-- and the list of nodes is the sequence that Listl says that a circular list is, from its last link on,
-- which is the oldest node. The values of the hash are nodes. The functions that the user gives
-- and those of the hash are parameters, and no cache that is passed is NULL.

pub mod Keeps
pub mod Added
pub mod Put
pub mod Without
pub mod Get
mod Tests
use ylib.Base.{
  ℕ, ◌+◌, ◌-◌, ◌%◌, Bool, true, false, Option, none, some, List, [], ◌∷◌, ◌++◌, ltb, ◌==◌,
  if◌then◌else◌, u32_mod, Status, ok, enomem, einval,
}
use ylib.Hash
use ylib.Hash.{Hash, Freed, set_value, hash_set, remove2}

-- `struct ylru`, with the fields `key` and `data` of the node at each address
pub record Lru (K : Type 0) : Type 0 where
  pub items : List ℕ
  pub hash : Hash K
  pub sz : ℕ
  pub maxsz : ℕ
  pub key : ℕ → K
  pub node_data : ℕ → ℕ

-- what `ylru_get` returns: -EINVAL, 0 with the data, and 1
pub data Reply : Type 0 where
  bad_argument missed : Reply
  got : ℕ → Reply

-- the nodes that were freed had their data given to `dfree`
pub record PutOutcome (K : Type 0) : Type 0 where
  pub status : Status
  pub lru : Lru K
  pub freed : List ℕ

-- the nodes but this one
abbrev pub without : ℕ → List ℕ → List ℕ
without n [] = []
without n (x ∷ xs) = if x == n then xs else x ∷ without n xs

-- the field `key` of a new node, where `hash_set` writes it
abbrev pub set_key : {K : Type 0} → (ℕ → K) → ℕ → Option K → ℕ → K
set_key key n none m = key m
set_key key n (some k) m = if m == n then k else key m

abbrev pub data_size : Option (ℕ → ℕ) → ℕ → ℕ
data_size none d = 1
data_size (some dsize) d = dsize d

-- `lru_create`; the flag says whether there is memory
unfoldable pub lru_create :
    {K : Type 0}
    → (granted : Bool) → Hash K
    → (maxsz : ℕ) → (key : ℕ → K) → (node_data : ℕ → ℕ) → Option (Lru K)
lru_create granted hash maxsz key node_data =
    if granted
    then some (record {
      items = [];
      hash = hash;
      sz = 0;
      maxsz = if maxsz == 0 then u32_mod - 1 else maxsz;
      key = key;
      node_data = node_data;
    })
    else none

-- `ylru_create`; the flags say whether there is memory for the hash and for the cache
unfoldable pub create :
    {K : Type 0} → (hash_granted granted : Bool) → (ℕ → Bool) → Lru K → Option (Lru K)
unfolding lru_create
create hash_granted granted malloc l = elim (Hash.create hash_granted malloc l.hash) [
  | none ↦ none
  | some hash ↦ lru_create granted hash l.maxsz l.key l.node_data
]

-- the nodes that `ylru_destroy` frees
unfoldable pub destroy : {K : Type 0} → Lru K → List ℕ
destroy l = (Hash.destroy_nodes l.hash).values

-- what the hash gives to `vfree` are the nodes
unfoldable pub reset : {K : Type 0} → (ℕ → Bool) → Lru K → Lru K × List ℕ
reset malloc l =
    let (st, hash, freed) = Hash.reset malloc l.hash in
    (record l { items = []; hash = hash; sz = 0 }, freed.values)

module _ {K : Type 0} (hfunc : K → ℕ) (keq : K → K → Bool) (malloc : ℕ → Bool)
    (dsize : Option (ℕ → ℕ)) where
  -- the node leaves the list and the count, `lru->sz -= data_size(...)`
  abbrev pub unlink : Lru K → ℕ → List ℕ → Hash K → Lru K
  unlink l n items hash = record l {
    items = items;
    hash = hash;
    sz = (l.sz + u32_mod - data_size dsize (l.node_data n)) % u32_mod;
  }

  -- the loop of `ylru_put` over the nodes that are left, the oldest first; with the freed nodes
  unfoldable pub shrink_to : List ℕ → Lru K → (dsz : ℕ) → Lru K × List ℕ
  shrink_to [] l dsz = (l, [])
  shrink_to (n ∷ ns) l dsz =
      let (found, hash, freed, value) = remove2 hfunc keq malloc l.hash (l.key n) false in
      let rest = shrink_to ns (unlink l n ns hash) dsz in
      if ltb l.maxsz ((l.sz + dsz) % u32_mod) then (rest.0, freed.values ++ rest.1) else (l, [])

  -- `ylru_put`, when its node is at `n` and the one of the hash at `hn`. The result of `yhash_set3` is
  -- compared with -1, which it never is.
  unfoldable pub put : (K → Option K) → Lru K → K → (value n hn : ℕ) → PutOutcome K
  unfolding shrink_to
  put kcp l key value n hn =
      let dsz = data_size dsize value in
      let (l1, freed) = shrink_to l.items l dsz in
      let o = hash_set hfunc keq kcp malloc l1.hash key false n hn in
      if ltb l.maxsz dsz
      then record { status = einval; lru = l; freed = [] }
      else if n == 0
      then record { status = enomem; lru = l1; freed = freed }
      else record {
        status = ok;
        lru = record l1 {
          items = l1.items ++ (n ∷ []);
          hash = o.hash;
          sz = (l1.sz + dsz) % u32_mod;
          key = set_key l1.key n o.phkey;
          node_data = set_value l1.node_data n value;
        };
        freed = freed ++ o.freed.values;
      }

  -- the rest of `ylru_get` after `yhash_remove2`
  unfoldable pub finish_get :
      Option (K → ℕ) → Lru K → K → Bool × Hash K × Freed K × Option ℕ → Reply × Lru K
  finish_get dcreate l key (true, hash, freed, some n) =
      (got (l.node_data n), unlink l n (without n l.items) hash)
  finish_get none l key (_, hash, freed, _) = (missed, record l { hash = hash })
  finish_get (some create) l key (_, hash, freed, _) = (got (create key), record l { hash = hash })

  -- the flag says whether the pointer `data` is given
  unfoldable pub get : Option (K → ℕ) → Lru K → (wants_data : Bool) → K → Reply × Lru K
  unfolding finish_get
  get dcreate l wants_data key =
      if wants_data
      then finish_get dcreate l key (remove2 hfunc keq malloc l.hash key true)
      else (bad_argument, l)
