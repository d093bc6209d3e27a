-- ===== src/Hash.antt =====
-- src/hash.c: hash tables that own their nodes, on top of src/hashl.c. The type of keys, the
-- functions of keys and what the allocator answers are parameters; `kcp` is none where the C function fails.
-- Values are numbers. What is given to `kfree`, `vfree` and `yfree` is part of the results.
pub mod Lookup
pub mod Finish
pub mod Remove
pub mod Set
mod Tests
use ylib.Base.{
  ℕ, zero, suc, ◌+◌, ◌-◌, ◌*◌, ◌/◌, ◌%◌, Bool, true, false, ◌&&◌, Option, none, some, List, [], ◌∷◌,
  ltb, ◌==◌, if◌then◌else◌, map, u32_mod, Status, ok, enomem, is_ok, take,
}
use ylib.Hashl
use ylib.Hashl.{Node, Loose, Hashl, hmapsz, hremap, min_hbits}

-- `struct yhash`: the table, and the field `v` of the node at each address
pub record Hash (K : Type 0) : Type 0 where
  pub h : Hashl K
  pub v : ℕ → ℕ

-- what an operation gave to `kfree`, `vfree` and `yfree`
pub record Freed (K : Type 0) : Type 0 where
  pub keys : List K
  pub values : List ℕ
  pub nodes : List ℕ

-- what `hash_set` returns: -ENOMEM, 0 and 1
pub data SetStatus : Type 0 where
  set_enomem replaced added : SetStatus

-- the result of `hash_set`, with what it writes to `phkey` and `oldv`
pub record SetOutcome (K : Type 0) : Type 0 where
  pub status : SetStatus
  pub hash : Hash K
  pub freed : Freed K
  pub phkey : Option K
  pub oldv : Option ℕ

abbrev pub set_value : (ℕ → ℕ) → ℕ → ℕ → ℕ → ℕ
set_value v n x m = if m == n then x else v m

module _ {K : Type 0} where
  abbrev pub nothing_freed : Freed K
  nothing_freed = record { keys = []; values = []; nodes = [] }

  -- the first step of `hash_set`
  unfoldable pub expand_map : (ℕ → Bool) → Hashl K → Hashl K
  expand_map malloc h =
      if ltb (hmapsz h * 2 % u32_mod) h.sz then (hremap malloc h (h.mapbits + 1)).1 else h

  -- the last step of `yhash_remove2`
  unfoldable pub shrink_map : (ℕ → Bool) → Hashl K → Hashl K
  shrink_map malloc h = if ltb h.sz (hmapsz h / 2) then (hremap malloc h (h.mapbits - 1)).1 else h

  -- `hash_create_internal`; the flag says whether there is memory for the hash itself
  unfoldable pub create : (granted : Bool) → (ℕ → Bool) → Hash K → Option (Hash K)
  create granted malloc blank =
      if granted
      then (let (st, h) = Hashl.init2 malloc blank.h min_hbits in
          if is_ok st then some (record blank { h = h }) else none)
      else none

  -- the nodes that `hdestroy_nodes` visits are all given back
  unfoldable pub destroy_nodes : Hash K → Freed K
  destroy_nodes hash =
      let ns = Hashl.foreach hash.h in
      record {
        keys = map (λ (n : Node K). n.key) ns;
        values = map (λ (n : Node K). hash.v n.at) ns;
        nodes = map (λ (n : Node K). n.at) ns;
      }

  unfoldable pub reset : (ℕ → Bool) → Hash K → Status × Hash K × Freed K
  unfolding destroy_nodes
  reset malloc hash =
      let (st, h) = Hashl.init malloc hash.h in (st, record hash { h = h }, destroy_nodes hash)

  -- the loop of `yhash_keys` over the nodes that are left, with `room` places left in the buffer
  unfoldable pub keys_from : List (Node K) → (room : ℕ) → List K
  keys_from [] room = []
  keys_from (n ∷ ns) zero = []
  keys_from (n ∷ ns) (suc room) = n.key ∷ keys_from ns room

  unfoldable pub keys : Hash K → (bufsz : ℕ) → List K
  unfolding keys_from
  keys hash bufsz = keys_from (Hashl.foreach hash.h) bufsz

  -- the rest of `hash_set` after `yhashl_set`
  unfoldable pub finish_set :
      Hash K → K → (wants_old : Bool) → Node K → Option (Loose K) → SetOutcome K
  finish_set hash key_copied wants_old hn none = record {
    status = added;
    hash = hash;
    freed = nothing_freed;
    phkey = some hn.key;
    oldv = none;
  }
  finish_set hash key_copied wants_old hn (some n) =
      let old = hash.v n.at in
      record {
        status = replaced;
        hash = hash;
        freed = record {
          keys = key_copied ∷ [];
          values = if wants_old then [] else old ∷ [];
          nodes = n.at ∷ [];
        };
        phkey = some hn.key;
        oldv = if wants_old then some old else none;
      }

  -- the rest of `yhash_remove2` after `yhashl_remove`
  unfoldable pub finish_remove :
      (ℕ → Bool)
      → Hash K
      → (wants_value : Bool) → Hashl K × Option (Node K)
      → Bool × Hash K × Freed K × Option ℕ
  unfolding shrink_map
  finish_remove malloc hash wants_value (h, none) =
      (false, record hash { h = h }, nothing_freed, none)
  finish_remove malloc hash wants_value (h, some n) =
      let value = hash.v n.at in
      (
        true,
        record hash { h = shrink_map malloc h },
        record {
          keys = n.key ∷ [];
          values = if wants_value then [] else value ∷ [];
          nodes = n.at ∷ [];
        },
        if wants_value then some value else none,
      )

  module _ (hfunc : K → ℕ) (keq : K → K → Bool) where
    unfoldable pub get : Hash K → K → Option ℕ
    get hash key = elim (Hashl.get hfunc keq hash.h key) [
      | none ↦ none
      | some n ↦ some (hash.v n.at)
    ]

    -- `hash_set`, when the node is at `hn`; NULL is 0. The flag says whether `oldv` is given.
    unfoldable pub hash_set :
        (K → Option K)
        → (ℕ → Bool)
        → Hash K
        → K
        → (wants_old : Bool) → (value hn : ℕ) → SetOutcome K
    unfolding expand_map finish_set
    hash_set kcp malloc hash0 key wants_old value hn =
        let hash = record hash0 { h = expand_map malloc hash0.h } in
        if hn == 0
        then record {
          status = set_enomem;
          hash = hash;
          freed = nothing_freed;
          phkey = none;
          oldv = none;
        }
        else elim (kcp key) [
          | none ↦ record {
            status = set_enomem;
            hash = hash;
            freed = record nothing_freed { nodes = hn ∷ [] };
            phkey = none;
            oldv = none;
          }
          | some key_copied ↦
              let (h, n, hln) = Hashl.set hfunc keq hash.h key_copied hn in
              finish_set (record { h = h; v = set_value hash.v hn value }) key_copied wants_old n
                hln
        ]

    -- `yhash_remove2`: whether there was a node for the key; with what it writes to `value`
    unfoldable pub remove2 :
        (ℕ → Bool) → Hash K → K → (wants_value : Bool) → Bool × Hash K × Freed K × Option ℕ
    unfolding finish_remove
    remove2 malloc hash key wants_value =
        finish_remove malloc hash wants_value (Hashl.remove hfunc keq hash.h key)
