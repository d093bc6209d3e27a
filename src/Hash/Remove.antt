-- ===== src/Hash/Remove.antt =====
-- src/hash.c: `yhash_remove2` and `yhash_remove`.
use ylib.Base.{
  ℕ, ◌≤◌, ◌≡◌, ◌⊎◌, ◌∙◌, sym, ap, refl, Bool, true, false, Option, none, some, [], ◌∷◌,
  if◌then◌else◌, Bool-cases, inl, inr,
}
use ylib.Hashl
use ylib.Hashl.{Node, Hashl}
use ylib.Hashl.Table.{IsHash, Option-cases}
use ylib.Hashl.Remove.{
  remove-absent, remove-found, removed-mapbits, removed-IsTable, removed-get, absent-get,
}
use ylib.Hash.{Hash, Freed, shrink_map, get, remove2, finish_remove, nothing_freed}
use ylib.Hash.Lookup.{IsValid, shrink_map-IsSame, get-value_of, value_of}

module _ {K : Type 0} (hfunc : K → ℕ) (keq : K → K → Bool) where
  -- How `yhash_remove2` ends: the hash finds nothing for the keys that equal this key, and what it found
  -- before for the others. It says whether there was a value for the key, which it
  -- writes to `value`, if that is given, and else gives to `vfree`.
  abbrev pub IsRemoved : Hash K → K → Bool → Bool × Hash K × Freed K × Option ℕ → Type 0
  IsRemoved hash key wants_value (found, hash', freed, value) =
      IsValid hfunc keq hash'
      × ((k : K) → get hfunc keq hash' k ≡ (if keq key k then none else get hfunc keq hash k))
      × (((found ≡ false) × (get hfunc keq hash key ≡ none) × (freed.nodes ≡ []))
          ⊎ ((found ≡ true)
              × ((old : ℕ) × (get hfunc keq hash key ≡ some old)
                  × (value ≡ (if wants_value then some old else none))
                  × (freed.values ≡ (if wants_value then [] else old ∷ [])))))

  module _ (x : IsHash hfunc keq) (malloc : ℕ → Bool) (hash : Hash K) (key : K)
      (wants_value : Bool) where
    removed-value :
        (h : Hashl K)
        → ((k : K)
            → Hashl.get hfunc keq h k ≡ (if keq key k then none else Hashl.get hfunc keq hash.h k))
        → (k : K)
        → get hfunc keq (record hash { h = h }) k
          ≡ (if keq key k then none else get hfunc keq hash k)
    removed-value h g k =
        let start = get-value_of hfunc keq x (record hash { h = h }) k in
        let was = get-value_of hfunc keq x hash k in
        elim (Bool-cases (keq key k)) [
          | inl e ↦ start ∙ rw (g k, e) refl
          | inr e ↦ start ∙ rw (g k, e) (sym was)
        ]

    absent-values :
        Hashl.get hfunc keq hash.h key ≡ none
        → (k : K) → get hfunc keq hash k ≡ (if keq key k then none else get hfunc keq hash k)
    absent-values e k = removed-value hash.h (absent-get hfunc keq x hash.h key e) k

    remove2-absent :
        Hashl.get hfunc keq hash.h key ≡ none
        → remove2 hfunc keq malloc hash key wants_value ≡ (false, hash, nothing_freed, none)
    unfolding remove2 finish_remove
    remove2-absent e =
        ap (finish_remove malloc hash wants_value) (remove-absent hfunc keq hash.h key e)

    remove2-found :
        (n : Node K)
        → Hashl.get hfunc keq hash.h key ≡ some n
        → remove2 hfunc keq malloc hash key wants_value ≡ (
          true,
          record hash { h = shrink_map malloc (Hashl.node_remove hfunc keq hash.h n.at) },
          record {
            keys = n.key ∷ [];
            values = if wants_value then [] else hash.v n.at ∷ [];
            nodes = n.at ∷ [];
          },
          if wants_value then some (hash.v n.at) else none,
        )
    unfolding remove2 finish_remove
    remove2-found n e =
        ap (finish_remove malloc hash wants_value) (remove-found hfunc keq hash.h key n e)

    -- `yhash_remove2` of a valid hash leaves a valid hash, and ends as `IsRemoved` says, whether the allocator grants
    -- a smaller map or not.
    pub remove2-IsRemoved :
        IsValid hfunc keq hash
        → IsRemoved hash key wants_value (remove2 hfunc keq malloc hash key wants_value)
    remove2-IsRemoved v = elim (Option-cases (Hashl.get hfunc keq hash.h key)) [
      | inl e ↦ rw (remove2-absent e) (
        v,
        absent-values e,
        inl (refl, get-value_of hfunc keq x hash key ∙ ap (value_of hfunc keq x hash.v) e, refl),
      )
      | inr (n, e) ↦
          let removed = Hashl.node_remove hfunc keq hash.h n.at in
          let few : removed.mapbits ≤ 30 = rw (removed-mapbits hfunc keq hash.h n.at) v.bits in
          let (t, b, g, _) =
            shrink_map-IsSame hfunc keq x malloc removed
              (removed-IsTable hfunc keq x hash.h key n v.table e) few in
          let gone = removed-get hfunc keq x hash.h key n v.table e in
          rw (remove2-found n e) (
            record { table = t; bits = b },
            removed-value (shrink_map malloc removed) (λ k. g k ∙ gone k),
            inr (
              refl,
              (
                hash.v n.at,
                get-value_of hfunc keq x hash key ∙ ap (value_of hfunc keq x hash.v) e,
                refl,
                refl,
              ),
            ),
          )
    ]
