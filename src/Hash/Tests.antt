-- ===== src/Hash/Tests.antt =====
-- src/hash.c: a hash of numbers with one node.
use ylib.Base.{ℕ, refl, sym, true, false, some, arith}
use mathlib.Core.Option.{some-injective}
use ylib.Hashl.{hf_default_ptr, keq_default_ptr}
use ylib.Hashl.Numbers.{numbers-IsHash, empty_table, empty_table-IsTable}
use ylib.Hash.{Hash, hash_set, remove2}
use ylib.Hash.Lookup.{IsValid}
use ylib.Hash.Finish.{IsSetTo}
use ylib.Hash.Set.{hash_set-IsSetTo}
use ylib.Hash.Remove.{IsRemoved, remove2-IsRemoved}

abbrev blank : Hash ℕ
blank = record { h = empty_table hf_default_ptr keq_default_ptr 4; v = λ _. 0 }

blank-IsValid : IsValid hf_default_ptr keq_default_ptr blank
blank-IsValid = record {
  table = empty_table-IsTable hf_default_ptr keq_default_ptr 4 (omega arith) (omega arith);
  bits = omega arith;
}

hash_set-IsSetTo_example :
    IsSetTo hf_default_ptr keq_default_ptr some blank 7 false 70 100
      (hash_set hf_default_ptr keq_default_ptr some (λ _. true) blank 7 false 70 100)
hash_set-IsSetTo_example =
    hash_set-IsSetTo hf_default_ptr keq_default_ptr numbers-IsHash some (λ _. true) blank 7 false 70
      100 blank-IsValid (omega arith) (λ i n m. absurd m)
      (λ c e. rw (sym (some-injective 7 c e)) refl)

-- the hash with a value for 7
abbrev seven : Hash ℕ
seven = (hash_set hf_default_ptr keq_default_ptr some (λ _. true) blank 7 false 70 100).hash

remove2-IsRemoved_example :
    IsRemoved hf_default_ptr keq_default_ptr seven 7 true
      (remove2 hf_default_ptr keq_default_ptr (λ _. true) seven 7 true)
remove2-IsRemoved_example =
    remove2-IsRemoved hf_default_ptr keq_default_ptr numbers-IsHash (λ _. true) seven 7 true
      (hash_set-IsSetTo hf_default_ptr keq_default_ptr numbers-IsHash some (λ _. true) blank 7 false
        70 100 blank-IsValid (omega arith) (λ i n m. absurd m)
        (λ c e. rw (sym (some-injective 7 c e)) refl)).0
