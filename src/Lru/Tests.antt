-- ===== src/Lru/Tests.antt =====
-- src/lru.c: a cache of numbers that holds one of them.
use ylib.Base.{ℕ, Bool, ◌≡◌, ◌∙◌, refl, sym, true, none, some, [], arith}
use mathlib.Core.Option.{some-ne-none}
use ylib.Hashl
use ylib.Hashl.{hf_default_ptr, keq_default_ptr}
use ylib.Hashl.Numbers.{numbers-IsHash, empty_table, empty_table-IsTable}
use ylib.Hash.{get}
use ylib.Lru
use ylib.Lru.{Lru, PutOutcome, put, shrink_to, data_size}
use ylib.Lru.Keeps.{IsCache}
use ylib.Lru.Get.{IsTaken, get-IsTaken}
use ylib.Lru.Put.{IsPut, put-IsPut}

abbrev granted : ℕ → Bool
granted n = true

abbrev blank : Lru ℕ
blank = record {
  items = [];
  hash = record { h = empty_table hf_default_ptr keq_default_ptr 4; v = λ _. 0 };
  sz = 0;
  maxsz = 1;
  key = λ _. 0;
  node_data = λ _. 0;
}

blank-none : (k : ℕ) → get hf_default_ptr keq_default_ptr blank.hash k ≡ none
unfolding get Hashl.get Hashl.find
blank-none k = refl

blank-IsCache : IsCache hf_default_ptr keq_default_ptr none blank
blank-IsCache = record {
  hashed = record {
    table = empty_table-IsTable hf_default_ptr keq_default_ptr 4 (omega arith) (omega arith);
    bits = omega arith;
  };
  found = λ k n e. absurd (some-ne-none n (sym e ∙ blank-none k));
  kept = λ k n i. absurd i;
  distinct = tt;
  counted = refl;
  in_limit = omega arith;
  narrow = omega arith;
}

-- the data 70 for the key 7
abbrev seven : PutOutcome ℕ
seven = put hf_default_ptr keq_default_ptr granted none some blank 7 70 100 200

seven-IsPut : IsPut hf_default_ptr keq_default_ptr granted none blank 7 70 100 seven
unfolding shrink_to get
seven-IsPut =
    put-IsPut hf_default_ptr keq_default_ptr granted none numbers-IsHash some blank 7 7 70 100 200
      blank-IsCache (blank-none 7) (omega arith) refl refl (λ e. absurd (omega arith)) tt
      (λ i n m. absurd m) (omega arith)

get-IsTaken_example :
    IsTaken hf_default_ptr keq_default_ptr granted none none seven.lru 7
      (Lru.get hf_default_ptr keq_default_ptr granted none none seven.lru true 7)
get-IsTaken_example =
    get-IsTaken hf_default_ptr keq_default_ptr granted none numbers-IsHash none seven.lru 7
      seven-IsPut.0
