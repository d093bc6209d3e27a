-- ===== src/Hashl/Tests.antt =====
-- src/hashl.c: a table of numbers with one node.
use ylib.Base.{ℕ, inl, inr, true, arith}
use ylib.Hashl.{Hashl, hf_default_ptr, keq_default_ptr, set, hremap}
use ylib.Hashl.Numbers.{numbers-IsHash, empty_table, empty_table-IsTable}
use ylib.Hashl.Set.{IsNew, IsSetIn, set-IsSetIn}
use ylib.Hashl.Rehash.{IsRemapped, hremap-IsRemapped}

abbrev blank : Hashl ℕ
blank = empty_table hf_default_ptr keq_default_ptr 4

-- the key 7, in the node at 100
abbrev seven : Hashl ℕ
seven = (set hf_default_ptr keq_default_ptr blank 7 100).0

seven_start :
    IsSetIn hf_default_ptr keq_default_ptr numbers-IsHash blank 7 100
      (set hf_default_ptr keq_default_ptr blank 7 100)
seven_start =
    set-IsSetIn hf_default_ptr keq_default_ptr numbers-IsHash blank 7 100
      (empty_table-IsTable hf_default_ptr keq_default_ptr 4 (omega arith) (omega arith))
      (λ i n m. absurd m)

seven-IsNew : IsNew hf_default_ptr keq_default_ptr numbers-IsHash seven 7 200
seven-IsNew i n m = elim (seven_start.4 i n m) [
  | inl e ↦ λ f. absurd (omega arith)
  | inr k ↦ absurd k
]

set-IsSetIn_example :
    IsSetIn hf_default_ptr keq_default_ptr numbers-IsHash seven 7 200
      (set hf_default_ptr keq_default_ptr seven 7 200)
set-IsSetIn_example =
    set-IsSetIn hf_default_ptr keq_default_ptr numbers-IsHash seven 7 200 seven_start.0 seven-IsNew

hremap-IsRemapped_example :
    IsRemapped hf_default_ptr keq_default_ptr seven 6 (hremap (λ _. true) seven 6)
hremap-IsRemapped_example =
    hremap-IsRemapped hf_default_ptr keq_default_ptr (λ _. true) seven 6 numbers-IsHash
      seven_start.0 (omega arith)
