-- ===== src/Hashl/Numbers.antt =====
-- src/hashl.c: tables whose keys are numbers, with the functions that `yhashl_init` takes for NULL.
use ylib.Base.{Bool, ℕ, ◌≡◌, ◌<◌, ◌≤◌, ap, [], arith}
use ylib.Hashl.{Hashl, hf_default_ptr, keq_default_ptr, min_hbits}
use ylib.Hashl.Table.{IsHash, IsTable}

pub numbers-IsHash : IsHash hf_default_ptr keq_default_ptr
numbers-IsHash = record {
  same = λ k. ground arith;
  turned = λ k l e. ground (arith, e);
  joined = λ k l m e f. ground (arith, e, f);
  hashed = λ k l e. let same : k ≡ l = ground (arith, e) in ap hf_default_ptr same;
  narrow = λ k. omega arith;
}

module _ {K : Type 0} (hfunc : K → ℕ) (keq : K → K → Bool) where
  -- a table without nodes
  abbrev pub empty_table : ℕ → Hashl K
  empty_table bits = record { map = λ _. []; mapbits = bits; sz = 0 }

  pub empty_table-IsTable :
      (bits : ℕ) → min_hbits ≤ bits → bits < 32 → IsTable hfunc keq (empty_table bits)
  empty_table-IsTable bits lo hi = record {
    some_bits = lo;
    few_bits = hi;
    placed = λ i n m. absurd m;
    hashed = λ i n m. absurd m;
    unique = λ i j n n' m m'. absurd m;
    addressed = λ i j n n' m m'. absurd m;
  }
