-- ===== src/Base/Run.antt =====
-- How a run of C code ends: with a value, with a fault (an access out of bounds, a write to a
-- constant, a use of freed memory, a failed assertion), or with the model's fuel used up.

pub data Run {ℓ} (V : Type ℓ) : Type ℓ where
  fault : Run V
  out_of_fuel : Run V
  done : V → Run V

infixl 5 ◌>>=◌
abbrev pub ◌>>=◌ {ℓ ι} : {V : Type ℓ} {W : Type ι} → Run V → (V → Run W) → Run W
fault >>= rest = fault
out_of_fuel >>= rest = out_of_fuel
done v >>= rest = rest v

-- The run ends with a value of which `Good` holds.
pub data Returns {ℓ κ} {V : Type ℓ} (Good : V → Type κ) : Run V → Type (ℓ ⊔ κ) where
  returns : {v : V} → Good v → Returns Good (done v)

-- a property of the value is exchanged for a weaker one
pub Returns-map {ℓ κ ι} :
    {V : Type ℓ} {Good : V → Type κ} {Fair : V → Type ι} {run : Run V}
    → Returns Good run
    → ((v : V) → Good v → Fair v)
    → Returns Fair run
Returns-map (returns good) weaken = returns (weaken _ good)

-- what follows is run on a value of which `Good` holds
pub Returns-bind {ℓ κ ι λ'} :
    {V : Type ℓ} {W : Type ι} {Good : V → Type κ} {Fair : W → Type λ'} {run : Run V}
    {rest : V → Run W}
    → Returns Good run
    → ((v : V) → Good v → Returns Fair (rest v))
    → Returns Fair (run >>= rest)
Returns-bind (returns good) after = after _ good
