-- ===== src/Model/Transaction/Gas.antt =====
-- Gas figures and accessors of a transaction.
use rt_evm.Common.{
  ℕ, suc, ◌+◌, ◌*◌, ◌≤◌, ◌<◌, ◌≡◌, refl, min, u64_mod, u256_max, Bytes, [], ◌∷◌, ◌==◌,
  if◌then◌else◌, length, arith,
}
use rt_evm.Model.Rlp.{TransactionAction}
use rt_evm.Model.Transaction.{
  UnsignedTransaction, legacy, eip2930, eip1559, add_gas, data_gas_cost, base_of, base_gas,
  may_cost, gas_price, gas_limit, value_of, set_action, to, get_to, action_of, data_of, nonce,
  access_list, type_of,
}

pub zero_bytes : Bytes → ℕ
zero_bytes [] = 0
zero_bytes (b ∷ bs) = if b == 0 then suc (zero_bytes bs) else zero_bytes bs

pub nonzero_bytes : Bytes → ℕ
nonzero_bytes [] = 0
nonzero_bytes (b ∷ bs) = if b == 0 then nonzero_bytes bs else suc (nonzero_bytes bs)

add_gas-counts :
    (acc : ℕ) (bs : Bytes)
    → acc + 68 * length bs < u64_mod
    → add_gas acc bs ≡ acc + 4 * zero_bytes bs + 68 * nonzero_bytes bs
unfolding zero_bytes nonzero_bytes
add_gas-counts acc [] h = omega arith
add_gas-counts acc (b ∷ bs) h =
    ground (arith, add_gas-counts (acc + 4) bs, add_gas-counts (acc + 68) bs)

-- Call data costs 4 gas for each zero byte and 68 for each other one, while the dearest data of
-- that length fits a `u64`.
pub data_gas_cost-counts :
    (bs : Bytes)
    → 68 * length bs < u64_mod
    → data_gas_cost bs ≡ 4 * zero_bytes bs + 68 * nonzero_bytes bs
unfolding data_gas_cost
data_gas_cost-counts bs h = omega (arith, add_gas-counts 0 bs)

pub zero_bytes_add_nonzero_bytes : (bs : Bytes) → zero_bytes bs + nonzero_bytes bs ≡ length bs
unfolding zero_bytes nonzero_bytes
zero_bytes_add_nonzero_bytes [] = omega arith
zero_bytes_add_nonzero_bytes (b ∷ bs) = ground (arith, zero_bytes_add_nonzero_bytes bs)

-- The base gas of a transaction lies between the figure for its action and that figure with every
-- byte counted as nonzero, if the latter fits a `u64`.
pub base_gas_bounds :
    (t : UnsignedTransaction)
    → 53000 + 68 * length (data_of t) < u64_mod
    → (base_of (action_of t) + 4 * length (data_of t) ≤ base_gas t)
      × (base_gas t ≤ base_of (action_of t) + 68 * length (data_of t))
unfolding base_gas base_of
base_gas_bounds t h =
    ground (arith, data_gas_cost-counts (data_of t), zero_bytes_add_nonzero_bytes (data_of t))

-- The most that a transaction may cost is its gas price times its gas limit plus its value, cut
-- off at the largest `U256`.
pub may_cost-min :
    (t : UnsignedTransaction) → may_cost t ≡ min (gas_price t * gas_limit t + value_of t) u256_max
unfolding may_cost
may_cost-min t = ground arith

-- Setting the action changes the receiver to that of the action, and no other accessor.
pub set_action_frame :
    (a : TransactionAction) (t : UnsignedTransaction)
    → (to (set_action a t) ≡ get_to a)
      × (action_of (set_action a t) ≡ a)
      × (data_of (set_action a t) ≡ data_of t)
      × (gas_price (set_action a t) ≡ gas_price t)
      × (gas_limit (set_action a t) ≡ gas_limit t)
      × (nonce (set_action a t) ≡ nonce t)
      × (value_of (set_action a t) ≡ value_of t)
      × (access_list (set_action a t) ≡ access_list t)
      × (type_of (set_action a t) ≡ type_of t)
unfolding set_action to action_of data_of gas_price gas_limit nonce value_of access_list type_of
set_action_frame a (legacy t) = (refl, refl, refl, refl, refl, refl, refl, refl, refl)
set_action_frame a (eip2930 t) = (refl, refl, refl, refl, refl, refl, refl, refl, refl)
set_action_frame a (eip1559 t) = (refl, refl, refl, refl, refl, refl, refl, refl, refl)
