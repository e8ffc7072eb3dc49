-- ===== src/Executor/Precompiles/Gas.antt =====
-- The gas of the precompiled contracts, and the table that finds them.
use rt_evm.Common.{
  ℕ, ◌/◌, ◌≤◌, ◌<◌, ◌≡◌, ◌≢◌, ◌⊎◌, inl, inr, refl, sym, ap, subst, arith, Bytes, H160, Option, none,
  some, [], ◌∷◌, length, to_be, ltb, le→ltb, ◌==◌, if◌then◌else◌, not, map_option,
}
use rt_evm.Common.Outcome.{
  Outcome, ok, bad_length, exec_failed, bad_signature, verify_failed, or_err, reject_if, ◌>>=◌,
  ◌>>◌, >>=-eq-ok, >>-eq-ok, ok-injective,
}
use rt_evm.Common.Map.{lookup, lookup-insert}
use rt_evm.Model.Rlp.{Externals}
use rt_evm.Executor.Precompiles.Base.{Returned, charge, charge-le, Hashers, Integers, Curve}
use rt_evm.Executor.Precompiles.Identity
use rt_evm.Executor.Precompiles.Sha256
use rt_evm.Executor.Precompiles.Ripemd160
use rt_evm.Executor.Precompiles.ModExp
use rt_evm.Executor.Precompiles.Bn128
use rt_evm.Executor.Precompiles.EcRecover
use rt_evm.Executor.Precompiles.Blake2F
use rt_evm.Executor.Precompiles.{
  Contract, ec_recover, sha256, ripemd160, identity, mod_exp, ec_add, ec_mul, ec_pairing, blake2_f,
  address_of, exec_of, gas_of, build_precompile_set,
}

-- Every result of a chain costs `gas`.
abbrev Costs : ℕ → Outcome Returned → Type 0
Costs gas m = (r : Returned) → m ≡ ok r → gas ≡ r.1

ok-Costs : (out : Bytes) (gas : ℕ) → Costs gas (ok (out, gas))
ok-Costs out gas r h = ap (λ x. x.1) (ok-injective h)

>>=-Costs :
    {A : Type 0} (gas : ℕ) (m : Outcome A) (k : A → Outcome Returned)
    → ((a : A) → Costs gas (k a))
    → Costs gas (m >>= k)
>>=-Costs gas m k h r e = let (a, _, last) = >>=-eq-ok m k e in h a r last

-- A contract that costs `gas` within every limit it is given, and that returns the same under any
-- limit that is enough.
abbrev Metered : Outcome ℕ → (Option ℕ → Outcome Returned) → Type 0
Metered gas f =
    ((limit : ℕ) (r : Returned) → f (some limit) ≡ ok r → (gas ≡ ok r.1) × (r.1 ≤ limit))
    × ((limit : ℕ) (r : Returned) → f none ≡ ok r → r.1 ≤ limit → f (some limit) ≡ ok r)

charge-Metered :
    (gas : ℕ) (k : Outcome Returned)
    → Costs gas k
    → Metered (ok gas) (λ limit. charge gas limit >> k)
charge-Metered gas k costs = (
  λ limit r h.
      let (paid, rest) = >>-eq-ok (charge gas (some limit)) k h in
      let same = costs r rest in
      (ap (λ (n : ℕ). ok n) same, subst (λ n. n ≤ limit) same (charge-le gas limit paid)),
  λ limit r h enough.
      let fits : gas ≤ limit = subst (λ n. n ≤ limit) (sym (costs r h)) enough in
      rw (le→ltb limit gas fits) h,
)

>>=-Metered :
    {A : Type 0} (gas : Outcome ℕ) (m : Outcome A) (f : A → Option ℕ → Outcome Returned)
    → ((a : A) → m ≡ ok a → Metered gas (f a))
    → Metered gas (λ limit. m >>= λ a. f a limit)
>>=-Metered gas m f h = (
  λ limit r e.
      let (a, first, rest) = >>=-eq-ok m (λ a. f a (some limit)) e in (h a first).0 limit r rest,
  λ limit r e enough.
      let (a, first, rest) = >>=-eq-ok m (λ a. f a none) e in
      rw first ((h a first).1 limit r rest enough),
)

module _ ⦃int : Integers⦄ where
  power-Costs : (n : ModExp.LargeNumber) (gas : ℕ) → Costs gas (ModExp.power n gas)
  power-Costs n gas = >>=-Costs gas (ModExp.calc n) _ (λ value.
      let res = int.to_digits value in
      >>=-Costs gas (reject_if (ltb n.m_size (length res)) exec_failed) _
        (λ _. ok-Costs (ModExp.padded n.m_size res) gas))

module _ ⦃ext : Externals⦄ ⦃hashers : Hashers⦄ ⦃int : Integers⦄ ⦃bn : Curve⦄ where
  point-Costs :
      (gas : ℕ) (p : bn.G1)
      → Costs gas (Bn128.point_bytes (bn.from_jacobian p) >>= λ res. ok (res, gas))
  point-Costs gas p =
      >>=-Costs gas (Bn128.point_bytes (bn.from_jacobian p)) _ (λ res. ok-Costs res gas)

  mod_exp-Metered : (input : Bytes) → Metered (ModExp.gas_cost input) (ModExp.exec_fn input)
  unfolding ModExp.exec_fn
  mod_exp-Metered input =
      let charged = λ (n : ModExp.LargeNumber) (gas : ℕ) (limit : Option ℕ).
        charge gas limit >> ModExp.power n gas in
      let priced = λ (n : ModExp.LargeNumber) (limit : Option ℕ).
        ModExp.gas_cost input >>= λ gas. charged n gas limit in
      >>=-Metered (ModExp.gas_cost input) (ModExp.parse input) priced (λ n parsed.
        >>=-Metered (ModExp.gas_cost input) (ModExp.gas_cost input) (charged n) (λ gas cost.
          subst (λ (m : Outcome ℕ). Metered m (charged n gas)) (sym cost)
            (charge-Metered gas (ModExp.power n gas) (power-Costs n gas))))

  blake2_f-Metered : (input : Bytes) → Metered (ok (Blake2F.gas_cost input)) (Blake2F.exec_fn input)
  unfolding Blake2F.exec_fn
  blake2_f-Metered input =
      let gas = Blake2F.gas_cost input in
      >>=-Metered (ok gas) (reject_if (not (length input == Blake2F.input_len)) bad_length)
        (λ _ limit. charge gas limit >> Blake2F.compressed input)
        (λ _ fits.
          charge-Metered gas (Blake2F.compressed input)
            (>>=-Costs gas (Blake2F.parse_f input) _ (λ f. ok-Costs _ gas)))

  exec_of-Metered :
      (c : Contract) (input : Bytes)
      → (input ≢ []) ⊎ (c ≢ ec_pairing)
      → Metered (gas_of c input) (exec_of c input)
  unfolding exec_of gas_of EcRecover.exec_fn Sha256.exec_fn Ripemd160.exec_fn Identity.exec_fn
      Bn128.add_exec_fn Bn128.mul_exec_fn Bn128.pairing_exec_fn
  exec_of-Metered ec_recover input h =
      let gas = EcRecover.min_gas in
      charge-Metered gas (EcRecover.recovered input) (
        >>=-Costs gas (or_err (EcRecover.recover_signature (EcRecover.window input)) bad_signature)
          _
          (λ sig. >>=-Costs gas (or_err (hashers.recoverable sig) verify_failed) _ (λ s.
            >>=-Costs gas (or_err (ext.recover (EcRecover.digest_of input) s) verify_failed) _
              (λ p. ok-Costs _ gas))))
  exec_of-Metered sha256 input h = charge-Metered (Sha256.gas_cost input) _ (ok-Costs _ _)
  exec_of-Metered ripemd160 input h = charge-Metered (Ripemd160.gas_cost input) _ (ok-Costs _ _)
  exec_of-Metered identity input h = charge-Metered (Identity.gas_cost input) _ (ok-Costs input _)
  exec_of-Metered mod_exp input h = mod_exp-Metered input
  exec_of-Metered ec_add input h = charge-Metered Bn128.add_min_gas (Bn128.sum_of input) (
      >>=-Costs Bn128.add_min_gas (Bn128.read_point input 0) _ (λ p.
        >>=-Costs Bn128.add_min_gas (Bn128.read_point input 64) _
          (λ q. point-Costs Bn128.add_min_gas (bn.add p q))))
  exec_of-Metered ec_mul input h = charge-Metered Bn128.mul_min_gas (Bn128.product_of input) (
      >>=-Costs Bn128.mul_min_gas (Bn128.read_point input 0) _ (λ p.
        >>=-Costs Bn128.mul_min_gas (Bn128.read_fr input 64) _
          (λ n. point-Costs Bn128.mul_min_gas (bn.mul p n))))
  exec_of-Metered ec_pairing [] (inl h) = absurd (h refl)
  exec_of-Metered ec_pairing [] (inr h) = absurd (h refl)
  exec_of-Metered ec_pairing (b ∷ bs) h =
      let gas = Bn128.pairing_gas_cost (b ∷ bs) in
      charge-Metered gas (Bn128.pairing_of (b ∷ bs)) (
        >>=-Costs gas (Bn128.pairs_from (b ∷ bs) 0 (length (b ∷ bs) / Bn128.group_args_len)) _
          (λ pairs. ok-Costs _ gas))
  exec_of-Metered blake2_f input h = blake2_f-Metered input

  -- A contract that returns under a limit has the gas that its `gas_cost` says, and stays within the
  -- limit; the pairing of no points is excepted.
  pub exec_of-within_limit :
      (c : Contract) (input : Bytes) (limit : ℕ) (r : Returned)
      → (input ≢ []) ⊎ (c ≢ ec_pairing)
      → exec_of c input (some limit) ≡ ok r
      → (gas_of c input ≡ ok r.1) × (r.1 ≤ limit)
  exec_of-within_limit c input limit r h = (exec_of-Metered c input h).0 limit r

  -- What a contract returns without a limit it returns under every limit that covers its gas; the
  -- pairing of no points is excepted.
  pub exec_of-enough_gas :
      (c : Contract) (input : Bytes) (limit : ℕ) (r : Returned)
      → (input ≢ []) ⊎ (c ≢ ec_pairing)
      → exec_of c input none ≡ ok r
      → r.1 ≤ limit
      → exec_of c input (some limit) ≡ ok r
  exec_of-enough_gas c input limit r h = (exec_of-Metered c input h).1 limit r

  -- The pairing of no points returns more gas than a limit below the minimum allows.
  pub exec_of-empty_pairing :
      (limit : ℕ)
      → limit < Bn128.pairing_min_gas
      → (r : Returned) × (exec_of ec_pairing [] (some limit) ≡ ok r) × (limit < r.1)
  unfolding exec_of Bn128.pairing_exec_fn
  exec_of-empty_pairing limit h = ((to_be 32 1, Bn128.pairing_min_gas), refl, h)

  -- The contract at an address, as the numbers are assigned.
  abbrev pub contract_at : H160 → Option Contract
  contract_at a =
      if a == 1
      then some ec_recover
      else if a == 2
      then some sha256
      else if a == 3
      then some ripemd160
      else if a == 4
      then some identity
      else if a == 5
      then some mod_exp
      else if a == 6
      then some ec_add
      else if a == 7
      then some ec_mul
      else if a == 8
      then some ec_pairing
      else if a == 9
      then some blake2_f
      else none

  -- The table finds at the addresses 1 to 9 the code of the contract that has the address, and
  -- nothing at any other.
  pub lookup-build_precompile_set :
      (a : H160) → lookup a build_precompile_set ≡ map_option exec_of (contract_at a)
  unfolding build_precompile_set address_of lookup
  lookup-build_precompile_set a = simp lookup-insert (ground arith)
