-- ===== src/Examples/PrecompileRuns.antt =====
-- Runs of the precompiled contracts other than the compression and the modular powers: a copy and
-- an addition behind a handle, a signature, points and pairs.
use evm_executor_rs.Base.{
  ℕ, ◌+◌, ◌-◌, ◌≤◌, ◌≡◌, ◌≢◌, Bool-cases, ◌↔◌, ◌⊎◌, refl, inl, Bool, true, false, inr, none, some,
  [], ◌∷◌, ◌++◌, arith, leb, ok, err, panic, if◌then◌else◌,
}
use Prim.Native.String.{String}
use evm_executor_rs.Base.Bytes.{replicate, be_value}
use evm_executor_rs.Base.Bytes.Windows.{window}
use evm_executor_rs.External.Traits.{Bytes}
use evm_executor_rs.Precompile.Contract.{
  calculate_gas, PrecompileOutput, returned_bytes, exit_error, error, returned, out_of_gas,
}
use evm_executor_rs.Precompile.Simple.{data_copy}
use evm_executor_rs.Precompile.Sets.{
  PrecompileHandle, Call, add, get, is_precompile, berlin, scroll, execute,
  run_precompiled_contract,
}
use evm_executor_rs.Precompile.Sets.Addresses.{sets_at_one_to_nine}
use evm_executor_rs.Precompile.Sets.Panics.{panics_between}
use evm_executor_rs.Precompile.Sets.Refines.{scroll_refines}
use evm_executor_rs.Precompile.Ecrecover.{ecrecover_run}
use evm_executor_rs.Precompile.Ecrecover.Value.{IsSignature, ecrecover_run_value}
use evm_executor_rs.Precompile.Curve.{mul_run, resize, read_point, add_istanbul, add_run, pair_run}
use evm_executor_rs.Precompile.Curve.Points.{
  IsPoint, mul_run_value, point_at, add_run_value, add_run_swap,
}
use evm_executor_rs.Precompile.Curve.Pairing.{pairing_check, pair_run_value}
use evm_executor_rs.Examples.Crates.{crates, line, line_laws, ones_laws, are_bytes-IsByte}
use evm_executor_rs.Examples.Crates.{word}

-- A handle with an amount of gas, and a call of the contract that copies.
abbrev copying : PrecompileHandle
copying = record {
  State = ℕ;
  code_address = 4;
  input = 1 ∷ 2 ∷ 3 ∷ [];
  record_cost = λ n s. if leb n s then (ok tt, s - n) else (err (error out_of_gas), s);
}

abbrev copied : PrecompileOutput
copied = record { exit_status = returned; output = 1 ∷ 2 ∷ 3 ∷ [] }

scroll_refines_example :
    (other : Call copying PrecompileOutput) × (execute copying (berlin crates) ≡ some other)
    × (other 100 ≡ (ok copied, 82))
unfolding execute scroll get run_precompiled_contract add calculate_gas
scroll_refines_example =
    scroll_refines crates copying {call = run_precompiled_contract copying data_copy} 100 copied
      refl refl

sets_at_one_to_nine_example :
    ((is_precompile (scroll crates) 4 ≡ true) ↔ ((1 ≤ 4) × (4 ≤ 9)))
    × ((execute copying (scroll crates) ≡ none) ↔ (is_precompile (scroll crates) 4 ≡ false))
sets_at_one_to_nine_example = sets_at_one_to_nine crates copying (scroll crates) (inr refl)

-- The signature with the halves 1 and 2.
abbrev signed : Bytes
signed = word 9 ++ word 27 ++ word 1 ++ word 2

ecrecover_run_value_example :
    (IsSignature signed
      → crates.hashes.ecdsa_recover (word 1 ++ word 2 ++ 27 ∷ []) (word 9) ≡ none
      → ecrecover_run crates signed ≡ returned_bytes [])
    × ((key : Bytes)
        → IsSignature signed
        → crates.hashes.ecdsa_recover (word 1 ++ word 2 ++ 27 ∷ []) (word 9) ≡ some key
        → ecrecover_run crates signed ≡ returned_bytes (replicate 12 0 ++ replicate 20 1))
    × ((IsSignature signed → ⊥) → ecrecover_run crates signed ≡ returned_bytes [])
unfolding window be_value
ecrecover_run_value_example = ecrecover_run_value crates signed (are_bytes-IsByte signed refl)

signed-IsSignature : IsSignature signed
unfolding window be_value
signed-IsSignature = (inl refl, (omega arith, omega arith), (omega arith, omega arith))

-- Two points, the second one the point at infinity.
abbrev two_points : Bytes
two_points = word 3 ++ word 5 ++ word 0 ++ word 0

add_run_value_example :
    ((add_run line two_points ≡ panic)
      × ((point_at line two_points 0 ≡ none) ⊎ (point_at line two_points 64 ≡ none)))
    ⊎ ((p q : ℕ) × (out : Bytes) × (point_at line two_points 0 ≡ some p)
        × (point_at line two_points 64 ≡ some q)
        × (add_run line two_points ≡ returned_bytes out)
        × IsPoint line line.into_u256_bytes (line.from_jacobian (p + q)) out)
add_run_value_example = add_run_value line line_laws two_points

-- The point of 3 and 5, twice.
abbrev twice : Bytes
twice = word 3 ++ word 5 ++ word 2

mul_run_value_example :
    ((mul_run line twice ≡ panic) × (point_at line twice 0 ≡ none))
    ⊎ ((p : ℕ) × (r : ℕ) × (out : Bytes) × (point_at line twice 0 ≡ some p)
        × (line.fr_from_slice (window 32 twice 64) ≡ some r)
        × (mul_run line twice ≡ returned_bytes out)
        × IsPoint line line.fq_bytes (line.from_jacobian (line.g1_mul p r)) out)
mul_run_value_example = mul_run_value line line_laws twice

add_run_swap_example :
    add_run line (word 3 ++ word 5 ++ word 7 ++ word 1)
    ≡ add_run line (word 7 ++ word 1 ++ word 3 ++ word 5)
add_run_swap_example = add_run_swap line line_laws (word 3 ++ word 5) (word 7 ++ word 1) refl refl

-- One pair of points.
abbrev one_pair : Bytes
one_pair = word 3 ++ word 5 ++ word 0 ++ word 0 ++ word 0 ++ word 0

pair_run_value_example :
    ((b : Bool) × (pairing_check line (some 4) one_pair ≡ some b)
      × (pair_run line (some 4) one_pair
          ≡ returned_bytes (replicate 31 0 ++ (if b then 1 else 0) ∷ [])))
    ⊎ ((text : String) × (pairing_check line (some 4) one_pair ≡ none)
        × (pair_run line (some 4) one_pair ≡ err (exit_error text)))
pair_run_value_example = pair_run_value line line_laws (some 4) one_pair

-- A call of the addition with a point that is not on the curve.
abbrev adding : PrecompileHandle
adding = record {
  State = ℕ;
  code_address = 6;
  input = word 200 ++ word 1;
  record_cost = λ n s. if leb n s then (ok tt, s - n) else (err (error out_of_gas), s);
}

adding_charges : (gas : ℕ) → (adding.record_cost gas 1000).0 ≢ panic
adding_charges gas e = elim (Bool-cases (leb gas 1000)) [
  | inl less ↦ ground (arith, less, e)
  | inr more ↦ ground (arith, more, e)
]

panics_between_example : (5 ≤ 6) × (6 ≤ 7)
unfolding execute scroll get add run_precompiled_contract add_run resize read_point be_value
panics_between_example =
    panics_between crates ones_laws line_laws adding (scroll crates)
      {call = run_precompiled_contract adding (add_istanbul line)} 1000 (inr refl)
      (are_bytes-IsByte (word 200 ++ word 1) refl) adding_charges refl refl
