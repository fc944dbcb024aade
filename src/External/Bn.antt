-- ===== src/External/Bn.antt =====
-- The crate `bn`, the pairing-friendly curve of the precompiled contracts 6 to 8: its fields, its
-- two groups of points and the group of the pairing. A failure (`Err`, or `None`) is `none`.
use evm_executor_rs.Base.{◌≡◌, Bool, true, Option, some, length}
use evm_executor_rs.External.Traits.{Bytes}

pub record Bn : Type 1 where
  pub Fq : Type 0
  pub Fq2 : Type 0
  pub Fr : Type 0
  pub G1 : Type 0
  pub G2 : Type 0
  pub Gt : Type 0
  -- `Fq::from_slice`, `Fq::zero`, `==`, `is_zero`
  pub fq_from_slice : Bytes → Option Fq
  pub fq_zero : Fq
  pub fq_eq : Fq → Fq → Bool
  pub fq_is_zero : Fq → Bool
  pub fr_from_slice : Bytes → Option Fr
  -- `AffineG1::new`, made a `G1`
  pub affine_g1 : Fq → Fq → Option G1
  pub g1_zero : G1
  pub g1_add : G1 → G1 → G1
  pub g1_mul : G1 → Fr → G1
  -- `AffineG1::from_jacobian`, its two coordinates
  pub from_jacobian : G1 → Option (Fq × Fq)
  -- `into_u256().to_big_endian(..)` and `to_big_endian(..)`, into 32 bytes
  pub into_u256_bytes : Fq → Option Bytes
  pub fq_bytes : Fq → Option Bytes
  pub fq2_new : Fq → Fq → Fq2
  pub fq2_is_zero : Fq2 → Bool
  -- `AffineG2::new`, made a `G2`
  pub affine_g2 : Fq2 → Fq2 → Option G2
  pub g2_zero : G2
  pub pairing : G1 → G2 → Gt
  pub gt_one : Gt
  pub gt_mul : Gt → Gt → Gt
  pub gt_eq : Gt → Gt → Bool

pub record BnLaws (c : Bn) : Type 0 where
  pub g1_add_comm : (p q : c.G1) → c.g1_add p q ≡ c.g1_add q p
  pub fr_from_slice_32 : (xs : Bytes) → length xs ≡ 32 → (r : c.Fr) × (c.fr_from_slice xs ≡ some r)
  pub length-into_u256_bytes :
      (x : c.Fq) → (b : Bytes) × (c.into_u256_bytes x ≡ some b) × (length b ≡ 32)
  pub length-fq_bytes : (x : c.Fq) → (b : Bytes) × (c.fq_bytes x ≡ some b) × (length b ≡ 32)
  -- The group of the pairing.
  pub gt_mul_one : (x : c.Gt) → c.gt_mul x c.gt_one ≡ x
  pub gt_one_mul : (x : c.Gt) → c.gt_mul c.gt_one x ≡ x
  pub gt_mul_assoc : (x y z : c.Gt) → c.gt_mul (c.gt_mul x y) z ≡ c.gt_mul x (c.gt_mul y z)
  pub gt_one_eq : c.gt_eq c.gt_one c.gt_one ≡ true
