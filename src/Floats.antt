-- ===== src/Floats.antt =====
-- The `f64` operations that the crate calls, as an interface: a double is an opaque bit pattern.
use claw_branch.Shared.{ℕ, Bool}
use claw_branch.Types.{F64}

pub record Floats : Type 0 where
  -- `n as f64`, for a count
  pub of_nat : ℕ → F64
  -- the literal n / 100
  pub percent : ℕ → F64
  pub add : F64 → F64 → F64
  pub sub : F64 → F64 → F64
  pub mul : F64 → F64 → F64
  pub div : F64 → F64 → F64
  pub fmin : F64 → F64 → F64
  pub fmax : F64 → F64 → F64
  pub fabs : F64 → F64
  pub neg : F64 → F64
  pub exp : F64 → F64
  pub fle : F64 → F64 → Bool
  pub feq : F64 → F64 → Bool
