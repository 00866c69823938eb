-- ===== src/Common/Outcome.antt =====
-- Rust's `Result<A, E>`, with the `?` operator as `>>=` in the module Exec.
pub data Result {ℓ κ} (E : Type κ) (A : Type ℓ) : Type (ℓ ⊔ κ) where
  ok : A → Result E A
  err : E → Result E A
