-- ===== src/Prelude/Results.antt =====
-- Go's (value, error) pair where exactly one of the two is meaningful.
pub data Result {ℓ} (E A : Type ℓ) : Type ℓ where
  ok : A → Result E A
  err : E → Result E A
