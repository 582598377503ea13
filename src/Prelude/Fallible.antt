-- ===== src/Prelude/Fallible.antt =====
-- A Go result pair `(value, error)`: the value when the error is nil, and else the error.
pub data Result {ℓ κ} (E : Type κ) (A : Type ℓ) : Type (ℓ ⊔ κ) where
  ok : A → Result E A
  err : E → Result E A
