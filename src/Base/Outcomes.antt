-- ===== src/Base/Outcomes.antt =====
-- What a function of the program returns or throws: `throw new Error(code)` is `err code`.
pub data Outcome {ℓ} (E A : Type ℓ) : Type ℓ where
  ok : A → Outcome E A
  err : E → Outcome E A
