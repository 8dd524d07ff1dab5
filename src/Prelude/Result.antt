-- ===== src/Prelude/Result.antt =====
-- Go's `(T, error)` where the value is meaningful only without an error.
pub data Result (E : Type 0) (A : Type 0) : Type 0 where
  ok : A → Result E A
  err : E → Result E A
