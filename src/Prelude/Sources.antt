-- ===== src/Prelude/Sources.antt =====
-- Texts, and the two sources of values that are new with each call.
use Prim.Native.Nat.{ℕ}
use Prim.Native.String.{String, ◌++◌}

-- `a + b` of texts, and what an f-string joins
abbrev pub concat : String → String → String
concat a b = a ++ b

-- `uuid4().hex` and `time.time()`, by the number of calls before.
pub record Supply : Type 0 where
  pub uuid : ℕ → String
  pub clock : ℕ → ℕ
