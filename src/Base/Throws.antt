-- ===== src/Base/Throws.antt =====
-- A computation that returns a value or throws an Error with a message.
use Prim.Native.String.{String}

pub data Throws {ℓ} (A : Type ℓ) : Type ℓ where
  threw : String → Throws A
  returned : A → Throws A
