-- ===== src/Js/Try.antt =====
-- A call that returns or throws; what it throws is kept as `String(err)`.
use mortstack.Prelude.{String}

pub data Try {ℓ} (A : Type ℓ) : Type ℓ where
  gave : A → Try A
  threw : String → Try A
