-- ===== src/Store/Json.antt =====
-- A stored value: the JSON text of a value, or a text that does not decode.
use bm.Base.{Str}

pub data Json {ℓ} (A : Type ℓ) : Type ℓ where
  json : A → Json A
  malformed : Str → Json A
