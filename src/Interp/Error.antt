-- ===== src/Interp/Error.antt =====
-- tools/selur-compose/crates/selur-compose-interp/src/error.rs
use burble.Base.{ℕ, Str}

pub data InterpError : Type 0 where
  undefined : (name input : Str) → InterpError
  missing_required : (name msg : Str) (span : ℕ × ℕ) → InterpError
  unterminated : (input : Str) (pos : ℕ) → InterpError
  env_file : (path reason : Str) → InterpError
