-- ===== src/Client/Interface.antt =====
-- What the client takes from outside: client/rust/src/transport.rs (the trait `TextTransport`), the clock
-- and the timeout of tokio, and serde_json.
use burble.Client.Error.{Crates, Error}
use burble.Base.{ℕ, Bool, List, Option, Str, Result}

-- serde_json: printing, parsing, and the views and constructors of a `Value`.
pub record Json (crates : Crates) : Type 0 where
  pub to_text : crates.Value → Result crates.JsonError Str
  pub from_text : Str → Result crates.JsonError crates.Value
  pub display : crates.Value → Str
  pub as_array : crates.Value → Option (List crates.Value)
  pub as_str : crates.Value → Option Str
  pub as_bool : crates.Value → Option Bool
  pub get : Str → crates.Value → Option crates.Value
  pub null : crates.Value
  pub string : Str → crates.Value
  pub array : List crates.Value → crates.Value
  pub object : List (Str × crates.Value) → crates.Value

-- `recv_within d` is `timeout(d, recv_text())`: `none` if the time has passed.
pub record Transport (World : Type 0) (crates : Crates) : Type 0 where
  pub now : World → ℕ
  pub send_text : Str → World → Result (Error crates) Unit × World
  pub recv_within : (duration : ℕ) → World → Option (Result (Error crates) (Option Str)) × World
  pub close : World → Result (Error crates) Unit × World
