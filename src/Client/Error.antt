-- ===== src/Client/Error.antt =====
-- client/rust/src/error.rs. The errors of the crates below, and serde_json's `Value`, are parameters.
use burble.Base.{Str}

pub record Crates : Type 1 where
  pub UrlError : Type 0
  pub WsError : Type 0
  pub TransportError : Type 0
  pub JsonError : Type 0
  pub Value : Type 0

pub data Error (crates : Crates) : Type 0 where
  url : crates.UrlError → Error crates
  web_socket : crates.WsError → Error crates
  transport : crates.TransportError → Error crates
  json : crates.JsonError → Error crates
  protocol : (message : Str) → Error crates
  rejected : (status : Str) (response : crates.Value) → Error crates
  closed : Error crates
  timeout : (operation : Str) → Error crates
