-- ===== src/Client/Phoenix.antt =====
-- client/rust/src/phoenix.rs: `PhoenixClient`. An instant and a duration are numbers of nanoseconds; the
-- counter of references is a `u64` that wraps around. `none` stands for a lack of fuel.
mod State
mod Await
pub mod Ending
pub mod Invariant
pub mod Reachable
unfoldable pub use State.*
unfoldable pub use Await.*
use Prim.Native.Nat.{◌%◌}
use burble.Base.{
  ℕ, zero, suc, ◌+◌, ◌-◌, min, Bool, true, false, ◌&&◌, List, [], ◌∷◌, ◌++◌, Option, none, some,
  Str, codes, Result, ok, err, str_eq, leb, if◌then◌else◌,
}
use burble.Base.Decimal.{to_string}
use burble.Client.Error
use burble.Client.Error.{Crates, Error, protocol, closed, timeout}
use burble.Client.Frame.{
  Broadcast, Frame, Classified, reply, broadcast, consumed, is_same, frame_text, read_frame,
  response_of,
}
use burble.Client.Interface.{Json, Transport}

module _ {crates : Crates} {World : Type 0} (js : Json crates)
    (transport : Transport World crates) where
  unfoldable pub beaten :
      (msg_ref : Str)
      → Result (Error crates) Unit × PhoenixClient crates.Value × World
      → Result (Error crates) Unit × PhoenixClient crates.Value × World
  beaten msg_ref (err e, c, w) = (err e, c, w)
  beaten msg_ref (ok _, c, w) = (ok tt, record c { heartbeat_ref = some msg_ref }, w)

  -- A heartbeat, where one is due.
  unfoldable pub beat :
      PhoenixClient crates.Value
      → World
      → Result (Error crates) Unit × PhoenixClient crates.Value × World
  unfolding take_ref send_frame beaten
  beat c w =
      let (msg_ref, c') = take_ref c in
      if is_none c.heartbeat_ref && leb heartbeat_after (transport.now w - c.last_send)
      then beaten msg_ref (
          send_frame js transport none msg_ref (codes "phoenix") (codes "heartbeat") (js.object [])
            c' w)
      else (ok tt, c, w)

  -- What `next_broadcast` does with a frame.
  unfoldable pub next_frame :
      Result (Error crates) (Classified (Error crates) crates.Value) × PhoenixClient crates.Value
      → World
      → Round (Error crates) (Option (Broadcast crates.Value)) (PhoenixClient crates.Value) World
  next_frame (err e, c) w = finished (err e) c w
  next_frame (ok (reply msg_ref response), c) w = again c w
  next_frame (ok (broadcast b), c) w = finished (ok (some b)) c w
  next_frame (ok consumed, c) w = again c w

  abbrev pub slice_of : (deadline now last_send : ℕ) → ℕ
  slice_of deadline now last_send =
      min (deadline - now) (longer (heartbeat_after - (now - last_send)) 50000000)

  unfoldable pub next_read :
      PhoenixClient crates.Value
      → Result (Error crates) (Frame crates.Value)
      → World
      → Round (Error crates) (Option (Broadcast crates.Value)) (PhoenixClient crates.Value) World
  unfolding classify next_frame
  next_read c (err e) w = finished (err e) c w
  next_read c (ok frame) w = next_frame (classify js transport frame c) w

  unfoldable pub next_received :
      PhoenixClient crates.Value
      → Option (Result (Error crates) (Option Str)) × World
      → Round (Error crates) (Option (Broadcast crates.Value)) (PhoenixClient crates.Value) World
  unfolding read_frame next_read
  next_received c (none, w) = again c w
  next_received c (some r, w) = next_read c (read_frame js r) w

  -- A round of the loop of `next_broadcast`, behind the heartbeat.
  unfoldable pub next_wait :
      (deadline : ℕ)
      → Result (Error crates) Unit × PhoenixClient crates.Value × World
      → Round (Error crates) (Option (Broadcast crates.Value)) (PhoenixClient crates.Value) World
  unfolding next_received
  next_wait deadline (err e, c, w) = finished (err e) c w
  next_wait deadline (ok _, c, w) =
      if leb deadline (transport.now w)
      then finished (ok none) c w
      else next_received c
          (transport.recv_within (slice_of deadline (transport.now w) c.last_send) w)

  unfoldable pub next_round :
      (deadline : ℕ)
      → PhoenixClient crates.Value
      → World
      → Round (Error crates) (Option (Broadcast crates.Value)) (PhoenixClient crates.Value) World
  unfolding beat next_wait
  next_round deadline c w = next_wait deadline (beat c w)

  -- With the messages that have been kept.
  unfoldable pub next_from :
      List (Broadcast crates.Value)
      → (wait : ℕ) → PhoenixClient crates.Value
      → World
      → Option (
          Result (Error crates) (Option (Broadcast crates.Value))
          × PhoenixClient crates.Value
          × World)
  unfolding repeat next_round
  next_from (message ∷ rest) wait c w = some (ok (some message), record c { pending = rest }, w)
  next_from [] wait c w = repeat (suc wait) (next_round (transport.now w + wait)) c w

  unfoldable pub next_broadcast :
      (wait : ℕ)
      → PhoenixClient crates.Value
      → World
      → Option (
          Result (Error crates) (Option (Broadcast crates.Value))
          × PhoenixClient crates.Value
          × World)
  unfolding next_from
  next_broadcast wait c w = next_from c.pending wait c w

  -- With the topic and the reference of the joining, if the client has them.
  unfoldable pub leave_from :
      (topic join_ref : Option Str)
      → PhoenixClient crates.Value
      → World
      → PhoenixClient crates.Value × World
  unfolding take_ref send_frame
  leave_from (some topic) (some join_ref) c w =
      let (msg_ref, c') = take_ref c in
      let (_, c'', w') =
        send_frame js transport (some join_ref) msg_ref topic (codes "phx_leave") (js.object []) c'
          w in
      (c'', (transport.close w').1)
  leave_from _ _ c w = (c, (transport.close w).1)

  unfoldable pub leave : PhoenixClient crates.Value → World → PhoenixClient crates.Value × World
  unfolding leave_from
  leave c w = leave_from c.topic c.join_ref c w
