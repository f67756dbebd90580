-- ===== src/Client/Phoenix/Await.antt =====
-- client/rust/src/phoenix.rs: `await_reply`, and `join` and `push`, which wait by it.
use burble.Base.{
  ℕ, suc, ◌+◌, ◌-◌, [], ◌∷◌, ◌++◌, Option, none, some, Str, codes, Result, ok, err, str_eq, leb,
  if◌then◌else◌,
}
use burble.Client.Error.{Crates, Error, protocol, timeout}
use burble.Client.Frame.{Broadcast, Frame, Classified, reply, broadcast, consumed, read_frame}
use burble.Client.Interface.{Json, Transport}
use burble.Client.Phoenix.State.{
  reply_timeout, PhoenixClient, take_ref, Round, finished, again, repeat, send_frame, classify,
}

module _ {crates : Crates} {World : Type 0} (js : Json crates)
    (transport : Transport World crates) where
  abbrev push_pending :
      Broadcast crates.Value → PhoenixClient crates.Value → PhoenixClient crates.Value
  push_pending b c = record c { pending = c.pending ++ b ∷ [] }

  -- What `await_reply` does with a frame.
  unfoldable pub await_frame :
      (wanted : Str)
      → Result (Error crates) (Classified (Error crates) crates.Value) × PhoenixClient crates.Value
      → World
      → Round (Error crates) crates.Value (PhoenixClient crates.Value) World
  unfolding str_eq
  await_frame wanted (err e, c) w = finished (err e) c w
  await_frame wanted (ok (reply msg_ref response), c) w =
      if str_eq msg_ref wanted then finished response c w else again c w
  await_frame wanted (ok (broadcast b), c) w = again (push_pending b c) w
  await_frame wanted (ok consumed, c) w = again c w

  unfoldable pub await_read :
      (wanted : Str)
      → PhoenixClient crates.Value
      → Result (Error crates) (Frame crates.Value)
      → World
      → Round (Error crates) crates.Value (PhoenixClient crates.Value) World
  unfolding classify await_frame
  await_read wanted c (err e) w = finished (err e) c w
  await_read wanted c (ok frame) w = await_frame wanted (classify js transport frame c) w

  unfoldable pub await_received :
      (wanted : Str)
      → PhoenixClient crates.Value
      → Option (Result (Error crates) (Option Str)) × World
      → Round (Error crates) crates.Value (PhoenixClient crates.Value) World
  unfolding read_frame await_read
  await_received wanted c (none, w) = finished (err (timeout (codes "Phoenix reply"))) c w
  await_received wanted c (some r, w) = await_read wanted c (read_frame js r) w

  -- A round of the loop of `await_reply`.
  unfoldable pub await_round :
      (wanted : Str) (deadline : ℕ)
      → PhoenixClient crates.Value
      → World
      → Round (Error crates) crates.Value (PhoenixClient crates.Value) World
  unfolding await_received
  await_round wanted deadline c w =
      if leb deadline (transport.now w)
      then finished (err (timeout (codes "Phoenix reply"))) c w
      else await_received wanted c (transport.recv_within (deadline - transport.now w) w)

  -- One round for each nanosecond of the timeout, and one more.
  unfoldable pub await_reply :
      (wanted : Str)
      → PhoenixClient crates.Value
      → World
      → Option (Result (Error crates) crates.Value × PhoenixClient crates.Value × World)
  unfolding repeat await_round
  await_reply wanted c w =
      repeat (suc reply_timeout) (await_round wanted (transport.now w + reply_timeout)) c w

  -- After a frame has been sent, its reply is awaited.
  unfoldable pub request :
      (msg_ref : Str)
      → Result (Error crates) Unit × PhoenixClient crates.Value × World
      → Option (Result (Error crates) crates.Value × PhoenixClient crates.Value × World)
  unfolding await_reply
  request msg_ref (err e, c, w) = some (err e, c, w)
  request msg_ref (ok _, c, w) = await_reply msg_ref c w

  -- The end of `join`.
  unfoldable pub joined :
      (topic msg_ref : Str)
      → Option (Result (Error crates) crates.Value × PhoenixClient crates.Value × World)
      → Option (Result (Error crates) crates.Value × PhoenixClient crates.Value × World)
  joined topic msg_ref none = none
  joined topic msg_ref (some (err e, c, w)) = some (err e, c, w)
  joined topic msg_ref (some (ok response, c, w)) =
      some (ok response, record c { topic = some topic; join_ref = some msg_ref }, w)

  -- With the topic of the client, if it has one.
  unfoldable pub join_from :
      Option Str
      → (topic : Str) → crates.Value
      → PhoenixClient crates.Value
      → World
      → Option (Result (Error crates) crates.Value × PhoenixClient crates.Value × World)
  unfolding take_ref send_frame joined
  join_from (some t) topic params c w =
      some (err (protocol (codes "client has already joined a topic")), c, w)
  join_from none topic params c w =
      let (msg_ref, c') = take_ref c in
      joined topic msg_ref (
        request msg_ref
          (send_frame js transport (some msg_ref) msg_ref topic (codes "phx_join") params c' w))

  unfoldable pub join :
      (topic : Str)
      → crates.Value
      → PhoenixClient crates.Value
      → World
      → Option (Result (Error crates) crates.Value × PhoenixClient crates.Value × World)
  unfolding join_from
  join topic params c w = join_from c.topic topic params c w

  unfoldable pub push_on :
      Option Str
      → (event : Str) → crates.Value
      → PhoenixClient crates.Value
      → World
      → Option (Result (Error crates) crates.Value × PhoenixClient crates.Value × World)
  unfolding take_ref send_frame
  push_on none event payload c w = some (err (protocol (codes "push before join")), c, w)
  push_on (some topic) event payload c w =
      let (msg_ref, c') = take_ref c in
      request msg_ref (send_frame js transport c.join_ref msg_ref topic event payload c' w)

  unfoldable pub push :
      (event : Str)
      → crates.Value
      → PhoenixClient crates.Value
      → World
      → Option (Result (Error crates) crates.Value × PhoenixClient crates.Value × World)
  unfolding push_on
  push event payload c w = push_on c.topic event payload c w
