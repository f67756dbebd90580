-- ===== src/Client/Phoenix/Ending/Calls.antt =====
-- Every call of the client ends.
use burble.Base.{
  List, [], ◌∷◌, ℕ, ◌+◌, ◌-◌, ◌≤◌, ◌<◌, Bool, true, false, Option, none, some, Str, codes, Result,
  ok, err, leb, ◌≡◌, refl, arith, ◌&&◌, if◌then◌else◌,
}
use burble.Client.Error.{Crates, Error}
use burble.Client.Frame.{
  Broadcast, Frame, Classified, reply, broadcast, consumed, read_frame, frame_text,
}
use burble.Client.Interface.{Json, Transport}
use burble.Client.Phoenix.{
  PhoenixClient, Round, finished, next_read, next_wait, sent, beaten, next_from, classify,
  next_frame, next_received, next_round, next_broadcast, send_frame, beat, take_ref, slice_of,
  heartbeat_after, is_none, join, push,
}
use burble.Client.Phoenix.Ending.{
  IsOver, Later, repeat-IsOver, IsTimed, push_on-IsOver, join_from-IsOver,
}

module _ {crates : Crates} {World : Type 0} (js : Json crates)
    (transport : Transport World crates) where
  abbrev NextLater :
      ℕ
      → World
      → Round (Error crates) (Option (Broadcast crates.Value)) (PhoenixClient crates.Value) World
      → Type 0
  NextLater deadline w r = Later transport.now deadline w r

  next_frame-Later :
      (deadline : ℕ) (w w' : World)
      (k : Result (Error crates) (Classified (Error crates) crates.Value)
        × PhoenixClient crates.Value)
      → transport.now w < deadline
      → transport.now w < transport.now w'
      → NextLater deadline w (next_frame js transport k w')
  unfolding next_frame
  next_frame-Later deadline w w' (err e, c) early later = tt
  next_frame-Later deadline w w' (ok (reply msg_ref response), c) early later = (early, later)
  next_frame-Later deadline w w' (ok (broadcast b), c) early later = tt
  next_frame-Later deadline w w' (ok consumed, c) early later = (early, later)

  next_received-Later :
      (deadline : ℕ) (c : PhoenixClient crates.Value) (w : World)
      (received : Option (Result (Error crates) (Option Str)) × World)
      → transport.now w < deadline
      → transport.now w < transport.now received.1
      → NextLater deadline w (next_received js transport c received)
  unfolding next_received next_read
  next_received-Later deadline c w (none, w') early later = (early, later)
  next_received-Later deadline c w (some r, w') early later = go (read_frame js r)
    where
      go :
          (f : Result (Error crates) (Frame crates.Value))
          → NextLater deadline w (next_read js transport c f w')
      go (err e) = tt
      go (ok frame) = next_frame-Later deadline w w' (classify js transport frame c) early later

  next_wait-Later :
      IsTimed js transport
      → (deadline : ℕ) (w : World)
        (b : Result (Error crates) Unit × PhoenixClient crates.Value × World)
      → transport.now w ≤ transport.now b.2
      → NextLater deadline w (next_wait js transport deadline b)
  unfolding next_wait
  next_wait-Later timed deadline w (err e, c, v) beaten_later = tt
  next_wait-Later timed deadline w (ok _, c, v) beaten_later =
      go (leb deadline (transport.now v)) refl
    where
      go :
          (b : Bool)
          → leb deadline (transport.now v) ≡ b
          → NextLater deadline w (
              if b
              then finished (ok none) c v
              else next_received js transport c (
                  transport.recv_within
                    (slice_of js transport deadline (transport.now v) c.last_send)
                    v))
      go true late = tt
      go false early = next_received-Later deadline c w _ (ground (arith, early, beaten_later)) (
          omega (
            arith,
            beaten_later,
            timed.recv_later (slice_of js transport deadline (transport.now v) c.last_send) v,
          ))

  send_frame-later :
      IsTimed js transport
      → (join_ref : Option Str) (msg_ref topic event : Str) (payload : crates.Value)
        (c : PhoenixClient crates.Value) (w : World)
      → transport.now w
        ≤ transport.now (send_frame js transport join_ref msg_ref topic event payload c w).2
  unfolding send_frame sent
  send_frame-later timed join_ref msg_ref topic event payload c w =
      go (frame_text js join_ref msg_ref topic event payload)
    where
      go_sent :
          (r : Result (Error crates) Unit × World)
          → transport.now w ≤ transport.now r.1
          → transport.now w ≤ transport.now (sent js transport c r).2
      go_sent (err e, v) h = h
      go_sent (ok _, v) h = h

      go :
          (t : Result (Error crates) Str)
          → transport.now w
            ≤ transport.now
                (elim t as (λ _. Result (Error crates) Unit × PhoenixClient crates.Value × World) [
                  | err e ↦ (err e, c, w)
                  | ok text ↦ sent js transport c (transport.send_text text w)
                ]).2
      go (err e) = omega arith
      go (ok text) = go_sent (transport.send_text text w) (timed.send_later text w)

  beat-later :
      IsTimed js transport
      → (c : PhoenixClient crates.Value) (w : World)
      → transport.now w ≤ transport.now (beat js transport c w).2
  unfolding beat beaten
  beat-later timed c w =
      go (is_none c.heartbeat_ref && leb heartbeat_after (transport.now w - c.last_send))
    where
      go_beaten :
          (s : Result (Error crates) Unit × PhoenixClient crates.Value × World)
          → transport.now w ≤ transport.now s.2
          → transport.now w ≤ transport.now (beaten js transport (take_ref c).0 s).2
      go_beaten (err e, c', v) h = h
      go_beaten (ok _, c', v) h = h

      go :
          (b : Bool)
          → transport.now w
            ≤ transport.now
                (if b
                  then beaten js transport (take_ref c).0 (
                      send_frame js transport none
                        (take_ref c).0
                        (codes "phoenix")
                        (codes "heartbeat")
                        (js.object [])
                        (take_ref c).1
                        w)
                  else (ok tt, c, w)).2
      go true = go_beaten _ (
          send_frame-later timed none (take_ref c).0 (codes "phoenix") (codes "heartbeat")
            (js.object []) (take_ref c).1 w)
      go false = omega arith

  next_round-Later :
      IsTimed js transport
      → (deadline : ℕ) (c : PhoenixClient crates.Value) (w : World)
      → NextLater deadline w (next_round js transport deadline c w)
  unfolding next_round
  next_round-Later timed deadline c w =
      next_wait-Later timed deadline w (beat js transport c w) (beat-later timed c w)

  next_from-IsOver :
      IsTimed js transport
      → (pending : List (Broadcast crates.Value)) (wait : ℕ) (c : PhoenixClient crates.Value)
        (w : World)
      → IsOver (next_from js transport pending wait c w)
  unfolding next_from
  next_from-IsOver timed (message ∷ rest) wait c w = tt
  next_from-IsOver timed [] wait c w =
      repeat-IsOver (next_round js transport (transport.now w + wait)) transport.now
        (transport.now w + wait) (next_round-Later timed (transport.now w + wait)) wait c w
        (omega arith)

  -- Whatever the server sends, a join, a push and a wait for a broadcast end, if a receipt takes time and
  -- time does not run backwards.
  pub calls-IsOver :
      IsTimed js transport
      → (name : Str) (payload : crates.Value) (wait : ℕ) (c : PhoenixClient crates.Value)
        (w : World)
      → IsOver (join js transport name payload c w)
        × IsOver (push js transport name payload c w)
        × IsOver (next_broadcast js transport wait c w)
  unfolding join push next_broadcast
  calls-IsOver timed name payload wait c w = (
    join_from-IsOver js transport timed c.topic name payload c w,
    push_on-IsOver js transport timed c.topic name payload c w,
    next_from-IsOver timed c.pending wait c w,
  )
