-- ===== src/Client/Phoenix/Ending.antt =====
-- The loops of the client end.
pub mod Calls
use burble.Base.{
  List, [], ◌∷◌, ℕ, zero, suc, ◌+◌, ◌-◌, ◌≤◌, ◌<◌, Bool, true, false, Option, none, some, Str,
  codes, Result, ok, err, leb, ◌≡◌, refl, inl, inr, arith, ap, subst, ◌&&◌, if◌then◌else◌, str_eq,
}
use burble.Client.Error.{Crates, Error, timeout}
use burble.Client.Frame.{
  Broadcast, Frame, Classified, reply, broadcast, consumed, read_frame, frame_text,
}
use burble.Client.Interface.{Json, Transport}
use burble.Client.Phoenix.{
  PhoenixClient, Round, finished, again, repeat, await_received, await_read, next_read, next_wait,
  sent, beaten, push_on, join_from, next_from, await_frame, await_round, await_reply, classify,
  next_frame, next_received, next_round, next_broadcast, send_frame, beat, take_ref, slice_of,
  reply_timeout, heartbeat_after, is_none, request, joined, join, push,
}

abbrev pub IsOver : {A : Type 0} → Option A → Type 0
IsOver none = ⊥
IsOver (some a) = Unit

module _ {E A C World : Type 0} (now : World → ℕ) (deadline : ℕ) where
  -- Another round comes later, and only before the deadline.
  abbrev pub Later : World → Round E A C World → Type 0
  Later w (finished r c' w') = Unit
  Later w (again c' w') = (now w < deadline) × (now w < now w')

module _ {E A C World : Type 0} (round : C → World → Round E A C World) (now : World → ℕ)
    (deadline : ℕ) where
  pub repeat-IsOver :
      ((c : C) (w : World) → Later now deadline w (round c w))
      → (fuel : ℕ) (c : C) (w : World) → deadline ≤ now w + fuel
      → IsOver (repeat (suc fuel) round c w)
  unfolding repeat
  repeat-IsOver later zero c w enough = go (round c w) (later c w)
    where
      go :
          (r : Round E A C World)
          → Later now deadline w r
          → IsOver (elim r as (λ _. Option (Result E A × C × World)) [
            | finished r c' w' ↦ some (r, c', w')
            | again c' w' ↦ repeat zero round c' w'
          ])
      go (finished r c' w') h = tt
      go (again c' w') h = absurd (omega (arith, h.0, enough))
  repeat-IsOver later (suc fuel) c w enough = go (round c w) (later c w) (repeat-IsOver later fuel)
    where
      go :
          (r : Round E A C World)
          → Later now deadline w r
          → ((c' : C) (w' : World)
              → deadline ≤ now w' + fuel
              → IsOver (repeat (suc fuel) round c' w'))
          → IsOver (elim r as (λ _. Option (Result E A × C × World)) [
            | finished r c' w' ↦ some (r, c', w')
            | again c' w' ↦ repeat (suc fuel) round c' w'
          ])
      go (finished r c' w') h rest = tt
      go (again c' w') h rest = rest c' w' (omega (arith, h.1, enough))

module _ {crates : Crates} {World : Type 0} (js : Json crates)
    (transport : Transport World crates) where
  -- Time does not run backwards, and a receipt or a wait for one takes time.
  pub record IsTimed : Type 0 where
    pub send_later :
        (text : Str) (w : World) → transport.now w ≤ transport.now (transport.send_text text w).1
    pub recv_later :
        (d : ℕ) (w : World) → transport.now w < transport.now (transport.recv_within d w).1

  abbrev AwaitLater :
      ℕ → World → Round (Error crates) crates.Value (PhoenixClient crates.Value) World → Type 0
  AwaitLater deadline w r = Later transport.now deadline w r

  await_frame-Later :
      (wanted : Str) (deadline : ℕ) (w w' : World)
      (k : Result (Error crates) (Classified (Error crates) crates.Value)
        × PhoenixClient crates.Value)
      → transport.now w < deadline
      → transport.now w < transport.now w'
      → AwaitLater deadline w (await_frame js transport wanted k w')
  unfolding await_frame
  await_frame-Later wanted deadline w w' (err e, c) early later = tt
  await_frame-Later wanted deadline w w' (ok (reply msg_ref response), c) early later =
      go (str_eq msg_ref wanted)
    where
      go : (b : Bool) → AwaitLater deadline w (if b then finished response c w' else again c w')
      go true = tt
      go false = (early, later)
  await_frame-Later wanted deadline w w' (ok (broadcast b), c) early later = (early, later)
  await_frame-Later wanted deadline w w' (ok consumed, c) early later = (early, later)

  await_received-Later :
      (wanted : Str) (deadline : ℕ) (c : PhoenixClient crates.Value) (w : World)
      (received : Option (Result (Error crates) (Option Str)) × World)
      → transport.now w < deadline
      → transport.now w < transport.now received.1
      → AwaitLater deadline w (await_received js transport wanted c received)
  unfolding await_received await_read
  await_received-Later wanted deadline c w (none, w') early later = tt
  await_received-Later wanted deadline c w (some r, w') early later = go (read_frame js r)
    where
      go :
          (f : Result (Error crates) (Frame crates.Value))
          → AwaitLater deadline w (await_read js transport wanted c f w')
      go (err e) = tt
      go (ok frame) =
          await_frame-Later wanted deadline w w' (classify js transport frame c) early later

  await_round-Later :
      IsTimed
      → (wanted : Str) (deadline : ℕ) (c : PhoenixClient crates.Value) (w : World)
      → AwaitLater deadline w (await_round js transport wanted deadline c w)
  unfolding await_round
  await_round-Later timed wanted deadline c w = go (leb deadline (transport.now w)) refl
    where
      go :
          (b : Bool)
          → leb deadline (transport.now w) ≡ b
          → AwaitLater deadline w (
              if b
              then finished (err (timeout (codes "Phoenix reply"))) c w
              else await_received js transport wanted c
                  (transport.recv_within (deadline - transport.now w) w))
      go true late = tt
      go false early =
          await_received-Later wanted deadline c w _ (ground (arith, early)) (timed.recv_later _ w)

  await_reply-IsOver :
      IsTimed
      → (wanted : Str) (c : PhoenixClient crates.Value) (w : World)
      → IsOver (await_reply js transport wanted c w)
  unfolding await_reply
  await_reply-IsOver timed wanted c w =
      repeat-IsOver (await_round js transport wanted (transport.now w + reply_timeout))
        transport.now (transport.now w + reply_timeout)
        (await_round-Later timed wanted (transport.now w + reply_timeout)) reply_timeout c w
        (omega arith)

  request-IsOver :
      IsTimed
      → (msg_ref : Str) (s : Result (Error crates) Unit × PhoenixClient crates.Value × World)
      → IsOver (request js transport msg_ref s)
  unfolding request
  request-IsOver timed msg_ref (err e, c, w) = tt
  request-IsOver timed msg_ref (ok _, c, w) = await_reply-IsOver timed msg_ref c w

  pub push_on-IsOver :
      IsTimed
      → (t : Option Str) (event : Str) (payload : crates.Value) (c : PhoenixClient crates.Value)
        (w : World)
      → IsOver (push_on js transport t event payload c w)
  unfolding push_on
  push_on-IsOver timed none event payload c w = tt
  push_on-IsOver timed (some topic) event payload c w =
      request-IsOver timed (take_ref c).0
        (send_frame js transport c.join_ref (take_ref c).0 topic event payload (take_ref c).1 w)

  pub join_from-IsOver :
      IsTimed
      → (t : Option Str) (topic : Str) (params : crates.Value) (c : PhoenixClient crates.Value)
        (w : World)
      → IsOver (join_from js transport t topic params c w)
  unfolding join_from joined
  join_from-IsOver timed (some t) topic params c w = tt
  join_from-IsOver timed none topic params c w =
      go
        (request js transport (take_ref c).0 (
          send_frame js transport (some (take_ref c).0) (take_ref c).0 topic (codes "phx_join")
            params (take_ref c).1 w))
        (request-IsOver timed (take_ref c).0 (
          send_frame js transport (some (take_ref c).0) (take_ref c).0 topic (codes "phx_join")
            params (take_ref c).1 w))
    where
      go :
          (o : Option (Result (Error crates) crates.Value × PhoenixClient crates.Value × World))
          → IsOver o
          → IsOver (joined js transport topic (take_ref c).0 o)
      go none h = h
      go (some (err e, c', w')) h = tt
      go (some (ok r, c', w')) h = tt
