-- ===== src/Client/Phoenix/State.antt =====
-- client/rust/src/phoenix.rs: the client's state, its references, and the sending and reading of a frame.
use Prim.Native.Nat.{◌%◌}
use burble.Base.{
  ℕ, zero, suc, ◌+◌, Bool, true, false, List, [], ◌++◌, Option, none, some, Str, codes, Result, ok,
  err, str_eq, leb, if◌then◌else◌,
}
use burble.Base.Decimal.{to_string}
use burble.Client.Error.{Crates, Error, protocol, closed}
use burble.Client.Frame.{
  Broadcast, Frame, Classified, reply, broadcast, consumed, is_same, frame_text, response_of,
}
use burble.Client.Interface.{Json, Transport}

abbrev pub reply_timeout : ℕ
reply_timeout = 10000000000

abbrev pub heartbeat_after : ℕ
heartbeat_after = 15000000000

-- The transport is the world.
pub record PhoenixClient (Value : Type 0) : Type 0 where
  pub topic : Option Str
  pub join_ref : Option Str
  pub next_ref : ℕ
  pub pending : List (Broadcast Value)
  pub heartbeat_ref : Option Str
  pub last_send : ℕ

abbrev pub new_client : {Value : Type 0} → (now : ℕ) → PhoenixClient Value
new_client now = record {
  topic = none;
  join_ref = none;
  next_ref = 0;
  pending = [];
  heartbeat_ref = none;
  last_send = now;
}

abbrev pub next_ref_of : {Value : Type 0} → PhoenixClient Value → ℕ
next_ref_of c = (c.next_ref + 1) % 18446744073709551616

unfoldable pub take_ref : {Value : Type 0} → PhoenixClient Value → Str × PhoenixClient Value
unfolding to_string
take_ref c = (to_string (next_ref_of c), record c { next_ref = next_ref_of c })

abbrev pub is_none : {A : Type 0} → Option A → Bool
is_none none = true
is_none (some a) = false

-- `self.topic.as_deref().is_some_and(|joined| joined != topic)`
abbrev pub is_other : Option Str → Str → Bool
unfolding str_eq
is_other none topic = false
is_other (some joined) topic = if str_eq joined topic then false else true

-- `Duration::max`
abbrev pub longer : ℕ → ℕ → ℕ
longer a b = if leb a b then b else a

-- A round of a loop: it ends with a result, or there is another one.
pub data Round (E A C World : Type 0) : Type 0 where
  finished : Result E A → C → World → Round E A C World
  again : C → World → Round E A C World

unfoldable pub repeat :
    {E A C World : Type 0}
    → (fuel : ℕ) → (C → World → Round E A C World)
    → C
    → World
    → Option (Result E A × C × World)
repeat zero round c w = none
repeat (suc fuel) round c w = elim (round c w) [
  | finished r c' w' ↦ some (r, c', w')
  | again c' w' ↦ repeat fuel round c' w'
]

module _ {crates : Crates} {World : Type 0} (js : Json crates)
    (transport : Transport World crates) where
  -- Behind the call of the transport.
  unfoldable pub sent :
      PhoenixClient crates.Value
      → Result (Error crates) Unit × World
      → Result (Error crates) Unit × PhoenixClient crates.Value × World
  sent c (err e, w) = (err e, c, w)
  sent c (ok _, w) = (ok tt, record c { last_send = transport.now w }, w)

  unfoldable pub send_frame :
      Option Str
      → (msg_ref topic event : Str) → crates.Value
      → PhoenixClient crates.Value
      → World
      → Result (Error crates) Unit × PhoenixClient crates.Value × World
  unfolding frame_text sent
  send_frame join_ref msg_ref topic event payload c w =
      elim (frame_text js join_ref msg_ref topic event payload) [
        | err e ↦ (err e, c, w)
        | ok text ↦ sent c (transport.send_text text w)
      ]

  unfoldable pub classify :
      Frame crates.Value
      → PhoenixClient crates.Value
      → Result (Error crates) (Classified (Error crates) crates.Value) × PhoenixClient crates.Value
  unfolding str_eq response_of
  classify frame c =
      if str_eq frame.event (codes "phx_reply")
      then if is_same frame.msg_ref c.heartbeat_ref
        then (ok consumed, record c { heartbeat_ref = none })
        else elim frame.msg_ref [
          | none ↦ (err (protocol (codes "phx_reply has no ref")), c)
          | some msg_ref ↦ (ok (reply msg_ref (response_of js frame.payload)), c)
        ]
      else if str_eq frame.event (codes "phx_error")
      then (err (protocol (codes "channel errored: " ++ js.display frame.payload)), c)
      else if str_eq frame.event (codes "phx_close")
      then (err closed, c)
      else if is_other c.topic frame.topic
      then (ok consumed, c)
      else (ok (broadcast (record { event = frame.event; payload = frame.payload })), c)
