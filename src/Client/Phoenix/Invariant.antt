-- ===== src/Client/Phoenix/Invariant.antt =====
-- What every call of the client keeps.
use burble.Base.{
  ℕ, zero, suc, Bool, true, false, ◌||◌, List, [], ◌∷◌, ◌++◌, All, Option, none, some, Str, codes,
  Result, ok, err, leb, ◌≡◌, refl, if◌then◌else◌, str_eq,
}
use burble.Client.Error.{Crates, Error, timeout, protocol, closed}
use burble.Client.Frame.{
  Broadcast, Frame, Classified, reply, broadcast, consumed, read_frame, is_same, response_of,
}
use burble.Client.Interface.{Json, Transport}
use burble.Client.Phoenix.{
  PhoenixClient, Round, finished, again, repeat, await_received, await_read, await_frame,
  await_round, classify, next_read, next_frame, next_received, is_none, is_other,
}

-- An event that the protocol itself uses.
abbrev pub is_protocol : Str → Bool
unfolding str_eq
is_protocol event =
    str_eq event (codes "phx_reply")
    || str_eq event (codes "phx_error")
    || str_eq event (codes "phx_close")

abbrev pub IsMessage : {Value : Type 0} → Broadcast Value → Type 0
IsMessage b = is_protocol b.event ≡ false

-- A client has a topic exactly if it has the reference of its joining, and it keeps messages only.
pub record IsClient {Value : Type 0} (c : PhoenixClient Value) : Type 0 where
  pub both : is_none c.topic ≡ is_none c.join_ref
  pub messages : All IsMessage c.pending

abbrev pub IsAnswer : {Value : Type 0} → Option (Broadcast Value) → Type 0
IsAnswer none = Unit
IsAnswer (some b) = IsMessage b

All-snoc :
    {A : Type 0} (P : A → Type 0) (xs : List A) (x : A) → All P xs → P x → All P (xs ++ x ∷ [])
All-snoc P [] x h p = (p, tt)
All-snoc P (y ∷ xs) x (q, h) p = (q, All-snoc P xs x h p)

abbrev pub Good : {E A : Type 0} → (A → Type 0) → Result E A → Type 0
Good Q (ok a) = Q a
Good Q (err e) = Unit

module _ {E A C World : Type 0} (P : C → Type 0) (Q : A → Type 0) where
  -- The state keeps `P`, and a result has `Q`.
  abbrev pub Keeps : Option (Result E A × C × World) → Type 0
  Keeps none = Unit
  Keeps (some (r, c, w)) = P c × Good Q r

  abbrev pub RoundKeeps : Round E A C World → Type 0
  RoundKeeps (finished r c w) = P c × Good Q r
  RoundKeeps (again c w) = P c

  pub repeat-Keeps :
      (round : C → World → Round E A C World)
      → ((c : C) (w : World) → P c → RoundKeeps (round c w))
      → (fuel : ℕ) (c : C) (w : World) → P c
      → Keeps (repeat fuel round c w)
  unfolding repeat
  repeat-Keeps round keeps zero c w p = tt
  repeat-Keeps round keeps (suc fuel) c w p =
      go (round c w) (keeps c w p) (repeat-Keeps round keeps fuel)
    where
      go :
          (r : Round E A C World)
          → RoundKeeps r
          → ((c' : C) (w' : World) → P c' → Keeps (repeat fuel round c' w'))
          → Keeps (elim r as (λ _. Option (Result E A × C × World)) [
            | finished r c' w' ↦ some (r, c', w')
            | again c' w' ↦ repeat fuel round c' w'
          ])
      go (finished r c' w') h rest = h
      go (again c' w') h rest = rest c' w' h

module _ {crates : Crates} {World : Type 0} (js : Json crates)
    (transport : Transport World crates) where
  abbrev pub Client : Type 0
  Client = PhoenixClient crates.Value

  abbrev pub AnyValue : crates.Value → Type 0
  AnyValue v = Unit

  -- Reading a frame keeps the client, and a broadcast is a message.
  abbrev Reads : Result (Error crates) (Classified (Error crates) crates.Value) × Client → Type 0
  Reads (err e, c) = IsClient c
  Reads (ok (broadcast b), c) = IsClient c × IsMessage b
  Reads (ok k, c) = IsClient c

  classify-Reads :
      (frame : Frame crates.Value) (c : Client) → IsClient c → Reads (classify js transport frame c)
  unfolding classify
  classify-Reads frame c h =
      go (str_eq frame.event (codes "phx_reply")) (str_eq frame.event (codes "phx_error"))
        (str_eq frame.event (codes "phx_close")) refl refl refl
        (is_same frame.msg_ref c.heartbeat_ref) frame.msg_ref (is_other c.topic frame.topic)
    where
      go :
          (is_reply is_error is_close : Bool)
          → str_eq frame.event (codes "phx_reply") ≡ is_reply
          → str_eq frame.event (codes "phx_error") ≡ is_error
          → str_eq frame.event (codes "phx_close") ≡ is_close
          → (beat : Bool) (msg_ref : Option Str) (other : Bool)
          → Reads (
              if is_reply
              then if beat then (ok consumed, record c { heartbeat_ref = none }) else elim msg_ref [
                | none ↦ (err (protocol (codes "phx_reply has no ref")), c)
                | some r ↦ (ok (reply r (response_of js frame.payload)), c)
              ]
              else if is_error
              then (err (protocol (codes "channel errored: " ++ js.display frame.payload)), c)
              else if is_close
              then (err closed, c)
              else if other
              then (ok consumed, c)
              else (ok (broadcast (record { event = frame.event; payload = frame.payload })), c))
      go true q x e e' e'' true m o = record { both = h.both; messages = h.messages }
      go true q x e e' e'' false none o = h
      go true q x e e' e'' false (some r) o = h
      go false true x e e' e'' b m o = h
      go false false true e e' e'' b m o = h
      go false false false e e' e'' b m true = h
      go false false false e e' e'' b m false = (h, rw (e, e', e'') refl)

  await_frame-Keeps :
      (wanted : Str) (k : Result (Error crates) (Classified (Error crates) crates.Value) × Client)
      (w : World)
      → Reads k
      → RoundKeeps IsClient AnyValue (await_frame js transport wanted k w)
  unfolding await_frame
  await_frame-Keeps wanted (err e, c) w h = (h, tt)
  await_frame-Keeps wanted (ok (reply r response), c) w h = go (str_eq r wanted) response
    where
      go :
          (b : Bool) (v : Result (Error crates) crates.Value)
          → RoundKeeps IsClient AnyValue (if b then finished v c w else again c w)
      go true (ok v) = (h, tt)
      go true (err e) = (h, tt)
      go false v = h
  await_frame-Keeps wanted (ok (broadcast b), c) w (h, m) = record {
    both = h.both;
    messages = All-snoc IsMessage c.pending b h.messages m;
  }
  await_frame-Keeps wanted (ok consumed, c) w h = h

  next_frame-Keeps :
      (k : Result (Error crates) (Classified (Error crates) crates.Value) × Client) (w : World)
      → Reads k
      → RoundKeeps IsClient IsAnswer (next_frame js transport k w)
  unfolding next_frame
  next_frame-Keeps (err e, c) w h = (h, tt)
  next_frame-Keeps (ok (reply r response), c) w h = h
  next_frame-Keeps (ok (broadcast b), c) w h = h
  next_frame-Keeps (ok consumed, c) w h = h

  await_received-Keeps :
      (wanted : Str) (c : Client) (received : Option (Result (Error crates) (Option Str)) × World)
      → IsClient c
      → RoundKeeps IsClient AnyValue (await_received js transport wanted c received)
  unfolding await_received await_read
  await_received-Keeps wanted c (none, w) h = (h, tt)
  await_received-Keeps wanted c (some r, w) h = go (read_frame js r)
    where
      go :
          (f : Result (Error crates) (Frame crates.Value))
          → RoundKeeps IsClient AnyValue (await_read js transport wanted c f w)
      go (err e) = (h, tt)
      go (ok frame) =
          await_frame-Keeps wanted (classify js transport frame c) w (classify-Reads frame c h)

  pub next_received-Keeps :
      (c : Client) (received : Option (Result (Error crates) (Option Str)) × World)
      → IsClient c
      → RoundKeeps IsClient IsAnswer (next_received js transport c received)
  unfolding next_received next_read
  next_received-Keeps c (none, w) h = h
  next_received-Keeps c (some r, w) h = go (read_frame js r)
    where
      go :
          (f : Result (Error crates) (Frame crates.Value))
          → RoundKeeps IsClient IsAnswer (next_read js transport c f w)
      go (err e) = (h, tt)
      go (ok frame) = next_frame-Keeps (classify js transport frame c) w (classify-Reads frame c h)

  pub await_round-Keeps :
      (wanted : Str) (deadline : ℕ) (c : Client) (w : World)
      → IsClient c
      → RoundKeeps IsClient AnyValue (await_round js transport wanted deadline c w)
  unfolding await_round
  await_round-Keeps wanted deadline c w h =
      go (leb deadline (transport.now w)) (transport.recv_within _ w)
    where
      go :
          (b : Bool) (received : Option (Result (Error crates) (Option Str)) × World)
          → RoundKeeps IsClient AnyValue (
              if b
              then finished (err (timeout (codes "Phoenix reply"))) c w
              else await_received js transport wanted c received)
      go true received = (h, tt)
      go false received = await_received-Keeps wanted c received h
