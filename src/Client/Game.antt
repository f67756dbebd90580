-- ===== src/Client/Game.antt =====
-- client/rust/src/game.rs: a seat in a game session, on `PhoenixClient`. The endpoint's URL (crate url) and
-- the opening of a socket are parameters.
pub mod Outcomes
use burble.Base.{
  ℕ, Bool, true, false, List, [], ◌∷◌, ◌++◌, Option, none, some, Str, codes, Result, ok, err,
  str_eq, if◌then◌else◌,
}
use burble.Client.Error
use burble.Client.Error.{Crates, Error, protocol}
use burble.Client.Frame.{Broadcast, and_then, opt_or}
use burble.Client.Interface.{Json, Transport}
use burble.Client.Phoenix
use burble.Client.Phoenix.{PhoenixClient, new_client}

pub data Auth : Type 0 where
  guest : (display_name : Str) → Auth
  token : Str → Auth

pub record JoinConfig : Type 0 where
  pub endpoint : Str
  pub session_id : Str
  pub game_id : Str
  pub role : Str
  pub auth : Auth

pub data RelayOutcome : Type 0 where
  relayed : RelayOutcome
  dropped : (reason : Str) → RelayOutcome

pub data GameBroadcast (Value : Type 0) : Type 0 where
  peer_joined peer_left : (role : Str) → GameBroadcast Value
  command event : Value → GameBroadcast Value
  other : Broadcast Value → GameBroadcast Value

abbrev pub is_true : Option Bool → Bool
is_true (some true) = true
is_true _ = false

abbrev pub has_some : {A : Type 0} → Option A → Bool
has_some (some a) = true
has_some none = false

module _ {crates : Crates} {World : Type 0} (js : Json crates)
    (transport : Transport World crates) where
  -- `value.get(key).and_then(Value::as_str)`
  abbrev pub string_at : (key : Str) → crates.Value → Option Str
  string_at key value = and_then (js.get key value) js.as_str

  abbrev pub bool_at : (key : Str) → crates.Value → Option Bool
  bool_at key value = and_then (js.get key value) js.as_bool

  unfoldable pub require_string_tag : crates.Value → (tag kind : Str) → Result (Error crates) Unit
  require_string_tag value tag kind =
      if has_some (string_at tag value)
      then ok tt
      else err (
          protocol
            (kind ++ codes " must be an object carrying a string \"" ++ tag ++ codes "\" tag"))

  -- The end of `send_command` and of `send_event`.
  unfoldable pub relay_outcome : crates.Value → RelayOutcome
  relay_outcome response =
      if is_true (bool_at (codes "relayed") response)
      then relayed
      else dropped
          (opt_or (codes "server did not provide a reason") (string_at (codes "reason") response))

  -- A function of the response, and `?`.
  unfoldable pub and_read :
      {A B C : Type 0}
      → (A → Result (Error crates) B)
      → Option (Result (Error crates) A × C × World)
      → Option (Result (Error crates) B × C × World)
  and_read k none = none
  and_read k (some (err e, c, w)) = some (err e, c, w)
  and_read k (some (ok a, c, w)) = some (k a, c, w)

  -- Behind the check of the tag.
  unfoldable pub relay :
      Result (Error crates) Unit
      → (name : Str) → crates.Value
      → PhoenixClient crates.Value
      → World
      → Option (Result (Error crates) RelayOutcome × PhoenixClient crates.Value × World)
  unfolding relay_outcome and_read
  relay (err e) name value c w = some (err e, c, w)
  relay (ok _) name value c w =
      and_read (λ response. ok (relay_outcome response)) (Phoenix.push js transport name value c w)

  unfoldable pub send_command :
      crates.Value
      → PhoenixClient crates.Value
      → World
      → Option (Result (Error crates) RelayOutcome × PhoenixClient crates.Value × World)
  unfolding require_string_tag relay
  send_command value c w =
      relay (require_string_tag value (codes "cmd") (codes "command")) (codes "command") value c w

  unfoldable pub send_event :
      crates.Value
      → PhoenixClient crates.Value
      → World
      → Option (Result (Error crates) RelayOutcome × PhoenixClient crates.Value × World)
  unfolding require_string_tag relay
  send_event value c w =
      relay (require_string_tag value (codes "event") (codes "event")) (codes "event") value c w

  unfoldable pub pong : crates.Value → Result (Error crates) Unit
  pong response =
      if is_true (bool_at (codes "pong") response)
      then ok tt
      else err (protocol (codes "invalid ping response: " ++ js.display response))

  unfoldable pub ping :
      PhoenixClient crates.Value
      → World
      → Option (Result (Error crates) Unit × PhoenixClient crates.Value × World)
  unfolding pong and_read
  ping c w = and_read pong (Phoenix.push js transport (codes "ping") (js.object []) c w)

  unfoldable pub classify_peer :
      Option Str
      → (Str → GameBroadcast crates.Value)
      → Broadcast crates.Value
      → GameBroadcast crates.Value
  classify_peer (some role) peer message = peer role
  classify_peer none peer message = other message

  unfoldable pub classify_broadcast : Broadcast crates.Value → GameBroadcast crates.Value
  unfolding str_eq classify_peer
  classify_broadcast message =
      if str_eq message.event (codes "peer_joined")
      then classify_peer (string_at (codes "role") message.payload) peer_joined message
      else if str_eq message.event (codes "peer_left")
      then classify_peer (string_at (codes "role") message.payload) peer_left message
      else if str_eq message.event (codes "command")
      then command message.payload
      else if str_eq message.event (codes "event")
      then event message.payload
      else other message

  abbrev pub classified : Option (Broadcast crates.Value) → Option (GameBroadcast crates.Value)
  unfolding classify_broadcast
  classified none = none
  classified (some message) = some (classify_broadcast message)

  unfoldable pub next_event :
      (wait : ℕ)
      → PhoenixClient crates.Value
      → World
      → Option (
          Result (Error crates) (Option (GameBroadcast crates.Value))
          × PhoenixClient crates.Value
          × World)
  unfolding and_read
  next_event wait c w =
      and_read (λ message. ok (classified message)) (Phoenix.next_broadcast js transport wait c w)

  abbrev pub leave_game : PhoenixClient crates.Value → World → PhoenixClient crates.Value × World
  leave_game c w = Phoenix.leave js transport c w

  module _ {Url : Type 0} (parse_url : Str → Result crates.UrlError Url)
      (append_pair : (key value : Str) → Url → Url) (url_text : Url → Str)
      (connect : Str → World → Result (Error crates) Unit × World) where
    abbrev pub with_auth : Auth → Url → Url
    with_auth (guest display_name) url =
        append_pair (codes "display_name") display_name
          (append_pair (codes "guest") (codes "true") url)
    with_auth (token t) url = append_pair (codes "token") t url

    unfoldable pub join_game :
        JoinConfig → World → Option (Result (Error crates) (PhoenixClient crates.Value) × World)
    join_game config w = elim (parse_url config.endpoint) [
      | err e ↦ some (err (Error.url e), w)
      | ok url ↦
          let endpoint = with_auth config.auth (append_pair (codes "vsn") (codes "2.0.0") url) in
          let (r, w') = connect (url_text endpoint) w in
          elim r [
            | err e ↦ some (err e, w')
            | ok _ ↦
                elim (Phoenix.join js transport (codes "game:" ++ config.session_id)
                  (js.object (
                    (codes "game", js.string config.game_id)
                    ∷ (codes "role", js.string config.role)
                    ∷ []))
                  (new_client (transport.now w')) w') [
                    | none ↦ none
                    | some (err e, c, w'') ↦ some (err e, w'')
                    | some (ok response, c, w'') ↦ some (ok c, w'')
                  ]
          ]
    ]
