-- ===== src/Client/Game/Outcomes.antt =====
-- What a game client hands to its caller.
use burble.Base.{
  Bool, true, false, Option, none, some, Str, codes, Result, ok, err, str_eq, str_eq_iff, ◌≡◌, ◌≢◌,
  refl, inl, inr, ◌⊎◌, if◌then◌else◌, arith, sym, ◌∙◌, ◌++◌,
}
use burble.Client.Error.{Crates, Error, protocol}
use burble.Client.Frame.{Broadcast, opt_or}
use burble.Client.Game.{
  RelayOutcome, relayed, dropped, GameBroadcast, peer_joined, peer_left, command, event, other,
  is_true, has_some, string_at, bool_at, require_string_tag, relay_outcome, and_read, relay,
  send_command, classify_peer, classify_broadcast,
}
use burble.Client.Interface.{Json, Transport}
use burble.Client.Phoenix
use burble.Client.Phoenix.{PhoenixClient}

same : {a b : Str} → str_eq a b ≡ true → a ≡ b
same {a = a} {b = b} e = (str_eq_iff a b).0 e

apart : {a b : Str} → str_eq a b ≡ false → a ≢ b
apart {a = a} {b = b} e is = ground (arith, str_eq_iff a b)

differs : {a b c : Str} → a ≡ b → str_eq b c ≡ false → a ≢ c
differs is unequal is' = apart unequal (sym is ∙ is')

module _ {crates : Crates} {World : Type 0} (js : Json crates)
    (transport : Transport World crates) where
  -- A view of a broadcast says what the broadcast says.
  abbrev pub ViewOf : Broadcast crates.Value → GameBroadcast crates.Value → Type 0
  ViewOf b (peer_joined role) =
      (b.event ≡ codes "peer_joined")
      × (string_at js transport (codes "role") b.payload ≡ some role)
  ViewOf b (peer_left role) =
      (b.event ≡ codes "peer_left") × (string_at js transport (codes "role") b.payload ≡ some role)
  ViewOf b (command v) = (b.event ≡ codes "command") × (v ≡ b.payload)
  ViewOf b (event v) = (b.event ≡ codes "event") × (v ≡ b.payload)
  ViewOf b (other m) =
      (m ≡ b)
      × (b.event ≢ codes "command")
      × (b.event ≢ codes "event")
      × (((b.event ≢ codes "peer_joined") × (b.event ≢ codes "peer_left"))
          ⊎ (string_at js transport (codes "role") b.payload ≡ none))

  -- A broadcast is read as the event that it names: a peer only with the role that it carries as text, a
  -- command and an event with the whole payload. Any other, and a peer with no such role, is handed on whole.
  pub classify_broadcast-ViewOf :
      (b : Broadcast crates.Value) → ViewOf b (classify_broadcast js transport b)
  unfolding classify_broadcast str_eq
  classify_broadcast-ViewOf b =
      go (str_eq b.event (codes "peer_joined")) (str_eq b.event (codes "peer_left"))
        (str_eq b.event (codes "command")) (str_eq b.event (codes "event")) refl refl refl refl
        (string_at js transport (codes "role") b.payload) refl
    where
      go :
          (joins leaves commands events : Bool)
          → str_eq b.event (codes "peer_joined") ≡ joins
          → str_eq b.event (codes "peer_left") ≡ leaves
          → str_eq b.event (codes "command") ≡ commands
          → str_eq b.event (codes "event") ≡ events
          → (role : Option Str) → string_at js transport (codes "role") b.payload ≡ role
          → ViewOf b (
              if joins
              then classify_peer js transport role peer_joined b
              else if leaves
              then classify_peer js transport role peer_left b
              else if commands
              then command b.payload
              else if events
              then event b.payload
              else other b)
      go true l c e is _ _ _ (some role) r = (same is, r)
      go true l c e is _ _ _ none r = (refl, differs (same is) refl, differs (same is) refl, inr r)
      go false true c e _ is _ _ (some role) r = (same is, r)
      go false true c e _ is _ _ none r =
          (refl, differs (same is) refl, differs (same is) refl, inr r)
      go false false true e _ _ is _ role r = (same is, refl)
      go false false false true _ _ _ is role r = (same is, refl)
      go false false false false j l c e role r = (refl, apart c, apart e, inl (apart j, apart l))

  -- The answer says that the value was relayed, or it does not and its reason is reported.
  abbrev pub Says : crates.Value → RelayOutcome → Type 0
  Says response relayed = bool_at js transport (codes "relayed") response ≡ some true
  Says response (dropped reason) =
      (bool_at js transport (codes "relayed") response ≢ some true)
      × (reason
          ≡ opt_or (codes "server did not provide a reason")
              (string_at js transport (codes "reason") response))

  -- The outcome of a value that is pushed.
  abbrev pub PushedAs :
      (name : Str) (value : crates.Value) (c : PhoenixClient crates.Value) (w : World)
      → Option (Result (Error crates) RelayOutcome × PhoenixClient crates.Value × World)
      → Type 0
  PushedAs name value c w none = Phoenix.push js transport name value c w ≡ none
  PushedAs name value c w (some (err e, c', w')) =
      Phoenix.push js transport name value c w ≡ some (err e, c', w')
  PushedAs name value c w (some (ok outcome, c', w')) =
      (response : crates.Value) × (Phoenix.push js transport name value c w
        ≡ some (ok response, c', w'))
      × Says response outcome

  -- The refusal of a value that has no text under the tag.
  abbrev pub refusal : (tag kind : Str) → Error crates
  refusal tag kind =
      protocol (kind ++ codes " must be an object carrying a string \"" ++ tag ++ codes "\" tag")

  -- A value with no text under the tag is refused and nothing changes; any other is pushed.
  abbrev pub RelayedAs :
      (tag kind name : Str) (value : crates.Value) (c : PhoenixClient crates.Value) (w : World)
      → Option Str
      → Option (Result (Error crates) RelayOutcome × PhoenixClient crates.Value × World)
      → Type 0
  RelayedAs tag kind name value c w none r = r ≡ some (err (refusal tag kind), c, w)
  RelayedAs tag kind name value c w (some text) r = PushedAs name value c w r

  relay_outcome-Says :
      (response : crates.Value) → Says response (relay_outcome js transport response)
  unfolding relay_outcome
  relay_outcome-Says response = go (bool_at js transport (codes "relayed") response) refl
    where
      go :
          (b : Option Bool)
          → bool_at js transport (codes "relayed") response ≡ b
          → Says response (
              if is_true b
              then relayed
              else dropped (
                  opt_or
                    (codes "server did not provide a reason")
                    (string_at js transport (codes "reason") response)))
      go (some true) e = e
      go (some false) e = ((λ e'. cc), refl)
      go none e = ((λ e'. cc), refl)

  relay-RelayedAs :
      (tag kind name : Str) (value : crates.Value) (c : PhoenixClient crates.Value) (w : World)
      → RelayedAs tag kind name value c w
          (string_at js transport tag value)
          (relay js transport (require_string_tag js transport value tag kind) name value c w)
  unfolding require_string_tag relay and_read
  relay-RelayedAs tag kind name value c w = go (string_at js transport tag value)
    where
      go_pushed :
          (o : Option (Result (Error crates) crates.Value × PhoenixClient crates.Value × World))
          → Phoenix.push js transport name value c w ≡ o
          → PushedAs name value c w
              (and_read js transport (λ response. ok (relay_outcome js transport response)) o)
      go_pushed none e = e
      go_pushed (some (err x, c', w')) e = e
      go_pushed (some (ok response, c', w')) e = (response, e, relay_outcome-Says response)

      go :
          (s : Option Str)
          → RelayedAs tag kind name value c w s (
              relay js transport
                (if has_some s then ok tt else err (refusal tag kind))
                name
                value
                c
                w)
      go none = refl
      go (some s) = go_pushed (Phoenix.push js transport name value c w) refl

  -- A command with no text under `cmd` is refused with the error that says so, and neither the client nor the world changes. Any other is
  -- pushed, and is reported as relayed if the server's answer says so, and otherwise as dropped, with the
  -- reason of the answer; an error of the push is handed on.
  pub send_command-RelayedAs :
      (value : crates.Value) (c : PhoenixClient crates.Value) (w : World)
      → RelayedAs
          (codes "cmd")
          (codes "command")
          (codes "command")
          value
          c
          w
          (string_at js transport (codes "cmd") value)
          (send_command js transport value c w)
  unfolding send_command
  send_command-RelayedAs value c w =
      relay-RelayedAs (codes "cmd") (codes "command") (codes "command") value c w
