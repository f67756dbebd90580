-- ===== src/Client/Phoenix/Reachable.antt =====
-- The clients that the calls lead to.
use burble.Base.{ℕ, Option, some, Str, Result, ◌≡◌}
use burble.Client.Error.{Crates, Error}
use burble.Client.Frame.{Broadcast}
use burble.Client.Interface.{Json, Transport}
use burble.Client.Phoenix.{PhoenixClient, next_broadcast, join, push, leave, new_client}
use burble.Client.Phoenix.Invariant.{IsClient}

module _ {crates : Crates} {World : Type 0} (js : Json crates)
    (transport : Transport World crates) where
  abbrev State : Type 0
  State = PhoenixClient crates.Value

  abbrev SendResult : Type 0
  SendResult = Result (Error crates) Unit × State × World

  abbrev SendKeeps : SendResult → Type 0
  SendKeeps (r, c, w) = IsClient c

  -- The clients and the worlds that calls lead to, whatever they return.
  pub data Reaches : State → World → Type 0 where
    connected : (w : World) → Reaches (new_client (transport.now w)) w
    joins :
        (topic : Str) (params : crates.Value) (c c' : State) (w w' : World)
        (r : Result (Error crates) crates.Value)
        → Reaches c w
        → join js transport topic params c w ≡ some (r, c', w')
        → Reaches c' w'
    pushes :
        (event : Str) (payload : crates.Value) (c c' : State) (w w' : World)
        (r : Result (Error crates) crates.Value)
        → Reaches c w
        → push js transport event payload c w ≡ some (r, c', w')
        → Reaches c' w'
    waits :
        (wait : ℕ) (c c' : State) (w w' : World)
        (r : Result (Error crates) (Option (Broadcast crates.Value)))
        → Reaches c w
        → next_broadcast js transport wait c w ≡ some (r, c', w')
        → Reaches c' w'
    leaves :
        (c c' : State) (w w' : World)
        → Reaches c w
        → leave js transport c w ≡ (c', w')
        → Reaches c' w'
