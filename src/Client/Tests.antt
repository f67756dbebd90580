-- ===== src/Client/Tests.antt =====
-- Servers that the properties of the client are tried on.
use burble.Base.{
  ℕ, suc, ◌+◌, ◌<◌, List, [], ◌∷◌, map, Option, none, some, Str, codes, Result, ok, str_eq, arith,
  if◌then◌else◌,
}
use burble.Client.Error.{Crates, Error}
use burble.Client.Frame.{Broadcast}
use burble.Client.Game.{classify_broadcast, send_command, string_at}
use burble.Client.Game.Outcomes.{
  ViewOf, RelayedAs, classify_broadcast-ViewOf, send_command-RelayedAs,
}
use burble.Client.Interface.{Json, Transport}
use burble.Client.Phoenix.{PhoenixClient, new_client, join, push, next_broadcast}
use burble.Client.Phoenix.Ending.{IsTimed, IsOver}
use burble.Client.Phoenix.Ending.Calls.{calls-IsOver}

-- Values: a text, a frame of texts, or an answer.
data Doc : Type 0 where
  text : Str → Doc
  frame : List Str → Doc
  answer : Doc

abbrev crates : Crates
crates = record {
  UrlError = Str;
  WsError = Str;
  TransportError = Str;
  JsonError = Str;
  Value = Doc;
}

abbrev doc_of : Str → Doc
unfolding str_eq
doc_of s = if str_eq s (codes "ok") then answer else text s

abbrev views : Doc → Option (List Doc)
views (frame parts) = some (map doc_of parts)
views d = none

abbrev text_of : Doc → Option Str
text_of (text s) = some s
text_of d = none

abbrev field : Str → Doc → Option Doc
unfolding str_eq
field key answer = if str_eq key (codes "status") then some (text (codes "ok")) else some answer
field key d = none

-- `r` is the reply to the first frame, `b` is a broadcast.
abbrev read : Str → Result Str Doc
unfolding str_eq
read s =
    if str_eq s (codes "r")
    then ok (frame (codes "1" ∷ codes "1" ∷ codes "game:s" ∷ codes "phx_reply" ∷ codes "ok" ∷ []))
    else ok (frame (codes "1" ∷ codes "-" ∷ codes "game:s" ∷ codes "peer_joined" ∷ codes "x" ∷ []))

abbrev js : Json crates
js = record {
  to_text = λ v. ok (codes "frame");
  from_text = read;
  display = λ v. [];
  as_array = views;
  as_str = text_of;
  as_bool = λ v. none;
  get = field;
  null = text [];
  string = text;
  array = λ l. answer;
  object = λ l. answer;
}

-- The world is the time and the texts that are going to come.
abbrev Server : Type 0
Server = ℕ × List Str

abbrev receive : ℕ → Server → Option (Result (Error crates) (Option Str)) × Server
receive d (time, []) = (none, (time + suc d, []))
receive d (time, s ∷ later) = (some (ok (some s)), (time + 1, later))

abbrev server : Transport Server crates
server = record {
  now = λ w. w.0;
  send_text = λ s w. (ok tt, w);
  recv_within = receive;
  close = λ w. (ok tt, w);
}

received_later : (d : ℕ) (w : Server) → w.0 < (receive d w).1.0
received_later d (time, []) = omega arith
received_later d (time, s ∷ later) = omega arith

timed : IsTimed js server
timed = record { send_later = λ s w. omega arith; recv_later = received_later }

abbrev script : Server
script = (0, codes "b" ∷ codes "r" ∷ [])

abbrev before_join : PhoenixClient Doc
before_join = new_client 0

calls-IsOver_example :
    IsOver (join js server (codes "game:s") answer before_join script)
    × IsOver (push js server (codes "game:s") answer before_join script)
    × IsOver (next_broadcast js server 5 before_join script)
calls-IsOver_example = calls-IsOver js server timed (codes "game:s") answer 5 before_join script

abbrev after_join : PhoenixClient Doc
after_join = record {
  topic = some (codes "game:s");
  join_ref = some (codes "1");
  next_ref = 1;
  pending = record { event = codes "peer_joined"; payload = text (codes "x") } ∷ [];
  heartbeat_ref = none;
  last_send = 0;
}

abbrev peer : Broadcast Doc
peer = record { event = codes "peer_joined"; payload = text (codes "x") }

classify_broadcast-ViewOf_example : ViewOf js server peer (classify_broadcast js server peer)
classify_broadcast-ViewOf_example = classify_broadcast-ViewOf js server peer

send_command-RelayedAs_example :
    RelayedAs js server
      (codes "cmd")
      (codes "command")
      (codes "command")
      answer
      after_join
      script
      (string_at js server (codes "cmd") answer)
      (send_command js server answer after_join script)
send_command-RelayedAs_example = send_command-RelayedAs js server answer after_join script
