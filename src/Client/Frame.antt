-- ===== src/Client/Frame.antt =====
-- client/rust/src/phoenix.rs: the frames of the Phoenix V2 protocol, and what they are read as.
use burble.Base.{
  Bool, false, List, [], ◌∷◌, ◌++◌, Option, none, some, Str, codes, Result, ok, err, ◌>>=◌, map_err,
  str_eq, length, if◌then◌else◌,
}
use burble.Base.Decimal.{to_string}
use burble.Client.Error.{Crates, Error, protocol, rejected, closed}
use burble.Client.Interface.{Json}

pub record Broadcast (Value : Type 0) : Type 0 where
  pub event : Str
  pub payload : Value

-- The tuple that `read_frame` returns.
pub record Frame (Value : Type 0) : Type 0 where
  pub msg_ref : Option Str
  pub topic : Str
  pub event : Str
  pub payload : Value

pub data Classified (E Value : Type 0) : Type 0 where
  reply : (msg_ref : Str) (response : Result E Value) → Classified E Value
  broadcast : Broadcast Value → Classified E Value
  consumed : Classified E Value

abbrev pub opt_or : {A : Type 0} → A → Option A → A
opt_or a none = a
opt_or a (some b) = b

abbrev pub and_then : {A B : Type 0} → Option A → (A → Option B) → Option B
and_then none k = none
and_then (some a) k = k a

abbrev pub is_same : Option Str → Option Str → Bool
unfolding str_eq
is_same (some a) (some b) = str_eq a b
is_same _ _ = false

module _ {crates : Crates} (js : Json crates) where
  abbrev opt_string : Option Str → crates.Value
  opt_string none = js.null
  opt_string (some s) = js.string s

  -- `json!([join_ref, msg_ref, topic, event, payload])` as text.
  unfoldable pub frame_text :
      Option Str → (msg_ref topic event : Str) → crates.Value → Result (Error crates) Str
  frame_text join_ref msg_ref topic event payload =
      map_err (λ e. Error.json e)
        (js.to_text (
          js.array (
            opt_string join_ref
            ∷ js.string msg_ref
            ∷ js.string topic
            ∷ js.string event
            ∷ payload
            ∷ [])))

  unfoldable pub take_string : crates.Value → (name : Str) → Result (Error crates) Str
  take_string value name = elim (js.as_str value) [
    | some s ↦ ok s
    | none ↦ err (protocol (codes "frame " ++ name ++ codes " is not a string"))
  ]

  -- `read_frame`, behind the transport.
  unfoldable pub parts_frame : List crates.Value → Result (Error crates) (Frame crates.Value)
  unfolding take_string to_string
  parts_frame (join_ref ∷ msg_ref ∷ topic ∷ event ∷ payload ∷ []) = do
    event' ← take_string event (codes "event")
    topic' ← take_string topic (codes "topic")
    ok (record { msg_ref = js.as_str msg_ref; topic = topic'; event = event'; payload = payload })
  parts_frame parts =
      err
        (protocol (codes "frame has " ++ to_string (length parts) ++ codes " elements, expected 5"))

  unfoldable pub parse_frame : Str → Result (Error crates) (Frame crates.Value)
  unfolding parts_frame
  parse_frame text = do
    value ← map_err (λ e. Error.json e) (js.from_text text)
    elim (js.as_array value) [
      | none ↦ err (protocol (codes "frame is not an array: " ++ text))
      | some parts ↦ parts_frame parts
    ]

  unfoldable pub read_frame :
      Result (Error crates) (Option Str) → Result (Error crates) (Frame crates.Value)
  unfolding parse_frame
  read_frame (err e) = err e
  read_frame (ok none) = err closed
  read_frame (ok (some text)) = parse_frame text

  -- The status and the response of a reply.
  unfoldable pub response_of : crates.Value → Result (Error crates) crates.Value
  unfolding str_eq
  response_of payload =
      let status = opt_or [] (and_then (js.get (codes "status") payload) js.as_str) in
      let response = opt_or js.null (js.get (codes "response") payload) in
      if str_eq status (codes "ok") then ok response else err (rejected status response)
