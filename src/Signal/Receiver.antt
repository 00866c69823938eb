-- ===== src/Signal/Receiver.antt =====
-- crates/signal-client/src/receiver.rs: the rounds of the two streams. A round takes the accounts and
-- the time of their last refresh, and gives the messages that it yields; times are in seconds.
use signal_bot_tee.Common.{
  ℕ, ◌-◌, String, Bool, true, false, ◌||◌, leb, Option, none, some, List, [], ◌∷◌, ◌++◌, Result, ok,
  err, if◌then◌else◌,
}
use signal_bot_tee.Chat.Types.{BotMessage}
use signal_bot_tee.Signal.Client.{SignalError, IncomingMessage, from_incoming}

-- A frame of a WebSocket: a text, with the message that serde_json makes of it, another kind of
-- frame, or an error of the connection
pub data Frame : Type 0 where
  text : Option IncomingMessage → Frame
  other_frame failure : Frame

-- What the streams call: `connect` gives the frames until the connection ends, each with the time at
-- which it is read.
pub record Receiving (W : Type 0) : Type 0 where
  pub now : W → ℕ
  pub sleep : ℕ → W → W
  pub list_accounts : W → Result SignalError (List String) × W
  pub receive : String → W → Result SignalError (List IncomingMessage) × W
  pub connect : String → W → Option (List (ℕ × Frame)) × W

pub record Accounts : Type 0 where
  pub accounts : List String
  pub last_refresh : ℕ

abbrev pub account_refresh_interval : ℕ
account_refresh_interval = 300

-- `last_account_refresh.elapsed() >= self.account_refresh_interval`
abbrev pub is_due : ℕ → ℕ → Bool
is_due last_refresh now = leb account_refresh_interval (now - last_refresh)

abbrev pub is_empty : List String → Bool
is_empty [] = true
is_empty (a ∷ rest) = false

-- `filter_map(BotMessage::from_incoming)`
unfoldable pub bot_messages : List IncomingMessage → List BotMessage
unfolding from_incoming
bot_messages [] = []
bot_messages (m ∷ ms) =
    let rest = bot_messages ms in elim (from_incoming m) [ none ↦ rest | some b ↦ b ∷ rest ]

-- What a frame yields
unfoldable pub frame_messages : Frame → List BotMessage
unfolding bot_messages
frame_messages (text (some m)) = bot_messages (m ∷ [])
frame_messages (text none) = []
frame_messages other_frame = []
frame_messages failure = []

abbrev pub is_failure : Frame → Bool
is_failure failure = true
is_failure _ = false

-- The loop over the frames of one connection
unfoldable pub read_frames : ℕ → List (ℕ × Frame) → List BotMessage
unfolding frame_messages
read_frames last_refresh [] = []
read_frames last_refresh ((at, f) ∷ fs) =
    let rest = frame_messages f ++ read_frames last_refresh fs in
    if is_due last_refresh at || is_failure f then [] else rest

module _ {W : Type 0} (r : Receiving W) where
  -- The refresh at the beginning of a round; `none` is the wait and the `continue` after an error.
  unfoldable pub refresh : Accounts → W → Option Accounts × W
  refresh s w =
      if is_empty s.accounts || is_due s.last_refresh (r.now w)
      then (let (answer, w') = r.list_accounts w in
          elim answer [
            | ok accounts ↦ (some (record { accounts = accounts; last_refresh = r.now w' }), w')
            | err e ↦ if is_empty s.accounts then (none, r.sleep 60 w') else (some s, w')
          ])
      else (some s, w)

  unfoldable pub read_each : ℕ → List String → W → List BotMessage × W
  unfolding read_frames
  read_each last_refresh [] w = ([], w)
  read_each last_refresh (account ∷ accounts) w =
      let (frames, w1) = r.connect account w in
      let (later, w2) = read_each last_refresh accounts w1 in
      ((elim frames [ none ↦ [] | some fs ↦ read_frames last_refresh fs ]) ++ later, w2)

  unfoldable pub poll_each : List String → W → List BotMessage × W
  unfolding bot_messages
  poll_each [] w = ([], w)
  poll_each (account ∷ accounts) w =
      let (answer, w1) = r.receive account w in
      let (later, w2) = poll_each accounts w1 in
      ((elim answer [ ok ms ↦ bot_messages ms | err e ↦ [] ]) ++ later, w2)

  -- The rest of a round, for what each account gives and the pause at the end
  abbrev pub go_round :
      (Accounts → W → List BotMessage × W)
      → ℕ
      → Option Accounts × W
      → Accounts
      → List BotMessage × (Accounts × W)
  go_round each pause (none, w) s = ([], (s, w))
  go_round each pause (some s', w) s =
      if is_empty s'.accounts
      then ([], (s', r.sleep 60 w))
      else (let (messages, w') = each s' w in (messages, (s', r.sleep pause w')))

  unfoldable pub websocket_round : Accounts → W → List BotMessage × (Accounts × W)
  unfolding refresh read_each
  websocket_round s w =
      go_round (λ s' w'. read_each s'.last_refresh s'.accounts w') 5 (refresh s w) s

  unfoldable pub polling_round : ℕ → Accounts → W → List BotMessage × (Accounts × W)
  unfolding refresh poll_each
  polling_round poll_interval s w =
      go_round (λ s' w'. poll_each s'.accounts w') poll_interval (refresh s w) s
