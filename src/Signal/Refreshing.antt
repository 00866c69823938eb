-- ===== src/Signal/Refreshing.antt =====
-- What the refresh of the accounts costs the WebSocket stream.
use signal_bot_tee.Common.{ℕ, ◌≡◌, refl, ap, true, false, List, [], ◌∷◌, ◌++◌}
use signal_bot_tee.Chat.Types.{BotMessage}
use signal_bot_tee.Signal.Receiver.{Frame, is_due, is_failure, frame_messages, read_frames}

-- Frames that are read before the refresh is due, none of them an error
abbrev pub IsEarly : ℕ → List (ℕ × Frame) → Type 0
IsEarly last [] = Unit {0}
IsEarly last ((at, f) ∷ fs) = (is_due last at ≡ false) × (is_failure f ≡ false) × IsEarly last fs

abbrev pub all_messages : List (ℕ × Frame) → List BotMessage
all_messages [] = []
all_messages ((at, f) ∷ fs) = frame_messages f ++ all_messages fs

-- The frame that is read when a refresh of the accounts is due ends the connection and is dropped
-- unseen: the stream yields what the frames before it hold, whatever it and the later ones hold.
pub read_frames-due :
    (last at : ℕ) (early : List (ℕ × Frame)) (f : Frame) (later : List (ℕ × Frame))
    → IsEarly last early
    → is_due last at ≡ true
    → read_frames last (early ++ (at, f) ∷ later) ≡ all_messages early
unfolding read_frames
read_frames-due last at [] f later e due = rw due refl
read_frames-due last at ((n, g) ∷ early) f later (not_due, sound, e) due =
    rw (not_due, sound)
      (ap (λ ms. frame_messages g ++ ms) (read_frames-due last at early f later e due))
