-- ===== src/Peer/Receive.antt =====
-- lib/rtppeer.cpp: a datagram comes in at one of the two ports.
use rtpmidid.Common.{ℕ, List, ◌∷◌, Bool, false, ◌==◌, leb, ◌&&◌}
use rtpmidid.Bytes.{Reader, bytes, size}
use rtpmidid.Peer.{Port, midi_port, control_port, M, ◌>>=◌, pure, choose, get_buffer, Clock}
use rtpmidid.Peer.Commands.{parse_command, parse_feedback}
use rtpmidid.Peer.Midi.{parse_midi}

-- `start[0] == 0xFF && start[1] == 0xFF`
abbrev has_signature : List ℕ → Bool
has_signature (a ∷ b ∷ rest) = a == 0xFF && b == 0xFF
has_signature _ = false

abbrev has_feedback_signature : List ℕ → Bool
has_feedback_signature (a ∷ b ∷ c ∷ d ∷ rest) = a == 0xFF && b == 0xFF && c == 0x52 && d == 0x53
has_feedback_signature _ = false

unfoldable pub is_command : Reader → Bool
is_command r = leb 16 (size r) && has_signature (bytes r)

unfoldable pub is_feedback : Reader → Bool
is_feedback r = leb 12 (size r) && has_feedback_signature (bytes r)

unfoldable pub data_ready : Clock → Port → M (Unit {0})
unfolding is_command is_feedback
data_ready c control_port = do
  r ← get_buffer
  choose (is_command r) (parse_command c control_port)
      (choose (is_feedback r) parse_feedback (pure tt))
data_ready c midi_port = do
  r ← get_buffer
  choose (is_command r) (parse_command c midi_port) parse_midi
