-- ===== src/Message.antt =====
-- The voice messages and SysEx messages of the MIDI standard, apart from any code. Its system common
-- and real-time messages are not among them.
use rtpmidid.Common.{ℕ, ◌≤◌, ◌<◌, ◌⊎◌, List, [], ◌∷◌, ◌++◌, All}

-- A voice message of three or two bytes, or a SysEx with its end byte.
pub data Message : Type 0 where
  voice3 : ℕ → ℕ → ℕ → Message
  voice2 : ℕ → ℕ → Message
  system_exclusive : List ℕ → Message

abbrev pub bytes : Message → List ℕ
bytes (voice3 status a b) = status ∷ a ∷ b ∷ []
bytes (voice2 status a) = status ∷ a ∷ []
bytes (system_exclusive body) = 0xF0 ∷ (body ++ 0xF7 ∷ [])

-- Notes, key pressure, controls and bends have two data bytes; programs and channel pressure one.
-- The bytes of a SysEx are data bytes.
abbrev pub IsMessage : Message → Type 0
IsMessage (voice3 status a b) =
    (0x80 ≤ status) × (status < 0xF0) × ((status < 0xC0) ⊎ (0xE0 ≤ status))
IsMessage (voice2 status a) = (0xC0 ≤ status) × (status < 0xE0)
IsMessage (system_exclusive body) = All (λ b. b < 0x80) body

-- Messages one after the other.
abbrev pub all_bytes : List Message → List ℕ
all_bytes [] = []
all_bytes (m ∷ ms) = bytes m ++ all_bytes ms

abbrev pub all_packets : List Message → List (List ℕ)
all_packets [] = []
all_packets (m ∷ ms) = bytes m ∷ all_packets ms
