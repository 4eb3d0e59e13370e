-- ===== src/Normalizer/Examples.antt =====
-- src/midi_normalizer.cpp on concrete streams: the theorems of Normalizer.Messages and
-- Normalizer.Stall where their conditions hold.
use rtpmidid.Common.{ℕ, ◌≡◌, refl, List, [], ◌∷◌, inl, All, arith}
use rtpmidid.Message.{Message, voice3, voice2, system_exclusive, IsMessage, all_packets}
use rtpmidid.Normalizer.{initial}
use rtpmidid.Normalizer.Messages.{normalize_all, normalize_all-messages}

-- A note on, a SysEx and a program change, cut in the middle of each.
abbrev played : List Message
played = voice3 0x90 60 127 ∷ system_exclusive (1 ∷ 2 ∷ []) ∷ voice2 0xC3 5 ∷ []

abbrev cut : List (List ℕ)
cut = (0x90 ∷ 60 ∷ []) ∷ (127 ∷ 0xF0 ∷ 1 ∷ []) ∷ [] ∷ (2 ∷ 0xF7 ∷ 0xC3 ∷ []) ∷ (5 ∷ []) ∷ []

played-IsMessage : All IsMessage played
played-IsMessage = (
  (omega arith, omega arith, inl (omega arith)),
  ((omega arith, (omega arith, tt)), ((omega arith, omega arith), tt)),
)

normalize_all-messages_example : normalize_all initial cut ≡ (initial, all_packets played)
normalize_all-messages_example = normalize_all-messages played cut played-IsMessage refl
