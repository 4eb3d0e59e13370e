-- ===== src/AutoAnnounce/Examples.antt =====
-- Which ports are announced.
use rtpmidid.Common.{◌≡◌, refl, [], ◌∷◌, true, false, some, none}
use rtpmidid.Text.{codes, same_text}
use rtpmidid.Settings.{AlsaHwAutoExport, hardware}
use rtpmidid.Sequencer.{type_hardware, SeqPort, fine, connect_to, connect_from}
use rtpmidid.AutoAnnounce.{is_announced, announce}

abbrev not_through : AlsaHwAutoExport
not_through = record {
  name_positive = none;
  name_negative = some (codes "Midi Through");
  type = hardware;
}

keyboard_announced : is_announced same_text not_through (codes "Keys") type_hardware ≡ true
unfolding is_announced same_text
keyboard_announced = refl

through_left_out : is_announced same_text not_through (codes "Midi Through") type_hardware ≡ false
unfolding is_announced same_text
through_left_out = refl

abbrev keyboard : SeqPort
keyboard = record { client = 20; port = 0 }

both_directions :
    (announce (λ s. fine) 130 keyboard 2 []).0
    ≡ connect_from 2 keyboard ∷ connect_to 2 keyboard ∷ []
unfolding announce
both_directions = refl
