-- ===== src/AlsaNetwork/Examples.antt =====
-- Two sequencer ports that connect to `Network` under one name.
use rtpmidid.Common.{◌≡◌, refl, [], ◌∷◌, arith}
use rtpmidid.Common.Int.{pos}
use rtpmidid.Text.{codes, same_text}
use rtpmidid.Sequencer.{SeqPort}
use rtpmidid.AlsaNetwork.{
  AlsaNetwork, NetworkListener, remove_peer, erase_port, remove_alsa_connection, send_midi_to,
  send_to_port, new_alsa_connection, alsaseq_event, send_midi, find_port,
}
use rtpmidid.AlsaNetwork.Users.{two_users, two_users_lose_server}

abbrev first : SeqPort
first = record { client = 20; port = 0 }

abbrev second : SeqPort
second = record { client = 20; port = 1 }

-- A network with a user of another name.
abbrev drums : NetworkListener
drums = record { peer_id = 7; name = codes "Drums"; use_count = pos 1 }

abbrev pads : SeqPort
pads = record { client = 24; port = 0 }

abbrev in_use : AlsaNetwork
in_use = record { peer_id = 1; aseqpeers = (pads, 7) ∷ []; listeners = drums ∷ [] }

two_users_lose_server_example :
    (remove_alsa_connection first (two_users first second (codes "Keys") 2 3 in_use)
      ≡ (record in_use { aseqpeers = (second, 2) ∷ (pads, 7) ∷ [] }, remove_peer 2 ∷ []))
    × (remove_alsa_connection second (two_users first second (codes "Keys") 2 3 in_use)
        ≡ (record in_use { aseqpeers = (first, 2) ∷ (pads, 7) ∷ [] }, remove_peer 2 ∷ []))
unfolding erase_port same_text
two_users_lose_server_example =
    two_users_lose_server first second (codes "Keys") 2 3 in_use refl ((refl, omega arith), tt)

abbrev unused : AlsaNetwork
unused = record { peer_id = 1; aseqpeers = []; listeners = [] }

abbrev one_user : AlsaNetwork
one_user = (new_alsa_connection first (codes "Keys") 2 unused).0

plays :
    alsaseq_event first ((0x90 ∷ 60 ∷ 100 ∷ []) ∷ []) one_user
    ≡ send_midi_to 1 2 (0x90 ∷ 60 ∷ 100 ∷ []) ∷ []
unfolding alsaseq_event find_port new_alsa_connection
plays = refl

hears : send_midi 2 (0x90 ∷ 60 ∷ 100 ∷ []) one_user ≡ send_to_port first (0x90 ∷ 60 ∷ 100 ∷ []) ∷ []
unfolding send_midi new_alsa_connection
hears = refl
