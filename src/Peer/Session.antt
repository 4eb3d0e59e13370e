-- ===== src/Peer/Session.antt =====
-- lib/rtppeer.cpp: two peers that exchange what they send: connecting, and leaving.
use rtpmidid.Common.{
  ℕ, ◌<◌, ◌≡◌, refl, List, [], ◌∷◌, ◌++◌, length, Option, none, some, ◌==◌, false,
}
use rtpmidid.Common.Words.{IsU32}
use rtpmidid.Common.Bits.{set_bit}
use rtpmidid.Bytes.RoundTrip.{IsText}
use rtpmidid.Peer.{
  Peer, Port, midi_port, control_port, port_bit, Clock, Signal, send_event, midi_event,
  status_change_event, ck_event, add_stat, call, call_with, returned, connected, not_connected,
}
use rtpmidid.Peer.Sending.{connect_to}
use rtpmidid.Peer.Receive.{data_ready}
use rtpmidid.Peer.Handshake.{connect_to_sends, data_ready_in, data_ready_ok}

infixl 5 ◌>>=◌
abbrev pub ◌>>=◌ {ℓ κ} : {A : Type ℓ} {B : Type κ} → Option A → (A → Option B) → Option B
none >>= f = none
some a >>= f = f a

-- The packets that some signals put on the network.
abbrev pub sent : List Signal → List (List ℕ × Port)
sent [] = []
sent (send_event bytes port ∷ rest) = (bytes, port) ∷ sent rest
sent (midi_event bytes ∷ rest) = sent rest
sent (status_change_event status ∷ rest) = sent rest
sent (ck_event ms ∷ rest) = sent rest
sent (add_stat ms ∷ rest) = sent rest

-- A peer receives packets one by one, each at its port.
abbrev pub deliver : Clock → Peer → List (List ℕ × Port) → Option (Peer × List Signal)
deliver c p [] = some (p, [])
deliver c p ((bytes, port) ∷ rest) = do
  (p', out) ← returned (call_with (data_ready c port) p bytes)
  (p'', more) ← deliver c p' rest
  some (p'', out ++ more)

-- An invitation on one port: what the client sends reaches the server, and the answer the client.
abbrev pub invite : Clock → Port → Peer × Peer → Option (Peer × Peer)
invite c port (client, server) = do
  (client, out) ← returned (call (connect_to port) client)
  (server, out) ← deliver c server (sent out)
  (client, out) ← deliver c client (sent out)
  some (client, server)

-- What both peers must satisfy: C names that fit the packets, and 32 bit numbers.
pub record CanMeet (client server : Peer) : Type 0 where
  pub client_name : IsText client.local_name
  pub server_name : IsText server.local_name
  pub client_fits : length client.local_name < 1484
  pub server_fits : length server.local_name < 112
  pub initiator : IsU32 client.initiator_id
  pub client_ssrc : IsU32 client.local_ssrc
  pub server_ssrc : IsU32 server.local_ssrc

-- Both peers after an invitation on one port.
abbrev pub accepted : Port → Peer → Peer → Peer
accepted port server client = record client {
  status = set_bit client.status (port_bit port);
  remote_ssrc = server.local_ssrc;
  remote_name = server.local_name;
}

abbrev pub invited : Port → Peer → Peer → Peer
invited port client server = record server {
  status = set_bit server.status (port_bit port);
  initiator_id = client.initiator_id;
  remote_ssrc = client.local_ssrc;
  remote_name = client.local_name;
}

invite_port :
    (c : Clock) (port : Port) (client server : Peer)
    → CanMeet client server
    → (client.status == connected) ≡ false
    → invite c port (client, server)
      ≡ some (accepted port server client, invited port client server)
invite_port c port client server m free = rw (
  connect_to_sends client port m.client_fits,
  data_ready_in c server port client.initiator_id client.local_ssrc client.local_name m.initiator
      m.client_ssrc m.client_name m.server_fits,
  data_ready_ok c client port server.local_ssrc server.local_name free m.initiator m.server_ssrc
      m.server_name,
)

-- From two peers that are not connected, whose names fit the packets and whose numbers have 32 bits,
-- an invitation on the control port and then one on the MIDI port connect both. Each then knows the other's SSRC and name, the server has the client's
-- initiator id, and nothing else has changed in either.
pub invite_connects :
    (c c' : Clock) (client server : Peer)
    → CanMeet client server
    → client.status ≡ not_connected
    → server.status ≡ not_connected
    → (invite c control_port (client, server) >>= invite c' midi_port)
      ≡ some (
        record client {
          status = connected;
          remote_ssrc = server.local_ssrc;
          remote_name = server.local_name;
        },
        record server {
          status = connected;
          initiator_id = client.initiator_id;
          remote_ssrc = client.local_ssrc;
          remote_name = client.local_name;
        },
      )
invite_connects c c' client server m ec es =
    let free : (client.status == connected) ≡ false = rw ec refl in
    let half : (set_bit client.status 0 == connected) ≡ false = rw ec refl in
    rw
      (
        invite_port c control_port client server m free,
        invite_port c' midi_port (accepted control_port server client)
            (invited control_port client server)
            (record {
              client_name = m.client_name;
              server_name = m.server_name;
              client_fits = m.client_fits;
              server_fits = m.server_fits;
              initiator = m.initiator;
              client_ssrc = m.client_ssrc;
              server_ssrc = m.server_ssrc;
            })
            half,
      )
      (rw (ec, es))
