-- ===== src/Daemon.antt =====
-- src/factory.cpp, src/main.cpp and the daemon's network peers (src/network_rtpmidi_*.cpp): which peers
-- the router is given, and how they are connected. What a peer is made of stands beside its id; the
-- ALSA listeners stand in a list of their own, since they are looked for by name. The sequencer, mDNS
-- and the other parts that `setup` makes have modules of their own.
pub mod Joined
pub mod Parted
pub mod Delivered
pub mod Numbered
mod Examples
use rtpmidid.Common.{
  ℕ, zero, suc, ◌+◌, List, [], ◌∷◌, ◌++◌, length, get_or, Bool, true, false, ◌==◌, leb,
  if◌then◌else◌, Option, none, some,
}
use rtpmidid.Text.{Text, codes, same_text, is_empty}
use rtpmidid.Settings.{Settings, RtpmidiAnnounce, ConnectTo, Rawmidi}
use rtpmidid.Discovery.{Endpoint, AlsaListener, add_to_named, is_named, new_listener}
use rtpmidid.Bytes.{reader}
use rtpmidid.Peer.{
  Peer, Clock, Signal, midi_event, send_event, status_change_event, ck_event, add_stat, call,
  returned,
}
use rtpmidid.Peer.Sending
use rtpmidid.Server
use rtpmidid.Router.{
  Router, MidiPeer, Call, PeerEvent, connected_peer, disconnected_peer, Storage, empty, find,
  is_known, erase_value, add_peer, connect, remove_peer, send_midi, event, send_to_of,
}

-- The classes of peers that the factory makes, with the texts that their constructors take.
pub data Kind : Type 0 where
  local_alsa_multi_listener local_alsa_peer network_rtpmidi_peer : Text → Kind
  network_rtpmidi_multi_listener network_rtpmidi_listener local_rawmidi : Text → Text → Kind
  network_rtpmidi_client : Text → Text → Text → Kind
  local_alsa_listener : Text → Kind

pub record Daemon : Type 0 where
  pub router : Router
  pub kinds : List (ℕ × Kind)
  pub listeners : List AlsaListener

-- A peer that no router has yet.
abbrev pub fresh_peer : MidiPeer
fresh_peer = record { peer_id = 0; packets_sent = 0; packets_recv = 0 }

unfoldable pub make_peer : Kind → Daemon → ℕ × Daemon
unfolding add_peer
make_peer kind d =
    let (id, r) = add_peer fresh_peer d.router in
    (id, record d { router = r; kinds = d.kinds ++ (id, kind) ∷ [] })

-- Two peers that send to each other.
unfoldable pub connect_both : ℕ → ℕ → Router → Router × List Call
unfolding connect
connect_both a b r =
    let (r1, calls1) = connect a b r in let (r2, calls2) = connect b a r1 in (r2, calls1 ++ calls2)

unfoldable pub make_pair : Kind → Kind → Daemon → (ℕ × ℕ) × Daemon × List Call
unfolding make_peer connect_both
make_pair first second d =
    let (a, d1) = make_peer first d in
    let (b, d2) = make_peer second d1 in
    let (r, calls) = connect_both a b d2.router in ((a, b), record d2 { router = r }, calls)

-- The listener of `network_rtpmidi_multi_listener_t`, for the status and the name of a peer.
unfoldable pub multi_listener_status : ℕ → Text → Daemon → Daemon × List Call
unfolding make_pair
multi_listener_status status remote_name d =
    if status == 3
    then (let (ids, made, calls) =
          make_pair (local_alsa_peer remote_name) (network_rtpmidi_peer remote_name) d in
        (made, calls))
    else (d, [])

-- The loop of `peer_connection_loop` that removes each connected peer, while the storage of the
-- looping peer's links changes under it as in `disconnect`. A peer with a link to itself would remove
-- the storage: `none`.
unfoldable pub remove_connected : ℕ → ℕ → ℕ → Storage → Router → Option (Router × List Call)
unfolding erase_value remove_peer
remove_connected zero i peer_id s r = some (r, [])
remove_connected (suc n) i peer_id s r =
    let to = get_or 0 s.0 i in
    let (r1, calls) = remove_peer to r in
    let gone = remove_connected n (i + 1) peer_id (erase_value to s) r1 in
    let stays = remove_connected n (i + 1) peer_id s r in
    if is_known r to then (if to == peer_id then none else and_called calls gone) else stays
  where
    and_called : List Call → Option (Router × List Call) → Option (Router × List Call)
    and_called calls none = none
    and_called calls (some (r, more)) = some (r, calls ++ more)

abbrev pub and_removed : ℕ → Option (Router × List Call) → Option (Router × List Call)
and_removed peer_id none = none
and_removed peer_id (some (r, calls)) =
    let (r', more) = remove_peer peer_id r in some (r', calls ++ more)

-- What `network_rtpmidi_peer_t` puts off for later when its peer has disconnected.
unfoldable pub close_connection : ℕ → Router → Option (Router × List Call)
unfolding remove_connected send_to_of
close_connection peer_id r =
    let links = send_to_of peer_id r in
    and_removed peer_id (remove_connected (length links) 0 peer_id (links, length links) r)

-- Whether that happens at a new status.
abbrev pub ends_connection : ℕ → Bool
ends_connection status = leb 128 status

-- The listeners of `network_rtpmidi_client_t` and `network_rtpmidi_listener_t`: the event of a status,
-- and MIDI from the network.
unfoldable pub client_status : ℕ → ℕ → Router → List Call
unfolding event
client_status peer_id status r =
    if status == 3
    then event peer_id connected_peer r
    else if leb 128 status
    then event peer_id disconnected_peer r
    else []

unfoldable pub listener_status : ℕ → ℕ → Router → List Call
unfolding event
listener_status peer_id status r =
    if status == 3
    then event peer_id connected_peer r
    else if Server.is_disconnected status
    then event peer_id disconnected_peer r
    else []

unfoldable pub network_midi : ℕ → List ℕ → Router → Router × List Call
unfolding send_midi
network_midi peer_id midi r = send_midi peer_id midi r

-- What a peer of the network sends on: MIDI of the router to its RTP peer, with the datagrams that go
-- out, and the signals of the RTP peer, of which the MIDI goes to the router.
unfoldable pub network_send : Clock → List ℕ → Peer → Option (Peer × List Signal)
unfolding Sending.send_midi
network_send c midi p = returned (call (Sending.send_midi c (reader midi)) p)

unfoldable pub hear_midi : ℕ → List Signal → Router → Router × List Call
unfolding network_midi
hear_midi peer_id [] r = (r, [])
hear_midi peer_id (midi_event midi ∷ signals) r =
    let (r1, calls) = network_midi peer_id midi r in
    let (r2, more) = hear_midi peer_id signals r1 in (r2, calls ++ more)
hear_midi peer_id (send_event bytes port ∷ signals) r = hear_midi peer_id signals r
hear_midi peer_id (status_change_event status ∷ signals) r = hear_midi peer_id signals r
hear_midi peer_id (ck_event n ∷ signals) r = hear_midi peer_id signals r
hear_midi peer_id (add_stat n ∷ signals) r = hear_midi peer_id signals r

-- `make_local_alsa_listener` with `add_peer` of what it returns: a listener of that name gets the
-- endpoint, and is no new peer. `alsaport` is the port that a new one is given.
unfoldable pub add_local_alsa_listener : ℕ → ConnectTo → Daemon → Daemon
unfolding make_peer
add_local_alsa_listener alsaport c d =
    let e : Endpoint = record { hostname = c.hostname; port = c.port } in
    let (id, made) = make_peer (local_alsa_listener c.name) d in
    if is_named c.name d.listeners
    then record d { listeners = add_to_named c.name e d.listeners }
    else record made {
      listeners = d.listeners ++ new_listener c.name e c.local_udp_port id alsaport ∷ [];
    }

-- `guessed` is the name of a device that has none in the settings.
abbrev pub rawmidi_name : (Text → Text) → Rawmidi → Text
rawmidi_name guessed raw = if is_empty raw.name then guessed raw.device else raw.name

abbrev pub rawmidi_network : Text → Rawmidi → Kind
rawmidi_network name raw =
    if is_empty raw.hostname
    then network_rtpmidi_listener name raw.local_udp_port
    else network_rtpmidi_client name raw.hostname raw.remote_udp_port

unfoldable pub create_rawmidi_rtpclient_pair : (Text → Text) → Rawmidi → Daemon → Daemon × List Call
unfolding make_pair
create_rawmidi_rtpclient_pair guessed raw d =
    let name = rawmidi_name guessed raw in
    let (ids, made, calls) =
      make_pair (local_rawmidi name raw.device) (rawmidi_network name raw) d in
    (made, calls)

unfoldable pub setup_local_alsa_multilistener : List Text → Daemon → Daemon
unfolding make_peer
setup_local_alsa_multilistener [] d = d
setup_local_alsa_multilistener (name ∷ names) d =
    setup_local_alsa_multilistener names (make_peer (local_alsa_multi_listener name) d).1

unfoldable pub setup_network_rtpmidi_multilistener : List RtpmidiAnnounce → Daemon → Daemon
unfolding make_peer
setup_network_rtpmidi_multilistener [] d = d
setup_network_rtpmidi_multilistener (a ∷ announces) d =
    setup_network_rtpmidi_multilistener announces
      (make_peer (network_rtpmidi_multi_listener a.name a.port) d).1

-- The ports that the sequencer gives are counted from `alsaport`, one for each entry, used or not.
unfoldable pub setup_network_rtpmidi_listener : ℕ → List ConnectTo → Daemon → Daemon
unfolding add_local_alsa_listener
setup_network_rtpmidi_listener alsaport [] d = d
setup_network_rtpmidi_listener alsaport (c ∷ cs) d =
    setup_network_rtpmidi_listener (alsaport + 1) cs (add_local_alsa_listener alsaport c d)

unfoldable pub setup_rawmidi_peers : (Text → Text) → List Rawmidi → Daemon → Daemon × List Call
unfolding create_rawmidi_rtpclient_pair
setup_rawmidi_peers guessed [] d = (d, [])
setup_rawmidi_peers guessed (raw ∷ raws) d =
    let (d1, calls1) = create_rawmidi_rtpclient_pair guessed raw d in
    let (d2, calls2) = setup_rawmidi_peers guessed raws d1 in (d2, calls1 ++ calls2)

-- `setup`, of a daemon with a new router: the peers that it makes.
unfoldable pub setup : (Text → Text) → ℕ → Settings → Daemon × List Call
unfolding setup_local_alsa_multilistener setup_network_rtpmidi_multilistener
    setup_network_rtpmidi_listener setup_rawmidi_peers
setup guessed alsaport settings =
    let start : Daemon = record { router = empty; kinds = []; listeners = [] } in
    setup_rawmidi_peers guessed settings.rawmidi (
      setup_network_rtpmidi_listener alsaport settings.connect_to (
        setup_network_rtpmidi_multilistener settings.rtpmidi_announces
          (setup_local_alsa_multilistener settings.alsa_announces start)))

-- The listeners of `network_rtpmidi_listener_t` on its server, for what a datagram causes there.
unfoldable pub hear_server : ℕ → List Server.Action → Router → Router × List Call
unfolding network_midi listener_status
hear_server peer_id [] r = (r, [])
hear_server peer_id (Server.midi_signal midi ∷ actions) r =
    let (r1, calls) = network_midi peer_id midi r in
    let (r2, more) = hear_server peer_id actions r1 in (r2, calls ++ more)
hear_server peer_id (Server.status_signal id status ∷ actions) r =
    let (r1, calls) = hear_server peer_id actions r in
    (r1, listener_status peer_id status r ++ calls)
hear_server peer_id (Server.send_datagram port to packet ∷ actions) r =
    hear_server peer_id actions r
