-- ===== src/Discovery.antt =====
-- src/rtpmidiremotehandler.cpp and src/local_alsa_listener.cpp: remote peers that mDNS finds, and the
-- ALSA ports that wait for connections to them. What they ask of the router, the sequencer and a new
-- client is a list of actions; the ids of new peers and ports are arguments, and so are the listeners
-- that the router has when a peer is discovered, in the order in which it goes over them.
pub mod Endpoints
pub mod Known
mod Examples
use rtpmidid.Common.{
  ℕ, ◌+◌, List, [], ◌∷◌, ◌++◌, Bool, true, false, not, ◌&&◌, ◌||◌, ◌==◌, if◌then◌else◌, Option,
  none, some,
}
use rtpmidid.Text.{Text, codes, same_text}
use rtpmidid.Settings.{RtpmidiDiscover}

-- `MIDIPEER_ID_INVALID`
abbrev pub midipeer_id_invalid : ℕ
midipeer_id_invalid = 4294967295

-- `endpoint_t`
pub record Endpoint : Type 0 where
  pub hostname : Text
  pub port : Text

-- `local_alsa_listener_t`
pub record AlsaListener : Type 0 where
  pub peer_id : ℕ
  pub alsaport : ℕ
  pub remote_name : Text
  pub local_name : Text
  pub local_udp_port : Text
  pub endpoints : List Endpoint
  pub connection_count : ℕ
  pub rtpmidiclientworker_peer_id : ℕ

pub data Action : Type 0 where
  disconnect_port remove_port : ℕ → Action
  add_client_peer : ℕ → Text → Action
  connect_peers : ℕ → ℕ → Action
  add_server_addresses : Text → List Endpoint → Action
  add_listener_peer remove_peer : ℕ → Action
  add_endpoint_to : ℕ → Endpoint → Action

unfoldable pub same_endpoint : Endpoint → Endpoint → Bool
unfolding same_text
same_endpoint a b = same_text a.hostname b.hostname && same_text a.port b.port

abbrev pub has_endpoint : Endpoint → List Endpoint → Bool
has_endpoint e [] = false
has_endpoint e (x ∷ xs) = same_endpoint x e || has_endpoint e xs

unfoldable pub add_endpoint : Endpoint → AlsaListener → AlsaListener
add_endpoint e l =
    if has_endpoint e l.endpoints then l else record l { endpoints = l.endpoints ++ e ∷ [] }

-- The constructor.
unfoldable pub new_listener : Text → Endpoint → Text → ℕ → ℕ → AlsaListener
unfolding add_endpoint
new_listener name e local_udp_port peer_id alsaport = add_endpoint e (record {
  peer_id = peer_id;
  alsaport = alsaport;
  remote_name = name;
  local_name = [];
  local_udp_port = local_udp_port;
  endpoints = [];
  connection_count = 0;
  rtpmidiclientworker_peer_id = midipeer_id_invalid;
})

-- The loop of `make_local_alsa_listener` over the router's listeners: all of the name get the endpoint.
abbrev pub add_to_named : Text → Endpoint → List AlsaListener → List AlsaListener
add_to_named name e [] = []
add_to_named name e (l ∷ ls) =
    (if same_text l.remote_name name then add_endpoint e l else l) ∷ add_to_named name e ls

abbrev pub is_named : Text → List AlsaListener → Bool
is_named name [] = false
is_named name (l ∷ ls) = if same_text l.remote_name name then true else is_named name ls

abbrev pub add_endpoint_actions : Text → Endpoint → List AlsaListener → List Action
add_endpoint_actions name e [] = []
add_endpoint_actions name e (l ∷ ls) =
    let rest = add_endpoint_actions name e ls in
    if same_text l.remote_name name then add_endpoint_to l.peer_id e ∷ rest else rest

-- The last listener of the name, which `added` holds after the loop.
abbrev pub last_named : Text → List AlsaListener → Option AlsaListener
last_named name [] = none
last_named name (l ∷ ls) = elim (last_named name ls) [
  | some x ↦ some x
  | none ↦ if same_text l.remote_name name then some l else none
]

-- What it returns: the last listener of the name, with the endpoint, or a new one.
unfoldable pub make_local_alsa_listener :
    List AlsaListener → Text → Endpoint → Text → ℕ → ℕ → AlsaListener
unfolding new_listener add_endpoint
make_local_alsa_listener listeners name e local_udp_port peer_id alsaport =
    elim (last_named name (add_to_named name e listeners)) [
      | some l ↦ l
      | none ↦ new_listener name e local_udp_port peer_id alsaport
    ]

unfoldable pub connect_to_remote_server : Text → ℕ → AlsaListener → AlsaListener × List Action
connect_to_remote_server portname worker l = elim l.endpoints [
  | [] ↦ (record l { connection_count = 0 }, disconnect_port l.alsaport ∷ [])
  | e ∷ es ↦ (
    record l { local_name = portname; rtpmidiclientworker_peer_id = worker },
    add_client_peer worker portname
        ∷ connect_peers worker l.peer_id
        ∷ connect_peers l.peer_id worker
        ∷ add_server_addresses l.local_udp_port (e ∷ es)
        ∷ [],
  )
]

unfoldable pub disconnect_from_remote_server : AlsaListener → AlsaListener × List Action
disconnect_from_remote_server l =
    (record l { local_name = [] }, remove_peer l.rtpmidiclientworker_peer_id ∷ [])

-- The listeners of the sequencer's subscriptions; `still` is how many connections the port still has.
unfoldable pub on_subscribe : Text → ℕ → AlsaListener → AlsaListener × List Action
unfolding connect_to_remote_server
on_subscribe name worker l0 =
    let l = record l0 { connection_count = l0.connection_count + 1 } in
    if l.connection_count == 1 then connect_to_remote_server name worker l else (l, [])

unfoldable pub on_unsubscribe : ℕ → AlsaListener → AlsaListener × List Action
unfolding disconnect_from_remote_server
on_unsubscribe still l0 =
    let l = record l0 { connection_count = still } in
    if still == 0 then disconnect_from_remote_server l else (l, [])

-- The destructor, of a listener that has a router.
unfoldable pub destroy : AlsaListener → List Action
destroy l =
    remove_port l.alsaport
    ∷ (if l.rtpmidiclientworker_peer_id == midipeer_id_invalid
        then []
        else remove_peer l.rtpmidiclientworker_peer_id ∷ [])

-- The command `remove_endpoint`, with whether it found the endpoint.
abbrev pub without_endpoint : Endpoint → List Endpoint → List Endpoint
without_endpoint e [] = []
without_endpoint e (x ∷ xs) =
    let rest = without_endpoint e xs in if same_endpoint x e then xs else x ∷ rest

unfoldable pub remove_endpoint : Endpoint → AlsaListener → AlsaListener × Bool
remove_endpoint e l =
    (record l { endpoints = without_endpoint e l.endpoints }, has_endpoint e l.endpoints)

-- `known_remote_peer_t`; the handler is its list of them.
pub record KnownRemotePeer : Type 0 where
  pub name : Text
  pub alsawaiter : AlsaListener

abbrev pub has_name : Text → List KnownRemotePeer → Bool
has_name name [] = false
has_name name (p ∷ ps) = same_text p.name name || has_name name ps

abbrev pub add_to_known : Text → Endpoint → List KnownRemotePeer → List KnownRemotePeer
add_to_known name e [] = []
add_to_known name e (p ∷ ps) =
    let rest = add_to_known name e ps in
    if same_text p.name name
    then record p { alsawaiter = add_endpoint e p.alsawaiter } ∷ ps
    else p ∷ rest

-- `search` is whether a regular expression is found in a text.
unfoldable pub check_if_add_peer : (Text → Text → Bool) → RtpmidiDiscover → Text → Endpoint → Bool
check_if_add_peer search settings name e =
    let fullname = e.hostname ++ (codes ":" ++ (e.port ++ (codes " - " ++ name))) in
    settings.enabled
    && not (search settings.name_negative_regex fullname)
    && search settings.name_positive_regex fullname

-- `discover_peer`; `peer_id` and `alsaport` are those of a new listener. A listener that the router
-- has already is not added to it again.
unfoldable pub discover_peer :
    (Text → Text → Bool)
    → RtpmidiDiscover
    → List AlsaListener
    → Text
    → Endpoint
    → ℕ
    → ℕ
    → List KnownRemotePeer
    → List KnownRemotePeer × List Action
unfolding check_if_add_peer make_local_alsa_listener
discover_peer search settings listeners name e peer_id alsaport peers =
    let waiter = make_local_alsa_listener listeners name e (codes "0") peer_id alsaport in
    if not (check_if_add_peer search settings name e)
    then (peers, [])
    else if has_name name peers
    then (add_to_known name e peers, [])
    else (
      peers ++ record { name = name; alsawaiter = waiter } ∷ [],
      if is_named name listeners
          then add_endpoint_actions name e listeners
          else add_listener_peer peer_id ∷ [],
    )

abbrev pub remove_known : Text → List KnownRemotePeer → List KnownRemotePeer × List Action
remove_known name [] = ([], [])
remove_known name (p ∷ ps) =
    let rest = remove_known name ps in
    if same_text p.name name
    then (ps, remove_peer p.alsawaiter.peer_id ∷ [])
    else (p ∷ rest.0, rest.1)

-- `remove_peer`; the address is not looked at.
unfoldable pub remove_remote_peer :
    Text → Endpoint → List KnownRemotePeer → List KnownRemotePeer × List Action
remove_remote_peer name e peers = remove_known name peers

-- What mDNS reports, one after the other; a discovery with the router's listeners at that time.
pub data Report : Type 0 where
  discovers : List AlsaListener → Text → Endpoint → ℕ → ℕ → Report
  removes : Text → Endpoint → Report

unfoldable pub report :
    (Text → Text → Bool)
    → RtpmidiDiscover
    → Report
    → List KnownRemotePeer
    → List KnownRemotePeer × List Action
unfolding discover_peer remove_remote_peer
report search settings (discovers listeners name e peer_id alsaport) peers =
    discover_peer search settings listeners name e peer_id alsaport peers
report search settings (removes name e) peers = remove_remote_peer name e peers

unfoldable pub report_all :
    (Text → Text → Bool)
    → RtpmidiDiscover
    → List Report
    → List KnownRemotePeer
    → List KnownRemotePeer
unfolding report
report_all search settings [] peers = peers
report_all search settings (r ∷ rs) peers =
    report_all search settings rs (report search settings r peers).0
