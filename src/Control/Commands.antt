-- ===== src/Control/Commands.antt =====
-- src/control_socket.cpp: the functions of the commands. The arguments of a call are read from left to
-- right.
-- What the commands dump for the log is left out: it was parsed, so that its texts are valid UTF-8.
use rtpmidid.Common.{ℕ, [], ◌∷◌, Bool, true, false, ◌||◌, ◌==◌, if◌then◌else◌, Option, none, some}
use rtpmidid.Text.{Text, codes, same_text, is_empty}
use rtpmidid.Router
use rtpmidid.Mdns.{remove_announcement}
use rtpmidid.Daemon.{
  Kind, local_alsa_peer, network_rtpmidi_listener, network_rtpmidi_client, local_rawmidi, make_peer,
  add_local_alsa_listener, create_rawmidi_rtpclient_pair,
}
use rtpmidid.Control.{
  Access, gives, throws, undefined, Shape, is_array, is_object, is_null, is_number, is_text,
  is_other, Json, ControlWorld, Surroundings, Ran, then_do, with_router, with_daemon, with_mdns,
}

module _ {J : Type 0} (j : Json J) (s : Surroundings J) where
  abbrev pub ok : J
  ok = j.text (codes "ok")

  -- A pair in braces.
  abbrev pub entry : Text → J → J
  entry key value = j.braces (j.text key ∷ value ∷ [])

  abbrev pub text_at : Text → J → Access Text
  text_at key params = then_text (j.const_member key params)
    where
      then_text : Access J → Access Text
      then_text (gives v) = j.as_text v
      then_text (throws e) = throws e
      then_text undefined = undefined

  abbrev number_at : Text → J → Access ℕ
  number_at key params = then_number (j.const_member key params)
    where
      then_number : Access J → Access ℕ
      then_number (gives v) = j.as_number v
      then_number (throws e) = throws e
      then_number undefined = undefined

  -- `to_string` of a value is its dump.
  abbrev dump_at : Text → J → Access Text
  dump_at key params = then_dump (j.const_member key params)
    where
      then_dump : Access J → Access Text
      then_dump (gives v) = j.dump v
      then_dump (throws e) = throws e
      then_dump undefined = undefined

  unfoldable pub run_remove : J → ControlWorld → Ran J
  run_remove params w = then_do (j.const_element 0 params) w (λ v.
      then_do (j.as_number v) w
        (λ id. (gives ok, with_router (Router.remove_peer id w.daemon.router) w)))

  unfoldable pub run_connect_peers : J → ControlWorld → Ran J
  run_connect_peers params w = then_do (number_at (codes "from") params) w (λ from.
      then_do (number_at (codes "to") params) w
        (λ to. (gives ok, with_router (Router.connect from to w.daemon.router) w)))

  unfoldable pub run_disconnect_peers : J → ControlWorld → Ran J
  run_disconnect_peers params w = then_do (number_at (codes "from") params) w (λ from.
      then_do (number_at (codes "to") params) w
        (λ to. (gives ok, with_router (Router.disconnect from to w.daemon.router) w)))

  -- The name, the host and the port of `connect`; `none` is a list or a text that says how to use it.
  abbrev pub Target : Type 0
  Target = Option (Text × Text × Text)

  element_text : ℕ → J → ControlWorld → (Text → Ran Target) → Ran Target
  element_text n params w f = then_do (j.const_element n params) w (λ v. then_do (j.as_text v) w f)

  abbrev target_of_object : Text → Text → Text → Target
  target_of_object name hostname port =
      if is_empty name || is_empty hostname || is_empty port
      then none
      else some (name, hostname, port)

  abbrev target_of_array : ℕ → J → ControlWorld → Ran Target
  target_of_array n params w =
      if n == 1
      then element_text 0 params w (λ host. (gives (some (host, host, codes "5004")), w))
      else if n == 2
      then element_text 0 params w
          (λ host. element_text 1 params w (λ port. (gives (some (host, host, port)), w)))
      else if n == 3
      then element_text 0 params w (λ name. element_text 1 params w (λ host.
        then_do (j.const_element 2 params) w
          (λ v. then_do (j.dump v) w (λ port. (gives (some (name, host, port)), w)))))
      else (gives none, w)

  abbrev target : J → ControlWorld → Ran Target
  target params w = elim (j.shape params) [
    | is_array n ↦ target_of_array n params w
    | is_object ↦ then_do (text_at (codes "name") params) w (λ name.
        then_do (text_at (codes "hostname") params) w (λ host.
          then_do (dump_at (codes "port") params) w
            (λ port. (gives (target_of_object name host port), w))))
    | is_null ↦ (gives none, w)
    | is_number ↦ (gives none, w)
    | is_text ↦ (gives none, w)
    | is_other ↦ (gives none, w)
  ]

  abbrev connect_usage : J
  connect_usage = entry (codes "error") (
      j.text (
        codes
          "Need 1 param (hostname:hostname:5004), 2 params (hostname:port), 3 params (name,hostname,port) or a dict{name, hostname, port}"))

  abbrev connect_to : Target → ControlWorld → Ran J
  connect_to none w = (gives connect_usage, w)
  connect_to (some (name, host, port)) w = (
    gives (j.braces (ok ∷ [])),
    record w {
      daemon =
          add_local_alsa_listener s.alsaport
            (record { hostname = host; port = port; name = name; local_udp_port = codes "0" })
            w.daemon;
    },
  )

  unfoldable pub run_connect : J → ControlWorld → Ran J
  unfolding element_text
  run_connect params w = let (t, w1) = target params w in then_do t w1 (λ t. connect_to t w1)

  -- The branches of `router.create` that make a peer.
  abbrev create : Kind → ControlWorld → Ran J
  create kind w =
      let (id, d) = make_peer kind w.daemon in
      let w1 : ControlWorld = record w { daemon = d } in (gives (s.peer_status id w1), w1)

  unfoldable pub run_create : J → ControlWorld → Ran J
  run_create params w = then_do (text_at (codes "type") params) w (λ type.
      if same_text type (codes "local_rawmidi_t")
      then then_do (text_at (codes "name") params) w (λ name.
        then_do (text_at (codes "device") params) w (λ device.
          create (local_rawmidi (if is_empty name then s.guessed device else name) device) w))
      else if same_text type (codes "network_rtpmidi_client_t")
      then then_do (text_at (codes "name") params) w (λ name.
        then_do (text_at (codes "hostname") params) w (λ host.
          then_do (dump_at (codes "port") params) w
            (λ port. create (network_rtpmidi_client name host port) w)))
      else if same_text type (codes "network_rtpmidi_listener_t")
      then then_do (text_at (codes "name") params) w (λ name.
        then_do (text_at (codes "udp_port") params) w
          (λ port. create (network_rtpmidi_listener name port) w))
      else if same_text type (codes "local_alsa_peer_t")
      then then_do (text_at (codes "name") params) w (λ name. create (local_alsa_peer name) w)
      else if same_text type (codes "list")
      then (gives s.list, w)
      else (gives (j.braces (entry (codes "error") (j.text (codes "Unknown peer type")) ∷ [])), w))

  abbrev hostname_of : J → Access Text
  hostname_of v = elim (j.shape v) [
    | is_null ↦ gives []
    | is_array n ↦ j.as_text v
    | is_object ↦ j.as_text v
    | is_number ↦ j.as_text v
    | is_text ↦ j.as_text v
    | is_other ↦ j.as_text v
  ]

  unfoldable pub run_mdns_remove : J → ControlWorld → Ran J
  run_mdns_remove params w = then_do (text_at (codes "name") params) w (λ name.
      then_do (j.const_member (codes "hostname") params) w (λ v. then_do (hostname_of v) w (λ host.
        then_do (number_at (codes "port") params) w
          (λ port. (gives ok, with_mdns (remove_announcement s.answers name host port w.mdns) w)))))

  -- `maybe_string`
  text_or : Text → Shape → J → Access Text
  text_or default is_text v = j.as_text v
  text_or default is_number v = gives (j.number_text v)
  text_or default is_null v = gives default
  text_or default is_object v = gives default
  text_or default (is_array n) v = gives default
  text_or default is_other v = gives default

  unfoldable pub maybe_string : Text → Text → J → Access Text
  unfolding text_or
  maybe_string key default v = elim (j.shape v) [
    | is_object ↦ elim (j.find key v) [
      | none ↦ gives default
      | some found ↦ text_or default (j.shape found) found
    ]
    | is_null ↦ gives default
    | is_array n ↦ gives default
    | is_number ↦ gives default
    | is_text ↦ gives default
    | is_other ↦ gives default
  ]

  abbrev is_object_shape : Shape → Bool
  is_object_shape is_object = true
  is_object_shape _ = false

  abbrev is_null_shape : Shape → Bool
  is_null_shape is_null = true
  is_null_shape _ = false

  unfoldable pub run_export : J → ControlWorld → Ran J
  unfolding maybe_string
  run_export params w =
      if is_object_shape (j.shape params)
      then then_do (j.const_member (codes "device") params) w (λ v.
        if is_null_shape (j.shape v)
        then (gives s.rawmidi_help, w)
        else then_do (j.as_text v) w (λ device.
          then_do (maybe_string (codes "name") [] params) w (λ name.
            then_do (maybe_string (codes "local_udp_port") (codes "0") params) w (λ local.
              then_do (maybe_string (codes "remote_udp_port") (codes "0") params) w (λ remote.
                then_do (maybe_string (codes "hostname") [] params) w (λ host. (
                  gives (j.braces (ok ∷ [])),
                  with_daemon
                      (create_rawmidi_rtpclient_pair s.guessed
                        (record {
                          device = device;
                          name = name;
                          local_udp_port = local;
                          remote_udp_port = remote;
                          hostname = host;
                        })
                        w.daemon)
                      w,
                )))))))
      else (gives s.rawmidi_help, w)

  -- `COMMANDS`: the first command of that name.
  unfoldable pub command_named : Text → Option (J → ControlWorld → Ran J)
  command_named method =
      if same_text method (codes "status")
      then some (λ params w. (gives (s.status w), w))
      else if same_text method (codes "router.remove")
      then some run_remove
      else if same_text method (codes "router.connect")
      then some run_connect_peers
      else if same_text method (codes "router.disconnect")
      then some run_disconnect_peers
      else if same_text method (codes "connect")
      then some run_connect
      else if same_text method (codes "router.create")
      then some run_create
      else if same_text method (codes "mdns.remove")
      then some run_mdns_remove
      else if same_text method (codes "export.rawmidi")
      then some run_export
      else if same_text method (codes "help")
      then some (λ params w. (gives s.help, w))
      else none
