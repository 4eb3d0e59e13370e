-- ===== src/Mdns/Callbacks.antt =====
-- lib/mdns_rtpmidi.cpp: what Avahi calls, and the objects of Avahi's that are made and freed.
use rtpmidid.Common.{ℕ, List, [], ◌∷◌, ◌++◌, Bool, true, false, if◌then◌else◌}
use rtpmidid.Text.{Text, to_string}
use rtpmidid.Mdns.{
  announce_all, announce_rtpmidi, unannounce_rtpmidi, discovered_remote, remove_announcement,
  removed_remote, RemoteAnnouncement, Mdns, Action, remove_event, frees_group, resolves_service,
  frees_browser, frees_client, reconnects_in, GroupState, uncommitted, registering, established,
  collision, failure, ClientState, s_registering, s_running, s_collision, client_failure,
  connecting, Answers,
}

-- What Avahi calls, and what the daemon calls. `group_changed` says whether the group is the one of
-- the daemon, and `client_changed` whether a browser and a group would be made. `own` is the flag of
-- the daemon's own services; of a failed resolver's host nothing is used: `host_name || ""` is a
-- Boolean, and true.
pub data Callback : Type 0 where
  resolver_failure : Text → ℕ → Callback
  resolver_found : Bool → RemoteAnnouncement → Callback
  browser_new : Text → Callback
  browser_remove : Bool → Text → Callback
  browser_other : Callback
  group_changed : Bool → GroupState → Callback
  client_changed : ClientState → Bool → Bool → Callback
  announces unannounces : Text → ℕ → Callback
  removes_announcement : Text → Text → ℕ → Callback

unfoldable pub resolve_failure : Text → ℕ → Mdns → Mdns × List Action
resolve_failure name port m = (m, remove_event name (to_string 1) (to_string port) ∷ [])

unfoldable pub resolve_found : Bool → RemoteAnnouncement → Mdns → Mdns × List Action
unfolding discovered_remote
resolve_found own remote m = if own then (m, []) else discovered_remote remote m

unfoldable pub browse_remove : Answers → Bool → Text → Mdns → Mdns × List Action
unfolding removed_remote
browse_remove a own name m = if own then (m, []) else removed_remote a name m

unfoldable pub entry_group_callback : Answers → GroupState → Mdns → Mdns × List Action
unfolding announce_all
entry_group_callback a collision m = announce_all a m
entry_group_callback a uncommitted m = (m, [])
entry_group_callback a registering m = (m, [])
entry_group_callback a established m = (m, [])
entry_group_callback a failure m = (m, [])

-- The static function of that name: a group that is not set yet is the one that is called for.
unfoldable pub group_callback : Answers → Bool → GroupState → Mdns → Mdns × List Action
unfolding entry_group_callback
group_callback a same state m =
    if m.group
    then (if same then entry_group_callback a state m else (m, []))
    else entry_group_callback a state (record m { group = true })

-- `made` is whether Avahi makes the object that is asked for.
unfoldable pub setup_service_browser : Bool → Mdns → Mdns
setup_service_browser made m = if m.service_browser then m else record m { service_browser = made }

unfoldable pub setup_entry_group : Bool → Mdns → Mdns
setup_entry_group made m = if m.group then m else record m { group = made }

unfoldable pub client_callback : ClientState → Bool → Bool → Mdns → Mdns
unfolding setup_service_browser setup_entry_group
client_callback s_running browser group m =
    setup_entry_group group (setup_service_browser browser m)
client_callback s_registering browser group m = m
client_callback s_collision browser group m = m
client_callback client_failure browser group m = m
client_callback connecting browser group m = m

-- `connect_to_avahi`, in milliseconds where it tries again.
unfoldable pub connect_to_avahi : Bool → Mdns → Mdns × List Action
connect_to_avahi made m =
    if m.client
    then (m, [])
    else if made
    then (record m { client = true }, [])
    else (m, reconnects_in 1000 ∷ [])

abbrev freed : Bool → Action → List Action
freed true a = a ∷ []
freed false a = []

unfoldable pub close_avahi : Mdns → Mdns × List Action
close_avahi m = (
  record m { client = false; group = false; service_browser = false },
  freed m.group frees_group
      ++ (freed m.service_browser frees_browser ++ freed m.client frees_client),
)

unfoldable pub on_callback : Answers → Callback → Mdns → Mdns × List Action
unfolding resolve_failure resolve_found browse_remove group_callback client_callback
    announce_rtpmidi unannounce_rtpmidi remove_announcement
on_callback a (resolver_failure name port) m = resolve_failure name port m
on_callback a (resolver_found own remote) m = resolve_found own remote m
on_callback a (browser_new name) m = (m, resolves_service name ∷ [])
on_callback a (browser_remove own name) m = browse_remove a own name m
on_callback a browser_other m = (m, [])
on_callback a (group_changed same state) m = group_callback a same state m
on_callback a (client_changed state browser group) m =
    (client_callback state browser group (record m { client = true }), [])
on_callback a (announces name port) m = announce_rtpmidi a name port m
on_callback a (unannounces name port) m = unannounce_rtpmidi a name port m
on_callback a (removes_announcement name address port) m = remove_announcement a name address port m
