-- ===== src/Mdns/Agreement.antt =====
-- lib/mdns_rtpmidi.cpp with src/rtpmidiremotehandler.cpp: what Avahi's callbacks do to both.
use rtpmidid.Common.{
  ℕ, ◌≡◌, refl, ◌∙◌, List, [], ◌∷◌, ◌++◌, Bool, true, false, Bool-cases, inl, inr, Option, none,
  some, if◌then◌else◌, arith, All,
}
use rtpmidid.Text.{Text, same_text, is_empty, to_string}
use rtpmidid.Discovery.{KnownRemotePeer, remove_remote_peer, report}
use rtpmidid.Discovery.Endpoints.{ListenersDiffer}
use rtpmidid.Mdns.{
  Mdns, RemoteAnnouncement, Announcement, Action, remove_event, commits_group, Answers, GroupState,
  uncommitted, registering, established, collision, failure, ClientState, s_registering, s_running,
  s_collision, client_failure, connecting, announce_all, add_services, announced, announce_with,
  suffix_in, announce_suffix_str, announce_rtpmidi, unannounce_rtpmidi, other_ports,
  discovered_remote, remove_announcement, remove_each, removed_remote,
}
use rtpmidid.Mdns.Callbacks.{
  Callback, resolver_failure, resolver_found, browser_new, browser_remove, browser_other,
  group_changed, client_changed, announces, unannounces, removes_announcement, on_callback,
  resolve_failure, resolve_found, browse_remove, entry_group_callback, group_callback,
  client_callback, setup_service_browser, setup_entry_group,
}
use rtpmidid.Mdns.Handled.{
  Handler, handle, handle_all, Consistent, handle_all-append, remove-Consistent, forget-Consistent,
  discover-Consistent,
}

abbrev Peers : Type 0
Peers = List KnownRemotePeer

-- An outcome that leaves the remote servers alone, on both sides.
abbrev Quiet : Handler → Mdns → Peers → Mdns × List Action → Type 0
Quiet h m ps r = (handle_all h r.1 ps ≡ ps) × (r.0.remote_announcements ≡ m.remote_announcements)

add_services_still :
    (h : Handler) (takes : List (Text × ℕ) → Text → ℕ → Bool) (suffix : Text)
    (added : List (Text × ℕ)) (entries : List Announcement) (ps : Peers)
    → handle_all h (add_services takes suffix added entries).0 ps ≡ ps
unfolding add_services handle_all handle
add_services_still h takes suffix added [] ps = refl
add_services_still h takes suffix added (e ∷ es) ps =
    elim (Bool-cases (takes added (e.name ++ suffix) e.port)) [
      | inl y ↦
          rw y (add_services_still h takes suffix (added ++ (e.name ++ suffix, e.port) ∷ []) es ps)
      | inr y ↦ rw y
    ]

announced_still :
    (h : Handler) (m : Mdns) (suffix : ℕ) (actions : List Action) (all : Bool) (ps : Peers)
    → handle_all h actions ps ≡ ps
    → Quiet h m ps (announced m suffix (actions, all))
unfolding handle_all handle
announced_still h m suffix actions true ps q =
    (handle_all-append h actions (commits_group ∷ []) ps ∙ q, refl)
announced_still h m suffix actions false ps q = (q, refl)

announce_with_still :
    (h : Handler) (a : Answers) (m : Mdns) (suffix : Option ℕ) (ps : Peers)
    → Quiet h m ps (announce_with a m suffix)
unfolding handle_all
announce_with_still h a m none ps = (refl, refl)
announce_with_still h a m (some n) ps =
    let all = add_services a.takes (announce_suffix_str n) [] m.announcements in
    announced_still h m n all.0 all.1 ps
      (add_services_still h a.takes (announce_suffix_str n) [] m.announcements ps)

if_still :
    (h : Handler) (m : Mdns) (ps : Peers) (b : Bool) (r : Mdns × List Action)
    → Quiet h m ps r
    → Quiet h m ps (if b then r else (m, []))
unfolding handle_all
if_still h m ps true r q = q
if_still h m ps false r q = (refl, refl)

announce_all_still :
    (h : Handler) (a : Answers) (m : Mdns) (ps : Peers) → Quiet h m ps (announce_all a m)
unfolding announce_all
announce_all_still h a m ps =
    if_still h m ps m.group (announce_with a m (suffix_in a.state m.announce_suffix))
      (announce_with_still h a m (suffix_in a.state m.announce_suffix) ps)

-- The handler and what is announced, behind one outcome.
abbrev Good : Handler → Peers → Mdns × List Action → Type 0
Good h ps r = Consistent r.0.remote_announcements (handle_all h r.1 ps)

Quiet-Good :
    (h : Handler) (m : Mdns) (ps : Peers) (r : Mdns × List Action)
    → Quiet h m ps r
    → Consistent m.remote_announcements ps
    → Good h ps r
Quiet-Good h m ps r q c = rw (q.0, q.1) c

announce_all-Good :
    (h : Handler) (a : Answers) (m : Mdns) (ps : Peers)
    → Consistent m.remote_announcements ps
    → Good h ps (announce_all a m)
announce_all-Good h a m ps c = Quiet-Good h m ps (announce_all a m) (announce_all_still h a m ps) c

remove_announcement-Good :
    (h : Handler) (a : Answers) (name address : Text) (port : ℕ) (m : Mdns) (ps : Peers)
    → Consistent m.remote_announcements ps
    → Good h ps (remove_announcement a name address port m)
unfolding remove_announcement unannounce_rtpmidi handle_all handle report remove_remote_peer
remove_announcement-Good h a name address port m ps c = elim (Bool-cases (is_empty address)) [
  | inl e ↦
      rw e
        (announce_all-Good h a (record m { announcements = other_ports port m.announcements }) ps c)
  | inr e ↦ rw e (forget-Consistent name m.remote_announcements ps c)
]

event-Consistent :
    (h : Handler) (name address port : Text) (rs : List RemoteAnnouncement) (ps : Peers)
    → Consistent rs ps
    → Consistent rs (handle h (remove_event name address port) ps)
unfolding handle report remove_remote_peer
event-Consistent h name address port rs ps c = remove-Consistent name rs ps c

pub remove_each-Good :
    (h : Handler) (a : Answers) (name : Text) (rs : List RemoteAnnouncement) (m : Mdns) (ps : Peers)
    → Consistent m.remote_announcements ps
    → Good h ps (remove_each a name rs m)
unfolding remove_each handle_all
remove_each-Good h a name [] m ps c = c
remove_each-Good h a name (r ∷ rs) m ps c = elim (Bool-cases (same_text r.name name)) [
  | inl e ↦
      let first = remove_announcement a name r.address r.port m in
      let ps1 = handle h (remove_event name r.address (to_string r.port)) ps in
      let c1 : Consistent m.remote_announcements ps1 =
        event-Consistent h name r.address (to_string r.port) m.remote_announcements ps c in
      rw (e, handle_all-append h first.1 (remove_each a name rs first.0).1 ps1)
        (remove_each-Good h a name rs first.0 (handle_all h first.1 ps1)
          (remove_announcement-Good h a name r.address r.port m ps1 c1))
  | inr e ↦ rw e (remove_each-Good h a name rs m ps c)
]

found-Good :
    (h : Handler) (own : Bool) (r : RemoteAnnouncement) (m : Mdns) (ps : Peers)
    → ListenersDiffer h.listeners
    → Consistent m.remote_announcements ps
    → Good h ps (resolve_found own r m)
unfolding resolve_found discovered_remote handle_all
found-Good h true r m ps d c = c
found-Good h false r m ps d c =
    discover-Consistent h r (to_string r.port) m.remote_announcements ps d c

browse_remove-Good :
    (h : Handler) (a : Answers) (own : Bool) (name : Text) (m : Mdns) (ps : Peers)
    → Consistent m.remote_announcements ps
    → Good h ps (browse_remove a own name m)
unfolding browse_remove removed_remote handle_all
browse_remove-Good h a true name m ps c = c
browse_remove-Good h a false name m ps c = remove_each-Good h a name m.remote_announcements m ps c

entry_group-Good :
    (h : Handler) (a : Answers) (state : GroupState) (m : Mdns) (ps : Peers)
    → Consistent m.remote_announcements ps
    → Good h ps (entry_group_callback a state m)
unfolding entry_group_callback handle_all
entry_group-Good h a collision m ps c = announce_all-Good h a m ps c
entry_group-Good h a uncommitted m ps c = c
entry_group-Good h a registering m ps c = c
entry_group-Good h a established m ps c = c
entry_group-Good h a failure m ps c = c

group-Good :
    (h : Handler) (a : Answers) (same : Bool) (state : GroupState) (m : Mdns) (ps : Peers)
    → Consistent m.remote_announcements ps
    → Good h ps (group_callback a same state m)
unfolding group_callback handle_all
group-Good h a same state m ps c = elim (Bool-cases m.group) [
  | inl g ↦ elim (Bool-cases same) [
    | inl y ↦ rw (g, y) (rw g at (entry_group-Good h a state m ps c))
    | inr y ↦ rw (g, y) c
  ]
  | inr g ↦ rw g (entry_group-Good h a state (record m { group = true }) ps c)
]

setup_same :
    (made : Bool) (m : Mdns)
    → ((setup_entry_group made m).remote_announcements ≡ m.remote_announcements)
      × ((setup_service_browser made m).remote_announcements ≡ m.remote_announcements)
unfolding setup_entry_group setup_service_browser
setup_same made m = ground arith

client_callback_same :
    (state : ClientState) (browser group : Bool) (m : Mdns)
    → (client_callback state browser group m).remote_announcements ≡ m.remote_announcements
unfolding client_callback
client_callback_same s_running browser group m =
    (setup_same group (setup_service_browser browser m)).0 ∙ (setup_same browser m).1
client_callback_same s_registering browser group m = refl
client_callback_same s_collision browser group m = refl
client_callback_same client_failure browser group m = refl
client_callback_same connecting browser group m = refl

on_callback-Good :
    (h : Handler) (a : Answers) (cb : Callback) (m : Mdns) (ps : Peers)
    → ListenersDiffer h.listeners
    → Consistent m.remote_announcements ps
    → Good h ps (on_callback a cb m)
unfolding on_callback handle_all handle report remove_remote_peer resolve_failure announce_rtpmidi
    unannounce_rtpmidi
on_callback-Good h a (resolver_failure name port) m ps d c =
    remove-Consistent name m.remote_announcements ps c
on_callback-Good h a (resolver_found own r) m ps d c = found-Good h own r m ps d c
on_callback-Good h a (browser_new name) m ps d c = c
on_callback-Good h a (browser_remove own name) m ps d c = browse_remove-Good h a own name m ps c
on_callback-Good h a browser_other m ps d c = c
on_callback-Good h a (group_changed same state) m ps d c = group-Good h a same state m ps c
on_callback-Good h a (client_changed state browser group) m ps d c =
    rw (client_callback_same state browser group (record m { client = true })) c
on_callback-Good h a (announces name port) m ps d c = announce_all-Good h a _ ps c
on_callback-Good h a (unannounces name port) m ps d c = announce_all-Good h a _ ps c
on_callback-Good h a (removes_announcement name address port) m ps d c =
    remove_announcement-Good h a name address port m ps c

-- The callbacks one after the other, each with what the handler and Avahi answer to it, and the
-- handler's peers.
unfoldable pub run_callbacks : List (Handler × Answers × Callback) → Mdns → Peers → Mdns × Peers
unfolding on_callback handle_all
run_callbacks [] m ps = (m, ps)
run_callbacks ((h, a, cb) ∷ rest) m ps =
    let (m', actions) = on_callback a cb m in run_callbacks rest m' (handle_all h actions ps)

-- Whatever Avahi calls and the daemon asks, and whatever the settings accept, each peer that the
-- daemon keeps for a discovered server has the name of a remote server that mDNS still lists, and no
-- two of these peers have the same name and no two endpoints of one the same address, if this was so
-- before, and if no listener that the router has at a callback has two endpoints with the same
-- address: no peer outlives its server.
pub run_callbacks-Consistent :
    (callbacks : List (Handler × Answers × Callback)) (m : Mdns) (ps : Peers)
    → All (λ x. ListenersDiffer x.0.listeners) callbacks
    → Consistent m.remote_announcements ps
    → let (m', ps') = run_callbacks callbacks m ps in Consistent m'.remote_announcements ps'
unfolding run_callbacks
run_callbacks-Consistent [] m ps d c = c
run_callbacks-Consistent ((h, a, cb) ∷ rest) m ps d c =
    run_callbacks-Consistent rest (on_callback a cb m).0 (handle_all h (on_callback a cb m).1 ps)
      d.1 (on_callback-Good h a cb m ps d.0 c)
