-- ===== src/Mdns.antt =====
-- lib/mdns_rtpmidi.cpp: what the daemon announces, and the remote servers that Avahi finds.
-- Avahi's answers are arguments; what is asked of it, and what the two signals send, is a list of
-- actions. Names and hosts are texts.
pub mod Callbacks
pub mod Agreement
pub mod Announcing
pub mod Handled
pub mod Timeouts
pub mod Withdrawn
mod Examples
use rtpmidid.Common.{
  ℕ, zero, suc, ◌+◌, List, [], ◌∷◌, ◌++◌, Bool, true, false, ◌==◌, if◌then◌else◌, Option, none,
  some,
}
use rtpmidid.Text.{Text, codes, same_text, is_empty, to_string}

-- `announcement_t`
pub record Announcement : Type 0 where
  pub name : Text
  pub port : ℕ

-- `remote_announcement_t`
pub record RemoteAnnouncement : Type 0 where
  pub name : Text
  pub address : Text
  pub port : ℕ

-- `mdns_rtpmidi_t`; of a pointer to an object of Avahi's, whether it is set.
pub record Mdns : Type 0 where
  pub client : Bool
  pub group : Bool
  pub service_browser : Bool
  pub announcements : List Announcement
  pub remote_announcements : List RemoteAnnouncement
  pub announce_suffix : ℕ

pub data Action : Type 0 where
  discover_event remove_event : Text → Text → Text → Action
  resets_group commits_group frees_group : Action
  adds_service : Text → ℕ → Action
  resolves_service : Text → Action
  frees_browser frees_client : Action
  reconnects_in : ℕ → Action

pub data GroupState : Type 0 where
  uncommitted registering established collision failure : GroupState

pub data ClientState : Type 0 where
  s_registering s_running s_collision client_failure connecting : ClientState

-- What Avahi says to `announce_all`: the group's state, whether it takes a service beside those that
-- were added before, and whether it commits.
pub record Answers : Type 0 where
  pub state : GroupState
  pub takes : List (Text × ℕ) → Text → ℕ → Bool
  pub commits : Bool

-- The states in which `announce_all` goes on, with the suffix that it goes on with.
unfoldable pub suffix_in : GroupState → ℕ → Option ℕ
suffix_in uncommitted n = some n
suffix_in established n = some n
suffix_in registering n = some n
suffix_in collision n = some (n + 1)
suffix_in failure n = none

abbrev pub announce_suffix_str : ℕ → Text
announce_suffix_str zero = []
announce_suffix_str (suc n) = codes " #" ++ to_string (suc n)

-- The loop over the announcements, with whether it came to its end.
unfoldable pub add_services :
    (List (Text × ℕ) → Text → ℕ → Bool)
    → Text
    → List (Text × ℕ)
    → List Announcement
    → List Action × Bool
add_services takes suffix added [] = ([], true)
add_services takes suffix added (entry ∷ entries) =
    let name = entry.name ++ suffix in
    let (actions, all) = add_services takes suffix (added ++ (name, entry.port) ∷ []) entries in
    if takes added name entry.port
    then (adds_service name entry.port ∷ actions, all)
    else (adds_service name entry.port ∷ [], false)

abbrev pub announced : Mdns → ℕ → List Action × Bool → Mdns × List Action
announced m suffix (actions, true) =
    (record m { announce_suffix = suffix }, resets_group ∷ actions ++ commits_group ∷ [])
announced m suffix (actions, false) =
    (record m { announce_suffix = suffix + 1 }, resets_group ∷ actions)

abbrev pub announce_with : Answers → Mdns → Option ℕ → Mdns × List Action
announce_with a m none = (m, [])
announce_with a m (some suffix) =
    announced m suffix (add_services a.takes (announce_suffix_str suffix) [] m.announcements)

-- A commit that fails is only logged.
unfoldable pub announce_all : Answers → Mdns → Mdns × List Action
unfolding add_services suffix_in
announce_all a m =
    if m.group then announce_with a m (suffix_in a.state m.announce_suffix) else (m, [])

unfoldable pub announce_rtpmidi : Answers → Text → ℕ → Mdns → Mdns × List Action
unfolding announce_all
announce_rtpmidi a name port m =
    announce_all a
      (record m { announcements = m.announcements ++ record { name = name; port = port } ∷ [] })

unfoldable pub other_ports : ℕ → List Announcement → List Announcement
other_ports port [] = []
other_ports port (t ∷ ts) = if port == t.port then other_ports port ts else t ∷ other_ports port ts

-- The name is not looked at.
unfoldable pub unannounce_rtpmidi : Answers → Text → ℕ → Mdns → Mdns × List Action
unfolding announce_all other_ports
unannounce_rtpmidi a name port m =
    announce_all a (record m { announcements = other_ports port m.announcements })

abbrev pub removal : RemoteAnnouncement → Action
removal r = remove_event r.name r.address (to_string r.port)

unfoldable pub discovered_remote : RemoteAnnouncement → Mdns → Mdns × List Action
discovered_remote remote m = (
  record m { remote_announcements = m.remote_announcements ++ remote ∷ [] },
  discover_event remote.name remote.address (to_string remote.port) ∷ [],
)

unfoldable pub without_name : Text → List RemoteAnnouncement → List RemoteAnnouncement
unfolding same_text
without_name name [] = []
without_name name (t ∷ ts) =
    if same_text name t.name then without_name name ts else t ∷ without_name name ts

unfoldable pub remove_announcement : Answers → Text → Text → ℕ → Mdns → Mdns × List Action
unfolding unannounce_rtpmidi without_name
remove_announcement a name address port m =
    if is_empty address then unannounce_rtpmidi a name port m else (
      record m { remote_announcements = without_name name m.remote_announcements },
      remove_event name address (to_string port) ∷ [],
    )

-- The loop of `removed_remote`, over a copy of the remote announcements.
unfoldable pub remove_each : Answers → Text → List RemoteAnnouncement → Mdns → Mdns × List Action
unfolding remove_announcement same_text
remove_each a name [] m = (m, [])
remove_each a name (r ∷ rs) m =
    let other = remove_each a name rs m in
    let (m1, removed) = remove_announcement a name r.address r.port m in
    let (m2, more) = remove_each a name rs m1 in
    if same_text r.name name
    then (m2, remove_event name r.address (to_string r.port) ∷ removed ++ more)
    else other

unfoldable pub removed_remote : Answers → Text → Mdns → Mdns × List Action
unfolding remove_each
removed_remote a name m = remove_each a name m.remote_announcements m
