-- ===== src/Mdns/Examples.antt =====
-- A remote server that is found on two interfaces and then lost, and a name that is taken.
use rtpmidid.Common.{
  ℕ, ◌≡◌, refl, List, [], ◌∷◌, Bool, true, false, ◌==◌, false, true, not, ◌&&◌, if◌then◌else◌,
}
use rtpmidid.Text.{Text, codes, same_text, to_string}
use rtpmidid.Settings.{default_settings}
use rtpmidid.Discovery.{KnownRemotePeer, has_name}
use rtpmidid.Mdns.{
  Mdns, Announcement, RemoteAnnouncement, Action, remove_event, resets_group, commits_group,
  adds_service, suffix_in, Answers, established, collision, announce_all, removed_remote,
  remove_announcement,
}
use rtpmidid.Mdns.Callbacks.{Callback, resolver_found, resolver_failure, on_callback}
use rtpmidid.Mdns.Handled.{has_remote, Handler, handle, handle_all, Consistent}
use rtpmidid.Mdns.Agreement.{run_callbacks, run_callbacks-Consistent}
use rtpmidid.Mdns.Withdrawn.{removed_remote_withdraws}
use rtpmidid.Mdns.Announcing.{announce_all-services, outcome}

abbrev desk : Announcement
desk = record { name = codes "Desk"; port = 5004 }

abbrev start : Mdns
start = record {
  client = true;
  group = true;
  service_browser = true;
  announcements = desk ∷ [];
  remote_announcements = [];
  announce_suffix = 0;
}

abbrev stage : RemoteAnnouncement
stage = record { name = codes "Stage"; address = codes "stage.local"; port = 5004 }

abbrev willing : Answers
willing = record { state = established; takes = λ added name port. true; commits = true }

-- Only the positive expression is found.
abbrev search : Text → Text → Bool
search [] name = false
search (c ∷ cs) name = c == b'.'

abbrev handler : Handler
handler = record {
  search = search;
  settings = default_settings.rtpmidi_discover;
  next = λ ps. (3, 1);
  listeners = [];
}

abbrev found_twice : List (Handler × Answers × Callback)
found_twice =
    (handler, willing, resolver_found false stage)
    ∷ (handler, willing, resolver_found false stage)
    ∷ []

abbrev twice : Mdns
twice = record start { remote_announcements = stage ∷ stage ∷ [] }

found : (run_callbacks found_twice start []).0 ≡ twice
unfolding run_callbacks on_callback
found = refl

abbrev stage_events : Action
stage_events = remove_event (codes "Stage") (codes "stage.local") (codes "5004")

-- Each of the two entries is reported twice.
lost :
    (removed_remote willing (codes "Stage") twice)
    ≡ (start, stage_events ∷ stage_events ∷ stage_events ∷ stage_events ∷ [])
unfolding removed_remote remove_announcement same_text to_string
lost = refl

-- A failed resolver's host is reported as the text of the number 1.
failed :
    (on_callback willing (resolver_failure (codes "Stage") 5004) twice).1
    ≡ remove_event (codes "Stage") (codes "1") (codes "5004") ∷ []
unfolding on_callback to_string
failed = refl

collided : announce_all (record willing { state = collision }) start ≡ (
  record start { announce_suffix = 1 },
  resets_group ∷ adds_service (codes "Desk #1") 5004 ∷ commits_group ∷ [],
)
unfolding announce_all to_string
collided = refl

empty-Consistent : Consistent [] []
empty-Consistent = record { agrees = λ n h. cc; known = record { names = tt; endpoints = tt } }

run_callbacks-Consistent_example :
    let (m, ps) = run_callbacks found_twice start [] in Consistent m.remote_announcements ps
run_callbacks-Consistent_example =
    run_callbacks-Consistent found_twice start [] (tt, (tt, tt)) empty-Consistent

-- The peers after the server was found twice.
abbrev waiting : List KnownRemotePeer
waiting = (run_callbacks found_twice start []).1

waiting-Consistent : Consistent twice.remote_announcements waiting
unfolding run_callbacks on_callback
waiting-Consistent = run_callbacks-Consistent_example

stage_waits : has_name (codes "Stage") waiting ≡ true
unfolding run_callbacks on_callback handle_all handle same_text
stage_waits = refl

removed_remote_withdraws_example :
    let (m', actions) = removed_remote willing (codes "Stage") twice in
    (has_remote (codes "Stage") m'.remote_announcements ≡ (
      if same_text (codes "Stage") (codes "Stage")
      then false
      else has_remote (codes "Stage") twice.remote_announcements))
    × (has_name (codes "Stage") (handle_all handler actions waiting) ≡ (
        if same_text (codes "Stage") (codes "Stage")
        then false
        else has_name (codes "Stage") waiting))
removed_remote_withdraws_example =
    removed_remote_withdraws handler willing (codes "Stage") (codes "Stage") twice waiting
      (refl, (refl, tt)) waiting-Consistent

-- The second announcement has a name that is there, so it is refused.
abbrev same_twice : Mdns
same_twice = record start { announcements = desk ∷ desk ∷ [] }

-- A service is taken where none of its name was added.
abbrev is_new : List (Text × ℕ) → Text → ℕ → Bool
is_new [] name port = true
is_new (x ∷ xs) name port = not (same_text x.0 name) && is_new xs name port

abbrev strict : Answers
strict = record willing { takes = is_new }

announce_all-services_example :
    announce_all strict same_twice ≡ outcome same_twice 0 (desk ∷ []) (desk ∷ [])
unfolding suffix_in same_text
announce_all-services_example =
    announce_all-services strict same_twice 0 (desk ∷ []) (desk ∷ []) refl refl refl (refl, tt) refl
