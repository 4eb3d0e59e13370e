-- ===== src/Mdns/Withdrawn.antt =====
-- lib/mdns_rtpmidi.cpp, removed_remote, with src/rtpmidiremotehandler.cpp, remove_peer.
use rtpmidid.Common.{
  ap, sym, ◌∙◌, if◌then◌else◌, ℕ, ◌≡◌, refl, ◌∙◌, List, [], ◌∷◌, Bool, true, false, not, ◌&&◌, All,
  Bool-cases, inl, inr, arith,
}
use rtpmidid.Text.{Text, same_text, is_empty, to_string}
use rtpmidid.Text.Laws.{same_text→eq}
use rtpmidid.Discovery.{KnownRemotePeer, has_name, remove_known, remove_remote_peer, report}
use rtpmidid.Discovery.Endpoints.{same_text_comm}
use rtpmidid.Mdns.{
  Mdns, RemoteAnnouncement, remove_event, Answers, without_name, remove_announcement, remove_each,
  removed_remote,
}
use rtpmidid.Mdns.Handled.{
  has_remote, Handler, handle, handle_all, Consistent, has_remote-without_name,
  has_remote-without_name_self, has_name-remove_known_other,
}
use rtpmidid.Mdns.Agreement.{remove_each-Good}

-- Each remote server has a host name, as Avahi gives one for what it resolves.
abbrev pub HaveHosts : List RemoteAnnouncement → Type 0
HaveHosts = All (λ r. is_empty r.address ≡ false)

remove_announcement_remote :
    (a : Answers) (name address : Text) (port : ℕ) (m : Mdns)
    → is_empty address ≡ false
    → remove_announcement a name address port m ≡ (
      record m { remote_announcements = without_name name m.remote_announcements },
      remove_event name address (to_string port) ∷ [],
    )
unfolding remove_announcement
remove_announcement_remote a name address port m e = rw e

-- One matching entry of the copy.
remove_each_match :
    (a : Answers) (name : Text) (r : RemoteAnnouncement) (rs : List RemoteAnnouncement) (m : Mdns)
    → is_empty r.address ≡ false
    → same_text r.name name ≡ true
    → let rest =
        remove_each a name rs
          (record m { remote_announcements = without_name name m.remote_announcements }) in
      let event = remove_event name r.address (to_string r.port) in
      remove_each a name (r ∷ rs) m ≡ (rest.0, event ∷ event ∷ rest.1)
unfolding remove_each
remove_each_match a name r rs m e same =
    rw (same, remove_announcement_remote a name r.address r.port m e)

remove_each_miss :
    (a : Answers) (name : Text) (r : RemoteAnnouncement) (rs : List RemoteAnnouncement) (m : Mdns)
    → same_text r.name name ≡ false
    → remove_each a name (r ∷ rs) m ≡ remove_each a name rs m
unfolding remove_each
remove_each_miss a name r rs m other = rw other

-- The name is gone once one entry of the copy has it.
remove_each_self :
    (a : Answers) (name : Text) (rs : List RemoteAnnouncement) (m : Mdns)
    → HaveHosts rs
    → has_remote name (remove_each a name rs m).0.remote_announcements
      ≡ (not (has_remote name rs) && has_remote name m.remote_announcements)
unfolding remove_each
remove_each_self a name [] m h = refl
remove_each_self a name (r ∷ rs) m h = elim (Bool-cases (same_text r.name name)) [
  | inl e ↦
      let m1 : Mdns = record m {
        remote_announcements = without_name name m.remote_announcements;
      } in
      rw (remove_each_match a name r rs m h.0 e, remove_each_self a name rs m1 h.1)
        (ground (
          arith,
          has_remote-without_name_self name m.remote_announcements,
          same_text_comm name r.name,
          e,
        ))
  | inr e ↦
      rw (remove_each_miss a name r rs m e, remove_each_self a name rs m h.1)
        (ground (arith, same_text_comm name r.name, e))
]

-- Another name is as much there as before, on both sides.
remove_each_other :
    (h : Handler) (a : Answers) (n name : Text) (rs : List RemoteAnnouncement) (m : Mdns)
    (ps : List KnownRemotePeer)
    → HaveHosts rs
    → same_text name n ≡ false
    → let (m', actions) = remove_each a name rs m in
      (has_remote n m'.remote_announcements ≡ has_remote n m.remote_announcements)
      × (has_name n (handle_all h actions ps) ≡ has_name n ps)
unfolding remove_each handle_all handle report remove_remote_peer
remove_each_other h a n name [] m ps hosts d = (refl, refl)
remove_each_other h a n name (r ∷ rs) m ps hosts d = elim (Bool-cases (same_text r.name name)) [
  | inl e ↦
      let m1 : Mdns = record m {
        remote_announcements = without_name name m.remote_announcements;
      } in
      let ps1 = (remove_known name ps).0 in
      let ps2 = (remove_known name ps1).0 in
      let rest = remove_each_other h a n name rs m1 ps2 hosts.1 d in
      rw (remove_each_match a name r rs m hosts.0 e) (
        rest.0 ∙ has_remote-without_name n name m.remote_announcements d,
        rest.1 ∙ has_name-remove_known_other n name ps1 d ∙ has_name-remove_known_other n name ps d,
      )
  | inr e ↦ rw (remove_each_miss a name r rs m e) (remove_each_other h a n name rs m ps hosts.1 d)
]

-- When Avahi withdraws a service, and the daemon's peers and its list of remote servers agree, no peer
-- and no listed server of that name is left, however often it was listed; every other name is as much
-- among the peers, and among the servers, as before. The listed servers must have host names.
pub removed_remote_withdraws :
    (h : Handler) (a : Answers) (n name : Text) (m : Mdns) (ps : List KnownRemotePeer)
    → HaveHosts m.remote_announcements
    → Consistent m.remote_announcements ps
    → let (m', actions) = removed_remote a name m in
      (has_remote n m'.remote_announcements
        ≡ (if same_text name n then false else has_remote n m.remote_announcements))
      × (has_name n (handle_all h actions ps) ≡ (if same_text name n then false else has_name n ps))
unfolding removed_remote
removed_remote_withdraws h a n name m ps hosts c =
    let rs = m.remote_announcements in
    let r = remove_each a name rs m in
    elim (Bool-cases (same_text name n)) [
      | inl e ↦
          let same = same_text→eq name n e in
          let gone : has_remote n r.0.remote_announcements ≡ false =
            ap (λ t. has_remote t r.0.remote_announcements) (sym same)
            ∙ remove_each_self a name rs m hosts
            ∙ not_and (has_remote name rs) in
          rw e (
            gone,
            elim (Bool-cases (has_name n (handle_all h r.1 ps))) [
              | inl y ↦ cc ((remove_each-Good h a name rs m ps c).agrees n y, gone)
              | inr y ↦ y
            ],
          )
      | inr e ↦ rw e (remove_each_other h a n name rs m ps hosts e)
    ]
  where
    not_and : (b : Bool) → (not b && b) ≡ false
    not_and true = refl
    not_and false = refl
