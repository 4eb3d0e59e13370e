-- ===== src/Mdns/Handled.antt =====
-- lib/mdns_rtpmidi.cpp with src/rtpmidiremotehandler.cpp, whose constructor connects its discover_peer
-- and remove_peer to the signals: the daemon's waiting peers are those of servers that mDNS knows.
use rtpmidid.Common.{
  ℕ, ◌≡◌, refl, sym, ap, ◌∙◌, List, [], ◌∷◌, ◌++◌, Bool, true, false, ◌||◌, Bool-cases, inl, inr,
  ◌⊎◌, arith,
}
use rtpmidid.Text.{Text, codes, same_text}
use rtpmidid.Text.Laws.{same_text→eq}
use rtpmidid.Settings.{RtpmidiDiscover}
use rtpmidid.Discovery.{
  Endpoint, KnownRemotePeer, has_name, check_if_add_peer, discover_peer, AlsaListener,
  make_local_alsa_listener, remove_known, discovers, removes, report,
}
use rtpmidid.Discovery.Endpoints.{same_text_comm, ListenersDiffer}
use rtpmidid.Discovery.Known.{
  NamesDiffer, IsValid, has_name-append, has_name-add_to_known, has_name-remove_known,
  discover_peer-IsValid, remove_known-IsValid,
}
use rtpmidid.Mdns.{
  RemoteAnnouncement, Action, discover_event, remove_event, resets_group, commits_group,
  frees_group, adds_service, resolves_service, frees_browser, frees_client, reconnects_in,
  without_name,
}

abbrev pub has_remote : Text → List RemoteAnnouncement → Bool
has_remote name [] = false
has_remote name (r ∷ rs) = same_text name r.name || has_remote name rs

-- The settings, the ids of the next peer and port that are made, and the listeners of the router.
pub record Handler : Type 0 where
  pub search : Text → Text → Bool
  pub settings : RtpmidiDiscover
  pub next : List KnownRemotePeer → ℕ × ℕ
  pub listeners : List AlsaListener

abbrev Peers : Type 0
Peers = List KnownRemotePeer

abbrev endpoint : Text → Text → Endpoint
endpoint address port = record { hostname = address; port = port }

-- The handler's listeners of the two signals.
unfoldable pub handle : Handler → Action → Peers → Peers
unfolding report
handle h (discover_event name address port) ps =
    (report h.search h.settings
      (discovers h.listeners name (endpoint address port) (h.next ps).0 (h.next ps).1) ps).0
handle h (remove_event name address port) ps =
    (report h.search h.settings (removes name (endpoint address port)) ps).0
handle h resets_group ps = ps
handle h commits_group ps = ps
handle h frees_group ps = ps
handle h (adds_service name port) ps = ps
handle h (resolves_service name) ps = ps
handle h frees_browser ps = ps
handle h frees_client ps = ps
handle h (reconnects_in n) ps = ps

unfoldable pub handle_all : Handler → List Action → Peers → Peers
unfolding handle
handle_all h [] ps = ps
handle_all h (a ∷ rest) ps = handle_all h rest (handle h a ps)

-- Every waiting peer is of a server that mDNS has found and not lost.
abbrev pub Agrees : List RemoteAnnouncement → Peers → Type 0
Agrees rs ps = (n : Text) → has_name n ps ≡ true → has_remote n rs ≡ true

pub record Consistent (rs : List RemoteAnnouncement) (ps : Peers) : Type 0 where
  pub agrees : Agrees rs ps
  pub known : IsValid ps

pub handle_all-append :
    (h : Handler) (xs ys : List Action) (ps : Peers)
    → handle_all h (xs ++ ys) ps ≡ handle_all h ys (handle_all h xs ps)
unfolding handle_all
handle_all-append h [] ys ps = refl
handle_all-append h (x ∷ xs) ys ps = handle_all-append h xs ys (handle h x ps)

has_remote-append :
    (n : Text) (r : RemoteAnnouncement) (rs : List RemoteAnnouncement)
    → has_remote n (rs ++ r ∷ []) ≡ (has_remote n rs || same_text n r.name)
has_remote-append n r [] = ground arith
has_remote-append n r (x ∷ rs) = ground (arith, has_remote-append n r rs)

pub has_remote-without_name_self :
    (name : Text) (rs : List RemoteAnnouncement) → has_remote name (without_name name rs) ≡ false
unfolding without_name
has_remote-without_name_self name [] = refl
has_remote-without_name_self name (r ∷ rs) = elim (Bool-cases (same_text name r.name)) [
  | inl e ↦ rw e (has_remote-without_name_self name rs)
  | inr e ↦ rw (e, e) (has_remote-without_name_self name rs)
]

-- Another name is as much there as before.
pub has_remote-without_name :
    (n name : Text) (rs : List RemoteAnnouncement)
    → same_text name n ≡ false
    → has_remote n (without_name name rs) ≡ has_remote n rs
unfolding without_name
has_remote-without_name n name [] d = refl
has_remote-without_name n name (r ∷ rs) d = elim (Bool-cases (same_text name r.name)) [
  | inl e ↦
      let other : same_text n r.name ≡ false =
        ap (same_text n) (sym (same_text→eq name r.name e)) ∙ same_text_comm n name ∙ d in
      rw (e, other) (has_remote-without_name n name rs d)
  | inr e ↦ rw (e, has_remote-without_name n name rs d)
]

-- What the handler does to the names it knows.
pub has_name-remove_known_self :
    (name : Text) (ps : Peers) → NamesDiffer ps → has_name name (remove_known name ps).0 ≡ false
has_name-remove_known_self name [] d = refl
has_name-remove_known_self name (p ∷ ps) d = elim (Bool-cases (same_text p.name name)) [
  | inl e ↦ rw e (ap (λ n. has_name n ps) (sym (same_text→eq p.name name e)) ∙ d.0)
  | inr e ↦ rw (e, e) (has_name-remove_known_self name ps d.1)
]

pub has_name-remove_known_other :
    (n name : Text) (ps : Peers)
    → same_text name n ≡ false
    → has_name n (remove_known name ps).0 ≡ has_name n ps
has_name-remove_known_other n name [] d = refl
has_name-remove_known_other n name (p ∷ ps) d = elim (Bool-cases (same_text p.name name)) [
  | inl e ↦
      let other : same_text p.name n ≡ false =
        ap (λ t. same_text t n) (same_text→eq p.name name e) ∙ d in
      rw (e, other)
  | inr e ↦ rw (e, has_name-remove_known_other n name ps d)
]

has_name-discover_peer :
    (search : Text → Text → Bool) (settings : RtpmidiDiscover) (ls : List AlsaListener)
    (n name : Text) (e : Endpoint) (i j : ℕ) (ps : Peers)
    → has_name n (discover_peer search settings ls name e i j ps).0 ≡ true
    → (has_name n ps ≡ true) ⊎ (same_text name n ≡ true)
unfolding discover_peer
has_name-discover_peer search settings ls n name e i j ps h =
    elim (Bool-cases (check_if_add_peer search settings name e)) [
      | inl c ↦ elim (Bool-cases (has_name name ps)) [
        | inl k ↦ inl (sym (has_name-add_to_known n name e ps) ∙ (rw (c, k) at h))
        | inr k ↦
            let found : (has_name n ps || same_text name n) ≡ true =
              sym (
                has_name-append n
                  (record {
                    name = name;
                    alsawaiter = make_local_alsa_listener ls name e (codes "0") i j;
                  })
                  ps)
              ∙ (rw (c, k) at h) in
            elim (Bool-cases (has_name n ps)) [ inl y ↦ inl y | inr y ↦ inr (rw y at found) ]
      ]
      | inr c ↦ inl (rw c at h)
    ]

pub remove-Consistent :
    (name : Text) (rs : List RemoteAnnouncement) (ps : Peers)
    → Consistent rs ps
    → Consistent rs (remove_known name ps).0
remove-Consistent name rs ps c = record {
  agrees = λ n h. c.agrees n (elim (Bool-cases (has_name n ps)) [
    | inl y ↦ y
    | inr y ↦ cc (has_name-remove_known n name ps y, h)
  ]);
  known = remove_known-IsValid name ps c.known;
}

-- Where the server's name goes on both sides.
pub forget-Consistent :
    (name : Text) (rs : List RemoteAnnouncement) (ps : Peers)
    → Consistent rs ps
    → Consistent (without_name name rs) (remove_known name ps).0
forget-Consistent name rs ps c =
    let kept = remove-Consistent name rs ps c in
    record {
      agrees = λ n h. elim (Bool-cases (same_text name n)) [
        | inl e ↦ absurd (
            cc (
              ap (λ t. has_name t (remove_known name ps).0) (sym (same_text→eq name n e)),
              has_name-remove_known_self name ps c.known.names,
              h,
            ))
        | inr e ↦ has_remote-without_name n name rs e ∙ kept.agrees n h
      ];
      known = kept.known;
    }

pub discover-Consistent :
    (h : Handler) (r : RemoteAnnouncement) (port : Text) (rs : List RemoteAnnouncement) (ps : Peers)
    → ListenersDiffer h.listeners
    → Consistent rs ps
    → Consistent (rs ++ r ∷ []) (handle h (discover_event r.name r.address port) ps)
unfolding handle report
discover-Consistent h r port rs ps d c = record {
  agrees = λ n k.
      rw (has_remote-append n r rs)
        (elim (has_name-discover_peer h.search h.settings h.listeners n r.name
          (endpoint r.address port) (h.next ps).0 (h.next ps).1 ps k) [
            | inl y ↦ rw (c.agrees n y)
            | inr y ↦ ground (arith, y, same_text_comm r.name n)
          ]);
  known =
      discover_peer-IsValid h.search h.settings h.listeners r.name (endpoint r.address port)
        (h.next ps).0 (h.next ps).1 ps d c.known;
}
