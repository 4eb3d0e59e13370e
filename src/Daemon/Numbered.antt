-- ===== src/Daemon/Numbered.antt =====
-- src/main.cpp, setup: the ids of the router that the daemon starts with.
use rtpmidid.Common.{
  ℕ, suc, ◌+◌, ◌*◌, ◌^◌, ◌<◌, ◌≤◌, ◌≡◌, refl, List, [], ◌∷◌, length, All, All-append, Bool-cases,
  inl, inr, ◌==◌, ==→eq, arith, some, Option-cases,
}
use rtpmidid.Text.{Text}
use rtpmidid.Settings.{Settings, RtpmidiAnnounce, ConnectTo, Rawmidi}
use rtpmidid.Router.{Router, Connection, empty, find, change, keys, add_peer, connect, push_send_to}
use rtpmidid.Router.Keys.{Distinct, keys-change}
use rtpmidid.Discovery.{is_named}
use rtpmidid.Daemon.{
  Daemon, Kind, fresh_peer, make_peer, make_pair, connect_both, local_alsa_listener,
  local_alsa_multi_listener, network_rtpmidi_multi_listener, local_rawmidi, rawmidi_name,
  rawmidi_network, add_local_alsa_listener, create_rawmidi_rtpclient_pair,
  setup_local_alsa_multilistener, setup_network_rtpmidi_multilistener,
  setup_network_rtpmidi_listener, setup_rawmidi_peers, setup,
}
use rtpmidid.Daemon.Joined.{Below, IsFresh, Below-Without, add_peer_fresh}

-- The ids are different and smaller than the next one, and there is room for `k` more.
pub record Fits (k : ℕ) (r : Router) : Type 0 where
  pub positive : 0 < r.max_id
  pub room : r.max_id + k < 2 ^ 32
  pub below : All (Below r.max_id) r.peers
  pub distinct : Distinct (keys r.peers)

smaller : (n : ℕ) (xs : List ℕ) → All (λ to. to < n) xs → All (λ to. to < n + 1) xs
smaller n [] h = tt
smaller n (x ∷ xs) h = (omega (arith, h.0), smaller n xs h.1)

Below-next : (n : ℕ) (cs : List Connection) → All (Below n) cs → All (Below (n + 1)) cs
Below-next n [] b = tt
Below-next n (c ∷ cs) b = ((omega (arith, b.0.0), smaller n c.send_to b.0.1), Below-next n cs b.1)

add_peer-Fits : (k : ℕ) (r : Router) → Fits (k + 1) r → Fits k (add_peer fresh_peer r).1
add_peer-Fits k r v =
    let absent = Below-Without r.max_id r.max_id r.peers (omega arith) v.below in
    rw (add_peer_fresh r (omega (arith, v.room)) absent) (record {
      positive = omega arith;
      room = omega (arith, v.room);
      below = ((omega arith, tt), Below-next r.max_id r.peers v.below);
      distinct = (absent, v.distinct);
    })

find-Below :
    (n k : ℕ) (cs : List Connection) (c : Connection)
    → All (Below n) cs
    → find k cs ≡ some c
    → k < n
unfolding find
find-Below n k [] c b e = cc
find-Below n k (x ∷ xs) c b e = elim (Bool-cases (x.id == k)) [
  | inl y ↦ rw (==→eq x.id k y) at b.0.0
  | inr y ↦ find-Below n k xs c b.1 (rw y at e)
]

change-Below :
    (n from to : ℕ) (cs : List Connection)
    → to < n
    → All (Below n) cs
    → All (Below n) (change from (push_send_to to) cs)
unfolding change
change-Below n from to [] h b = tt
change-Below n from to (c ∷ cs) h b = elim (Bool-cases (c.id == from)) [
  | inl y ↦ rw y ((b.0.0, All-append _ c.send_to (to ∷ []) b.0.1 (h, tt)), b.1)
  | inr y ↦ rw y (b.0, change-Below n from to cs h b.1)
]

connect-Fits : (k from to : ℕ) (r : Router) → Fits k r → Fits k (connect from to r).0
unfolding connect
connect-Fits k from to r v = elim (Option-cases (find from r.peers)) [
  | inl e ↦ rw (e, connect) v
  | inr (p, e) ↦ elim (Option-cases (find to r.peers)) [
    | inl n ↦ rw (e, n, connect) v
    | inr (q, n) ↦
        rw (e, n, connect)
          (record {
            positive = v.positive;
            room = v.room;
            below =
                change-Below r.max_id from to r.peers (find-Below r.max_id to r.peers q v.below n)
                  v.below;
            distinct = rw (keys-change from (push_send_to to) r.peers (λ c. refl)) v.distinct;
          })
  ]
]

abbrev FitsIn : ℕ → Daemon → Type 0
FitsIn k d = Fits k d.router

make_peer-Fits :
    (k : ℕ) (kind : Kind) (d : Daemon) → FitsIn (k + 1) d → FitsIn k (make_peer kind d).1
unfolding make_peer
make_peer-Fits k kind d v = add_peer-Fits k d.router v

make_pair-Fits :
    (k : ℕ) (first second : Kind) (d : Daemon)
    → FitsIn (k + 1 + 1) d
    → FitsIn k (make_pair first second d).1
unfolding make_pair connect_both
make_pair-Fits k first second d v =
    let d1 = make_peer first d in
    let d2 = make_peer second d1.1 in
    let two = make_peer-Fits k second d1.1 (make_peer-Fits (k + 1) first d v) in
    connect-Fits k d2.0 d1.0 (connect d1.0 d2.0 d2.1.router).0
      (connect-Fits k d1.0 d2.0 d2.1.router two)

fewer : (j k : ℕ) (r : Router) → j ≤ k → Fits k r → Fits j r
fewer j k r h v = record {
  positive = v.positive;
  room = omega (arith, v.room);
  below = v.below;
  distinct = v.distinct;
}

alsa-Fits :
    (k : ℕ) (names : List Text) (d : Daemon)
    → FitsIn (length names + k) d
    → FitsIn k (setup_local_alsa_multilistener names d)
unfolding setup_local_alsa_multilistener
alsa-Fits k [] d v = fewer k (0 + k) d.router (omega arith) v
alsa-Fits k (name ∷ names) d v = alsa-Fits k names _ (
    make_peer-Fits (length names + k) (local_alsa_multi_listener name) d
      (fewer (length names + k + 1) (suc (length names) + k) d.router (omega arith) v))

multi-Fits :
    (k : ℕ) (announces : List RtpmidiAnnounce) (d : Daemon)
    → FitsIn (length announces + k) d
    → FitsIn k (setup_network_rtpmidi_multilistener announces d)
unfolding setup_network_rtpmidi_multilistener
multi-Fits k [] d v = fewer k (0 + k) d.router (omega arith) v
multi-Fits k (a ∷ announces) d v = multi-Fits k announces _ (
    make_peer-Fits (length announces + k) (network_rtpmidi_multi_listener a.name a.port) d
      (fewer (length announces + k + 1) (suc (length announces) + k) d.router (omega arith) v))

listener-Fits :
    (k alsaport : ℕ) (c : ConnectTo) (d : Daemon)
    → FitsIn (k + 1) d
    → FitsIn k (add_local_alsa_listener alsaport c d)
unfolding add_local_alsa_listener
listener-Fits k alsaport c d v = elim (Bool-cases (is_named c.name d.listeners)) [
  | inl y ↦ rw y (fewer k (k + 1) d.router (omega arith) v)
  | inr y ↦ rw y (make_peer-Fits k (local_alsa_listener c.name) d v)
]

listeners-Fits :
    (k alsaport : ℕ) (cs : List ConnectTo) (d : Daemon)
    → FitsIn (length cs + k) d
    → FitsIn k (setup_network_rtpmidi_listener alsaport cs d)
unfolding setup_network_rtpmidi_listener
listeners-Fits k alsaport [] d v = fewer k (0 + k) d.router (omega arith) v
listeners-Fits k alsaport (c ∷ cs) d v = listeners-Fits k (alsaport + 1) cs _ (
    listener-Fits (length cs + k) alsaport c d
      (fewer (length cs + k + 1) (suc (length cs) + k) d.router (omega arith) v))

rawmidi-Fits :
    (k : ℕ) (guessed : Text → Text) (raws : List Rawmidi) (d : Daemon)
    → FitsIn (2 * length raws + k) d
    → FitsIn k (setup_rawmidi_peers guessed raws d).0
unfolding setup_rawmidi_peers create_rawmidi_rtpclient_pair
rawmidi-Fits k guessed [] d v = fewer k (0 + k) d.router (omega arith) v
rawmidi-Fits k guessed (raw ∷ raws) d v = rawmidi-Fits k guessed raws _ (
    make_pair-Fits (2 * length raws + k) (local_rawmidi (rawmidi_name guessed raw) raw.device)
      (rawmidi_network (rawmidi_name guessed raw) raw) d
      (fewer (2 * length raws + k + 1 + 1) (2 * suc (length raws) + k) d.router (omega arith) v))

-- How many ids the settings take at most.
abbrev pub wanted : Settings → ℕ
wanted s =
    length s.alsa_announces
    + (length s.rtpmidi_announces + (length s.connect_to + 2 * length s.rawmidi))

-- The daemon starts with a router whose ids are different and smaller than the next one, which is not
-- 0, and that has no link to an id that it has not given, if the settings ask for so few peers that
-- they and two more have ids of 32 bits.
pub setup-IsFresh :
    (guessed : Text → Text) (alsaport : ℕ) (s : Settings)
    → wanted s + 3 < 2 ^ 32
    → IsFresh (setup guessed alsaport s).0.router
unfolding setup
setup-IsFresh guessed alsaport s h =
    let n1 = length s.rtpmidi_announces in
    let n2 = length s.connect_to in
    let n3 = 2 * length s.rawmidi in
    let start : Daemon = record { router = empty; kinds = []; listeners = [] } in
    let v : FitsIn (length s.alsa_announces + (n1 + (n2 + (n3 + 2)))) start = record {
      positive = omega arith;
      room = omega (arith, h);
      below = tt;
      distinct = tt;
    } in
    let one = alsa-Fits (n1 + (n2 + (n3 + 2))) s.alsa_announces start v in
    let two = multi-Fits (n2 + (n3 + 2)) s.rtpmidi_announces _ one in
    let three = listeners-Fits (n3 + 2) alsaport s.connect_to _ two in
    let four = rawmidi-Fits 2 guessed s.rawmidi _ three in
    record {
      positive = four.positive;
      room = four.room;
      below = four.below;
      distinct = four.distinct;
    }
