-- ===== src/Server/Heard.antt =====
-- lib/rtpserverpeer.cpp: what hearing signals leaves of a peer, and calls that return.
use rtpmidid.Common.{
  ◌+◌, ◌≡◌, refl, ◌∙◌, List, [], ◌∷◌, ◌++◌, Bool-cases, inl, inr, none, some, arith,
}
use rtpmidid.Peer.{
  Peer, midi_port, control_port, Signal, send_event, midi_event, status_change_event, ck_event,
  add_stat, Outcome, done, thrown, undefined, out_of_fuel, returned,
}
use rtpmidid.Server.{Server, ServerPeer, hear, hear_all, leaves, sendto, status_change}
use rtpmidid.Server.Serving.{served, Chance, hear_each, after_call, after_create, settle, grown}

pub hear_same :
    (signal : Signal) (sp : ServerPeer)
    → ((hear signal sp).0.id ≡ sp.id) × ((hear signal sp).0.peer ≡ sp.peer)
unfolding hear sendto status_change
hear_same (send_event packet midi_port) sp = (refl, refl)
hear_same (send_event packet control_port) sp = (refl, refl)
hear_same (status_change_event status) sp = ground arith
hear_same (midi_event midi) sp = (refl, refl)
hear_same (ck_event latency) sp = (refl, refl)
hear_same (add_stat latency) sp = (refl, refl)

pub hear_all_same :
    (signals : List Signal) (sp : ServerPeer)
    → ((hear_all signals sp).0.id ≡ sp.id) × ((hear_all signals sp).0.peer ≡ sp.peer)
unfolding hear_all
hear_all_same [] sp = (refl, refl)
hear_all_same (signal ∷ signals) sp =
    let here = hear_same signal sp in
    let later = hear_all_same signals (hear signal sp).0 in
    elim (Bool-cases (leaves signal)) [
      | inl e ↦ rw e here
      | inr e ↦ rw e (later.0 ∙ here.0, later.1 ∙ here.1)
    ]

pub hear_each_same :
    (signals : List Signal) (sp : ServerPeer)
    → ((hear_each signals sp).0.id ≡ sp.id) × ((hear_each signals sp).0.peer ≡ sp.peer)
unfolding hear_each
hear_each_same [] sp = (refl, refl)
hear_each_same (signal ∷ signals) sp =
    let here = hear_same signal sp in
    let later = hear_each_same signals (hear signal sp).0 in (later.0 ∙ here.0, later.1 ∙ here.1)

-- A method that returned: the peer and its signals are all that counts.
pub after_call-returned :
    (s : Server) (sp : ServerPeer) (o : Outcome (Unit {0})) (p : Peer) (signals : List Signal)
    → returned o ≡ some (p, signals)
    → after_call s sp o ≡ settle s (hear_all signals (record sp { peer = p })) none
unfolding after_call
after_call-returned s sp (done a w) p signals e =
    let here : w.peer ≡ p = cc in let heard : w.events ≡ signals = cc in rw (here, heard)
after_call-returned s sp (thrown x w) p signals e = cc
after_call-returned s sp undefined p signals e = cc
after_call-returned s sp out_of_fuel p signals e = cc

pub after_create-returned :
    (r : Chance) (s : Server) (sp : ServerPeer) (o : Outcome (Unit {0})) (p : Peer)
    (signals : List Signal)
    → returned o ≡ some (p, signals)
    → after_create r s sp o
      ≡ served
          (record s {
            max_peer_data_id = s.max_peer_data_id + 1;
            peers = grown r.grows s.peers ++ (hear_each signals (record sp { peer = p })).0 ∷ [];
          })
          (hear_each signals (record sp { peer = p })).1
          none
unfolding after_create
after_create-returned r s sp (done a w) p signals e =
    let here : w.peer ≡ p = cc in let heard : w.events ≡ signals = cc in rw (here, heard)
after_create-returned r s sp (thrown x w) p signals e = cc
after_create-returned r s sp undefined p signals e = cc
after_create-returned r s sp out_of_fuel p signals e = cc
