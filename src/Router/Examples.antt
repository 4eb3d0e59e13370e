-- ===== src/Router/Examples.antt =====
-- src/midirouter.cpp on a concrete router: the theorems of Router.Connections and
-- Router.Removal where their conditions hold.
use rtpmidid.Common.{arith, ℕ, ◌≡◌, refl, List, [], ◌∷◌, if◌then◌else◌, ◌&&◌, ◌==◌}
use mathlib.Core.Option
use rtpmidid.Router.Removal.{remove_peer_unlinks}
use rtpmidid.Router.{
  remove_peer, Router, Connection, find, is_known, disconnect, get_peerdata_by_id,
}
use rtpmidid.Router.Connections.{unlink, disconnect_links}

-- Peer 1 sends to 2 twice, to 3, and to 9, which is gone.
abbrev linked : ℕ → List ℕ → Connection
linked k send_to = record {
  id = k;
  peer = record { peer_id = k; packets_sent = 0; packets_recv = 0 };
  send_to = send_to;
}

abbrev router : Router
router = record {
  max_id = 4;
  peers = linked 3 [] ∷ linked 1 (2 ∷ 3 ∷ 2 ∷ 9 ∷ []) ∷ linked 2 (1 ∷ []) ∷ [];
}

disconnect_links_example : get_peerdata_by_id (disconnect 1 2 router).0 1 ≡ (
    if is_known router 1 && is_known router 2 && 1 == 1
    then Option.map (unlink 2) (get_peerdata_by_id router 1)
    else get_peerdata_by_id router 1)
disconnect_links_example = disconnect_links 1 2 1 router

remove_peer_unlinks_example :
    get_peerdata_by_id (remove_peer 2 router).0 1
    ≡ Option.map (unlink 2) (get_peerdata_by_id router 1)
unfolding find
remove_peer_unlinks_example = remove_peer_unlinks 2 1 router refl (λ e. omega arith)
