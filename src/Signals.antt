-- ===== src/Signals.antt =====
-- include/rtpmidid/signal.hpp: signals, and callbacks that connect and disconnect while one runs.
-- A callback is what it does with its own signal; what else it does is left out. Ids do not wrap.
pub mod Invariant
pub mod Emission
mod Examples
use rtpmidid.Common.{
  ℕ, zero, suc, ◌+◌, List, [], ◌∷◌, ◌++◌, Bool, true, false, ◌==◌, if◌then◌else◌, is_member, length,
}

-- `signal_t`: the slots in the order of their ids, and the ids that have a connection.
pub record Signal {ℓ} (F : Type ℓ) : Type ℓ where
  pub max_id : ℕ
  pub slots : List (ℕ × F)
  pub connections : List ℕ

pub data Act {ℓ} (F : Type ℓ) : Type ℓ where
  connects : F → Act F
  disconnects : ℕ → Act F

abbrev pub fresh {ℓ} : {F : Type ℓ} → Signal F
fresh = record { max_id = 1; slots = []; connections = [] }

abbrev pub erase_id : ℕ → List ℕ → List ℕ
erase_id id [] = []
erase_id id (k ∷ ids) = let rest = erase_id id ids in if k == id then ids else k ∷ rest

module _ {ℓ} {F : Type ℓ} where
  abbrev pub keys : List (ℕ × F) → List ℕ
  keys [] = []
  keys ((id, f) ∷ slots) = id ∷ keys slots

  abbrev pub is_connected : ℕ → Signal F → Bool
  is_connected id s = is_member id (keys s.slots)

  abbrev pub erase_slot : ℕ → List (ℕ × F) → List (ℕ × F)
  erase_slot id [] = []
  erase_slot id ((k, f) ∷ slots) =
      let rest = erase_slot id slots in if k == id then slots else (k, f) ∷ rest

  -- The id of the connection and the signal with it, which is the last in the order of the ids.
  unfoldable pub connect : F → Signal F → ℕ × Signal F
  connect f s = (
    s.max_id,
    record {
      max_id = s.max_id + 1;
      slots = s.slots ++ (s.max_id, f) ∷ [];
      connections = s.connections ++ s.max_id ∷ [];
    },
  )

  unfoldable pub disconnect : ℕ → Signal F → Signal F
  disconnect id s = record s {
    slots = erase_slot id s.slots;
    connections = erase_id id s.connections;
  }

  -- The loop of `disconnect_all`, once for each connection.
  disconnect_first : List ℕ → Signal F → Signal F
  unfolding disconnect
  disconnect_first [] s = s
  disconnect_first (id ∷ ids) s = disconnect_first ids (disconnect id s)

  unfoldable pub disconnect_all : Signal F → Signal F
  unfolding disconnect_first
  disconnect_all s = disconnect_first s.connections s

  unfoldable pub act : Act F → Signal F → Signal F
  unfolding connect disconnect
  act (connects f) s = (connect f s).1
  act (disconnects id) s = disconnect id s

  unfoldable pub act_all : List (Act F) → Signal F → Signal F
  unfolding act
  act_all [] s = s
  act_all (a ∷ acts) s = act_all acts (act a s)

  -- The loop of `operator()` over the slots at its begin: the ids that are called, and the signal
  -- behind it. A slot that is not connected any more is passed over.
  unfoldable pub call_each : (F → List (Act F)) → List (ℕ × F) → Signal F → List ℕ × Signal F
  unfolding act_all
  call_each acts [] s = ([], s)
  call_each acts ((id, f) ∷ slots) s =
      let there = is_connected id s in
      let (called, s') = call_each acts slots (if there then act_all (acts f) s else s) in
      (if there then id ∷ called else called, s')

  unfoldable pub emit : (F → List (Act F)) → Signal F → List ℕ × Signal F
  unfolding call_each
  emit acts s = call_each acts s.slots s

  unfoldable pub count : Signal F → ℕ
  count s = length s.slots

-- `connection_t`: the id, which is 0 where it has no signal.
pub record Connection : Type 0 where
  pub id : ℕ

-- `connection_t::disconnect`, and the destructor.
unfoldable pub drop_connection {ℓ} : {F : Type ℓ} → Connection → Signal F → Connection × Signal F
unfolding disconnect
drop_connection c s = (record { id = 0 }, if c.id == 0 then s else disconnect c.id s)

-- The move: the other one has no signal any more.
unfoldable pub move_connection : Connection → Connection × Connection
move_connection other = (other, record { id = 0 })
