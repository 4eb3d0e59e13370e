-- ===== src/Signals/Examples.antt =====
-- A signal whose first callback drops the second one and connects a new one.
use rtpmidid.Common.{
  ℕ, ◌≡◌, refl, List, [], ◌∷◌, ◌++◌, true, Sublist, is_member, ◌==◌, if◌then◌else◌, arith,
}
use rtpmidid.Signals.{
  Signal, Act, connects, disconnects, keys, is_connected, act_all, call_each, emit, connect,
  disconnect_all,
}
use rtpmidid.Signals.Invariant.{IsValid}
use rtpmidid.Signals.Emission.{emit-called}

abbrev acts : ℕ → List (Act ℕ)
acts f = if f == 7 then disconnects 2 ∷ connects 9 ∷ [] else []

abbrev three : Signal ℕ
three = record { max_id = 4; slots = (1, 7) ∷ (2, 8) ∷ (3, 8) ∷ []; connections = 1 ∷ 2 ∷ 3 ∷ [] }

three-IsValid : IsValid three
three-IsValid = record { below = (omega arith, (omega arith, (omega arith, tt))); same = refl }

emit-three : (emit acts three).0 ≡ 1 ∷ 3 ∷ []
unfolding emit
emit-three = refl

connected_again : (connect 5 (emit acts three).1).0 ≡ 5
unfolding emit connect
connected_again = refl

all_gone : disconnect_all three ≡ record three { slots = []; connections = [] }
unfolding disconnect_all
all_gone = refl

emit-called_example :
    Sublist (emit acts three).0 (keys three.slots)
    × ((id : ℕ)
        → is_connected id three ≡ true
        → is_connected id (emit acts three).1 ≡ true
        → is_member id (emit acts three).0 ≡ true)
    × ((before after : List (ℕ × ℕ)) (k f : ℕ)
        → three.slots ≡ before ++ (k, f) ∷ after
        → let (called, s') = call_each acts before three in
          (emit acts three).0
          ≡ called
            ++ (if is_connected k s'
                then k ∷ (call_each acts after (act_all (acts f) s')).0
                else (call_each acts after s').0))
    × IsValid (emit acts three).1
emit-called_example = emit-called acts three three-IsValid
