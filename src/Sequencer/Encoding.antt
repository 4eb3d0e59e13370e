-- ===== src/Sequencer/Encoding.antt =====
-- src/aseq.cpp: mididata_to_evs_f ends, and gives what the coder makes of the bytes.
use rtpmidid.Common.{
  ℕ, zero, suc, ◌≤◌, ◌≡◌, refl, List, [], ◌∷◌, length, drop, true, false, ◌==◌, some, arith,
  Bool-cases, inl, inr,
}
use rtpmidid.Sequencer.{SeqEvent}
use rtpmidid.Sequencer.Midi.{Coder, Encoded, encode_loop, mididata_to_evs_f}

-- The coder is asked again and again, each time behind the bytes that it used, until none are left
-- or it uses none.
pub data Coded {ℓ} {S : Type ℓ} (coder : Coder S)
    : S → List ℕ → List SeqEvent → List ℕ → Type ℓ where
  all_used : (s : S) → Coded coder s [] [] []
  refuses :
      (s : S) (x : ℕ) (xs : List ℕ)
      → ((coder.encode s (x ∷ xs)).1 == 0) ≡ true
      → Coded coder s (x ∷ xs) [] (x ∷ xs)
  uses :
      (s : S) (x : ℕ) (xs : List ℕ) (events : List SeqEvent) (left : List ℕ)
      → ((coder.encode s (x ∷ xs)).1 == 0) ≡ false
      → Coded coder
          (coder.encode s (x ∷ xs)).0
          (drop (coder.encode s (x ∷ xs)).1 (x ∷ xs))
          events
          left
      → Coded coder s (x ∷ xs) ((coder.encode s (x ∷ xs)).2 ∷ events) left

abbrev Ends {ℓ} : {S : Type ℓ} → Coder S → ℕ → S → List ℕ → Type ℓ
Ends coder n s bs =
    (r : Encoded) × (encode_loop coder n s bs ≡ some r) × Coded coder s bs r.events r.left

length-drop_le : (n : ℕ) (xs : List ℕ) → length (drop n xs) ≤ length xs
length-drop_le zero xs = omega arith
length-drop_le (suc n) [] = omega arith
length-drop_le (suc n) (x ∷ xs) = omega (arith, length-drop_le n xs)

shorter : (used x : ℕ) (xs : List ℕ) → (used == 0) ≡ false → length (drop used (x ∷ xs)) ≤ length xs
shorter zero x xs h = absurd (ground arith)
shorter (suc n) x xs h = length-drop_le n xs

encode_loop-Ends {ℓ} :
    {S : Type ℓ} (coder : Coder S) (n : ℕ) (s : S) (bs : List ℕ) → length bs ≤ n → Ends coder n s bs
unfolding encode_loop
encode_loop-Ends coder n s [] h = (record { events = []; left = [] }, refl, all_used s)
encode_loop-Ends coder zero s (x ∷ xs) h = absurd (omega arith)
encode_loop-Ends coder (suc n) s (x ∷ xs) h = elim (Bool-cases ((coder.encode s (x ∷ xs)).1 == 0)) [
  | inl stop ↦ (record { events = []; left = x ∷ xs }, rw stop, refuses s x xs stop)
  | inr more ↦
      let (s', used, ev) = coder.encode s (x ∷ xs) in
      let r =
        encode_loop-Ends coder n s' (drop used (x ∷ xs)) (omega (arith, shorter used x xs more)) in
      (
        record r.0 { events = ev ∷ r.0.events },
        rw (more, r.1),
        uses s x xs r.0.events r.0.left more r.2,
      )
]

-- Whatever the coder does, the loop over the bytes of some MIDI data ends, and the events that it passes
-- on are those that the coder gives when it is asked again behind the bytes that it used, from its
-- reset state on, until no byte is left or it uses none.
pub mididata_to_evs_f-Coded {ℓ} :
    {S : Type ℓ} (coder : Coder S) (bs : List ℕ)
    → (r : Encoded) × (mididata_to_evs_f coder bs ≡ some r)
      × Coded coder coder.reset_encode bs r.events r.left
unfolding mididata_to_evs_f
mididata_to_evs_f-Coded coder bs =
    encode_loop-Ends coder (length bs) coder.reset_encode bs (omega arith)
