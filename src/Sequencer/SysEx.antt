-- ===== src/Sequencer/SysEx.antt =====
-- src/aseq.cpp: a SysEx event cut into packets, and lib/rtppeer.cpp: the packets put together again.
use rtpmidid.Common.{
  ℕ, zero, suc, ◌+◌, ◌-◌, ◌≤◌, ◌<◌, ◌%◌, ◌≡◌, refl, ap, ◌∙◌, List, [], ◌∷◌, ◌++◌, length, take,
  drop, reverse, true, false, ltb, leb, le→leb, subst, append_assoc, map, split_off, length-reverse,
  All, lt_eq_gt, inl, inr, none, some, arith, length-append, take-length_append, drop-length_append,
}
use rtpmidid.Errors.{ok}
use rtpmidid.Bytes.{Reader, write_uint8, copy_from_count, check_enough}
use rtpmidid.Peer.Parts.{joined, continued, ended}
use rtpmidid.Sequencer.Midi.{returns, packet_of, sysex_loop, go_on}

-- The decode buffer, with what a SysEx has left to send, its end byte and older bytes.
abbrev pub at : List ℕ → List ℕ → List ℕ → Reader
at seen body older = record { seen = seen; rest = body ++ 0xF7 ∷ older }

abbrev pub total_of : List ℕ → List ℕ → ℕ
total_of seen body = length seen + length body + 1

not_negative : (seen body : List ℕ) → ltb (total_of seen body) (length seen + 1) ≡ false
not_negative seen body = ground arith

bytes_left : (seen body : List ℕ) → total_of seen body - length seen - 1 ≡ length body
bytes_left seen body = omega arith

enough : (xs ys : List ℕ) → leb (length xs) (length (xs ++ ys)) ≡ true
enough xs ys = rw (length-append xs ys) (le→leb (length xs) (length xs + length ys) (omega arith))

pub packet_of-last :
    (first : ℕ) (seen body older : List ℕ)
    → length body ≤ 256
    → packet_of first (total_of seen body) (at seen body older)
      ≡ ok ((first % 256) ∷ (body ++ 0xF7 ∷ []), none)
unfolding packet_of write_uint8 copy_from_count check_enough
packet_of-last first seen body older h =
    let fits : leb (length body) 256 ≡ true = ground arith in
    let room : leb (length body) 257 ≡ true = ground arith in
    let last : leb 1 (257 - length body) ≡ true = ground arith in
    rw (
      not_negative seen body,
      bytes_left seen body,
      fits,
      enough body (0xF7 ∷ older),
      room,
      take-length_append body (0xF7 ∷ older),
      last,
    )

take-append : {A : Type 0} (n : ℕ) (xs ys : List A) → length xs ≡ n → take n (xs ++ ys) ≡ xs
take-append n xs ys h = subst (λ k. take k (xs ++ ys) ≡ xs) h (take-length_append xs ys)

drop-append : {A : Type 0} (n : ℕ) (xs ys : List A) → length xs ≡ n → drop n (xs ++ ys) ≡ ys
drop-append n xs ys h = subst (λ k. drop k (xs ++ ys) ≡ ys) h (drop-length_append xs ys)

pub packet_of-more :
    (first : ℕ) (seen piece body older : List ℕ)
    → length piece ≡ 256
    → 0 < length body
    → packet_of first (total_of seen (piece ++ body)) (at seen (piece ++ body) older)
      ≡ ok ((first % 256) ∷ (piece ++ 0xF0 ∷ []), some (at (reverse piece ++ seen) body older))
unfolding packet_of write_uint8 copy_from_count check_enough
packet_of-more first seen piece body older h b =
    let size : length (piece ++ body) ≡ 256 + length body = rw (length-append piece body, h) refl in
    let long : leb (length (piece ++ body)) 256 ≡ false = ground (arith, size) in
    let there : leb 256 (length ((piece ++ body) ++ 0xF7 ∷ older)) ≡ true =
      ground (arith, size, length-append (piece ++ body) (0xF7 ∷ older)) in
    rw (
      not_negative seen (piece ++ body),
      bytes_left seen (piece ++ body),
      long,
      there,
      append_assoc piece body (0xF7 ∷ older),
      take-append 256 piece (body ++ 0xF7 ∷ older) h,
      drop-append 256 piece (body ++ 0xF7 ∷ older) h,
    )

pub same_total :
    (seen piece body : List ℕ)
    → total_of seen (piece ++ body) ≡ total_of (reverse piece ++ seen) body
same_total seen piece body =
    omega
      (arith, length-append piece body, length-append (reverse piece) seen, length-reverse piece)

sysex_loop-step :
    (n total : ℕ) (d : Reader)
    → sysex_loop (suc n) false total d ≡ go_on (packet_of 0xF7 total d) (sysex_loop n false total)
unfolding sysex_loop
sysex_loop-step n total d = refl

abbrev pub Rest : ℕ → List ℕ → List ℕ → List ℕ → Type 0
Rest n seen body older =
    (parts : List (List ℕ)) × (last : List ℕ) × (sysex_loop n false (total_of seen body)
        (at seen body older)
      ≡ returns (map continued parts ++ ended last ∷ []))
    × (joined parts ++ last ≡ body)
    × All (λ part. length part ≤ 256) parts
    × (length last ≤ 256)

Rest-last : (n : ℕ) (seen body older : List ℕ) → length body ≤ 256 → Rest (suc n) seen body older
Rest-last n seen body older h = (
  [],
  body,
  sysex_loop-step n (total_of seen body) (at seen body older)
      ∙ (rw (packet_of-last 0xF7 seen body older h)),
  refl,
  tt,
  h,
)

Rest-more :
    (n : ℕ) (seen piece body older : List ℕ)
    → length piece ≡ 256
    → 0 < length body
    → Rest n (reverse piece ++ seen) body older
    → Rest (suc n) seen (piece ++ body) older
Rest-more n seen piece body older size more r = (
  piece ∷ r.0,
  r.1,
  sysex_loop-step n (total_of seen (piece ++ body)) (at seen (piece ++ body) older)
      ∙ (rw (packet_of-more 0xF7 seen piece body older size more, same_total seen piece body, r.2)),
  rw (append_assoc piece (joined r.0) r.1, r.3),
  (omega arith, r.4),
  r.5,
)

pub sysex_loop-Rest : (n : ℕ) (seen body older : List ℕ) → length body < n → Rest n seen body older
sysex_loop-Rest zero seen body older h = absurd (omega arith)
sysex_loop-Rest (suc n) seen body older h = elim (lt_eq_gt 256 (length body)) [
  | inl long ↦
      let (piece, rest, e, size, more) = split_off 256 body long in
      subst (λ b. Rest (suc n) seen b older) e
        (Rest-more n seen piece rest older size more (
          sysex_loop-Rest n (reverse piece ++ seen) rest older
            (omega (arith, ap length e, length-append piece rest))))
  | inr short ↦ Rest-last n seen body older (ground arith)
]
