-- ===== src/Sequencer/Rejoined.antt =====
-- src/aseq.cpp and lib/rtppeer.cpp: a SysEx event that goes out in packets, and its receiver.
use rtpmidid.Common.{
  ℕ, suc, ◌+◌, ◌-◌, ◌≤◌, ◌<◌, ◌≡◌, ◌⊎◌, All, refl, sym, ap, ◌∙◌, List, [], ◌∷◌, ◌++◌, length, drop,
  reverse, true, false, ltb, subst, append_assoc, map, split_off, lt_eq_gt, inl, inr, if◌then◌else◌,
  some, arith, length-append,
}
use rtpmidid.Bytes.{Reader, Writer, forward}
use rtpmidid.Common.Words.{IsU16, IsU32}
use rtpmidid.Message.{system_exclusive}
use rtpmidid.Peer.{Peer, Clock, midi_event}
use rtpmidid.Peer.Session.{deliver}
use rtpmidid.Peer.Delivery.{data_ready_message}
use rtpmidid.Peer.Parts.{joined, begun, continued, ended, reading, rtp_each, sysex_in_parts}
use rtpmidid.Peer.SysEx.{IsPart}
use rtpmidid.Sequencer.{midi, sysex, SeqPort}
use rtpmidid.Sequencer.Midi.{
  Coder, Decoded, returns, packet_of, sysex_loop, ev_to_mididata_f, decode_sysex, go_on,
}
use rtpmidid.Sequencer.SysEx.{
  total_of, Rest, sysex_loop-Rest, packet_of-last, packet_of-more, same_total,
}

sysex_loop-first :
    (n total : ℕ) (d : Reader)
    → sysex_loop (suc n) true total d
      ≡ go_on (packet_of 0xF0 total (forward 1 d)) (sysex_loop n false total)
unfolding sysex_loop
sysex_loop-first n total d = refl

-- What the event's packets are.
abbrev Packets : List ℕ → List (List ℕ) → Type 0
Packets body packets =
    ((packets ≡ (0xF0 ∷ (body ++ 0xF7 ∷ [])) ∷ []) × (length body ≤ 256))
    ⊎ ((first : List ℕ) × (parts : List (List ℕ)) × (last : List ℕ) × (packets
          ≡ begun first ∷ (map continued parts ++ ended last ∷ []))
        × (first ++ (joined parts ++ last) ≡ body)
        × (0 < length body)
        × (length first ≤ 256)
        × All (λ part. length part ≤ 256) parts
        × (length last ≤ 256))

All-split :
    (xs ys : List ℕ)
    → All (λ b. b < 0x80) (xs ++ ys)
    → All (λ b. b < 0x80) xs × All (λ b. b < 0x80) ys
All-split [] ys h = (tt, h)
All-split (x ∷ xs) ys h = let (front, back) = All-split xs ys h.1 in ((h.0, front), back)

All-IsPart :
    (parts : List (List ℕ))
    → All (λ b. b < 0x80) (joined parts)
    → All (λ part. length part ≤ 256) parts
    → All IsPart parts
All-IsPart [] h k = tt
All-IsPart (part ∷ parts) h k =
    let (here, later) = All-split part (joined parts) h in
    ((here, omega (arith, k.0)), All-IsPart parts later k.1)

last_number :
    (first : List ℕ) (parts : List (List ℕ)) (last : List ℕ)
    → length (begun first ∷ (map continued parts ++ ended last ∷ [])) - 1 ≡ 1 + length parts
last_number first parts last =
    omega (arith, length-append (map continued parts) (ended last ∷ []), length-map continued parts)
  where
    length-map : (f : List ℕ → List ℕ) (xs : List (List ℕ)) → length (map f xs) ≡ length xs
    length-map f [] = refl
    length-map f (x ∷ xs) = ap suc (length-map f xs)

module _ (c : Clock) (seq timestamp : ℕ → ℕ) (ssrc : ℕ) (hs : (n : ℕ) → IsU16 (seq n))
    (hr : IsU32 ssrc) (q : Peer) (known : q.remote_ssrc ≡ ssrc) (closed : q.sysex ≡ []) where
  -- The packets come as one event to the peer, which has no SysEx open at the end.
  abbrev Heard : List ℕ → List (List ℕ) → Type 0
  Heard body packets =
      deliver c q (rtp_each seq timestamp ssrc 0 packets)
      ≡ some (
        record q { remote_seq_nr = seq (length packets - 1); running_status = 0; sysex = [] },
        midi_event (0xF0 ∷ (body ++ 0xF7 ∷ [])) ∷ [],
      )

  whole-Heard :
      (body : List ℕ)
      → All (λ b. b < 0x80) body
      → length body ≤ 256
      → Heard body ((0xF0 ∷ (body ++ 0xF7 ∷ [])) ∷ [])
  whole-Heard body h short =
      let fits : length (0xF0 ∷ (body ++ 0xF7 ∷ [])) < 4096 =
        omega (arith, length-append body (0xF7 ∷ [])) in
      rw
        (data_ready_message c q (seq 0) (timestamp 0) ssrc (system_exclusive body) h fits closed
          (hs 0) hr known)
        (ap (λ b. some (reading q (seq 0) b, midi_event (0xF0 ∷ (body ++ 0xF7 ∷ [])) ∷ [])) closed)

  Packets-Heard :
      (body : List ℕ) (packets : List (List ℕ))
      → All (λ b. b < 0x80) body
      → Packets body packets
      → Heard body packets
  Packets-Heard body packets h (inl (e, short)) =
      subst (Heard body) (sym e) (whole-Heard body h short)
  Packets-Heard body packets h (inr (first, parts, last, e, join, more, sf, sp, sl)) =
      let split =
        All-split first (joined parts ++ last) (subst (All (λ b. b < 0x80)) (sym join) h) in
      let rest = All-split (joined parts) last split.1 in
      subst (Heard body) (sym e) (
        sysex_in_parts c seq timestamp ssrc hs hr q first parts last known closed
          (split.0, omega arith) (All-IsPart parts rest.0 sp) (rest.1, omega arith)
          (λ z. omega (arith, ap length join))
        ∙ rw (
          last_number first parts last,
          ← join,
          append_assoc first (joined parts ++ last) (0xF7 ∷ []),
          append_assoc (joined parts) last (0xF7 ∷ []),
        ))

Sent : ℕ → List ℕ → List ℕ → Type 0
unfolding sysex_loop
Sent n body older =
    (packets : List (List ℕ)) × (sysex_loop (suc n) true (total_of (0xF0 ∷ []) body)
        (record { seen = []; rest = 0xF0 ∷ (body ++ 0xF7 ∷ older) })
      ≡ returns packets)
    × Packets body packets

Sent-short : (n : ℕ) (body older : List ℕ) → length body ≤ 256 → Sent n body older
unfolding Sent
Sent-short n body older h = (
  (0xF0 ∷ (body ++ 0xF7 ∷ [])) ∷ [],
  sysex_loop-first n (total_of (0xF0 ∷ []) body)
        (record { seen = []; rest = 0xF0 ∷ (body ++ 0xF7 ∷ older) })
      ∙ (rw (packet_of-last 0xF0 (0xF0 ∷ []) body older h)),
  inl (refl, h),
)

Sent-long :
    (n : ℕ) (piece body older : List ℕ)
    → length piece ≡ 256
    → 0 < length body
    → Rest n (reverse piece ++ 0xF0 ∷ []) body older
    → Sent n (piece ++ body) older
unfolding Sent
Sent-long n piece body older size more r = (
  (0xF0 ∷ (piece ++ 0xF0 ∷ [])) ∷ (map continued r.0 ++ ended r.1 ∷ []),
  sysex_loop-first n (total_of (0xF0 ∷ []) (piece ++ body))
        (record { seen = []; rest = 0xF0 ∷ ((piece ++ body) ++ 0xF7 ∷ older) })
      ∙ (rw (
        packet_of-more 0xF0 (0xF0 ∷ []) piece body older size more,
        same_total (0xF0 ∷ []) piece body,
        r.2,
      )),
  inr (
    piece,
    r.0,
    r.1,
    refl,
    ap (piece ++◌) r.3,
    omega (arith, length-append piece body),
    omega arith,
    r.4,
    r.5,
  ),
)

sysex_loop-Sent : (n : ℕ) (body older : List ℕ) → length body < n → Sent n body older
sysex_loop-Sent n body older h = elim (lt_eq_gt 256 (length body)) [
  | inl long ↦
      let (piece, rest, e, size, more) = split_off 256 body long in
      subst (λ b. Sent n b older) e
        (Sent-long n piece rest older size more (
          sysex_loop-Rest n (reverse piece ++ 0xF0 ∷ []) rest older
            (omega (arith, ap length e, length-append piece rest))))
  | inr short ↦ Sent-short n body older (ground arith)
]

content_size : (body : List ℕ) → length (0xF0 ∷ (body ++ 0xF7 ∷ [])) ≡ total_of (0xF0 ∷ []) body
content_size body = omega (arith, length-append body (0xF7 ∷ []))

decode_sysex-sent :
    (older body : List ℕ) (packets : List (List ℕ))
    → sysex_loop (suc (total_of (0xF0 ∷ []) body)) true (total_of (0xF0 ∷ []) body) (record {
      seen = [];
      rest = 0xF0 ∷ (body ++ 0xF7 ∷ drop (total_of (0xF0 ∷ []) body) older);
    })
      ≡ returns packets
    → length body ≤ 65534
    → decode_sysex older (some (0xF0 ∷ (body ++ 0xF7 ∷ []))) ≡ returns packets
unfolding decode_sysex
decode_sysex-sent older body packets sent h =
    let total = total_of (0xF0 ∷ []) body in
    let content = 0xF0 ∷ (body ++ 0xF7 ∷ []) in
    let fits : ltb 65536 (length content) ≡ false = ground (arith, content_size body) in
    ap
      (λ b.
        if b
        then (Decoded.undefined [])
        else sysex_loop (suc (length content)) true (length content)
            (record { seen = []; rest = content ++ drop (length content) older }))
      fits
    ∙ ap (λ k. sysex_loop (suc k) true k (record { seen = []; rest = content ++ drop k older }))
        (content_size body)
    ∙ ap (λ bs. sysex_loop (suc total) true total (record { seen = []; rest = 0xF0 ∷ bs }))
        (append_assoc body (0xF7 ∷ []) (drop total older))
    ∙ sent

-- A SysEx event of at most 65536 bytes, which begin with F0, end with F7 and are below 0x80 between
-- these, goes out in packets, and the cutting ends. Where each of them goes into an RTP packet of a
-- sender, a peer that knows the sender's SSRC, has no SysEx open and gets them in their order puts them
-- together to one event with exactly the event's bytes, and has no SysEx open at the end. This holds
-- whatever the coder and the older bytes in its buffer are, and for any sequence numbers and
-- timestamps; the coder's buffer has room for the 65536 bytes.
pub ev_to_mididata_f-rejoined {ℓ} :
    {S : Type ℓ} (coder : Coder S) (older body bs : List ℕ) (source dest : SeqPort) (out : Writer)
    (c : Clock) (q : Peer) (seq timestamp : ℕ → ℕ) (ssrc : ℕ)
    → length body ≤ 65534
    → All (λ b. b < 0x80) body
    → coder.decode (length bs) (midi sysex source dest bs) ≡ some (0xF0 ∷ (body ++ 0xF7 ∷ []))
    → ((n : ℕ) → IsU16 (seq n))
    → IsU32 ssrc
    → q.remote_ssrc ≡ ssrc
    → q.sysex ≡ []
    → (packets : List (List ℕ)) × (ev_to_mididata_f coder older (midi sysex source dest bs) out
        ≡ returns packets)
      × (deliver c q (rtp_each seq timestamp ssrc 0 packets)
          ≡ some (
            record q { remote_seq_nr = seq (length packets - 1); running_status = 0; sysex = [] },
            midi_event (0xF0 ∷ (body ++ 0xF7 ∷ [])) ∷ [],
          ))
unfolding ev_to_mididata_f Sent
ev_to_mididata_f-rejoined coder older body bs source dest out c q seq timestamp ssrc short low e hs
      hr known closed =
    let total = total_of (0xF0 ∷ []) body in
    let (packets, sent, p) = sysex_loop-Sent total body (drop total older) (omega arith) in
    (
      packets,
      ap (decode_sysex older) e ∙ decode_sysex-sent older body packets sent short,
      Packets-Heard c seq timestamp ssrc hs hr q known closed body packets low p,
    )
