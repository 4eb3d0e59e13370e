-- ===== src/Peer/Parts.antt =====
-- lib/rtppeer.cpp: a SysEx message that comes in parts, one RTP packet each.
use rtpmidid.Common.{
  ℕ, suc, ◌+◌, ◌<◌, ◌≡◌, ◌≢◌, refl, ap, ◌∙◌, List, [], ◌∷◌, ◌++◌, length, length-append, arith, map,
  append_assoc, All, some,
}
use rtpmidid.Common.Words.{IsU16, IsU32}
use native.Mathlib.Nat.{add-zero}
use rtpmidid.Peer.{Peer, Port, midi_port, Clock, midi_event, returned, call_with}
use rtpmidid.Peer.Receive.{data_ready}
use rtpmidid.Peer.Session.{deliver}
use rtpmidid.Peer.RtpPacket.{rtp_bytes, data_ready_rtp}
use rtpmidid.Peer.SysEx.{
  first_part, middle_part, last_part, IsPart, section, midi_list_start, midi_list_further,
}

-- The data of some parts, in their order.
abbrev pub joined : List (List ℕ) → List ℕ
joined [] = []
joined (x ∷ xs) = x ++ joined xs

-- The three kinds of part, as MIDI: one that begins a SysEx, one that goes on, and one that ends it.
abbrev pub begun : List ℕ → List ℕ
begun part = 0xF0 ∷ (part ++ 0xF0 ∷ [])

abbrev pub continued : List ℕ → List ℕ
continued part = 0xF7 ∷ (part ++ 0xF0 ∷ [])

abbrev pub ended : List ℕ → List ℕ
ended part = 0xF7 ∷ (part ++ 0xF7 ∷ [])

-- What a peer has that has read a packet, and has some SysEx open.
abbrev pub reading : Peer → ℕ → List ℕ → Peer
reading q seq sysex = record q { remote_seq_nr = seq; running_status = 0; sysex = sysex }

-- MIDI of a sender, one RTP packet each; the packets have any sequence numbers and timestamps.
abbrev pub rtp_each : (ℕ → ℕ) → (ℕ → ℕ) → ℕ → ℕ → List (List ℕ) → List (List ℕ × Port)
rtp_each seq timestamp ssrc n [] = []
rtp_each seq timestamp ssrc n (m ∷ ms) =
    (rtp_bytes (seq n) (timestamp n) ssrc m, midi_port) ∷ rtp_each seq timestamp ssrc (n + 1) ms

length-around :
    (first last : ℕ) (body : List ℕ) → length (first ∷ (body ++ last ∷ [])) ≡ 2 + length body
length-around first last body = omega (arith, length-append body (last ∷ []))

module _ (c : Clock) (q : Peer) (seq timestamp ssrc : ℕ) (hs : IsU16 seq) (hr : IsU32 ssrc)
    (known : q.remote_ssrc ≡ ssrc) where
  data_ready-begun :
      (body : List ℕ)
      → IsPart body
      → q.sysex ≡ []
      → (before : ℕ) × (returned
            (call_with (data_ready c midi_port) q (rtp_bytes seq timestamp ssrc (begun body)))
          ≡ some (reading q seq (before ∷ 0xF0 ∷ body), []))
  data_ready-begun body part closed =
      let fits : length (begun body) < 4096 = omega (arith, length-around 0xF0 0xF0 body, part.1) in
      let (before, seen, e) = data_ready_rtp c q seq timestamp ssrc (begun body) fits hs hr known in
      let q' = reading q seq q.sysex in
      (
        before,
        ap returned e
            ∙ midi_list_start (length (begun body)) q' (before ∷ seen) body 0xF0
                (reading q seq (before ∷ 0xF0 ∷ body)) [] refl part closed
                (first_part (section q' (before ∷ seen) (begun body)) before seen body closed refl),
      )

  module _ (x : ℕ) (xs : List ℕ) (open_one : q.sysex ≡ x ∷ xs) where
    data_ready-continued :
        (body : List ℕ)
        → IsPart body
        → returned
            (call_with (data_ready c midi_port) q (rtp_bytes seq timestamp ssrc (continued body)))
          ≡ some (reading q seq (q.sysex ++ body), [])
    data_ready-continued body part =
        let fits : length (continued body) < 4096 =
          omega (arith, length-around 0xF7 0xF0 body, part.1) in
        let (before, seen, e) =
          data_ready_rtp c q seq timestamp ssrc (continued body) fits hs hr known in
        let q' = reading q seq q.sysex in
        ap returned e
        ∙ midi_list_further (length (continued body)) q' (before ∷ seen) body 0xF0
            (reading q seq (q.sysex ++ body)) [] refl part (rw open_one refl)
            (middle_part (section q' (before ∷ seen) (continued body)) x xs body open_one)

    data_ready-ended :
        (body : List ℕ)
        → IsPart body
        → length (xs ++ body) ≢ 1
        → returned
            (call_with (data_ready c midi_port) q (rtp_bytes seq timestamp ssrc (ended body)))
          ≡ some (reading q seq [], midi_event (xs ++ (body ++ 0xF7 ∷ [])) ∷ [])
    data_ready-ended body part more =
        let fits : length (ended body) < 4096 =
          omega (arith, length-around 0xF7 0xF7 body, part.1) in
        let (before, seen, e) =
          data_ready_rtp c q seq timestamp ssrc (ended body) fits hs hr known in
        let q' = reading q seq q.sysex in
        ap returned e
        ∙ midi_list_further (length (ended body)) q' (before ∷ seen) body 0xF7 (reading q seq [])
            (midi_event (xs ++ (body ++ 0xF7 ∷ [])) ∷ []) refl part (rw open_one refl)
            (last_part (section q' (before ∷ seen) (ended body)) x xs body open_one more)

module _ (c : Clock) (seq timestamp : ℕ → ℕ) (ssrc : ℕ) (hs : (n : ℕ) → IsU16 (seq n))
    (hr : IsU32 ssrc) where
  deliver_further :
      (n : ℕ) (parts : List (List ℕ)) (last : List ℕ) (q : Peer) (x : ℕ) (xs : List ℕ)
      → q.remote_ssrc ≡ ssrc
      → q.sysex ≡ x ∷ xs
      → All IsPart parts
      → IsPart last
      → length (xs ++ (joined parts ++ last)) ≢ 1
      → deliver c q (rtp_each seq timestamp ssrc n (map continued parts ++ ended last ∷ []))
        ≡ some (
          reading q (seq (n + length parts)) [],
          midi_event (xs ++ (joined parts ++ (last ++ 0xF7 ∷ []))) ∷ [],
        )
  deliver_further n [] last q x xs known open_one ps l more = rw (
    data_ready-ended c q (seq n) (timestamp n) ssrc (hs n) hr known x xs open_one last l more,
    add-zero n,
  )
  deliver_further n (part ∷ parts) last q x xs known open_one ps l more =
      let q' = reading q (seq n) (q.sysex ++ part) in
      rw
        (
          data_ready-continued c q (seq n) (timestamp n) ssrc (hs n) hr known x xs open_one part
              ps.0,
          deliver_further (n + 1) parts last q' x (xs ++ part) known (rw open_one refl) ps.1 l
              (rw append_assoc (λ e. more (rw append_assoc e))),
          later n (length parts),
        )
        (rw (
          append_assoc xs part (joined parts ++ (last ++ 0xF7 ∷ [])),
          append_assoc part (joined parts) (last ++ 0xF7 ∷ []),
        ))
    where
      later : (n k : ℕ) → n + 1 + k ≡ n + suc k
      later n k = omega arith

  -- A SysEx that comes in parts, one RTP packet each, with any number of parts between the first and
  -- the last, is put together by a peer that knows the sender's SSRC and has no SysEx open: nothing
  -- comes out before the last packet, which sends one event with the start byte, the data of all parts
  -- in their order and the end byte, and no SysEx is left open. The data bytes are below 0x80, each
  -- part has at most 4093 of them and not all are empty; sequence numbers and timestamps are any.
  pub sysex_in_parts :
      (q : Peer) (first : List ℕ) (parts : List (List ℕ)) (last : List ℕ)
      → q.remote_ssrc ≡ ssrc
      → q.sysex ≡ []
      → IsPart first
      → All IsPart parts
      → IsPart last
      → length (first ++ (joined parts ++ last)) ≢ 0
      → deliver c q
          (rtp_each seq timestamp ssrc 0 (begun first ∷ (map continued parts ++ ended last ∷ [])))
        ≡ some (
          reading q (seq (1 + length parts)) [],
          midi_event (0xF0 ∷ (first ++ (joined parts ++ (last ++ 0xF7 ∷ [])))) ∷ [],
        )
  sysex_in_parts q first parts last known closed f ps l more =
      let (before, e) =
        data_ready-begun c q (seq 0) (timestamp 0) ssrc (hs 0) hr known first f closed in
      let q' = reading q (seq 0) (before ∷ 0xF0 ∷ first) in
      rw (
        e,
        deliver_further 1 parts last q' before (0xF0 ∷ first) known refl ps l
            (λ h. more (omega arith)),
      )
