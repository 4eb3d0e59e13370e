-- ===== src/Peer/ClockSync.antt =====
-- lib/rtppeer.cpp: the clock exchange (CK) and the latencies that it yields.
use rtpmidid.Common.{
  ℕ, ◌+◌, ◌-◌, ◌%◌, ◌^◌, ◌≤◌, ◌≡◌, refl, List, [], ◌∷◌, ◌++◌, length, drop, arith, Option, some,
  true, false,
}
use rtpmidid.Common.Words.{IsU64, u32_bytes, u64_bytes, from_u64_lem}
use rtpmidid.Peer.{
  Peer, Port, midi_port, Clock, Signal, send_event, ck_event, add_stat, call, call_with, returned,
  get_timestamp, now,
}
use rtpmidid.Peer.Sending.{send_ck0}
use rtpmidid.Peer.Commands.{run_command, parse_command_ck, answer_ck0, answer_ck1, finish_ck2}
use rtpmidid.Peer.Receive.{data_ready}
use rtpmidid.Peer.Handshake.{data_ready_command}
use rtpmidid.Peer.Session.{sent, deliver, ◌>>=◌}

abbrev pub ck_bytes : ℕ → ℕ → ℕ → ℕ → ℕ → List ℕ
ck_bytes ssrc count ck1 ck2 ck3 =
    0xFF
    ∷ 0xFF
    ∷ 0x43
    ∷ 0x4b
    ∷ (u32_bytes ssrc ++ (count ∷ 0 ∷ 0 ∷ 0 ∷ (u64_bytes ck1 ++ (u64_bytes ck2 ++ u64_bytes ck3))))

pub send_ck0_sends :
    (c : Clock) (p : Peer)
    → returned (call (send_ck0 c) p)
      ≡ some (
        record p { waiting_ck = true },
        send_event (ck_bytes p.local_ssrc 0 (get_timestamp c p) 0 0) midi_port ∷ [],
      )
unfolding send_ck0 get_timestamp
send_ck0_sends c p = refl

long_ck : (ssrc count ck1 ck2 ck3 : ℕ) → 12 ≤ length (drop 4 (ck_bytes ssrc count ck1 ck2 ck3))
long_ck ssrc count ck1 ck2 ck3 = omega arith

pub data_ready_ck0 :
    (c : Clock) (p : Peer) (port : Port) (ssrc ck1 : ℕ)
    → IsU64 ck1
    → returned (call_with (data_ready c port) p (ck_bytes ssrc 0 ck1 0 0))
      ≡ some (p, send_event (ck_bytes p.local_ssrc 1 ck1 (get_timestamp c p) 0) port ∷ [])
unfolding run_command parse_command_ck answer_ck0
data_ready_ck0 c p port ssrc ck1 h =
    rw (data_ready_command c port p 0x43 0x4b _ (long_ck ssrc 0 ck1 0 0), from_u64_lem ck1 h)

pub data_ready_ck1 :
    (c : Clock) (p : Peer) (port : Port) (ssrc ck1 ck2 : ℕ)
    → IsU64 ck1
    → IsU64 ck2
    → let latency = (get_timestamp c p + 2 ^ 64 - ck1) % 2 ^ 64 in
      returned (call_with (data_ready c port) p (ck_bytes ssrc 1 ck1 ck2 0))
      ≡ some (
        record p { latency = latency; waiting_ck = false },
        ck_event latency
            ∷ add_stat latency
            ∷ send_event (ck_bytes p.local_ssrc 2 ck1 ck2 (get_timestamp c p)) port
            ∷ [],
      )
unfolding run_command parse_command_ck answer_ck1
data_ready_ck1 c p port ssrc ck1 ck2 h k = rw (
  data_ready_command c port p 0x43 0x4b _ (long_ck ssrc 1 ck1 ck2 0),
  from_u64_lem ck1 h,
  from_u64_lem ck2 k,
)

pub data_ready_ck2 :
    (c : Clock) (p : Peer) (port : Port) (ssrc ck1 ck2 ck3 : ℕ)
    → IsU64 ck2
    → let latency = (get_timestamp c p + 2 ^ 64 - ck2) % 2 ^ 64 in
      returned (call_with (data_ready c port) p (ck_bytes ssrc 2 ck1 ck2 ck3))
      ≡ some (record p { latency = latency }, add_stat latency ∷ ck_event latency ∷ [])
unfolding run_command parse_command_ck finish_ck2
data_ready_ck2 c p port ssrc ck1 ck2 ck3 k =
    rw (data_ready_command c port p 0x43 0x4b _ (long_ck ssrc 2 ck1 ck2 ck3), from_u64_lem ck2 k)

-- A whole exchange: one peer sends CK0, and each answer is delivered to the other end. The clock is
-- read when CK0 is sent and whenever a packet is received.
abbrev pub exchange :
    Clock
    → Clock
    → Clock
    → Clock
    → Peer × Peer
    → Option ((Peer × List Signal) × (Peer × List Signal))
exchange c1 c2 c3 c4 (p, q) = do
  (p, out) ← returned (call (send_ck0 c1) p)
  (q, out) ← deliver c2 q (sent out)
  (p, out_p) ← deliver c3 p (sent out)
  (q, out_q) ← deliver c4 q (sent out_p)
  some ((p, out_p), (q, out_q))

get_timestamp-IsU64 : (c : Clock) (p : Peer) → IsU64 (get_timestamp c p)
unfolding get_timestamp
get_timestamp-IsU64 c p = omega arith

-- The start of the time scale cancels.
elapsed :
    (c c' : Clock) (p : Peer)
    → IsU64 p.timestamp_start
    → now c ≤ now c'
    → (get_timestamp c' p + 2 ^ 64 - get_timestamp c p) % 2 ^ 64 ≡ now c' - now c
unfolding get_timestamp
elapsed c c' p h le = omega arith

waits :
    (c : Clock) (p : Peer) → get_timestamp c (record p { waiting_ck = true }) ≡ get_timestamp c p
unfolding get_timestamp
waits c p = refl

-- After a clock exchange, where neither clock goes back in between and the start times have 64 bits,
-- each end has the round trip time by its own clock: from CK0 sent to CK1
-- received, and from CK0 received to CK2 received. Each has reported it once to the listeners of
-- its clock and once to its statistics, and the one that began waits no longer.
pub exchange_measures :
    (c1 c2 c3 c4 : Clock) (p q : Peer)
    → IsU64 p.timestamp_start
    → IsU64 q.timestamp_start
    → now c1 ≤ now c3
    → now c2 ≤ now c4
    → (out : List ℕ) × (exchange c1 c2 c3 c4 (p, q)
        ≡ some (
          (
            record p { latency = now c3 - now c1; waiting_ck = false },
            ck_event (now c3 - now c1) ∷ add_stat (now c3 - now c1) ∷ send_event out midi_port ∷ [],
          ),
          (
            record q { latency = now c4 - now c2 },
            add_stat (now c4 - now c2) ∷ ck_event (now c4 - now c2) ∷ [],
          ),
        ))
exchange_measures c1 c2 c3 c4 p q hp hq le le' = (
  ck_bytes p.local_ssrc 2 (get_timestamp c1 p) (get_timestamp c2 q) (get_timestamp c3 p),
  rw (
    send_ck0_sends c1 p,
    data_ready_ck0 c2 q midi_port p.local_ssrc (get_timestamp c1 p) (get_timestamp-IsU64 c1 p),
    data_ready_ck1 c3 (record p { waiting_ck = true }) midi_port q.local_ssrc (get_timestamp c1 p)
        (get_timestamp c2 q) (get_timestamp-IsU64 c1 p) (get_timestamp-IsU64 c2 q),
    waits c3 p,
    data_ready_ck2 c4 q midi_port p.local_ssrc (get_timestamp c1 p) (get_timestamp c2 q)
        (get_timestamp c3 p) (get_timestamp-IsU64 c2 q),
    elapsed c1 c3 p hp le,
    elapsed c2 c4 q hq le',
  ),
)
