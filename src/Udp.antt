-- ===== src/Udp.antt =====
-- lib/udppeer.cpp: what the receiver of a datagram gets.
use rtpmidid.Common.{ℕ, List, take}

-- `udppeer_t::data_ready`: `recvfrom` fills a buffer of 1500 bytes, and the rest of the datagram is lost.
unfoldable pub received : List ℕ → List ℕ
received datagram = take 1500 datagram
