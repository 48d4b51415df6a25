-- ===== src/Simulation/Throughput.antt =====
-- What the counters and the lines of aero-test-final.cc amount to over a run.
use saero_rp.Prelude.{
  ℕ, suc, ◌+◌, ◌*◌, ◌-◌, ◌^◌, ◌%◌, ◌<◌, ◌≡◌, subst, none, some, List, [], ◌∷◌, ◌++◌, length, arith,
  Option-cases, inl, inr,
}
use saero_rp.Simulation.{
  Statistics, Arrival, Line, on_off_tx_trace, take_packet, receive_packet, check_throughput,
}

-- What happens to the counters: packets at a socket, a packet that an application sends, and the
-- timer of a line.
pub data Happening : Type 0 where
  arrivals : List Arrival → ℕ → Happening
  sent : Happening
  line : ℕ → Happening

unfoldable pub happens : Statistics → Happening → Statistics × List Line
happens s (arrivals ps now) = (receive_packet s ps now, [])
happens s sent = (on_off_tx_trace s, [])
happens s (line now) = let (s', l) = check_throughput s now in (s', l ∷ [])

-- A run, with the lines that it writes.
unfoldable pub run : Statistics → List Happening → Statistics × List Line
unfolding happens
run s [] = (s, [])
run s (h ∷ hs) = let (s', ls) = happens s h in let (end, later) = run s' hs in (end, ls ++ later)

-- The numbers of bytes, packets, stamped packets and the sum of delays of some packets.
abbrev pub sizes : List Arrival → ℕ
sizes [] = 0
sizes (p ∷ ps) = p.size + sizes ps

abbrev stamp_count : Arrival → ℕ
stamp_count p = elim p.stamp [ none ↦ 0 | some tx ↦ 1 ]

abbrev delay_of : ℕ → Arrival → ℕ
delay_of now p = elim p.stamp [ none ↦ 0 | some tx ↦ now - tx ]

abbrev pub stamps : List Arrival → ℕ
stamps [] = 0
stamps (p ∷ ps) = stamp_count p + stamps ps

abbrev pub delays : ℕ → List Arrival → ℕ
delays now [] = 0
delays now (p ∷ ps) = delay_of now p + delays now ps

-- The same of a run, and the number of packets sent.
abbrev pub run_bytes : List Happening → ℕ
run_bytes [] = 0
run_bytes (arrivals ps now ∷ hs) = sizes ps + run_bytes hs
run_bytes (sent ∷ hs) = run_bytes hs
run_bytes (line now ∷ hs) = run_bytes hs

abbrev pub run_received : List Happening → ℕ
run_received [] = 0
run_received (arrivals ps now ∷ hs) = length ps + run_received hs
run_received (sent ∷ hs) = run_received hs
run_received (line now ∷ hs) = run_received hs

abbrev pub run_sent : List Happening → ℕ
run_sent [] = 0
run_sent (arrivals ps now ∷ hs) = run_sent hs
run_sent (sent ∷ hs) = suc (run_sent hs)
run_sent (line now ∷ hs) = run_sent hs

abbrev pub run_stamps : List Happening → ℕ
run_stamps [] = 0
run_stamps (arrivals ps now ∷ hs) = stamps ps + run_stamps hs
run_stamps (sent ∷ hs) = run_stamps hs
run_stamps (line now ∷ hs) = run_stamps hs

abbrev pub run_delays : List Happening → ℕ
run_delays [] = 0
run_delays (arrivals ps now ∷ hs) = delays now ps + run_delays hs
run_delays (sent ∷ hs) = run_delays hs
run_delays (line now ∷ hs) = run_delays hs

abbrev pub line_bits : List Line → ℕ
line_bits [] = 0
line_bits (l ∷ ls) = l.bits + line_bits ls

-- The counters after such amounts.
record Counts (s s' : Statistics) (bytes received sent_ stamped delay : ℕ) : Type 0 where
  bytes_total : s'.bytes_total ≡ s.bytes_total + bytes
  packets_received : s'.packets_received ≡ s.packets_received + received
  packets_transmitted : s'.packets_transmitted ≡ s.packets_transmitted + sent_
  stamps_counted : s'.stamped ≡ s.stamped + stamped
  delay_sum : s'.delay ≡ s.delay + delay

Counts-refl : (s : Statistics) → Counts s s 0 0 0 0 0
Counts-refl s = record {
  bytes_total = omega arith;
  packets_received = omega arith;
  packets_transmitted = omega arith;
  stamps_counted = omega arith;
  delay_sum = omega arith;
}

Counts-trans :
    (s t u : Statistics) (b b' r r' x x' n n' d d' : ℕ)
    → Counts s t b r x n d
    → Counts t u b' r' x' n' d'
    → Counts s u (b + b') (r + r') (x + x') (n + n') (d + d')
Counts-trans s t u b b' r r' x x' n n' d d' first later = record {
  bytes_total = omega (arith, first.bytes_total, later.bytes_total);
  packets_received = omega (arith, first.packets_received, later.packets_received);
  packets_transmitted = omega (arith, first.packets_transmitted, later.packets_transmitted);
  stamps_counted = omega (arith, first.stamps_counted, later.stamps_counted);
  delay_sum = omega (arith, first.delay_sum, later.delay_sum);
}

take_packet-Counts :
    (s : Statistics) (a : Arrival) (now : ℕ)
    → s.bytes_total + sizes (a ∷ []) < 2 ^ 32
    → s.packets_received + 1 < 2 ^ 32
    → s.stamped + stamps (a ∷ []) < 2 ^ 64
    → Counts s (take_packet s a now) a.size 1 0 (stamp_count a) (delay_of now a)
unfolding take_packet
take_packet-Counts s a now b p n = elim (Option-cases a.stamp) [
  | inl e ↦ record {
    bytes_total = ground (arith, e);
    packets_received = ground (arith, e);
    packets_transmitted = ground (arith, e);
    stamps_counted = ground (arith, e);
    delay_sum = ground (arith, e);
  }
  | inr (tx, e) ↦ record {
    bytes_total = ground (arith, e);
    packets_received = ground (arith, e);
    packets_transmitted = ground (arith, e);
    stamps_counted = ground (arith, e);
    delay_sum = ground (arith, e);
  }
]

receive_packet-Counts :
    (s : Statistics) (ps : List Arrival) (now : ℕ)
    → s.bytes_total + sizes ps < 2 ^ 32
    → s.packets_received + length ps < 2 ^ 32
    → s.stamped + stamps ps < 2 ^ 64
    → Counts s (receive_packet s ps now) (sizes ps) (length ps) 0 (stamps ps) (delays now ps)
unfolding receive_packet
receive_packet-Counts s [] now b p n = Counts-refl s
receive_packet-Counts s (a ∷ ps) now b p n =
    let t = take_packet s a now in
    let first = take_packet-Counts s a now (omega arith) (omega arith) (omega arith) in
    let later =
      receive_packet-Counts t ps now (omega (arith, first.bytes_total))
        (omega (arith, first.packets_received)) (omega (arith, first.stamps_counted)) in
    let end = receive_packet t ps now in
    let one_more : 1 + length ps ≡ length (a ∷ ps) = omega arith in
    subst
      (λ m.
        Counts s end (a.size + sizes ps) m 0 (stamp_count a + stamps ps)
          (delay_of now a + delays now ps))
      one_more
      (Counts-trans s t end a.size (sizes ps) 1 (length ps) 0 0 (stamp_count a) (stamps ps)
        (delay_of now a) (delays now ps) first later)

-- What a run leaves: the counters, and the bits of the lines with what is not written yet.
pub record Conserves (s : Statistics) (hs : List Happening) (r : Statistics × List Line)
    : Type 0 where
  pub bits : line_bits r.1 + r.0.bytes_total * 8 ≡ (s.bytes_total + run_bytes hs) * 8
  pub received : r.0.packets_received ≡ s.packets_received + run_received hs
  pub transmitted : r.0.packets_transmitted ≡ s.packets_transmitted + run_sent hs
  pub stamped : r.0.stamped ≡ s.stamped + run_stamps hs
  pub delay : r.0.delay ≡ s.delay + run_delays hs

-- While the counts stay below their widths, a run from any counters on loses and doubles nothing:
-- the bits of all lines and of the bytes since the last line add up to those of the bytes before
-- and of the bytes that came in, the counts of packets and of stamps are those of the packets
-- received and sent, and the sum of delays is that of the stamped packets.
pub run-Conserves :
    (s : Statistics) (hs : List Happening)
    → s.bytes_total + run_bytes hs < 2 ^ 32
    → s.packets_received + run_received hs < 2 ^ 32
    → s.packets_transmitted + run_sent hs < 2 ^ 32
    → s.stamped + run_stamps hs < 2 ^ 64
    → Conserves s hs (run s hs)
unfolding run happens on_off_tx_trace check_throughput
run-Conserves s [] b r x n = record {
  bits = omega arith;
  received = omega arith;
  transmitted = omega arith;
  stamped = omega arith;
  delay = omega arith;
}
run-Conserves s (arrivals ps now ∷ hs) b r x n =
    let t = receive_packet s ps now in
    let first = receive_packet-Counts s ps now (omega arith) (omega arith) (omega arith) in
    let later =
      run-Conserves t hs (omega (arith, first.bytes_total)) (omega (arith, first.packets_received))
        (omega (arith, first.packets_transmitted)) (omega (arith, first.stamps_counted)) in
    record {
      bits = omega (arith, later.bits, first.bytes_total);
      received = omega (arith, later.received, first.packets_received);
      transmitted = omega (arith, later.transmitted, first.packets_transmitted);
      stamped = omega (arith, later.stamped, first.stamps_counted);
      delay = omega (arith, later.delay, first.delay_sum);
    }
run-Conserves s (sent ∷ hs) b r x n =
    let t : Statistics = record s { packets_transmitted = (s.packets_transmitted + 1) % 2 ^ 32 } in
    let small : (s.packets_transmitted + 1) % 2 ^ 32 ≡ s.packets_transmitted + 1 = omega arith in
    let later = run-Conserves t hs b r (omega (arith, small)) n in
    record {
      bits = later.bits;
      received = later.received;
      transmitted = omega (arith, later.transmitted, small);
      stamped = later.stamped;
      delay = later.delay;
    }
run-Conserves s (line now ∷ hs) b r x n =
    let later = run-Conserves (record s { bytes_total = 0 }) hs (omega arith) r x n in
    record {
      bits = omega (arith, later.bits);
      received = later.received;
      transmitted = later.transmitted;
      stamped = later.stamped;
      delay = later.delay;
    }
