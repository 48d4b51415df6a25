-- ===== src/CentralMac/Session.antt =====
-- A session of tdma-central-mac.cc ends inside its slot and sends a front part of the queue.
use saero_rp.Prelude.{
  ℕ, zero, suc, ◌+◌, ◌-◌, ◌*◌, ◌/◌, ◌%◌, ◌^◌, ◌<◌, ◌≤◌, ◌≡◌, refl, Bool, true, Option, none, some,
  List, [], ◌∷◌, ◌++◌, ltb, if◌then◌else◌, length, All, arith, inl, inr, Bool-cases,
}
use saero_rp.PacketQueue.{Packet}
use saero_rp.MacQueue.{Item, TdmaMacQueue, is_fresh, sweep, cleanup, is_empty, peek, dequeue}
use saero_rp.MacQueue.Laws.{IsCounted}
use saero_rp.CentralMac.{
  Down, calculate_tx_time, start_transmission, send_packet_down, follow, transmit,
}

-- No item of the queue is out of date before the time `t`.
abbrev pub Stays : ℕ → TdmaMacQueue → Type 0
Stays t q = All (λ i. t < i.tstamp + q.max_delay) q.queue

sweep-All :
    (fresh : Item → Bool) (is : List Item) (count n : ℕ)
    → All (λ i. fresh i ≡ true) is
    → sweep fresh is count n ≡ (is, [], count, n)
unfolding sweep
sweep-All fresh [] count n h = refl
sweep-All fresh (i ∷ is) count n h = ground (arith, sweep-All fresh is count n h.1)

is_fresh-All :
    (q : TdmaMacQueue) (t now : ℕ) (is : List Item)
    → now ≤ t
    → All (λ i. t < i.tstamp + q.max_delay) is
    → All (λ i. is_fresh q now i ≡ true) is
unfolding is_fresh
is_fresh-All q t now [] h s = tt
is_fresh-All q t now (i ∷ is) h s = (ground arith, is_fresh-All q t now is h s.1)

cleanup_fresh_go :
    (q : TdmaMacQueue) (now : ℕ) (is : List Item)
    → q.queue ≡ is
    → All (λ i. is_fresh q now i ≡ true) is
    → IsCounted q
    → cleanup q now ≡ (q, [])
unfolding cleanup
cleanup_fresh_go q now [] e h c = ground arith
cleanup_fresh_go q now (i ∷ is) e h c =
    ground (arith, sweep-All (is_fresh q now) (i ∷ is) q.count 0 h, c.counted, c.fits)

-- While no item is out of date, `Cleanup` changes nothing.
pub cleanup_fresh :
    (q : TdmaMacQueue) (t now : ℕ) → now ≤ t → Stays t q → IsCounted q → cleanup q now ≡ (q, [])
cleanup_fresh q t now h s c =
    cleanup_fresh_go q now q.queue refl (is_fresh-All q t now q.queue h s) c

-- All packets are so small that `CalculateTxTime` takes them.
abbrev pub AreSmall : List Item → Type 0
AreSmall is = All (λ i. i.packet.size < 1500) is

-- The call that is scheduled when `is` are in the queue.
abbrev pub next_call : (Packet → ℕ) → List Item → ℕ → Option Down
next_call tx [] slot = none
next_call tx (i ∷ is) slot =
    if ltb (tx i.packet) slot
    then some (record { delay = tx i.packet; remaining = slot - tx i.packet })
    else none

module _ (tx : Packet → ℕ) where
  pub start_fresh :
      (q : TdmaMacQueue) (is : List Item) (us now : ℕ)
      → q.queue ≡ is
      → cleanup q now ≡ (q, [])
      → AreSmall is
      → start_transmission tx q us now ≡ some (q, [], next_call tx is (us * 1000))
  unfolding start_transmission calculate_tx_time is_empty peek
  start_fresh q [] us now e h small = ground arith
  start_fresh q (i ∷ is) us now e h small = ground (arith, small.0)

  -- The front part of a queue that fits in a slot of so many microseconds: after each item the time
  -- that remains is rounded down to microseconds, and the next item is taken if it is shorter.
  unfoldable pub fitting : ℕ → List Item → List Item
  fitting us [] = []
  fitting us (i ∷ is) =
      let rest = fitting ((us * 1000 - tx i.packet) / 1000) is in
      if ltb (tx i.packet) (us * 1000) then i ∷ rest else []

  abbrev pub total : List Item → ℕ
  total [] = 0
  total (i ∷ is) = tx i.packet + total is

  -- What a session leaves.
  pub record Sends (q : TdmaMacQueue) (us now : ℕ) (r : List Item × TdmaMacQueue × ℕ) : Type 0 where
    pub sent : r.0 ≡ fitting us q.queue
    pub left : q.queue ≡ r.0 ++ r.1.queue
    pub time : r.2 ≡ now + total r.0
    pub inside : total r.0 ≤ us * 1000
    pub counted : IsCounted r.1

  All-mono :
      (s t d : ℕ) (is : List Item)
      → s ≤ t
      → All (λ i. t < i.tstamp + d) is
      → All (λ i. s < i.tstamp + d) is
  All-mono s t d [] h a = tt
  All-mono s t d (i ∷ is) h a = (omega arith, All-mono s t d is h a.1)

  dequeue_fresh :
      (q : TdmaMacQueue) (i : Item) (is : List Item) (now : ℕ)
      → q.queue ≡ i ∷ is
      → cleanup q now ≡ (q, [])
      → dequeue q now ≡ (some i, record q { queue = is; size = (q.size + 2 ^ 32 - 1) % 2 ^ 32 }, [])
  unfolding dequeue
  dequeue_fresh q i is now e h = ground arith

  rest-IsCounted :
      (q : TdmaMacQueue) (i : Item) (is : List Item)
      → q.queue ≡ i ∷ is
      → IsCounted q
      → IsCounted (record q { queue = is; size = (q.size + 2 ^ 32 - 1) % 2 ^ 32 })
  rest-IsCounted q i is e c = record {
    counted = ground (arith, c.counted, c.fits);
    fits = ground (arith, c.fits);
  }

  follow-Sends :
      (fuel : ℕ) (is : List Item) (q : TdmaMacQueue) (us now : ℕ)
      → q.queue ≡ is
      → IsCounted q
      → All (λ i. now + us * 1000 < i.tstamp + q.max_delay) is
      → AreSmall is
      → length is < fuel
      → (r : List Item × TdmaMacQueue × ℕ) × (follow tx true fuel q
            (next_call tx is (us * 1000))
            now
          ≡ some r)
        × Sends q us now r
  unfolding follow send_packet_down fitting
  follow-Sends zero is q us now e c a b h = absurd (omega arith)
  follow-Sends (suc fuel) [] q us now e c a b h = (
    ([], q, now),
    refl,
    record {
      sent = ground arith;
      left = ground arith;
      time = ground arith;
      inside = ground arith;
      counted = c;
    },
  )
  follow-Sends (suc fuel) (i ∷ is) q us now e c a b h =
      elim (Bool-cases (ltb (tx i.packet) (us * 1000))) [
        | inl fits ↦
            let now' = now + tx i.packet in
            let us' = (us * 1000 - tx i.packet) / 1000 in
            let q' : TdmaMacQueue = record q {
              queue = is;
              size = (q.size + 2 ^ 32 - 1) % 2 ^ 32;
            } in
            let c' = rest-IsCounted q i is e c in
            let less : now' + us' * 1000 ≤ now + us * 1000 = ground arith in
            let a' = All-mono (now' + us' * 1000) (now + us * 1000) q.max_delay is less a.1 in
            let out =
              dequeue_fresh q i is now' e
                (cleanup_fresh q (now + us * 1000) now' (ground arith) (rw e a) c) in
            let again =
              start_fresh q' is us' now' refl
                (cleanup_fresh q' (now' + us' * 1000) now' (omega arith) a' c') b.1 in
            let (r, runs, sends) = follow-Sends fuel is q' us' now' refl c' a' b.1 (omega arith) in
            (
              (i ∷ r.0, r.1, r.2),
              ground (arith, fits, out, again, runs),
              record {
                sent = ground (arith, e, fits, sends.sent);
                left = ground (arith, e, sends.left);
                time = ground (arith, sends.time);
                inside = ground (arith, sends.inside, fits);
                counted = sends.counted;
              },
            )
        | inr long ↦ (
          ([], q, now),
          ground (arith, long),
          record {
            sent = ground (arith, long, e);
            left = refl;
            time = ground arith;
            inside = ground arith;
            counted = c;
          },
        )
      ]

  -- A session that starts with a right counter, with packets smaller than 1500 bytes and on a MAC
  -- that has the callback of `TxQueueStart`, while no packet comes in and no item goes out of date,
  -- ends without a failure, if the fuel is more than the length of the queue. It sends the front
  -- part of the queue that fits in the slot, in order, and leaves the rest; the sending takes the
  -- sum of the transmission times, which is at most the slot. The counter stays right.
  pub transmit-Sends :
      (fuel : ℕ) (q : TdmaMacQueue) (us now : ℕ)
      → IsCounted q
      → Stays (now + us * 1000) q
      → AreSmall q.queue
      → length q.queue < fuel
      → (r : List Item × TdmaMacQueue × ℕ) × (transmit tx true fuel q us now ≡ some r)
        × Sends q us now r
  unfolding transmit
  transmit-Sends fuel q us now c a b h =
      let start =
        start_fresh q q.queue us now refl (cleanup_fresh q (now + us * 1000) now (omega arith) a c)
          b in
      let (r, runs, sends) = follow-Sends fuel q.queue q us now refl c a b h in
      (r, ground (arith, start, runs), sends)
