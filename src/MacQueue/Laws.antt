-- ===== src/MacQueue/Laws.antt =====
-- The size counter of tdma-mac-queue.cc counts, the queue keeps its bound and its order, and
-- `Cleanup` drops what has waited too long.
use saero_rp.Prelude.{
  ℕ, ◌+◌, ◌^◌, ◌%◌, ◌<◌, ◌≤◌, ◌≡◌, ◌≢◌, refl, Bool, true, false, not, Option, none, some, List, [],
  ◌∷◌, ◌++◌, ltb, ◌==◌, if◌then◌else◌, map, length, length-append, Bool-cases, length-keep_if-le,
  All, keep_if, arith, ◌⊎◌, inl, inr,
}
use saero_rp.PacketQueue.{Packet}
use saero_rp.MacQueue.{
  Item, TdmaMacQueue, WifiMacHeader, is_fresh, sweep, cleanup, enqueue, dequeue, peek, is_empty,
  remove_first, remove,
}

-- The counter is the number of items, which fits in 32 bits.
pub record IsCounted (q : TdmaMacQueue) : Type 0 where
  pub counted : q.size ≡ length q.queue
  pub fits : length q.queue < 2 ^ 32

-- What the loop of `Cleanup` leaves.
record Swept (fresh : Item → Bool) (is : List Item) (count n : ℕ)
    (r : List Item × List Packet × ℕ × ℕ) : Type 0 where
  kept : r.0 ≡ keep_if fresh is
  dropped : r.1 ≡ map (λ i. i.packet) (keep_if (λ i. not (fresh i)) is)
  total : length r.1 + length r.0 ≡ length is
  number : n + length is < 2 ^ 32 → r.3 ≡ n + length r.1
  counter : count < 2 ^ 32 → r.2 ≡ (count + length r.1) % 2 ^ 32

sweep-Swept :
    (fresh : Item → Bool) (is : List Item) (count n : ℕ)
    → Swept fresh is count n (sweep fresh is count n)
unfolding sweep
sweep-Swept fresh [] count n = record {
  kept = refl;
  dropped = refl;
  total = refl;
  number = λ h. omega arith;
  counter = λ h. omega arith;
}
sweep-Swept fresh (i ∷ is) count n =
    let count' = if fresh i then count else (count + 1) % 2 ^ 32 in
    let n' = if fresh i then n else (n + 1) % 2 ^ 32 in
    let rest = sweep-Swept fresh is count' n' in
    record {
      kept = ground (arith, rest.kept);
      dropped = ground (arith, rest.dropped);
      total = ground (arith, rest.total);
      number = λ h. ground (arith, rest.number, rest.total);
      counter = λ h. ground (arith, rest.counter);
    }

-- What `Cleanup` does, over the items `is` of the queue.
record Cleaned (q : TdmaMacQueue) (now : ℕ) (is : List Item) (r : TdmaMacQueue × List Packet)
    : Type 0 where
  counted : IsCounted r.0
  kept : r.0.queue ≡ keep_if (is_fresh q now) is
  dropped : r.1 ≡ map (λ i. i.packet) (keep_if (λ i. not (is_fresh q now i)) is)
  counter : r.0.count ≡ (q.count + length r.1) % 2 ^ 32
  bound : r.0.max_size ≡ q.max_size
  delay : r.0.max_delay ≡ q.max_delay

cleanup-Cleaned :
    (q : TdmaMacQueue) (now : ℕ) (is : List Item)
    → q.queue ≡ is
    → IsCounted q
    → q.count < 2 ^ 32
    → Cleaned q now is (cleanup q now)
unfolding cleanup
cleanup-Cleaned q now [] e c h = record {
  counted = ground arith;
  kept = ground arith;
  dropped = ground arith;
  counter = ground arith;
  bound = ground arith;
  delay = ground arith;
}
cleanup-Cleaned q now (i ∷ is) e c h =
    let swept = sweep-Swept (is_fresh q now) (i ∷ is) q.count 0 in
    record {
      counted = record {
        counted = ground (arith, swept.total, swept.number);
        fits = ground (arith, swept.total);
      };
      kept = ground (arith, swept.kept);
      dropped = ground (arith, swept.dropped);
      counter = ground (arith, swept.counter);
      bound = ground arith;
      delay = ground arith;
    }

-- `Cleanup` keeps the counter right. The items kept are those whose time stamp and the maximal
-- delay end after now, in their order; the drop callback is called for the others, in their order;
-- and the drop counter grows by as many, modulo 2^32.
pub cleanup_lem :
    (q : TdmaMacQueue) (now : ℕ)
    → IsCounted q
    → q.count < 2 ^ 32
    → let (q', dropped) = cleanup q now in
      IsCounted q'
      × (q'.queue ≡ keep_if (λ i. ltb now (i.tstamp + q.max_delay)) q.queue)
      × (dropped
          ≡ map (λ i. i.packet) (keep_if (λ i. not (ltb now (i.tstamp + q.max_delay))) q.queue))
      × (q'.count ≡ (q.count + length dropped) % 2 ^ 32)
unfolding is_fresh
cleanup_lem q now c h =
    let r = cleanup-Cleaned q now q.queue refl c h in (r.counted, r.kept, r.dropped, r.counter)

-- The number of live items, which `Cleanup` leaves.
abbrev pub live : TdmaMacQueue → ℕ → List Item
live q now = keep_if (λ i. ltb now (i.tstamp + q.max_delay)) q.queue

-- `Enqueue` refuses the packet exactly when the live items are as many as the maximum, and then
-- only cleans up. Otherwise it puts the packet, its header and the time behind the live items. The
-- counter stays right; and a queue of at most the maximum stays so.
pub enqueue_lem :
    (q : TdmaMacQueue) (pointer : ℕ) (packet : Packet) (hdr : WifiMacHeader) (now : ℕ)
    → IsCounted q
    → q.count < 2 ^ 32
    → length q.queue ≤ q.max_size
    → q.max_size < 2 ^ 32
    → let (r, q', dropped) = enqueue q pointer packet hdr now in
      let item : Item = record { pointer = pointer; packet = packet; hdr = hdr; tstamp = now } in
      IsCounted q'
      × (length q'.queue ≤ q.max_size)
      × (r ≡ not (length (live q now) == q.max_size))
      × (q'.queue ≡ (if r then live q now ++ item ∷ [] else live q now))
unfolding enqueue is_fresh
enqueue_lem q pointer packet hdr now c h bound fits =
    let r = cleanup-Cleaned q now q.queue refl c h in
    let item : Item = record { pointer = pointer; packet = packet; hdr = hdr; tstamp = now } in
    let short = length-keep_if-le (is_fresh q now) q.queue in
    let longer = length-append (keep_if (is_fresh q now) q.queue) (item ∷ []) in
    (
      record {
        counted = ground (arith, r.counted.counted, r.kept, r.bound, short, longer);
        fits = ground (arith, r.counted.counted, r.kept, r.bound, short, longer);
      },
      ground (arith, r.counted.counted, r.kept, r.bound, short, longer),
      ground (arith, r.counted.counted, r.kept, r.bound),
      ground (arith, r.counted.counted, r.kept, r.bound),
    )

-- What `Dequeue`, `Peek` and `IsEmpty` return on a queue whose live items are `is`.
record Fronts (q : TdmaMacQueue) (now : ℕ) (is : List Item) : Type 0 where
  dequeued : IsCounted (dequeue q now).1
  front : is ≡ elim (dequeue q now).0 [ none ↦ [] | some x ↦ x ∷ (dequeue q now).1.queue ]
  peeked : (peek q now).0 ≡ (dequeue q now).0
  purged : (peek q now).1 ≡ (cleanup q now).0
  purged' : (is_empty q now).1 ≡ (cleanup q now).0
  empty : (is_empty q now).0 ≡ elim (dequeue q now).0 [ none ↦ true | some x ↦ false ]

fronts :
    (q : TdmaMacQueue) (now : ℕ) (is : List Item)
    → (cleanup q now).0.queue ≡ is
    → IsCounted (cleanup q now).0
    → Fronts q now is
unfolding dequeue peek is_empty
fronts q now [] e c = record {
  dequeued = ground arith;
  front = ground arith;
  peeked = ground arith;
  purged = ground arith;
  purged' = ground arith;
  empty = ground arith;
}
fronts q now (i ∷ is) e c = record {
  dequeued = record {
    counted = ground (arith, c.counted, c.fits);
    fits = ground (arith, c.counted, c.fits);
  };
  front = ground arith;
  peeked = ground arith;
  purged = ground arith;
  purged' = ground arith;
  empty = ground arith;
}

-- `Dequeue` returns the oldest live item and leaves the others, or the null packet if none is
-- live; the counter stays right. `Peek` returns the same item, and `IsEmpty` answers whether there
-- is none; both leave all live items.
pub dequeue-peek :
    (q : TdmaMacQueue) (now : ℕ)
    → IsCounted q
    → q.count < 2 ^ 32
    → let (i, q', dropped) = dequeue q now in
      IsCounted q'
      × (live q now ≡ elim i [ none ↦ [] | some x ↦ x ∷ q'.queue ])
      × ((peek q now).0 ≡ i)
      × ((peek q now).1.queue ≡ live q now)
      × ((is_empty q now).0 ≡ elim i [ none ↦ true | some x ↦ false ])
      × ((is_empty q now).1.queue ≡ live q now)
unfolding is_fresh
dequeue-peek q now c h =
    let r = cleanup-Cleaned q now q.queue refl c h in
    let f = fronts q now (live q now) r.kept r.counted in
    (
      f.dequeued,
      f.front,
      f.peeked,
      ground (arith, f.purged, r.kept),
      f.empty,
      ground (arith, f.purged', r.kept),
    )

-- The first item of a packet is taken out of the list, if there is one.
abbrev Removes : ℕ → List Item → Option (List Item) → Type 0
Removes pointer is r =
    ((r ≡ none) × All (λ i. i.pointer ≢ pointer) is)
    ⊎ ((older : List Item) × (i : Item) × (younger : List Item) × (r ≡ some (older ++ younger))
        × (is ≡ older ++ i ∷ younger)
        × (i.pointer ≡ pointer)
        × All (λ j. j.pointer ≢ pointer) older)

remove_first-Removes : (pointer : ℕ) (is : List Item) → Removes pointer is (remove_first pointer is)
unfolding remove_first
remove_first-Removes pointer [] = inl (refl, tt)
remove_first-Removes pointer (i ∷ is) = elim (Bool-cases (i.pointer == pointer)) [
  | inl hit ↦ inr ([], i, is, ground arith, refl, ground arith, tt)
  | inr miss ↦ elim (remove_first-Removes pointer is) [
    | inl (absent, others) ↦ inl (ground arith, (λ e. ground arith, others))
    | inr (older, j, younger, found, parts, at, others) ↦
        inr (i ∷ older, j, younger, ground arith, ground arith, at, (λ e. ground arith, others))
  ]
]

-- `Remove` takes the oldest item of the packet out, keeps the others in their order and returns
-- true, or returns false and changes nothing if the queue has no item of the packet. The counter
-- stays right.
pub remove_lem :
    (q : TdmaMacQueue) (pointer : ℕ)
    → IsCounted q
    → let (r, q') = remove q pointer in
      IsCounted q'
      × (((r ≡ false) × (q' ≡ q) × All (λ i. i.pointer ≢ pointer) q.queue)
          ⊎ ((r ≡ true)
              × (older : List Item) × (i : Item) × (younger : List Item) × (q.queue
                  ≡ older ++ i ∷ younger)
              × (q'.queue ≡ older ++ younger)
              × (i.pointer ≡ pointer)
              × All (λ j. j.pointer ≢ pointer) older))
unfolding remove
remove_lem q pointer c = elim (remove_first-Removes pointer q.queue) [
  | inl (absent, others) ↦ (
    record { counted = ground arith; fits = ground arith },
    inl (ground arith, ground arith, others),
  )
  | inr (older, i, younger, found, parts, at, others) ↦
      let whole = length-append older (i ∷ younger) in
      let rest = length-append older younger in
      (
        record { counted = ground (arith, whole, rest); fits = ground (arith, whole, rest) },
        inr (ground arith, older, i, younger, parts, ground arith, at, others),
      )
]
