-- ===== src/Examples/Queues.antt =====
-- The packet queue, with two packets to 7 and one to 9, of which one has expired at the time 5.
use mathlib.Core.List.{Perm}
use saero_rp.Prelude.{
  ℕ, ◌<◌, ◌≤◌, ◌≡◌, ◌⊎◌, refl, true, false, some, List, [], ◌∷◌, ◌++◌, arith, if◌then◌else◌, ◌==◌,
  length, All,
}
use saero_rp.PacketQueue.{
  Packet, Ipv4Header, QueueEntry, RequestQueue, purge, enqueue, dequeue, drop_packet_with_dst, find,
  contains,
}
use saero_rp.PacketQueue.Expiry.{purge-Perm}
use saero_rp.PacketQueue.Bounds.{enqueue_new, enqueue-IsDistinct, IsDistinct, IsTwin}

abbrev entry : ℕ → ℕ → ℕ → QueueEntry
entry uid dst expire = record {
  packet = record { uid = uid; size = 100; deferred = false };
  header = record { source = 3; destination = dst };
  ucb = 1;
  ecb = 2;
  expire = expire;
}

abbrev queue : RequestQueue
queue = record {
  queue = entry 1 7 4 ∷ entry 2 7 8 ∷ entry 3 9 8 ∷ [];
  max_len = 3;
  queue_timeout = 30;
}

purge-Perm_example :
    let (q', dropped) = purge queue 5 in
    All (λ e. 5 ≤ e.expire) q'.queue
    × All (λ e. e.expire < 5) dropped
    × Perm queue.queue (dropped ++ q'.queue)
purge-Perm_example = purge-Perm queue 5

new : contains (entry 4 7 0) (purge queue 5).0.queue ≡ false
unfolding contains purge saero_rp.PacketQueue.is_expired
new = refl

enqueue_new_example :
    let (live, dead) = purge queue 5 in
    (q' : RequestQueue) × (evicted : List QueueEntry) × (enqueue queue (entry 4 7 0) 5
      ≡ some (true, q', dead ++ evicted))
    × (evicted ++ q'.queue ≡ live.queue ++ entry 4 7 35 ∷ [])
    × (length evicted ≡ (if length live.queue == 3 then 1 else 0))
    × (length q'.queue ≤ 3)
    × (q'.max_len ≡ 3)
enqueue_new_example = enqueue_new queue (entry 4 7 0) 5 (omega arith) (omega arith) new

distinct : IsDistinct queue.queue
distinct = (
  ((λ twin. ground arith), ((λ twin. ground arith), tt)),
  (((λ twin. ground arith), tt), (tt, tt)),
)

same : enqueue queue (entry 2 7 0) 5 ≡ some (false, (purge queue 5).0, (purge queue 5).1)
unfolding enqueue contains saero_rp.PacketQueue.is_expired
same = refl

-- The packet 2 waits for 7 already.
enqueue-IsDistinct_example :
    let q' = (purge queue 5).0 in
    IsDistinct q'.queue
    × (((false ≡ true) × All (λ f. ¬ IsTwin f (entry 2 7 0)) q'.queue)
        ⊎ ((false ≡ false)
            × ((before after : List QueueEntry) × (f : QueueEntry) × (q'.queue
                  ≡ before ++ f ∷ after)
                × IsTwin f (entry 2 7 0))
            × ((q', (purge queue 5).1) ≡ purge queue 5)))
enqueue-IsDistinct_example =
    enqueue-IsDistinct queue (purge queue 5).0 (entry 2 7 0) 5 false (purge queue 5).1 distinct same
