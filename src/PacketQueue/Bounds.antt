-- ===== src/PacketQueue/Bounds.antt =====
-- `Enqueue` of aerorp-pqueue.cc: its bound, its eviction, and that it stores no packet twice.
use saero_rp.Prelude.{
  ℕ, ◌<◌, ◌≤◌, ◌+◌, ◌≡◌, refl, Bool, true, false, not, some, List, [], ◌∷◌, ◌++◌, arith,
  if◌then◌else◌, ◌==◌, keep_if, Bool-cases, Option-cases, inl, inr, ◌⊎◌, length, length-append,
  length-keep_if-le, All, ap,
}
use saero_rp.PacketQueue.{
  QueueEntry, RequestQueue, is_expired, purge, push_back, enqueue, set_expire_time, contains,
  is_same,
}

push_back_lem :
    (q : RequestQueue) (e : QueueEntry) (es : List QueueEntry)
    → q.queue ≡ es
    → 0 < q.max_len
    → length es ≤ q.max_len
    → (q' : RequestQueue) × (evicted : List QueueEntry) × (push_back q e ≡ some (q', evicted))
      × (evicted ++ q'.queue ≡ es ++ e ∷ [])
      × (length evicted ≡ (if length es == q.max_len then 1 else 0))
      × (length q'.queue ≤ q.max_len)
      × (q'.max_len ≡ q.max_len)
      × (q'.queue_timeout ≡ q.queue_timeout)
unfolding push_back
push_back_lem q e [] same pos bound = (
  record q { queue = q.queue ++ e ∷ [] },
  [],
  ground arith,
  ground arith,
  ground arith,
  ground arith,
  refl,
  refl,
)
push_back_lem q e (old ∷ es) same pos bound = elim (Bool-cases (length (old ∷ es) == q.max_len)) [
  | inl full ↦ (
    record q { queue = es ++ e ∷ [] },
    old ∷ [],
    ground arith,
    refl,
    ground arith,
    ground (arith, length-append es (e ∷ [])),
    refl,
    refl,
  )
  | inr room ↦ (
    record q { queue = q.queue ++ e ∷ [] },
    [],
    ground arith,
    ground arith,
    ground arith,
    ground (arith, length-append (old ∷ es) (e ∷ [])),
    refl,
    refl,
  )
]

-- On a queue that may hold a packet and holds at most its maximum, `Enqueue` of a packet that no
-- live entry has for the same destination returns true. Entries that were evicted and the new
-- queue are together the live entries followed by the new one, which expires a queue timeout
-- from now; one entry is evicted if the live ones fill the queue, and none otherwise. The new
-- queue holds at most the maximum.
pub enqueue_new :
    (q : RequestQueue) (e : QueueEntry) (now : ℕ)
    → 0 < q.max_len
    → length q.queue ≤ q.max_len
    → contains e (purge q now).0.queue ≡ false
    → let (live, dead) = purge q now in
      (q' : RequestQueue) × (evicted : List QueueEntry) × (enqueue q e now
        ≡ some (true, q', dead ++ evicted))
      × (evicted ++ q'.queue ≡ live.queue ++ record e { expire = q.queue_timeout + now } ∷ [])
      × (length evicted ≡ (if length live.queue == q.max_len then 1 else 0))
      × (length q'.queue ≤ q.max_len)
      × (q'.max_len ≡ q.max_len)
unfolding enqueue set_expire_time
enqueue_new q e now pos bound new =
    let live = (purge q now).0 in
    let short = length-keep_if-le (λ f. not (is_expired now f)) q.queue in
    let (q', evicted, pushed, order, count, bound', same, same') =
      push_back_lem live (set_expire_time e live.queue_timeout now) live.queue refl pos
        (omega (arith, short)) in
    (q', evicted, rw (new, pushed), order, count, bound', same)

-- Two entries of one packet, by its unique number, for one destination.
abbrev pub IsTwin : QueueEntry → QueueEntry → Type 0
IsTwin e f = (e.packet.uid ≡ f.packet.uid) × (e.header.destination ≡ f.header.destination)

-- No two entries have one packet and one destination.
abbrev pub IsDistinct : List QueueEntry → Type 0
IsDistinct [] = Unit {0}
IsDistinct (e ∷ es) = All (λ f. ¬ IsTwin f e) es × IsDistinct es

contains-All :
    (e : QueueEntry) (es : List QueueEntry) → contains e es ≡ false → All (λ f. ¬ IsTwin f e) es
unfolding contains
contains-All e [] h = tt
contains-All e (f ∷ es) h = (λ twin. ground (arith, h, twin), contains-All e es (ground (arith, h)))

All-contains :
    (e : QueueEntry) (es : List QueueEntry) → All (λ f. ¬ IsTwin f e) es → contains e es ≡ false
unfolding contains
All-contains e [] h = refl
All-contains e (f ∷ es) h = elim (Bool-cases (is_same f e)) [
  | inl same ↦ absurd (h.0 (ground (arith, same), ground (arith, same)))
  | inr other ↦ ground (arith, other, All-contains e es h.1)
]

-- If the loop of `Enqueue` answers true, an entry is a twin of the new one.
pub contains-IsTwin :
    (e : QueueEntry) (es : List QueueEntry)
    → contains e es ≡ true
    → (before after : List QueueEntry) × (f : QueueEntry) × (es ≡ before ++ f ∷ after) × IsTwin f e
unfolding contains
contains-IsTwin e [] h = absurd (ground (arith, h))
contains-IsTwin e (f ∷ es) h = elim (Bool-cases (is_same f e)) [
  | inl same ↦ ([], es, f, refl, (ground (arith, same), ground (arith, same)))
  | inr other ↦
      let (before, after, g, split, twin) = contains-IsTwin e es (ground (arith, h, other)) in
      (f ∷ before, after, g, ap (λ xs. f ∷ xs) split, twin)
]

-- The same by the code's own loop.
abbrev IsUnlike : List QueueEntry → Type 0
IsUnlike [] = Unit {0}
IsUnlike (e ∷ es) = (contains e es ≡ false) × IsUnlike es

distinct-IsUnlike : (es : List QueueEntry) → IsDistinct es → IsUnlike es
distinct-IsUnlike [] h = tt
distinct-IsUnlike (e ∷ es) h = (All-contains e es h.0, distinct-IsUnlike es h.1)

unlike-IsDistinct : (es : List QueueEntry) → IsUnlike es → IsDistinct es
unlike-IsDistinct [] h = tt
unlike-IsDistinct (e ∷ es) h = (contains-All e es h.0, unlike-IsDistinct es h.1)

contains-keep_if :
    (p : QueueEntry → Bool) (e : QueueEntry) (es : List QueueEntry)
    → contains e es ≡ false
    → contains e (keep_if p es) ≡ false
unfolding contains
contains-keep_if p e [] h = refl
contains-keep_if p e (f ∷ es) h = ground (arith, contains-keep_if p e es)

keep_if-IsUnlike :
    (p : QueueEntry → Bool) (es : List QueueEntry) → IsUnlike es → IsUnlike (keep_if p es)
keep_if-IsUnlike p [] h = tt
keep_if-IsUnlike p (e ∷ es) h =
    ground (arith, keep_if-IsUnlike p es h.1, contains-keep_if p e es h.0)

contains-append :
    (e f : QueueEntry) (es : List QueueEntry)
    → contains f (e ∷ []) ≡ false
    → contains e es ≡ false
    → contains e (es ++ f ∷ []) ≡ false
unfolding contains
contains-append e f [] h k = ground arith
contains-append e f (x ∷ es) h k = ground (arith, contains-append e f es)

append-IsUnlike :
    (e : QueueEntry) (es : List QueueEntry)
    → contains e es ≡ false
    → IsUnlike es
    → IsUnlike (es ++ e ∷ [])
unfolding contains
append-IsUnlike e [] h d = (refl, tt)
append-IsUnlike e (f ∷ es) h d = ground (arith, append-IsUnlike e es, contains-append f e es)

tail_new :
    (old e : QueueEntry) (es : List QueueEntry)
    → contains e (old ∷ es) ≡ false
    → contains e es ≡ false
unfolding contains
tail_new old e es h = ground arith

push_back-IsUnlike :
    (q : RequestQueue) (e : QueueEntry) (es : List QueueEntry)
    → q.queue ≡ es
    → contains e es ≡ false
    → IsUnlike es
    → (q' : RequestQueue) (evicted : List QueueEntry) → push_back q e ≡ some (q', evicted)
    → IsUnlike q'.queue
unfolding push_back
push_back-IsUnlike q e [] same new d q' evicted h = ground (arith, append-IsUnlike e [] new d)
push_back-IsUnlike q e (old ∷ es) same new d q' evicted h =
    ground
      (arith, append-IsUnlike e (old ∷ es) new d, append-IsUnlike e es (tail_new old e es new) d.1)

set_expire-contains :
    (e : QueueEntry) (es : List QueueEntry) (exp now : ℕ)
    → contains e es ≡ false
    → contains (set_expire_time e exp now) es ≡ false
unfolding contains set_expire_time
set_expire-contains e [] exp now h = refl
set_expire-contains e (f ∷ es) exp now h = ground (arith, set_expire-contains e es exp now)

-- `Enqueue` that returns keeps the queue free of entries with one packet and one destination, and
-- returns true exactly when no entry that has not expired has the packet's unique number and its
-- destination; if it returns false, one has, and the queue is only purged.
pub enqueue-IsDistinct :
    (q q' : RequestQueue) (e : QueueEntry) (now : ℕ) (r : Bool) (dropped : List QueueEntry)
    → IsDistinct q.queue
    → enqueue q e now ≡ some (r, q', dropped)
    → IsDistinct q'.queue
      × (((r ≡ true) × All (λ f. ¬ IsTwin f e) (purge q now).0.queue)
          ⊎ ((r ≡ false)
              × ((before after : List QueueEntry) × (f : QueueEntry) × ((purge q now).0.queue
                    ≡ before ++ f ∷ after)
                  × IsTwin f e)
              × ((q', dropped) ≡ purge q now)))
unfolding enqueue
enqueue-IsDistinct q q' e now r dropped d h =
    let live = (purge q now).0 in
    let kept =
      keep_if-IsUnlike (λ f. not (is_expired now f)) q.queue (distinct-IsUnlike q.queue d) in
    let pushed = push_back live (set_expire_time e live.queue_timeout now) in
    elim (Bool-cases (contains e live.queue)) [
      | inl old ↦ (
        ground (arith, unlike-IsDistinct live.queue kept),
        inr (ground arith, contains-IsTwin e live.queue old, ground arith),
      )
      | inr new ↦ elim (Option-cases pushed) [
        | inl fault ↦ absurd (ground arith)
        | inr ((q'', evicted), done) ↦ (
          ground (
            arith,
            unlike-IsDistinct q''.queue (
                push_back-IsUnlike live (set_expire_time e live.queue_timeout now) live.queue refl
                  (set_expire-contains e live.queue live.queue_timeout now new) kept q'' evicted
                  done),
          ),
          inl (ground arith, contains-All e live.queue new),
        )
      ]
    ]
