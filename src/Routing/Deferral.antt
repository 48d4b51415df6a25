-- ===== src/Routing/Deferral.antt =====
-- `DeferredRouteOutput` of aerorp-routing-protocol.cc keeps the list of queued addresses: it names
-- every destination that a packet waits for, and the timer runs while it is not empty.
use saero_rp.Prelude.{
  ℕ, ◌+◌, ◌<◌, ◌≤◌, ◌≡◌, ◌≢◌, ap, refl, Bool, true, false, not, none, some, List, [], ◌∷◌, ◌++◌,
  ◌==◌, if◌then◌else◌, length, arith, ◌⊎◌, inl, inr, Bool-cases, Option-cases, length-append,
  length-keep_if-le,
}
use saero_rp.StdList.{member, unique, member-unique}
use saero_rp.PacketQueue.{
  Packet, Ipv4Header, QueueEntry, RequestQueue, is_expired, purge, enqueue, contains, new_entry,
  get_size,
}
use saero_rp.PacketQueue.Bounds.{enqueue_new, contains-IsTwin, IsTwin}
use saero_rp.PacketQueue.Order.{for_dst, for_dst-append, for_dst-purge}
use saero_rp.Routing.{Router, deferred_route_output}

-- Every destination that a packet waits for is a queued address, the queue keeps its bound, and
-- the timer runs while an address is queued.
pub record IsTracked {F : Type 0} (r : Router F) : Type 0 where
  pub room : 0 < r.queue.max_len
  pub bound : length r.queue.queue ≤ r.queue.max_len
  pub tracked : (d : ℕ) → member d r.queued_addresses ≡ false → for_dst d r.queue.queue ≡ []
  pub running : (d : ℕ) → member d r.queued_addresses ≡ true → r.check_queue_timer ≢ none

append_nil_right : (xs ys : List QueueEntry) → xs ++ ys ≡ [] → ys ≡ []
append_nil_right [] ys h = h
append_nil_right (x ∷ xs) ys h = absurd (ground (arith, h))

-- `Enqueue` on a queue within its bound returns, and brings no entry for another destination.
enqueue-adds :
    (q : RequestQueue) (e : QueueEntry) (now : ℕ)
    → 0 < q.max_len
    → length q.queue ≤ q.max_len
    → (r : Bool) × (q' : RequestQueue) × (dropped : List QueueEntry) × (enqueue q e now
        ≡ some (r, q', dropped))
      × (length q'.queue ≤ q.max_len)
      × (q'.max_len ≡ q.max_len)
      × ((d : ℕ)
          → (e.header.destination == d) ≡ false
          → for_dst d q.queue ≡ []
          → for_dst d q'.queue ≡ [])
unfolding enqueue
enqueue-adds q e now pos bound =
    let short = length-keep_if-le (λ f. not (is_expired now f)) q.queue in
    let live = (purge q now).0.queue in
    elim (Bool-cases (contains e live)) [
      | inl old ↦ (
        false,
        (purge q now).0,
        (purge q now).1,
        ground arith,
        omega (arith, short),
        refl,
        λ d other none_left. for_dst-purge d now q.queue none_left,
      )
      | inr new ↦
          let (q', evicted, done, order, count, bound', same) = enqueue_new q e now pos bound new in
          (
            true,
            q',
            (purge q now).1 ++ evicted,
            done,
            bound',
            same,
            λ d other none_left. append_nil_right (for_dst d evicted) (for_dst d q'.queue) (
                ground (
                  arith,
                  for_dst-append d evicted q'.queue,
                  ap (for_dst d) order,
                  for_dst-append d live (record e { expire = q.queue_timeout + now } ∷ []),
                  for_dst-purge d now q.queue none_left,
                )),
          )
    ]

-- A queue without entries that are tracked has no entry.
untracked :
    (ds : List ℕ) (es : List QueueEntry)
    → ((d : ℕ) → member d ds ≡ false → for_dst d es ≡ [])
    → (es ≡ []) ⊎ ((d : ℕ) × (member d ds ≡ true))
untracked ds [] h = inl refl
untracked ds (e ∷ es) h = elim (Bool-cases (member e.header.destination ds)) [
  | inl queued ↦ inr (e.header.destination, queued)
  | inr absent ↦ absurd (ground (arith, h e.header.destination absent))
]

-- The entry waits at the end of the queue until the time `expire`, or an entry with its packet and
-- its destination waited before.
abbrev pub Waits : RequestQueue → QueueEntry → Type 0
Waits q e =
    ((before : List QueueEntry) × (q.queue ≡ before ++ e ∷ []))
    ⊎ ((before after : List QueueEntry) × (f : QueueEntry) × (q.queue ≡ before ++ f ∷ after)
        × IsTwin f e)

last-suffix :
    (xs ys zs : List QueueEntry) (e : QueueEntry)
    → 0 < length ys
    → xs ++ ys ≡ zs ++ e ∷ []
    → (before : List QueueEntry) × (ys ≡ before ++ e ∷ [])
last-suffix [] ys zs e h p = (zs, p)
last-suffix (x ∷ xs) ys [] e h p =
    let empty = append_nil_right xs ys (ground (arith, p)) in absurd (ground (arith, empty, h))
last-suffix (x ∷ xs) ys (z ∷ zs) e h p = last-suffix xs ys zs e h (ground (arith, p))

-- After `Enqueue` the entry waits.
enqueue-Waits :
    (q q' : RequestQueue) (e : QueueEntry) (now : ℕ) (r : Bool) (dropped : List QueueEntry)
    → 0 < q.max_len
    → length q.queue ≤ q.max_len
    → enqueue q e now ≡ some (r, q', dropped)
    → Waits q' (record e { expire = q.queue_timeout + now })
unfolding enqueue
enqueue-Waits q q' e now r dropped pos bound h =
    let live = (purge q now).0.queue in
    elim (Bool-cases (contains e live)) [
      | inl old ↦
          let (before, after, f, split, twin) = contains-IsTwin e live old in
          inr (before, after, f, ground (arith, h, split), twin)
      | inr new ↦
          let (q1, evicted, done, order, count, bound', same) = enqueue_new q e now pos bound new in
          let e' : QueueEntry = record e { expire = q.queue_timeout + now } in
          let lengths = ap length order in
          let some_left : 0 < length q1.queue =
            ground (
              arith,
              lengths,
              length-append evicted q1.queue,
              length-append live (e' ∷ []),
              count,
            ) in
          let (before, split) = last-suffix evicted q1.queue live e' some_left order in
          inl (before, ground (arith, h, done, split))
    ]

module _ {F : Type 0} where
  timer_set :
      (r : Router F) (now : ℕ)
      → IsTracked r
      → let live = (purge r.queue now).0.queue in
        (if length live == 0 then some 500 else r.check_queue_timer) ≢ none
  unfolding purge
  timer_set r now t =
      elim (untracked r.queued_addresses (purge r.queue now).0.queue
        (λ d absent. for_dst-purge d now r.queue.queue (t.tracked d absent))) [
          | inl empty ↦ λ h. ground (arith, empty)
          | inr (d, queued) ↦ λ h. ground (arith, t.running d queued)
        ]

  -- `DeferredRouteOutput` of a tracked state returns, and its state is tracked.
  pub deferred_route_output-IsTracked :
      (r : Router F) (p : Packet) (header : Ipv4Header) (ucb ecb now : ℕ)
      → IsTracked r
      → (r' : Router F) × (dropped : List QueueEntry) × (deferred_route_output r p header ucb ecb
            now
          ≡ some (r', dropped))
        × IsTracked r'
        × (member header.destination r'.queued_addresses ≡ true)
  unfolding deferred_route_output get_size new_entry
  deferred_route_output-IsTracked r p header ucb ecb now t =
      let live = (purge r.queue now).0 in
      let short = length-keep_if-le (λ f. not (is_expired now f)) r.queue.queue in
      let addresses = header.destination ∷ r.queued_addresses in
      let (result, q', dropped, done, bound, same, others) =
        enqueue-adds live (new_entry p header ucb ecb now now) now t.room
          (omega (arith, short, t.bound)) in
      let timer = if length live.queue == 0 then some 500 else r.check_queue_timer in
      (
        record r { queue = q'; queued_addresses = unique addresses; check_queue_timer = timer },
        (purge r.queue now).1 ++ dropped,
        ground (arith, done),
        record {
          room = ground (arith, same, t.room);
          bound = ground (arith, bound, same);
          tracked = λ d absent.
              (let known = member-unique d addresses in
                others d (ground (arith, known))
                  (for_dst-purge d now r.queue.queue (t.tracked d (ground (arith, known)))));
          running = λ d queued. timer_set r now t;
        },
        ground (arith, member-unique header.destination addresses),
      )

  -- After `DeferredRouteOutput` the packet waits, with the callbacks given to it, for a queue
  -- timeout, if it did not wait before.
  pub deferred_route_output-Waits :
      (r r' : Router F) (p : Packet) (header : Ipv4Header) (ucb ecb now : ℕ)
      (dropped : List QueueEntry)
      → IsTracked r
      → deferred_route_output r p header ucb ecb now ≡ some (r', dropped)
      → Waits r'.queue (record {
        packet = p;
        header = header;
        ucb = ucb;
        ecb = ecb;
        expire = r.queue.queue_timeout + now;
      })
  unfolding deferred_route_output get_size new_entry
  deferred_route_output-Waits r r' p header ucb ecb now dropped t h =
      let live = (purge r.queue now).0 in
      let short = length-keep_if-le (λ f. not (is_expired now f)) r.queue.queue in
      let entry = new_entry p header ucb ecb now now in
      elim (Option-cases (enqueue live entry now)) [
        | inl fault ↦ absurd (ground (arith, fault, h))
        | inr ((result, q', evicted), done) ↦
            let waits =
              enqueue-Waits live q' entry now result evicted t.room (omega (arith, short, t.bound))
                done in
            let same : r'.queue ≡ q' = ground (arith, done, h) in rw same waits
      ]
