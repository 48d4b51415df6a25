-- ===== src/PacketQueue.antt =====
-- The queue of packets that wait for a route: aerorp-pqueue.h and aerorp-pqueue.cc. `now` is
-- `Simulator::Now ()` in ticks. An operation returns the entries that it passes to `Drop`, which
-- calls their error callbacks, in the order of the calls.
pub mod Expiry
pub mod Bounds
pub mod Order
use saero_rp.Prelude.{
  ℕ, ◌+◌, Bool, true, false, not, ◌&&◌, ◌||◌, Option, none, some, List, [], ◌∷◌, ◌++◌, ◌==◌,
  if◌then◌else◌, length, keep_if,
}
use saero_rp.Prelude.Int.{ℤ, sub_ℕ, is_negative}

-- What the sources use of `Packet` and `Ipv4Header`: the packet's unique number and size, and the
-- addresses.
pub record Packet : Type 0 where
  pub uid : ℕ
  pub size : ℕ
  -- Whether the packet has a `DeferredRouteOutputTag`.
  pub deferred : Bool

pub record Ipv4Header : Type 0 where
  pub source : ℕ
  pub destination : ℕ

-- A callback is the number of the function that it calls.
pub record QueueEntry : Type 0 where
  pub packet : Packet
  pub header : Ipv4Header
  pub ucb : ℕ
  pub ecb : ℕ
  pub expire : ℕ

-- The constructor, and `SetExpireTime`: a time from now.
unfoldable pub new_entry : Packet → Ipv4Header → ℕ → ℕ → ℕ → ℕ → QueueEntry
new_entry p h ucb ecb exp now = record {
  packet = p;
  header = h;
  ucb = ucb;
  ecb = ecb;
  expire = exp + now;
}

unfoldable pub set_expire_time : QueueEntry → ℕ → ℕ → QueueEntry
set_expire_time e exp now = record e { expire = exp + now }

-- The time left, which may be negative.
unfoldable pub get_expire_time : QueueEntry → ℕ → ℤ
get_expire_time e now = sub_ℕ e.expire now

-- `IsExpired`
unfoldable pub is_expired : ℕ → QueueEntry → Bool
unfolding get_expire_time
is_expired now e = is_negative (get_expire_time e now)

-- `IsEqual`
abbrev pub is_equal : QueueEntry → ℕ → Bool
is_equal e dst = e.header.destination == dst

pub record RequestQueue : Type 0 where
  pub queue : List QueueEntry
  pub max_len : ℕ
  pub queue_timeout : ℕ

unfoldable pub new_queue : ℕ → ℕ → RequestQueue
new_queue max_len timeout = record { queue = []; max_len = max_len; queue_timeout = timeout }

-- The expired entries are dropped in order, then removed.
unfoldable pub purge : RequestQueue → ℕ → RequestQueue × List QueueEntry
purge q now = (
  record q { queue = keep_if (λ e. not (is_expired now e)) q.queue },
  keep_if (is_expired now) q.queue,
)

unfoldable pub get_size : RequestQueue → ℕ → ℕ × RequestQueue × List QueueEntry
unfolding purge
get_size q now = let (q', dropped) = purge q now in (length q'.queue, q', dropped)

abbrev pub is_same : QueueEntry → QueueEntry → Bool
is_same e f = (e.packet.uid == f.packet.uid) && (e.header.destination == f.header.destination)

-- The loop of `Enqueue`: whether an entry has the packet and the destination of `f`.
unfoldable pub contains : QueueEntry → List QueueEntry → Bool
contains f [] = false
contains f (e ∷ es) = is_same e f || contains f es

-- The part of `Enqueue` behind the loop: the most aged packet leaves a full queue. `none` is a
-- call of `front` on an empty vector.
unfoldable pub push_back : RequestQueue → QueueEntry → Option (RequestQueue × List QueueEntry)
push_back q e =
    if length q.queue == q.max_len
    then elim q.queue [ [] ↦ none | old ∷ es ↦ some (record q { queue = es ++ e ∷ [] }, old ∷ []) ]
    else some (record q { queue = q.queue ++ e ∷ [] }, [])

unfoldable pub enqueue :
    RequestQueue → QueueEntry → ℕ → Option (Bool × RequestQueue × List QueueEntry)
unfolding purge
enqueue q entry now =
    let (q', dropped) = purge q now in
    if contains entry q'.queue
    then some (false, q', dropped)
    else elim (push_back q' (set_expire_time entry q'.queue_timeout now)) [
      | none ↦ none
      | some (q'', evicted) ↦ some (true, q'', dropped ++ evicted)
    ]

unfoldable pub drop_packet_with_dst : RequestQueue → ℕ → ℕ → RequestQueue × List QueueEntry
unfolding purge
drop_packet_with_dst q dst now =
    let (q', dropped) = purge q now in
    (
      record q' { queue = keep_if (λ e. not (is_equal e dst)) q'.queue },
      dropped ++ keep_if (λ e. is_equal e dst) q'.queue,
    )

-- The loop of `Dequeue`: the first entry for the destination, and the rest.
unfoldable pub take_first : ℕ → List QueueEntry → Option (QueueEntry × List QueueEntry)
take_first dst [] = none
take_first dst (e ∷ es) =
    if is_equal e dst
    then some (e, es)
    else elim (take_first dst es) [ none ↦ none | some (f, rest) ↦ some (f, e ∷ rest) ]

unfoldable pub dequeue : RequestQueue → ℕ → ℕ → Option QueueEntry × RequestQueue × List QueueEntry
unfolding purge
dequeue q dst now =
    let (q', dropped) = purge q now in
    elim (take_first dst q'.queue) [
      | none ↦ (none, q', dropped)
      | some (e, rest) ↦ (some e, record q' { queue = rest }, dropped)
    ]

-- The loop of `Find`, which does not purge.
unfoldable pub find_dst : ℕ → List QueueEntry → Bool
find_dst dst [] = false
find_dst dst (e ∷ es) = is_equal e dst || find_dst dst es

unfoldable pub find : RequestQueue → ℕ → Bool
unfolding find_dst
find q dst = find_dst dst q.queue
