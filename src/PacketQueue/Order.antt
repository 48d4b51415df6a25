-- ===== src/PacketQueue/Order.antt =====
-- `Dequeue`, `Find` and `DropPacketWithDst` of aerorp-pqueue.cc: to each destination the queue is
-- first in, first out.
use mathlib.Core.List.{Perm}
use mathlib.Core.List.Perm
use saero_rp.Prelude.{
  ℕ, ◌+◌, ◌≡◌, ◌≢◌, ◌↔◌, ◌⊎◌, refl, true, false, not, Option, none, some, List, [], ◌∷◌, ◌++◌,
  arith, if◌then◌else◌, ◌==◌, keep_if, Bool-cases, Option-cases, inl, inr, length, append_assoc,
}
use saero_rp.PacketQueue.{
  QueueEntry, RequestQueue, is_expired, purge, dequeue, take_first, drop_packet_with_dst, is_equal,
  find_dst, find,
}
use saero_rp.PacketQueue.Expiry.{IsLive, keep_if-IsLive, keep_if-perm}

-- The entries for one destination, oldest first.
abbrev pub for_dst : ℕ → List QueueEntry → List QueueEntry
for_dst dst = keep_if (λ e. e.header.destination == dst)

-- The first entry for `dst` is taken and the others stay, in their order.
abbrev Takes : ℕ → List QueueEntry → Option (QueueEntry × List QueueEntry) → Type 0
Takes dst es r =
    ((r ≡ none) × (for_dst dst es ≡ []))
    ⊎ ((e : QueueEntry) × (rest : List QueueEntry) × (r ≡ some (e, rest))
        × (for_dst dst es ≡ e ∷ for_dst dst rest)
        × (length es ≡ length rest + 1)
        × ((d : ℕ) → d ≢ dst → for_dst d rest ≡ for_dst d es))

take_first-Takes : (dst : ℕ) (es : List QueueEntry) → Takes dst es (take_first dst es)
unfolding take_first
take_first-Takes dst [] = inl (refl, refl)
take_first-Takes dst (e ∷ es) = elim (Bool-cases (is_equal e dst)) [
  | inl hit ↦ inr (e, es, ground arith, ground arith, ground arith, λ d h. ground arith)
  | inr miss ↦ elim (take_first-Takes dst es) [
    | inl (no_entry, empty) ↦ inl (ground arith, ground arith)
    | inr (f, rest, found, head, size, others) ↦
        inr
          (f, e ∷ rest, ground arith, ground arith, ground arith, λ d h. ground (arith, others d h))
  ]
]

for_dst_head :
    (dst : ℕ) (e : QueueEntry) (es fs : List QueueEntry)
    → for_dst dst es ≡ e ∷ fs
    → e.header.destination ≡ dst
for_dst_head dst e [] fs h = absurd (ground (arith, h))
for_dst_head dst e (x ∷ es) fs h = ground (arith, for_dst_head dst e es fs)

-- What `Dequeue` takes and leaves.
pub dequeue_lem :
    (q : RequestQueue) (dst now : ℕ)
    → let (live, dead) = purge q now in
      let (r, q', dropped) = dequeue q dst now in
      (dropped ≡ dead)
      × (((r ≡ none) × (for_dst dst live.queue ≡ []) × (q' ≡ live))
          ⊎ ((e : QueueEntry) × (r ≡ some e)
              × (for_dst dst live.queue ≡ e ∷ for_dst dst q'.queue)
              × (length live.queue ≡ length q'.queue + 1)
              × ((d : ℕ) → d ≢ dst → for_dst d q'.queue ≡ for_dst d live.queue)))
unfolding dequeue
dequeue_lem q dst now = elim (take_first-Takes dst (purge q now).0.queue) [
  | inl (no_entry, empty) ↦ (ground arith, inl (ground arith, empty, ground arith))
  | inr (e, rest, found, head, size, others) ↦ (
    ground arith,
    inr (e, ground arith, ground arith, ground arith, λ d h. ground (arith, others d h)),
  )
]

-- `Dequeue` fails exactly when no live entry is for the destination. Otherwise it returns the
-- oldest live entry for it and leaves the younger ones; the live entries for each other
-- destination stay, in their order, and the queue is one entry shorter.
pub dequeue_oldest :
    (q : RequestQueue) (dst now : ℕ)
    → let (live, dead) = purge q now in
      let (r, q', dropped) = dequeue q dst now in
      (dropped ≡ dead)
      × (((r ≡ none) × (for_dst dst live.queue ≡ []) × (q' ≡ live))
          ⊎ ((e : QueueEntry) × (r ≡ some e)
              × (e.header.destination ≡ dst)
              × (length live.queue ≡ length q'.queue + 1)
              × ((d : ℕ)
                  → for_dst d live.queue
                    ≡ (if d == dst then e ∷ for_dst d q'.queue else for_dst d q'.queue))))
dequeue_oldest q dst now =
    let (same, outcome) = dequeue_lem q dst now in
    (
      same,
      elim outcome [
        | inl failed ↦ inl failed
        | inr (e, found, head, size, others) ↦ inr (
          e,
          found,
          for_dst_head dst e (purge q now).0.queue (for_dst dst (dequeue q dst now).1.queue) head,
          size,
          λ d. ground (arith, head, others d),
        )
      ],
    )

find_dst-for_dst :
    (dst : ℕ) (es : List QueueEntry) → (find_dst dst es ≡ true) ↔ (for_dst dst es ≢ [])
unfolding find_dst
find_dst-for_dst dst [] = (λ h. cc, λ h. absurd (h refl))
find_dst-for_dst dst (e ∷ es) = (
  λ h. ground (arith, (find_dst-for_dst dst es).0),
  λ h. ground (arith, (find_dst-for_dst dst es).1),
)

keep_if-drop :
    (dst d : ℕ) (es : List QueueEntry)
    → for_dst d (keep_if (λ e. not (is_equal e dst)) es) ≡ (if d == dst then [] else for_dst d es)
keep_if-drop dst d [] = ground arith
keep_if-drop dst d (e ∷ es) = ground (arith, keep_if-drop dst d es)

-- After `DropPacketWithDst` the queue has no entry for the destination, so that `Find` answers
-- false for it; the live entries for each other destination stay, in their order. The entries
-- dropped and kept are together the entries before.
pub drop_packet_with_dst_lem :
    (q : RequestQueue) (dst now : ℕ)
    → let live = (purge q now).0 in
      let (q', dropped) = drop_packet_with_dst q dst now in
      (find q' dst ≡ false)
      × ((d : ℕ) → for_dst d q'.queue ≡ (if d == dst then [] else for_dst d live.queue))
      × Perm q.queue (dropped ++ q'.queue)
unfolding drop_packet_with_dst find
drop_packet_with_dst_lem q dst now =
    let live = (purge q now).0.queue in
    let gone = keep_if-drop dst dst live in
    (
      ground (arith, gone, (find_dst-for_dst dst (keep_if (λ e. not (is_equal e dst)) live)).0),
      λ d. keep_if-drop dst d live,
      rw append_assoc (
          Perm.trans (keep_if-perm (is_expired now) q.queue)
            (Perm.append (Perm.refl _) (keep_if-perm (λ e. is_equal e dst) live))),
    )

take_first-IsLive :
    (now dst : ℕ) (es : List QueueEntry) (e : QueueEntry) (rest : List QueueEntry)
    → IsLive now es
    → take_first dst es ≡ some (e, rest)
    → IsLive now rest
unfolding take_first
take_first-IsLive now dst [] e rest h t = absurd (ground arith)
take_first-IsLive now dst (f ∷ es) e rest h t = elim (Bool-cases (is_equal f dst)) [
  | inl hit ↦ ground arith
  | inr miss ↦ elim (Option-cases (take_first dst es)) [
    | inl no_entry ↦ absurd (ground arith)
    | inr ((g, rest'), found) ↦ ground (arith, take_first-IsLive now dst es g rest' h.1 found)
  ]
]

pub dequeue-IsLive : (q : RequestQueue) (dst now : ℕ) → IsLive now (dequeue q dst now).1.queue
unfolding dequeue
dequeue-IsLive q dst now =
    let live = keep_if-IsLive now q.queue in
    elim (Option-cases (take_first dst (purge q now).0.queue)) [
      | inl no_entry ↦ ground (arith, live)
      | inr ((e, rest), found) ↦
          ground (arith, take_first-IsLive now dst (purge q now).0.queue e rest live found)
    ]

pub dequeue-max_len : (q : RequestQueue) (dst now : ℕ) → (dequeue q dst now).1.max_len ≡ q.max_len
unfolding dequeue
dequeue-max_len q dst now = ground arith

pub for_dst-append :
    (d : ℕ) (es fs : List QueueEntry) → for_dst d (es ++ fs) ≡ for_dst d es ++ for_dst d fs
for_dst-append d [] fs = refl
for_dst-append d (e ∷ es) fs = ground (arith, for_dst-append d es fs)

-- What a purge leaves for a destination that has nothing.
pub for_dst-purge :
    (d now : ℕ) (es : List QueueEntry)
    → for_dst d es ≡ []
    → for_dst d (keep_if (λ e. not (is_expired now e)) es) ≡ []
for_dst-purge d now [] h = refl
for_dst-purge d now (e ∷ es) h = ground (arith, for_dst-purge d now es)
