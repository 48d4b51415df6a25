-- ===== src/MacQueue.antt =====
-- The queue of the MAC layer: tdma-mac-queue.h and tdma-mac-queue.cc. `now` is `Simulator::Now ()`
-- in ticks. An operation returns the packets for which it calls the drop callback, in order.
pub mod Laws
use saero_rp.Prelude.{
  ℕ, suc, ◌+◌, ◌-◌, ◌^◌, ◌%◌, Bool, true, false, not, Option, none, some, List, [], ◌∷◌, ◌++◌, ltb,
  ◌==◌, if◌then◌else◌, map, length, keep_if,
}
use saero_rp.PacketQueue.{Packet}

-- The types of a frame: data, management, and the others.
pub data MacType : Type 0 where
  data_type : MacType
  mgt_type : MacType
  other_type : MacType

-- `WifiMacHeader`, by its type and its three addresses.
pub record WifiMacHeader : Type 0 where
  pub type : MacType
  pub addr1 : ℕ
  pub addr2 : ℕ
  pub addr3 : ℕ

-- `Item`. The address of the packet object is `pointer`.
pub record Item : Type 0 where
  pub pointer : ℕ
  pub packet : Packet
  pub hdr : WifiMacHeader
  pub tstamp : ℕ

-- `m_size` and `m_count` are `uint32_t`.
pub record TdmaMacQueue : Type 0 where
  pub queue : List Item
  pub size : ℕ
  pub max_size : ℕ
  pub max_delay : ℕ
  pub count : ℕ

abbrev pub u32_mod : ℕ
u32_mod = 2 ^ 32

unfoldable pub new_queue : ℕ → ℕ → TdmaMacQueue
new_queue max_size max_delay = record {
  queue = [];
  size = 0;
  max_size = max_size;
  max_delay = max_delay;
  count = 0;
}

unfoldable pub set_max_size : TdmaMacQueue → ℕ → TdmaMacQueue
set_max_size q n = record q { max_size = n }

unfoldable pub set_max_delay : TdmaMacQueue → ℕ → TdmaMacQueue
set_max_delay q n = record q { max_delay = n }

unfoldable pub is_fresh : TdmaMacQueue → ℕ → Item → Bool
is_fresh q now i = ltb now (i.tstamp + q.max_delay)

-- The loop of `Cleanup` over the items: what stays, what is dropped, `m_count` and `n` after it.
unfoldable pub sweep : (Item → Bool) → List Item → ℕ → ℕ → List Item × List Packet × ℕ × ℕ
sweep fresh [] count n = ([], [], count, n)
sweep fresh (i ∷ is) count n =
    let counted = λ (m : ℕ). if fresh i then m else (m + 1) % u32_mod in
    let (kept, dropped, count', n') = sweep fresh is (counted count) (counted n) in
    if fresh i then (i ∷ kept, dropped, count', n') else (kept, i.packet ∷ dropped, count', n')

unfoldable pub cleanup : TdmaMacQueue → ℕ → TdmaMacQueue × List Packet
unfolding is_fresh
cleanup q now = elim q.queue [
  | [] ↦ (q, [])
  | i ∷ is ↦
      let (kept, dropped, count, n) = sweep (is_fresh q now) q.queue q.count 0 in
      (record q { queue = kept; count = count; size = (q.size + u32_mod - n) % u32_mod }, dropped)
]

unfoldable pub enqueue :
    TdmaMacQueue → ℕ → Packet → WifiMacHeader → ℕ → Bool × TdmaMacQueue × List Packet
enqueue q pointer packet hdr now =
    let (q', dropped) = cleanup q now in
    let item : Item = record { pointer = pointer; packet = packet; hdr = hdr; tstamp = now } in
    if q'.size == q'.max_size then (false, q', dropped) else (
      true,
      record q' { queue = q'.queue ++ item ∷ []; size = (q'.size + 1) % u32_mod },
      dropped,
    )

-- `none` is the null packet.
unfoldable pub dequeue : TdmaMacQueue → ℕ → Option Item × TdmaMacQueue × List Packet
dequeue q now =
    let (q', dropped) = cleanup q now in
    elim q'.queue [
      | [] ↦ (none, q', dropped)
      | i ∷ is ↦
          (some i, record q' { queue = is; size = (q'.size + u32_mod - 1) % u32_mod }, dropped)
    ]

unfoldable pub peek : TdmaMacQueue → ℕ → Option Item × TdmaMacQueue × List Packet
peek q now =
    let (q', dropped) = cleanup q now in
    elim q'.queue [ [] ↦ (none, q', dropped) | i ∷ is ↦ (some i, q', dropped) ]

unfoldable pub is_empty : TdmaMacQueue → ℕ → Bool × TdmaMacQueue × List Packet
is_empty q now =
    let (q', dropped) = cleanup q now in (elim q'.queue [ [] ↦ true | i ∷ is ↦ false ], q', dropped)

unfoldable pub get_size : TdmaMacQueue → ℕ
get_size q = q.size

unfoldable pub flush : TdmaMacQueue → TdmaMacQueue
flush q = record q { queue = []; size = 0 }

-- The loop of `Remove`: the queue without the first item of the packet, if there is one.
unfoldable pub remove_first : ℕ → List Item → Option (List Item)
remove_first pointer [] = none
remove_first pointer (i ∷ is) =
    let rest = remove_first pointer is in
    if i.pointer == pointer then some is else elim rest [ none ↦ none | some is' ↦ some (i ∷ is') ]

unfoldable pub remove : TdmaMacQueue → ℕ → Bool × TdmaMacQueue
unfolding remove_first
remove q pointer = elim (remove_first pointer q.queue) [
  | none ↦ (false, q)
  | some is ↦ (true, record q { queue = is; size = (q.size + u32_mod - 1) % u32_mod })
]
