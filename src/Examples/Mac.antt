-- ===== src/Examples/Mac.antt =====
-- The MAC queue, with an item that is out of date at the time 8 and two that are not.
use saero_rp.Prelude.{ℕ, ◌≤◌, ◌≡◌, refl, true, false, [], ◌∷◌, ◌++◌, arith, if◌then◌else◌, length}
use saero_rp.PacketQueue.{Packet}
use saero_rp.MacQueue.{data_type, Item, WifiMacHeader, TdmaMacQueue, enqueue}
use saero_rp.MacQueue.Laws.{IsCounted, enqueue_lem, live}

abbrev pub packet : ℕ → Packet
packet uid = record { uid = uid; size = 100; deferred = false }

abbrev pub header : WifiMacHeader
header = record { type = data_type; addr1 = 1; addr2 = 2; addr3 = 3 }

abbrev pub item : ℕ → ℕ → Item
item n tstamp = record { pointer = n; packet = packet n; hdr = header; tstamp = tstamp }

abbrev pub queue : TdmaMacQueue
queue = record {
  queue = item 11 1 ∷ item 12 4 ∷ item 13 6 ∷ [];
  size = 3;
  max_size = 3;
  max_delay = 5;
  count = 0;
}

pub counted : IsCounted queue
counted = record { counted = refl; fits = omega arith }

enqueue_lem_example :
    let (r, q', dropped) = enqueue queue 14 (packet 14) header 8 in
    IsCounted q'
    × (length q'.queue ≤ 3)
    × (r ≡ true)
    × (q'.queue ≡ (if r then live queue 8 ++ item 14 8 ∷ [] else live queue 8))
enqueue_lem_example =
    enqueue_lem queue 14 (packet 14) header 8 counted (omega arith) (omega arith) (omega arith)
