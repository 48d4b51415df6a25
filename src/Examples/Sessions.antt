-- ===== src/Examples/Sessions.antt =====
-- Sessions on the queue of Examples/Mac, where a packet takes 700 ns.
use saero_rp.Prelude.{ℕ, ◌≡◌, refl, true, none, some, List, [], ◌∷◌, arith}
use saero_rp.PacketQueue.{Packet}
use saero_rp.MacQueue.{Item, TdmaMacQueue, dequeue}
use saero_rp.CentralMac.{Down, start_transmission, send_packet_down, transmit}
use saero_rp.CentralMac.Session.{Sends, transmit-Sends}
use saero_rp.CentralMac.Queueing.{send_packet_down_null}
use saero_rp.Examples.Mac.{item, queue}

abbrev tx : Packet → ℕ
tx p = 700

-- Three packets that stay up to date for long.
abbrev patient : TdmaMacQueue
patient = record queue { max_delay = 100000 }

transmit-Sends_example :
    (r : List Item × TdmaMacQueue × ℕ) × (transmit tx true 4 patient 2 8 ≡ some r)
    × Sends tx patient 2 8 r
transmit-Sends_example =
    transmit-Sends tx 4 patient 2 8 (record { counted = refl; fits = omega arith })
      (omega arith, (omega arith, (omega arith, tt)))
      (omega arith, (omega arith, (omega arith, tt))) (omega arith)

-- A packet of the time 1 that goes out of date 500 ns later.
abbrev hasty : TdmaMacQueue
hasty = record { queue = item 11 1 ∷ []; size = 1; max_size = 3; max_delay = 500; count = 0 }

send_packet_down_null_example :
    let down : Down = record { delay = 700; remaining = 300 } in
    (start_transmission tx hasty 1 8 ≡ some (hasty, [], some down))
    × ((dequeue hasty 708).0 ≡ none)
    × (send_packet_down tx true hasty 300 708 ≡ none)
send_packet_down_null_example =
    send_packet_down_null tx true hasty (item 11 1) 1 8
      (record { counted = refl; fits = omega arith }) refl (omega arith) (omega arith) (omega arith)
      (omega arith)
