-- ===== src/CentralMac.antt =====
-- The transmissions of the central MAC: tdma-central-mac.h and tdma-central-mac.cc, over the MAC
-- queue. Times are nanoseconds, but the argument of `start_transmission` is microseconds.
pub mod Session
pub mod Queueing
pub mod Links
use saero_rp.Prelude.{
  ℕ, zero, suc, ◌+◌, ◌-◌, ◌*◌, ◌/◌, Bool, true, false, Option, none, some, List, [], ◌∷◌, ◌++◌, ltb,
  ◌==◌, if◌then◌else◌,
}
use saero_rp.PacketQueue.{Packet}
use saero_rp.MacQueue
use saero_rp.MacQueue.{
  MacType, data_type, Item, WifiMacHeader, TdmaMacQueue, is_empty, peek, dequeue,
}

-- 0 is a full queue.
unfoldable pub get_queue_state : TdmaMacQueue → ℕ
get_queue_state q = if q.max_size == q.size then 0 else 1

-- The queue, the packets it drops, and whether the packet is notified as dropped.
unfoldable pub queue_packet :
    TdmaMacQueue → ℕ → Packet → WifiMacHeader → ℕ → TdmaMacQueue × List Packet × Bool
queue_packet q pointer packet hdr now =
    let (queued, q', dropped) = MacQueue.enqueue q pointer packet hdr now in
    (q', dropped, if queued then false else true)

-- `Enqueue` with a source, on a node with the address `own`.
unfoldable pub enqueue_from :
    ℕ → TdmaMacQueue → ℕ → Packet → ℕ → ℕ → ℕ → TdmaMacQueue × List Packet × Bool
unfolding queue_packet
enqueue_from own q pointer packet to from now =
    queue_packet q pointer packet
      (record { type = data_type; addr1 = to; addr2 = own; addr3 = from }) now

-- `Enqueue` of the node's own packet.
unfoldable pub enqueue_own :
    ℕ → TdmaMacQueue → ℕ → Packet → ℕ → ℕ → TdmaMacQueue × List Packet × Bool
unfolding enqueue_from
enqueue_own own q pointer packet to now = enqueue_from own q pointer packet to own now

-- A scheduled call of `SendPacketDown`: its delay, and the time that remains after it.
pub record Down : Type 0 where
  pub delay : ℕ
  pub remaining : ℕ

-- `tx` is the controller's `Seconds (m_bps.CalculateTxTime (packet->GetSize ()))`.
module _ (tx : Packet → ℕ) where
  -- `CalculateTxTime` of the controller: `none` is its failed assertion.
  unfoldable pub calculate_tx_time : Packet → Option ℕ
  calculate_tx_time packet = if ltb packet.size 1500 then some (tx packet) else none

  -- `none` is a failed assertion of `CalculateTxTime`, or its call with a null packet, which `Peek`
  -- right after an `IsEmpty` that answered false does not return.
  unfoldable pub start_transmission :
      TdmaMacQueue → ℕ → ℕ → Option (TdmaMacQueue × List Packet × Option Down)
  unfolding calculate_tx_time
  start_transmission q us now =
      let slot = us * 1000 in
      let (empty, q1, dropped1) = is_empty q now in
      let (front, q2, dropped2) = peek q1 now in
      if empty then some (q1, dropped1, none) else elim front [
        | none ↦ none
        | some i ↦ elim (calculate_tx_time i.packet) [
          | none ↦ none
          | some time ↦ some (
            q2,
            dropped1 ++ dropped2,
            if ltb time slot then some (record { delay = time; remaining = slot - time }) else none,
          )
        ]
      ]

  -- `queue_start` is whether the callback of `TxQueueStart` is set.
  module _ (queue_start : Bool) where
    -- The item that is sent, and the next call that is scheduled. `none` is a null packet, whose
    -- `Copy` the low MAC calls, a null callback in `TxQueueStart`, or a failure of
    -- `StartTransmission`.
    unfoldable pub send_packet_down :
        TdmaMacQueue → ℕ → ℕ → Option (Item × TdmaMacQueue × List Packet × Option Down)
    unfolding start_transmission
    send_packet_down q remaining now =
        let (front, q1, dropped1) = dequeue q now in
        let started = start_transmission q1 (remaining / 1000) now in
        elim front [
          | none ↦ none
          | some i ↦
              if queue_start
              then elim started [
                | none ↦ none
                | some (q2, dropped2, next) ↦ some (i, q2, dropped1 ++ dropped2, next)
              ]
              else none
        ]

    -- The scheduled calls one after another, with nothing else happening: the items sent, the queue
    -- and the time after the last. `none` is a failure of a call, or no fuel left.
    unfoldable pub follow :
        ℕ → TdmaMacQueue → Option Down → ℕ → Option (List Item × TdmaMacQueue × ℕ)
    follow zero q next now = none
    follow (suc fuel) q none now = some ([], q, now)
    follow (suc fuel) q (some d) now = elim (send_packet_down q d.remaining (now + d.delay)) [
      | none ↦ none
      | some (i, q', dropped, next) ↦ elim (follow fuel q' next (now + d.delay)) [
        | none ↦ none
        | some (sent, q'', end) ↦ some (i ∷ sent, q'', end)
      ]
    ]

    -- A session of the slot length `us` from now on.
    unfoldable pub transmit : ℕ → TdmaMacQueue → ℕ → ℕ → Option (List Item × TdmaMacQueue × ℕ)
    unfolding start_transmission follow
    transmit fuel q us now = elim (start_transmission q us now) [
      | none ↦ none
      | some (q', dropped, next) ↦ follow fuel q' next now
    ]
