-- ===== src/Examples/Scenario.antt =====
-- The scenario with three aircraft and a ground station, and a run of its counters.
use saero_rp.Prelude.{ℕ, ◌+◌, ◌*◌, ◌≡◌, refl, inl, inr, none, some, List, [], ◌∷◌, ◌++◌, arith}
use saero_rp.TdmaController.{TdmaController, Session, frame}
use saero_rp.TdmaController.Frame.{total_delay}
use saero_rp.Simulation.{create_nodes, create_devices, new_statistics}
use saero_rp.Simulation.Network.{IsMacs, turn, turns, create_devices-frame}
use saero_rp.Simulation.Delivery.{create_devices-hear}
use saero_rp.MacQueue.{new_queue}
use saero_rp.NetDevice.Delivery.{Delivers}
use saero_rp.Examples.Numbers.{ints, magnitude}
use saero_rp.Examples.Routes.{packet}
use saero_rp.Examples.Air.{far, place, low, channel}
use saero_rp.Examples.Frames.{headers, headers-IsHeaders}
use saero_rp.Examples.Link.{
  device, central, is_broadcast, is_group, tx, device-CanSend, device-IsListening,
}
use saero_rp.Simulation.Throughput.{Happening, arrivals, sent, line, run, Conserves, run-Conserves}

abbrev macs : ℕ → ℕ
macs i = i + 10

macs-IsMacs : IsMacs 4 macs
macs-IsMacs = record { nonnull = λ i h e. omega (arith, e); distinct = λ i h e. omega (arith, e) }

create_devices-frame_example :
    (create_nodes 3 1 ≡ some ((0, 1), (1, 3)))
    × (c : TdmaController) × (create_devices macs (0, 1) (1, 3) ≡ some c)
    × (frame 4 c 0 ≡ some (turns macs 4 4 0))
    × (total_delay (turns macs 4 4 0) ≡ 1200 * 4 + 10)
    × (before : List Session) × (after : List Session) × (turns macs 4 4 0
        ≡ before ++ turn macs 4 2 ∷ after)
    × (total_delay before ≡ 1200 * 2)
create_devices-frame_example =
    create_devices-frame macs 3 1 2 (omega arith) (omega arith) macs-IsMacs (omega arith)

-- The node 1 sends to the node 2 in its session of the first frame.
create_devices-hear_example :
    (controller : TdmaController) × (create_devices macs (0, 1) (1, 3) ≡ some controller)
    × (before : List Session) × (session : Session) × (after : List Session) × (frame 4 controller 0
        ≡ some (before ++ session ∷ after))
    × (session.mac ≡ 11)
    × (total_delay before ≡ 1200)
    × Delivers headers headers-IsHeaders is_broadcast is_group ints far magnitude place tx
        (device 1)
        (central 1)
        7
        (packet 1)
        2
        2048
        100
        (1000 + total_delay before * 1000)
        session.transmission
        9
        channel
        (low 1)
        (low 2)
        (device 2)
        2
unfolding new_queue
create_devices-hear_example =
    create_devices-hear headers headers-IsHeaders is_broadcast is_group ints far magnitude place
      macs 3 1 1 1000 tx (device 1) (central 1) 7 (packet 1) 2 2048 100 9 channel (low 1) (low 2)
      (device 2) 2 (omega arith) (omega arith) macs-IsMacs (omega arith) device-CanSend
      (omega arith) (omega arith) (omega arith) (omega arith) (omega arith) (inr (inl refl))
      (refl, refl) device-IsListening

abbrev happenings : List Happening
happenings =
    sent
    ∷ sent
    ∷ arrivals (record { size = 1000; stamp = some 5 } ∷ []) 9
    ∷ line 10
    ∷ arrivals (record { size = 40; stamp = none } ∷ []) 12
    ∷ []

run-Conserves_example : Conserves new_statistics happenings (run new_statistics happenings)
unfolding new_statistics
run-Conserves_example =
    run-Conserves new_statistics happenings (omega arith) (omega arith) (omega arith) (omega arith)
