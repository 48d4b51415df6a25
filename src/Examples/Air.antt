-- ===== src/Examples/Air.antt =====
-- Two aircraft and a ground station on a channel; positions are the node numbers.
use saero_rp.Prelude.{ℕ, ◌+◌, ◌≡◌, ◌↔◌, inl, inr, refl, [], ◌∷◌, arith}
use saero_rp.Prelude.Int.{ℤ, pos}
use saero_rp.Double.{Vector}
use saero_rp.WirelessChannel.{TdmaMacLow, SimpleWirelessChannel, Reception, send}
use saero_rp.WirelessChannel.Reach.{Has, Reaches, reception, send_iff}
use saero_rp.Examples.Numbers.{ints, point, magnitude}
use saero_rp.Examples.Routes.{packet}

-- The sum of the first coordinates, a symmetric function.
abbrev pub far : Vector ℤ → Vector ℤ → ℤ
far u v = pos (magnitude u.x + magnitude v.x)

abbrev pub place : ℕ → Vector ℤ
place node = point node 0 0

abbrev pub low : ℕ → TdmaMacLow
low n = record { device = n; node = n }

abbrev pub channel : SimpleWirelessChannel ℤ
channel = record { low_list = low 1 ∷ low 2 ∷ low 0 ∷ []; range = pos 5; grange = pos 50; gid = 0 }

send_iff_example :
    ((r : Reception)
      → Has r (send ints far magnitude place channel (packet 1) (low 1)) ↔ (
          (l : TdmaMacLow) × Has l channel.low_list
          × Reaches ints far magnitude place channel (low 1) l
          × (reception ints far magnitude place (packet 1) (low 1) l ≡ r)))
    × (Has
          (reception ints far magnitude place (packet 1) (low 1) (low 2))
          (send ints far magnitude place channel (packet 1) (low 1))
        ↔ Has
            (reception ints far magnitude place (packet 2) (low 2) (low 1))
            (send ints far magnitude place channel (packet 2) (low 2)))
    × ((reception ints far magnitude place (packet 1) (low 1) (low 2)).delay
        ≡ (reception ints far magnitude place (packet 2) (low 2) (low 1)).delay)
send_iff_example =
    send_iff ints far magnitude place channel (packet 1) (packet 2) (low 1) (low 2)
      (λ u v. ground arith) (inl refl) (inr (inl refl)) refl
