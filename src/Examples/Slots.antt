-- ===== src/Examples/Slots.antt =====
-- A frame of three slots, the first two for the MAC 5 and the last for the MAC 6.
use saero_rp.Prelude.{
  ℕ, zero, suc, ◌+◌, ◌*◌, ◌<◌, ◌≡◌, ◌≢◌, refl, true, some, List, [], ◌∷◌, arith, length,
}
use saero_rp.StdMap.{find}
use saero_rp.TdmaController.{TdmaController, Session, schedule, frame}
use saero_rp.TdmaController.Frame.{
  IsFilled, IsSession, schedule-IsSession, Covers, total_delay, frame-Covers,
}

abbrev controller : TdmaController
controller = record {
  slot_time = 1100;
  gaurd_time = 100;
  inter_frame_time = 50;
  total_slots_allowed = 3;
  active_epoch = true;
  slot_ptrs = (0, 5) ∷ (1, 5) ∷ (2, 6) ∷ [];
}

filled : IsFilled controller
unfolding find
filled = record {
  ordered = (omega arith, (omega arith, tt));
  below = λ k h. ground arith;
  filled = owner;
  small = omega arith;
}
  where
    owner : (k : ℕ) → k < 3 → (mac : ℕ) × (find k controller.slot_ptrs ≡ some mac) × (mac ≢ 0)
    owner zero h = (5, refl, λ e. ground arith)
    owner (suc zero) h = (5, refl, λ e. ground arith)
    owner (suc (suc zero)) h = (6, refl, λ e. ground arith)
    owner (suc (suc (suc k))) h = absurd (omega arith)

schedule-IsSession_example :
    (s : Session) × (schedule controller 0 ≡ some s) × IsSession controller 0 s
schedule-IsSession_example = schedule-IsSession controller 0 filled (omega arith)

frame-Covers_example :
    (ss : List Session) × (frame 3 controller 0 ≡ some ss)
    × Covers controller 0 3 ss
    × (total_delay ss ≡ 1100 * 3 + 100 * length ss + 50)
frame-Covers_example = frame-Covers controller 3 0 filled (omega arith) (omega arith)
