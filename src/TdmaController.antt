-- ===== src/TdmaController.antt =====
-- The slot scheduler: tdma-controller.h and tdma-controller.cc. A MAC is the number of its object,
-- and 0 is the null pointer. Durations are microseconds.
pub mod Run
pub mod Frame
pub mod Assignment
use saero_rp.Prelude.{
  ℕ, zero, suc, ◌+◌, ◌*◌, ◌/◌, ◌^◌, ◌%◌, Bool, true, false, Option, none, some, List, [], ◌∷◌, ◌==◌,
  if◌then◌else◌,
}
use saero_rp.StdMap.{find, insert}

pub record TdmaController : Type 0 where
  pub slot_time : ℕ
  pub gaurd_time : ℕ
  pub inter_frame_time : ℕ
  pub total_slots_allowed : ℕ
  pub active_epoch : Bool
  pub slot_ptrs : List (ℕ × ℕ)

-- What a call leaves to the simulator: an event after a delay.
pub data Event : Type 0 where
  start_tdma_sessions : Event
  schedule_tdma_session : ℕ → Event

abbrev pub u32_mod : ℕ
u32_mod = 2 ^ 32

-- `Start` schedules the first session once, after ten nanoseconds.
unfoldable pub start : TdmaController → TdmaController × Option Event
start c =
    if c.active_epoch
    then (c, none)
    else (record c { active_epoch = true }, some start_tdma_sessions)

-- `insert` leaves a slot that has a MAC already.
unfoldable pub add_tdma_slot : TdmaController → ℕ → ℕ → TdmaController
add_tdma_slot c slot mac = record c { slot_ptrs = insert slot mac c.slot_ptrs }

unfoldable pub set_total_slots_allowed : TdmaController → ℕ → TdmaController
set_total_slots_allowed c n = record c { total_slots_allowed = n; slot_ptrs = [] }

-- The setters take a time in nanoseconds, of which `GetMicroSeconds` leaves the whole microseconds,
-- as a `uint32_t`.
unfoldable pub set_slot_time : TdmaController → ℕ → TdmaController
set_slot_time c time = record c { slot_time = time / 1000 % u32_mod }

unfoldable pub set_inter_frame_time_interval : TdmaController → ℕ → TdmaController
set_inter_frame_time_interval c time = record c { inter_frame_time = time / 1000 % u32_mod }

-- `SetGaurdTime`: with a channel, whose greatest range light crosses in so many microseconds, that is
-- the guard time, whatever the argument.
unfoldable pub set_gaurd_time : TdmaController → Option ℕ → ℕ → TdmaController
set_gaurd_time c none time = record c { gaurd_time = time / 1000 % u32_mod }
set_gaurd_time c (some crossing) time = record c { gaurd_time = crossing % u32_mod }

-- The greatest key of a map in key order.
abbrev pub last_key : List (ℕ × ℕ) → ℕ
last_key [] = 0
last_key ((k, v) ∷ []) = k
last_key ((k, v) ∷ e ∷ m) = last_key (e ∷ m)

-- The `while (1)` of `ScheduleTdmaSession`: how many slots from `slot` on belong to `mac`, of which
-- `n` are known. `none` means that the fuel ran out.
unfoldable pub run_length : List (ℕ × ℕ) → ℕ → ℕ → ℕ → ℕ → Option ℕ
run_length m mac slot zero n = none
run_length m mac slot (suc fuel) n =
    let rest = run_length m mac slot fuel ((n + 1) % u32_mod) in
    elim (find ((slot + n) % u32_mod) m) [
      | none ↦ some n
      | some mac' ↦ if mac == mac' then rest else some n
    ]

-- A call of `StartTransmission` on a MAC, and the event that is scheduled.
pub record Session : Type 0 where
  pub mac : ℕ
  pub slot : ℕ
  pub allotted : ℕ
  pub transmission : ℕ
  pub delay : ℕ
  pub next : Event

-- The part of `ScheduleTdmaSession` behind the loop.
unfoldable pub session : TdmaController → ℕ → ℕ → ℕ → Session
session c mac slot n =
    let transmission = c.slot_time * n in
    let total = c.gaurd_time + transmission in
    if (slot + n) % u32_mod == c.total_slots_allowed
    then record {
      mac = mac;
      slot = slot;
      allotted = n;
      transmission = transmission;
      delay = total + c.inter_frame_time;
      next = start_tdma_sessions;
    }
    else record {
      mac = mac;
      slot = slot;
      allotted = n;
      transmission = transmission;
      delay = total;
      next = schedule_tdma_session ((slot + n) % u32_mod);
    }

-- `none` is a read through the end iterator or a failed assertion.
unfoldable pub schedule : TdmaController → ℕ → Option Session
schedule c slot = elim (find slot c.slot_ptrs) [
  | none ↦ none
  | some mac ↦ elim (run_length c.slot_ptrs mac slot (suc (last_key c.slot_ptrs)) 1) [
    | none ↦ none
    | some n ↦ if mac == 0 then none else some (session c mac slot n)
  ]
]

-- The sessions from a slot on until the frame starts over. `none` is a failure, or no fuel left.
unfoldable pub frame : ℕ → TdmaController → ℕ → Option (List Session)
frame zero c slot = none
frame (suc fuel) c slot = elim (schedule c slot) [
  | none ↦ none
  | some s ↦ elim s.next [
    | start_tdma_sessions ↦ some (s ∷ [])
    | schedule_tdma_session slot' ↦ elim (frame fuel c slot') [
      | none ↦ none
      | some rest ↦ some (s ∷ rest)
    ]
  ]
]
