-- ===== src/TdmaController/Frame.antt =====
-- A frame of tdma-controller.cc: on a full slot map the scheduler never fails, gives every slot to
-- the MAC that owns it, and starts over after the last one.
use saero_rp.Prelude.{
  leb, ap, ℕ, zero, suc, ◌+◌, ◌-◌, ◌*◌, ◌^◌, ◌%◌, ◌<◌, ◌≤◌, ◌≡◌, ◌≢◌, none, some, List, [], ◌∷◌,
  ◌==◌, if◌then◌else◌, arith, Bool-cases, inl, inr, length,
}
use saero_rp.StdMap.{find, IsOrdered, Above}
use saero_rp.TdmaController.{
  frame, TdmaController, start_tdma_sessions, schedule_tdma_session, Session, session, schedule,
  last_key,
}
use saero_rp.TdmaController.Run.{find-last_key, IsRun, run_length-IsRun}

-- Exactly the slots of the frame have a MAC, and none is null.
pub record IsFilled (c : TdmaController) : Type 0 where
  pub ordered : IsOrdered c.slot_ptrs
  pub below : (k : ℕ) → c.total_slots_allowed ≤ k → find k c.slot_ptrs ≡ none
  pub filled :
      (k : ℕ) → k < c.total_slots_allowed → (mac : ℕ) × (find k c.slot_ptrs ≡ some mac) × (mac ≢ 0)
  pub small : c.total_slots_allowed < 2 ^ 32

Above-last_key : (i k v : ℕ) (m : List (ℕ × ℕ)) → Above k m → i < k → i < last_key ((k, v) ∷ m)
Above-last_key i k v [] o h = h
Above-last_key i k v ((j, w) ∷ m) o h = Above-last_key i j w m o.1 (omega arith)

last_key_found :
    (k v : ℕ) (m : List (ℕ × ℕ))
    → Above k m
    → (w : ℕ) × (find (last_key ((k, v) ∷ m)) ((k, v) ∷ m) ≡ some w)
unfolding find
last_key_found k v [] o = (v, ground arith)
last_key_found k v ((j, w) ∷ m) o =
    let (u, found) = last_key_found j w m o.1 in
    (u, ground (arith, found, Above-last_key k j w m o.1 o.0))

last_key-lt-total :
    (total : ℕ) (m : List (ℕ × ℕ))
    → IsOrdered m
    → ((k : ℕ) → total ≤ k → find k m ≡ none)
    → 0 < total
    → last_key m < total
last_key-lt-total total [] o below pos = pos
last_key-lt-total total ((k, v) ∷ m) o below pos =
    let (w, found) = last_key_found k v m o in ground (arith, found, below (last_key ((k, v) ∷ m)))

-- What a session that starts at a slot of the frame is.
pub record IsSession (c : TdmaController) (slot : ℕ) (s : Session) : Type 0 where
  pub starts : s.slot ≡ slot
  pub allotted : 1 ≤ s.allotted
  pub inside : slot + s.allotted ≤ c.total_slots_allowed
  pub owned : (k : ℕ) → k < s.allotted → find (slot + k) c.slot_ptrs ≡ some s.mac
  pub longest : find (slot + s.allotted) c.slot_ptrs ≢ some s.mac
  pub transmission : s.transmission ≡ c.slot_time * s.allotted
  pub next : s.next ≡ (
      if slot + s.allotted == c.total_slots_allowed
      then start_tdma_sessions
      else schedule_tdma_session (slot + s.allotted))
  pub delay :
      s.delay
      ≡ c.gaurd_time
        + s.transmission
        + (if slot + s.allotted == c.total_slots_allowed then c.inter_frame_time else 0)

run_inside :
    (c : TdmaController) (mac slot n : ℕ)
    → IsFilled c
    → slot < c.total_slots_allowed
    → IsRun c.slot_ptrs mac slot 1 n
    → slot + n ≤ c.total_slots_allowed
run_inside c mac slot n f h run = elim (Bool-cases (leb n 1)) [
  | inl one ↦ ground (arith, run.least)
  | inr more ↦
      let last = run.same (n - 1) (ground arith) (ground arith) in
      ground (arith, last, f.below (slot + (n - 1)))
]

session-IsSession :
    (c : TdmaController) (mac slot n : ℕ)
    → IsFilled c
    → slot < c.total_slots_allowed
    → find slot c.slot_ptrs ≡ some mac
    → IsRun c.slot_ptrs mac slot 1 n
    → IsSession c slot (session c mac slot n)
unfolding session
session-IsSession c mac slot n f h at run =
    let inside = run_inside c mac slot n f h run in
    let wrap : (slot + n) % 2 ^ 32 ≡ slot + n = omega (arith, inside, f.small) in
    let size : (session c mac slot n).allotted ≡ n = ground arith in
    let owner : (session c mac slot n).mac ≡ mac = ground arith in
    record {
      starts = ground arith;
      allotted = ground (arith, run.least);
      inside = ground (arith, inside);
      owned = λ k l. elim (Bool-cases (k == 0)) [
        | inl first ↦ rw owner (let e : slot + k ≡ slot = ground arith in rw e at)
        | inr later ↦ rw owner (run.same k (ground arith) (rw size at l))
      ];
      longest = rw (size, owner) run.longest;
      transmission = ground arith;
      next = ground (arith, wrap);
      delay = ground (arith, wrap);
    }

-- On a full slot map, at any slot of the frame, the loop of `ScheduleTdmaSession` ends and the call
-- fails no assertion: it gives the MAC of the slot the longest run of its slots, at least one, all
-- inside the frame, for that many slot times. The next event comes a guard time later: the start of
-- the frame after the inter-frame time if the run ends the frame, and else the slot behind the run.
pub schedule-IsSession :
    (c : TdmaController) (slot : ℕ)
    → IsFilled c
    → slot < c.total_slots_allowed
    → (s : Session) × (schedule c slot ≡ some s) × IsSession c slot s
unfolding schedule
schedule-IsSession c slot f h =
    let (mac, at, nonnull) = f.filled slot h in
    let last =
      last_key-lt-total c.total_slots_allowed c.slot_ptrs f.ordered f.below (omega arith) in
    let within : slot ≤ last_key c.slot_ptrs =
      ground (arith, at, find-last_key slot c.slot_ptrs f.ordered) in
    let small : last_key c.slot_ptrs + 1 < 2 ^ 32 = omega (arith, f.small) in
    let (n, runs, run) =
      run_length-IsRun c.slot_ptrs mac slot (suc (last_key c.slot_ptrs)) 1 f.ordered small
        (omega arith) (omega arith) in
    (
      session c mac slot n,
      ground (arith, at, runs, nonnull),
      session-IsSession c mac slot n f h at run,
    )

-- One session after another, each at the slot behind the one before it, from `a` to `b`; each gives
-- its slots to the MAC that owns them.
abbrev pub Covers : TdmaController → ℕ → ℕ → List Session → Type 0
Covers c a b [] = a ≡ b
Covers c a b (s ∷ ss) =
    (s.slot ≡ a)
    × (1 ≤ s.allotted)
    × ((k : ℕ) → k < s.allotted → find (a + k) c.slot_ptrs ≡ some s.mac)
    × Covers c (a + s.allotted) b ss

abbrev pub total_delay : List Session → ℕ
total_delay [] = 0
total_delay (s ∷ ss) = s.delay + total_delay ss

-- On a full slot map the sessions from any slot of the frame on come to the start of a new frame
-- and fail no assertion. One follows another without a gap up to the end of the frame, each gives
-- its slots to the MAC that owns them, and together they take a slot time for each slot, a guard
-- time for each session and one inter-frame time.
pub frame-Covers :
    (c : TdmaController) (fuel slot : ℕ)
    → IsFilled c
    → slot < c.total_slots_allowed
    → c.total_slots_allowed ≤ slot + fuel
    → (ss : List Session) × (frame fuel c slot ≡ some ss)
      × Covers c slot c.total_slots_allowed ss
      × (total_delay ss
          ≡ c.slot_time * (c.total_slots_allowed - slot)
            + c.gaurd_time * length ss
            + c.inter_frame_time)
unfolding frame
frame-Covers c zero slot f h enough = absurd (omega arith)
frame-Covers c (suc fuel) slot f h enough =
    let (s, scheduled, is) = schedule-IsSession c slot f h in
    elim (Bool-cases (slot + s.allotted == c.total_slots_allowed)) [
      | inl done ↦
          let over : s.next ≡ start_tdma_sessions = ground (arith, is.next) in
          let end : slot + s.allotted ≡ c.total_slots_allowed = ground arith in
          let slots : c.total_slots_allowed - slot ≡ s.allotted = omega (arith, end) in
          (
            s ∷ [],
            ground (arith, scheduled, over),
            (is.starts, is.allotted, is.owned, end),
            ground (arith, is.delay, is.transmission, slots),
          )
      | inr more ↦
          let slot' = slot + s.allotted in
          let rest = c.total_slots_allowed - slot' in
          let on : s.next ≡ schedule_tdma_session slot' = ground (arith, is.next) in
          let low : slot' < c.total_slots_allowed = ground (arith, is.inside) in
          let (ss, frames, covers, time) =
            frame-Covers c fuel slot' f low (omega (arith, is.allotted)) in
          let slots : c.total_slots_allowed - slot ≡ s.allotted + rest = omega (arith, is.inside) in
          let times = ap (λ (t : ℕ). c.slot_time * t) slots in
          (
            s ∷ ss,
            ground (arith, scheduled, on, frames),
            (is.starts, is.allotted, is.owned, covers),
            ground (arith, is.delay, is.transmission, times, time),
          )
    ]
