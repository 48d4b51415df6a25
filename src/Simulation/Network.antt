-- ===== src/Simulation/Network.antt =====
-- The sessions of the network that `CreateDevices` of aero-test-final.cc sets up.
use saero_rp.Prelude.{
  ℕ, zero, suc, ◌+◌, ◌*◌, ◌/◌, ◌^◌, ◌<◌, ◌≤◌, ◌≡◌, ◌≢◌, refl, ap, ◌∙◌, none, some, List, [], ◌∷◌,
  ◌++◌, ltb, leb, ◌==◌, if◌then◌else◌, arith, Bool-cases, inl, inr, ltb→lt,
}
use native.Mathlib.Nat.{div_self}
use saero_rp.StdMap.{find}
use saero_rp.TdmaController.{
  TdmaController, set_total_slots_allowed, Session, start_tdma_sessions, schedule_tdma_session,
  schedule, frame,
}
use saero_rp.TdmaController.Frame.{IsFilled, total_delay, schedule-IsSession}
use saero_rp.TdmaHelper.{set_controller}
use saero_rp.TdmaHelper.Defaults.{owner, set_default_slots-IsDefault}
use saero_rp.TdmaHelper.Assigned.{numbered, install-Gives}
use saero_rp.Simulation.{node_macs, new_controller, create_nodes, create_devices}

-- The MACs of so many nodes are objects, and those of neighbouring numbers are different.
pub record IsMacs (n : ℕ) (macs : ℕ → ℕ) : Type 0 where
  pub nonnull : (i : ℕ) → i < n → macs i ≢ 0
  pub distinct : (i : ℕ) → i + 1 < n → macs (i + 1) ≢ macs i

-- With as many slots as nodes, each node has the slot of its number.
owner_each : (n k : ℕ) → k < n → owner n n k ≡ k
owner_each n k h = let one : n / n ≡ 1 = div_self (omega arith) in ground (arith, one)

-- The session of the node `k` of `n`.
abbrev pub turn : (ℕ → ℕ) → ℕ → ℕ → Session
turn macs n k = record {
  mac = macs k;
  slot = k;
  allotted = 1;
  transmission = 1100;
  delay = if k + 1 == n then 1210 else 1200;
  next = if k + 1 == n then start_tdma_sessions else schedule_tdma_session (k + 1);
}

-- The sessions of so many nodes from the node `k` on.
abbrev pub turns : (ℕ → ℕ) → ℕ → ℕ → ℕ → List Session
turns macs n zero k = []
turns macs n (suc left) k = turn macs n k ∷ turns macs n left (k + 1)

node_macs-numbered :
    (macs : ℕ → ℕ) (count first : ℕ) → node_macs macs count first ≡ numbered macs count first
unfolding node_macs
node_macs-numbered macs zero first = refl
node_macs-numbered macs (suc count) first =
    ap (λ l. (first, macs first) ∷ l) (node_macs-numbered macs count (first + 1))

-- What the controller of the network is.
record IsNetwork (n : ℕ) (macs : ℕ → ℕ) (c : TdmaController) : Type 0 where
  filled : IsFilled c
  slot_count : c.total_slots_allowed ≡ n
  slot : c.slot_time ≡ 1100
  guard : c.gaurd_time ≡ 100
  between : c.inter_frame_time ≡ 10
  found : (k : ℕ) → find k c.slot_ptrs ≡ (if ltb k n then some (macs k) else none)

create_devices-IsNetwork :
    (macs : ℕ → ℕ) (wifis sinks : ℕ)
    → 0 < wifis
    → wifis + sinks + 1 ≤ 2 ^ 31
    → IsMacs (wifis + sinks) macs
    → (c : TdmaController) × (create_devices macs (0, sinks) (sinks, wifis) ≡ some c)
      × IsNetwork (wifis + sinks) macs c
unfolding create_devices set_controller set_total_slots_allowed new_controller find
create_devices-IsNetwork macs wifis sinks some_node small is =
    let n = wifis + sinks in
    let positive : 0 < n = omega arith in
    let (a, written, d) = set_default_slots-IsDefault n n positive small in
    let c0 = set_controller a new_controller in
    let (c1, goes1, given1) = install-Gives n n a positive d c0 macs wifis sinks tt (omega arith) in
    let (c2, goes2, given2) =
      install-Gives n n a positive d c1 macs sinks 0 given1.ordered (omega arith) in
    let found : (k : ℕ) → find k c2.slot_ptrs ≡ (if ltb k n then some (macs k) else none) = λ k.
      elim (Bool-cases (ltb k n)) [
        | inl inside ↦
            let own = owner_each n k (ltb→lt k n inside) in
            ground (arith, inside, own, ap macs own, given2.found k, given1.found k)
        | inr outside ↦ ground (arith, outside, given2.found k, given1.found k)
      ] in
    let total : c2.total_slots_allowed ≡ n = ground (arith, given2.kept, given1.kept, d.cols) in
    (
      c2,
      ground (
        arith,
        written,
        goes1,
        goes2,
        node_macs-numbered macs wifis sinks,
        node_macs-numbered macs sinks 0,
      ),
      record {
        filled = record {
          ordered = given2.ordered;
          below = λ k h. ground (arith, found k, total);
          filled = λ k h.
              let inside : k < n = omega (arith, total) in
              (macs k, ground (arith, found k, inside), is.nonnull k inside);
          small = omega (arith, total);
        };
        slot_count = total;
        slot = ground (arith, given2.kept, given1.kept);
        guard = ground (arith, given2.kept, given1.kept);
        between = ground (arith, given2.kept, given1.kept);
        found = found;
      },
    )

-- The controller gives the node `k` its slot and no other.
schedule-turn :
    (macs : ℕ → ℕ) (n : ℕ) (c : TdmaController) (k : ℕ)
    → IsMacs n macs
    → IsNetwork n macs c
    → k < n
    → schedule c k ≡ some (turn macs n k)
schedule-turn macs n c k is net h =
    let (s, runs, session) = schedule-IsSession c k net.filled (omega (arith, net.slot_count)) in
    let start : k + 0 ≡ k = omega arith in
    let mac : s.mac ≡ macs k =
      ground (arith, session.owned 0 session.allotted, net.found (k + 0), ap macs start, h) in
    let one : s.allotted ≡ 1 = elim (Bool-cases (leb s.allotted 1)) [
      | inl least ↦ ground (arith, least, session.allotted)
      | inr more ↦
          let long : 1 < s.allotted = ground (arith, more) in
          let inside : k + 1 < n = omega (arith, session.inside, net.slot_count, long) in
          absurd (
            is.distinct k inside
              (ground (arith, session.owned 1 long, net.found (k + 1), inside, mac)))
    ] in
    let same : s ≡ turn macs n k = ground (
      arith, mac, one, session.starts, session.transmission, session.delay, session.next,
      net.slot_count, net.slot, net.guard, net.between,
    ) in
    runs ∙ ap some same

frame-turns :
    (macs : ℕ → ℕ) (n : ℕ) (c : TdmaController) (fuel left k : ℕ)
    → IsMacs n macs
    → IsNetwork n macs c
    → k + left ≡ n
    → 0 < left
    → left ≤ fuel
    → frame fuel c k ≡ some (turns macs n left k)
unfolding frame
frame-turns macs n c zero left k is net e some_left enough = absurd (omega arith)
frame-turns macs n c (suc fuel) zero k is net e some_left enough = absurd (omega arith)
frame-turns macs n c (suc fuel) (suc zero) k is net e some_left enough =
    let last : k + 1 ≡ n = omega arith in
    ground (arith, schedule-turn macs n c k is net (omega arith), last)
frame-turns macs n c (suc fuel) (suc (suc left)) k is net e some_left enough =
    let rest =
      frame-turns macs n c fuel (suc left) (k + 1) is net (omega arith) (omega arith)
        (omega arith) in
    ground (arith, schedule-turn macs n c k is net (omega arith), rest)

-- The sessions before that of a node take 1200 microseconds for each.
turns-split :
    (macs : ℕ → ℕ) (n left k more : ℕ)
    → k + left ≤ n
    → more < left
    → (before : List Session) × (after : List Session) × (turns macs n left k
        ≡ before ++ turn macs n (k + more) ∷ after)
      × (total_delay before ≡ 1200 * more)
turns-split macs n zero k more h inside = absurd (omega arith)
turns-split macs n (suc left) k zero h inside =
    let here : k ≡ k + 0 = omega arith in
    (
      [],
      turns macs n left (k + 1),
      ap (λ j. turn macs n j ∷ turns macs n left (k + 1)) here,
      omega arith,
    )
turns-split macs n (suc left) k (suc more) h inside =
    let (before, after, split, time) =
      turns-split macs n left (k + 1) more (omega arith) (omega arith) in
    let there : k + 1 + more ≡ k + suc more = omega arith in
    (
      turn macs n k ∷ before,
      after,
      ap (λ l. turn macs n k ∷ l) split
          ∙ ap (λ j. turn macs n k ∷ (before ++ turn macs n j ∷ after)) there,
      ground (arith, time),
    )

turns-total :
    (macs : ℕ → ℕ) (n left k : ℕ)
    → k + left ≡ n
    → 0 < left
    → total_delay (turns macs n left k) ≡ 1200 * left + 10
turns-total macs n zero k e h = absurd (omega arith)
turns-total macs n (suc zero) k e h = ground arith
turns-total macs n (suc (suc left)) k e h =
    ground (arith, turns-total macs n (suc left) (k + 1) (omega arith) (omega arith))

-- With more aircraft than ground stations, fewer than 2^31 nodes in all, and a MAC of its own for
-- each node, the scenario creates its nodes and devices without a failed assertion, and the
-- controller's frame runs through once without one. In it each node has exactly one session, in the
-- order of the nodes' numbers: that of the node `k` begins 1200 microseconds times `k` after the
-- frame and gives it 1100 microseconds to send, and the next frame begins 10 microseconds behind the
-- end of the last node's time.
pub create_devices-frame :
    (macs : ℕ → ℕ) (wifis sinks k : ℕ)
    → sinks < wifis
    → wifis + sinks + 1 ≤ 2 ^ 31
    → IsMacs (wifis + sinks) macs
    → k < wifis + sinks
    → let n = wifis + sinks in
      (create_nodes wifis sinks ≡ some ((0, sinks), (sinks, wifis)))
      × (c : TdmaController) × (create_devices macs (0, sinks) (sinks, wifis) ≡ some c)
      × (frame n c 0 ≡ some (turns macs n n 0))
      × (total_delay (turns macs n n 0) ≡ 1200 * n + 10)
      × (before : List Session) × (after : List Session) × (turns macs n n 0
          ≡ before ++ turn macs n k ∷ after)
      × (total_delay before ≡ 1200 * k)
unfolding create_nodes
create_devices-frame macs wifis sinks k more_aircraft small is inside =
    let n = wifis + sinks in
    let (c, creates, net) = create_devices-IsNetwork macs wifis sinks (omega arith) small is in
    let (before, after, split, time) = turns-split macs n n 0 k (omega arith) inside in
    let from_start : 0 + k ≡ k = omega arith in
    (
      ground (arith, more_aircraft),
      c,
      creates,
      frame-turns macs n c n n 0 is net (omega arith) (omega arith) (omega arith),
      turns-total macs n n 0 (omega arith) (omega arith),
      before,
      after,
      split ∙ ap (λ j. before ++ turn macs n j ∷ after) from_start,
      time,
    )
