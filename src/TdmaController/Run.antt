-- ===== src/TdmaController/Run.antt =====
-- The loop of `ScheduleTdmaSession` in tdma-controller.cc ends, and finds the longest run of slots.
use saero_rp.Prelude.{
  ℕ, zero, suc, ◌+◌, ◌^◌, ◌%◌, ◌<◌, ◌≤◌, ◌≡◌, ◌≢◌, refl, none, some, List, [], ◌∷◌, ◌==◌, arith,
  Option-cases, Bool-cases, inl, inr,
}
use saero_rp.StdMap.{find, IsOrdered, Above}
use saero_rp.TdmaController.{run_length, last_key}

head-le-last_key : (j v : ℕ) (m : List (ℕ × ℕ)) → Above j m → j ≤ last_key ((j, v) ∷ m)
head-le-last_key j v [] o = omega arith
head-le-last_key j v ((k, w) ∷ m) o = omega (arith, head-le-last_key k w m o.1)

-- No key is above the last.
pub find-last_key : (k : ℕ) (m : List (ℕ × ℕ)) → IsOrdered m → last_key m < k → find k m ≡ none
unfolding find
find-last_key k [] o h = refl
find-last_key k ((j, v) ∷ []) o h = ground arith
find-last_key k ((j, v) ∷ (i, w) ∷ m) o h =
    ground (arith, find-last_key k ((i, w) ∷ m) o.1, head-le-last_key j v ((i, w) ∷ m) o)

-- `r` slots from `slot` on, `n` of them known, are of `mac`, and the next one is not.
pub record IsRun (m : List (ℕ × ℕ)) (mac slot n r : ℕ) : Type 0 where
  pub least : n ≤ r
  pub same : (k : ℕ) → n ≤ k → k < r → find (slot + k) m ≡ some mac
  pub longest : find (slot + r) m ≢ some mac

IsRun-extend :
    (m : List (ℕ × ℕ)) (mac slot n r : ℕ)
    → find (slot + n) m ≡ some mac
    → IsRun m mac slot (n + 1) r
    → IsRun m mac slot n r
IsRun-extend m mac slot n r h run = record {
  least = omega (arith, run.least);
  same = λ k low high. elim (Bool-cases (k == n)) [
    | inl here ↦ let e : k ≡ n = ground arith in rw e h
    | inr later ↦ run.same k (ground arith) high
  ];
  longest = run.longest;
}

pub run_length-IsRun :
    (m : List (ℕ × ℕ)) (mac slot fuel n : ℕ)
    → IsOrdered m
    → last_key m + 1 < 2 ^ 32
    → slot + n ≤ last_key m + 1
    → last_key m + 1 < slot + n + fuel
    → (r : ℕ) × (run_length m mac slot fuel n ≡ some r) × IsRun m mac slot n r
unfolding run_length
run_length-IsRun m mac slot zero n o small low enough = absurd (omega arith)
run_length-IsRun m mac slot (suc fuel) n o small low enough =
    let wrap : (slot + n) % 2 ^ 32 ≡ slot + n = omega arith in
    elim (Option-cases (find (slot + n) m)) [
      | inl free ↦ (
        n,
        ground (arith, wrap, free),
        record { least = omega arith; same = λ k h l. absurd (omega arith); longest = λ e. cc },
      )
      | inr (mac', taken) ↦
          let inside : slot + n ≤ last_key m = ground (arith, find-last_key (slot + n) m o) in
          let wrap' : (n + 1) % 2 ^ 32 ≡ n + 1 = omega arith in
          elim (Bool-cases (mac == mac')) [
            | inl own ↦
                let (r, runs, run) =
                  run_length-IsRun m mac slot fuel (n + 1) o small (omega arith) (omega arith) in
                (
                  r,
                  ground (arith, wrap, wrap', taken, own, runs),
                  IsRun-extend m mac slot n r (ground arith) run,
                )
            | inr other ↦ (
              n,
              ground (arith, wrap, taken, other),
              record {
                least = omega arith;
                same = λ k h l. absurd (omega arith);
                longest = λ e. ground arith;
              },
            )
          ]
    ]
