-- ===== src/PacketQueue/Expiry.antt =====
-- What a purge of the packet queue removes, and that no operation loses an entry.
use mathlib.Core.List.{Perm, perm_middle}
use mathlib.Core.List.Perm
use saero_rp.Prelude.{
  refl, false, ℕ, ◌<◌, ◌≤◌, ◌≡◌, ◌↔◌, Bool, true, not, List, [], ◌∷◌, ◌++◌, arith, All, keep_if,
}
use saero_rp.Prelude.Int.{is_negative-sub_ℕ}
use saero_rp.PacketQueue.{QueueEntry, RequestQueue, is_expired, purge}

is_expired_iff : (now : ℕ) (e : QueueEntry) → (is_expired now e ≡ true) ↔ (e.expire < now)
unfolding is_expired
is_expired_iff now e = is_negative-sub_ℕ e.expire now

module _ {ℓ} {A : Type ℓ} (p : A → Bool) where
  -- What passes a test and what fails it are together the list.
  pub keep_if-perm : (xs : List A) → Perm xs (keep_if p xs ++ keep_if (λ x. not (p x)) xs)
  keep_if-perm [] = Perm.refl []
  keep_if-perm (x ∷ xs) =
      let rest = Perm.cons x (keep_if-perm xs) in
      ground (
        arith,
        rest,
        Perm.trans rest (Perm.symm (perm_middle (keep_if p xs) (keep_if (λ x. not (p x)) xs))),
      )

purge-live :
    (now : ℕ) (es : List QueueEntry)
    → All (λ e. now ≤ e.expire) (keep_if (λ e. not (is_expired now e)) es)
purge-live now [] = tt
purge-live now (e ∷ es) = ground (arith, purge-live now es, is_expired_iff now e)

purge-dead :
    (now : ℕ) (es : List QueueEntry) → All (λ e. e.expire < now) (keep_if (is_expired now) es)
purge-dead now [] = tt
purge-dead now (e ∷ es) = ground (arith, purge-dead now es, is_expired_iff now e)

-- `Purge` keeps only entries whose time has not passed, drops only entries whose time has passed,
-- and the entries kept and dropped are together the entries before.
pub purge-Perm :
    (q : RequestQueue) (now : ℕ)
    → let (q', dropped) = purge q now in
      All (λ e. now ≤ e.expire) q'.queue
      × All (λ e. e.expire < now) dropped
      × Perm q.queue (dropped ++ q'.queue)
unfolding purge
purge-Perm q now =
    (purge-live now q.queue, purge-dead now q.queue, keep_if-perm (is_expired now) q.queue)

-- No entry has expired.
abbrev pub IsLive : ℕ → List QueueEntry → Type 0
IsLive now = All (λ e. is_expired now e ≡ false)

pub keep_if-IsLive :
    (now : ℕ) (es : List QueueEntry) → IsLive now (keep_if (λ e. not (is_expired now e)) es)
keep_if-IsLive now [] = tt
keep_if-IsLive now (e ∷ es) = ground (arith, keep_if-IsLive now es)

pub keep_if_of_IsLive :
    (now : ℕ) (es : List QueueEntry)
    → IsLive now es
    → (keep_if (λ e. not (is_expired now e)) es ≡ es) × (keep_if (is_expired now) es ≡ [])
keep_if_of_IsLive now [] h = (refl, refl)
keep_if_of_IsLive now (e ∷ es) h =
    (ground (arith, keep_if_of_IsLive now es h.1), ground (arith, keep_if_of_IsLive now es h.1))
