-- ===== src/Beacon/Expiry.antt =====
-- The hello packets of a node since `Start`, of aerorp-routing-protocol.cc.
use saero_rp.Prelude.{ℕ, ◌≡◌, ◌⊎◌, true, false, some, List, [], ◌∷◌, ◌++◌, arith, inl, inr}
use saero_rp.Double.{Vector}
use saero_rp.Node.{Env, Node, unauth}
use saero_rp.Packet.AuthenticationReply.{AuthenticationReplyHeader}
use saero_rp.Reception.Runs.{Arrival, Run, Carries, IsGenuine, run-IsAdmitted}
use saero_rp.Beacon.{
  Timers, Delays, Credentials, start, authentication_intialize, hello_timer_expire,
}

module _ (env : Env) where
  open env use {host, crypto}
  open host use {double}

  -- A node in secure mode that is no ground station runs its hello and its authentication timer
  -- after `Start`. Whatever messages it receives from then on, the expiry of the hello timer starts
  -- the timer again, and sends nothing unless one of those messages was a reply that passed all
  -- checks, with the node's identification and the random number drawn at `Start`, and the node's
  -- key was decrypted from that reply.
  pub hello_timer-IsGenuine :
      (n n2 : Node env) (log : List Arrival) (t t2 : Timers) (c : Credentials env)
      (delays later : Delays) (position velocity : Vector double.F)
      → n.security_state ≡ true
      → Run env (start env n t false c delays).0 log n2
      → let (n1, t1) = start env n t false c delays in
        let (t', sent) = hello_timer_expire env n2 t2 position velocity later in
        (t1.hello_interval ≡ some delays.first)
        × (t1.authentication ≡ some delays.first_auth)
        × (t'.hello_interval ≡ some later.hello)
        × ((sent ≡ [])
            ⊎ ((after before : List Arrival) × (a : Arrival) × (h : AuthenticationReplyHeader)
                × (buffer : List ℕ) × (log ≡ after ++ a ∷ before)
                × Carries env a.message h
                × IsGenuine env n1 h a.now
                × (h.old_random_no ≡ c.random_no)
                × (n2.shared_key ≡ crypto.private_decrypt c.key_pair h.shared_key buffer)))
  unfolding start hello_timer_expire authentication_intialize
  hello_timer-IsGenuine n n2 log t t2 c delays later position velocity secure run =
      let n1 = (start env n t false c delays).0 in
      let fresh : n1.authentication_status ≡ unauth = ground arith in
      let (same, admitted) = run-IsAdmitted env n1 n2 log fresh run in
      (
        ground (arith, secure),
        ground (arith, secure),
        ground (arith, secure),
        elim admitted [
          | inl out ↦ inl (ground (arith, secure, same.2, out))
          | inr (after, before, a, h, buffer, split, carries, good, key) ↦ inr (
            after,
            before,
            a,
            h,
            buffer,
            split,
            carries,
            good,
            ground (arith, good.own_random_no),
            ground (arith, key),
          )
        ],
      )
