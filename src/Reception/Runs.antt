-- ===== src/Reception/Runs.antt =====
-- Runs of `RecvAERORP` of aerorp-routing-protocol.cc: the messages that a node receives one after
-- another.
use saero_rp.Prelude.{
  ℕ, ◌*◌, ◌^◌, ◌≤◌, ◌≡◌, refl, true, ◌&&◌, some, List, [], ◌∷◌, ◌++◌, ap, arith, ◌⊎◌, inl, inr,
  Bool-cases, Option-cases, subst, ◌∙◌, not, ◌||◌,
}
use saero_rp.Secure.{Message}
use saero_rp.Node.{Env, Node, unauth, auth}
use saero_rp.Packet.TypeTag
use saero_rp.Packet.TypeTag.{
  TypeHeader, MessageType, hello, gs_geolocation, gs_topology, authentication_request,
  authentication_reply, secure_hello, secure_gs_geolocation, new_type_header,
}
use saero_rp.Packet.AuthenticationReply.{AuthenticationReplyHeader}
use saero_rp.Packet.AuthenticationReply
use saero_rp.Authentication.{
  Reply, sender_timestamp, recv_reply, check_packet_validity, verify_time_stamp,
  verify_identification, verify_random_no, set_gs_data,
}
use saero_rp.Reception.{
  recv, recv_type, recv_hello, recv_gs, recv_secure_hello, recv_secure_gs, update_route_to_neighbor,
  update_route_to_nodes, is_gated, is_unauth,
}

-- A message that a node receives: from whom, and when.
pub record Arrival : Type 0 where
  pub sender : ℕ
  pub now : ℕ
  pub message : Message

module _ (env : Env) where
  open env use {crypto, platform}

  -- One received message: the node before it and after it.
  pub data Receives (n : Node env) : Arrival → Node env → Type 1 where
    receives :
        {n' : Node env} {a : Arrival} (replies : List Reply)
        → recv env n a.sender a.message a.now ≡ some (n', replies)
        → Receives n a n'

  -- Any number of received messages, the last one first.
  pub data Run (n : Node env) : List Arrival → Node env → Type 1 where
    start : Run n [] n
    next :
        {log : List Arrival} {a : Arrival} {n1 n2 : Node env}
        → Run n log n1
        → Receives n1 a n2
        → Run n (a ∷ log) n2

  -- The message's bytes are those of a reply with the header `h`.
  pub record Carries (m : Message) (h : AuthenticationReplyHeader) : Type 0 where
    pub tag : TypeHeader
    pub body : List ℕ
    pub rest : List ℕ
    pub tagged : TypeTag.deserialize env.wire (new_type_header hello) m.bytes ≡ some (tag, body)
    pub valid : tag.valid ≡ true
    pub of_reply : tag.type ≡ authentication_reply
    pub header : AuthenticationReply.deserialize env.wire body ≡ some (h, rest)

  -- What a node checked of a reply before it took the key in it.
  pub record IsGenuine (n : Node env) (h : AuthenticationReplyHeader) (now : ℕ) : Type 0 where
    pub certified : crypto.verify_cert (crypto.decode_cert h.cert) ≡ true
    pub signed :
        crypto.verify_sign
          (crypto.public_key (crypto.decode_cert h.cert))
          (set_gs_data platform h.time_stamp h.random_no h.old_random_no h.identification
            h.shared_key)
          h.sign
        ≡ true
    pub own_identification : h.identification ≡ n.node_id
    pub own_random_no : h.old_random_no ≡ n.my_random_no
    pub early : now ≤ 5 * 10 ^ 9

  -- The fields that no message changes.
  abbrev pub IsSameNode : Node env → Node env → Type 0
  IsSameNode n n' =
      (n'.node_id ≡ n.node_id)
      × (n'.my_random_no ≡ n.my_random_no)
      × (n'.security_state ≡ n.security_state)
      × (n'.key_pair ≡ n.key_pair)

  -- A message at the time `now` leaves the key and the status, or takes away the status alone, or is
  -- a genuine reply, one with `Is`.
  abbrev Effect : (AuthenticationReplyHeader → Type 0) → ℕ → Node env → Node env → Type 0
  Effect Is now n n' =
      ((n'.shared_key ≡ n.shared_key)
        × ((n'.authentication_status ≡ n.authentication_status)
            ⊎ (n'.authentication_status ≡ unauth)))
      ⊎ ((h : AuthenticationReplyHeader) × Is h
          × IsGenuine n h now
          × (n'.authentication_status ≡ auth)
          × (n'.shared_key ≡ crypto.private_decrypt n.key_pair h.shared_key n.shared_key))

  recv_reply-Effect :
      (Is : AuthenticationReplyHeader → Type 0) (n : Node env) (h : AuthenticationReplyHeader)
      (now : ℕ)
      → Is h
      → IsSameNode n (recv_reply env n h now) × Effect Is now n (recv_reply env n h now)
  unfolding recv_reply check_packet_validity verify_time_stamp verify_identification
      verify_random_no
  recv_reply-Effect Is n h now is =
      elim (Bool-cases (
        check_packet_validity env n (crypto.decode_cert h.cert) (sender_timestamp env)
          h.identification
          (set_gs_data platform h.time_stamp h.random_no h.old_random_no h.identification
            h.shared_key)
          h.sign now
        && verify_random_no env n h.old_random_no)) [
          | inl good ↦ (
            ground arith,
            inr (
              h,
              is,
              record {
                certified = ground arith;
                signed = ground arith;
                own_identification = ground arith;
                own_random_no = ground arith;
                early = ground arith;
              },
              ground arith,
              ground arith,
            ),
          )
          | inr bad ↦ (ground arith, inl (ground arith, inr (ground arith)))
        ]

  recv_type-Effect :
      (Is : AuthenticationReplyHeader → Type 0) (n n' : Node env) (t : MessageType)
      (sender uid now : ℕ) (bytes : List ℕ) (replies : List Reply)
      → recv_type env n t sender uid bytes now ≡ some (n', replies)
      → ((h : AuthenticationReplyHeader) (rest : List ℕ)
          → t ≡ authentication_reply
          → AuthenticationReply.deserialize env.wire bytes ≡ some (h, rest)
          → Is h)
      → IsSameNode n n' × Effect Is now n n'
  unfolding recv_type recv_hello recv_gs recv_secure_hello recv_secure_gs update_route_to_neighbor
      update_route_to_nodes
  recv_type-Effect Is n n' hello sender uid now bytes replies e is =
      (ground arith, inl (ground arith, inl (ground arith)))
  recv_type-Effect Is n n' gs_geolocation sender uid now bytes replies e is =
      (ground arith, inl (ground arith, inl (ground arith)))
  recv_type-Effect Is n n' gs_topology sender uid now bytes replies e is =
      (ground arith, inl (ground arith, inl (ground arith)))
  recv_type-Effect Is n n' authentication_request sender uid now bytes replies e is =
      (ground arith, inl (ground arith, inl (ground arith)))
  recv_type-Effect Is n n' authentication_reply sender uid now bytes replies e is =
      elim (Option-cases (AuthenticationReply.deserialize env.wire bytes)) [
        | inl short ↦ absurd (ground arith)
        | inr ((h, rest), known) ↦
            let same : recv_reply env n h now ≡ n' = ground arith in
            subst (λ k. IsSameNode n k × Effect Is now n k) same
              (recv_reply-Effect Is n h now (is h rest refl known))
      ]
  recv_type-Effect Is n n' secure_hello sender uid now bytes replies e is =
      (ground arith, inl (ground arith, inl (ground arith)))
  recv_type-Effect Is n n' secure_gs_geolocation sender uid now bytes replies e is =
      (ground arith, inl (ground arith, inl (ground arith)))

  step-Effect :
      (n n' : Node env) (a : Arrival)
      → Receives n a n'
      → IsSameNode n n' × Effect (Carries a.message) a.now n n'
  unfolding recv
  step-Effect n n' a (receives replies e) =
      elim (Option-cases (TypeTag.deserialize env.wire (new_type_header hello) a.message.bytes)) [
        | inl short ↦ absurd (ground arith)
        | inr ((t, bytes), known) ↦
            let ignored =
              not t.valid
              || (is_unauth n.authentication_status && (n.security_state && is_gated t.type)) in
            elim (Bool-cases ignored) [
              | inl skipped ↦
                  let same : n ≡ n' = ground arith in
                  subst (λ k. IsSameNode n k × Effect (Carries a.message) a.now n k) same
                    ((refl, refl, refl, refl), inl (refl, inl refl))
              | inr taken ↦
                  recv_type-Effect (Carries a.message) n n' t.type a.sender a.message.uid a.now
                    bytes replies (ground arith)
                    (λ h rest of_reply header. record {
                      tag = t;
                      body = bytes;
                      rest = rest;
                      tagged = known;
                      valid = ground arith;
                      of_reply = of_reply;
                      header = header;
                    })
            ]
      ]

  -- Not authenticated, or with a key from a genuine reply that was one of the messages.
  abbrev pub IsAdmitted : Node env → List Arrival → Node env → Type 0
  IsAdmitted n log n' =
      (n'.authentication_status ≡ unauth)
      ⊎ ((later earlier : List Arrival) × (a : Arrival) × (h : AuthenticationReplyHeader)
          × (buffer : List ℕ) × (log ≡ later ++ a ∷ earlier)
          × Carries a.message h
          × IsGenuine n h a.now
          × (n'.shared_key ≡ crypto.private_decrypt n.key_pair h.shared_key buffer))

  step-IsAdmitted :
      (n n1 n2 : Node env) (a : Arrival) (log : List Arrival)
      → IsSameNode n n1
      → IsAdmitted n log n1
      → Effect (Carries a.message) a.now n1 n2
      → IsAdmitted n (a ∷ log) n2
  step-IsAdmitted n n1 n2 a log same admitted (inl (key, inr out)) = inl out
  step-IsAdmitted n n1 n2 a log same (inl out) (inl (key, inl status)) = inl (status ∙ out)
  step-IsAdmitted n n1 n2 a log same
        (inr (later, earlier, reply, h, buffer, split, carries, good, got))
        (inl (key, inl status)) =
      inr (a ∷ later, earlier, reply, h, buffer, ap (λ l. a ∷ l) split, carries, good, key ∙ got)
  step-IsAdmitted n n1 n2 a log same admitted (inr (h, carries, good, status, got)) = inr (
    [],
    log,
    a,
    h,
    n1.shared_key,
    refl,
    carries,
    record {
      certified = good.certified;
      signed = good.signed;
      own_identification = good.own_identification ∙ same.0;
      own_random_no = good.own_random_no ∙ same.1;
      early = good.early;
    },
    ground (arith, got, same.3),
  )

  -- However many messages, from whomever and at any times, a node receives that was not
  -- authenticated before them: after them it is not authenticated, or one of these messages was a
  -- reply and the key is what `DecryptSharedKey` made of the key in it. That reply's certificate
  -- OpenSSL verified, its signature this certificate's key verified over the reply's fields, it
  -- names the node's own identification and random number, and it was received in the first five
  -- seconds. No message changes the node's identification, random number, mode or keys.
  pub run-IsAdmitted :
      (n n' : Node env) (log : List Arrival)
      → n.authentication_status ≡ unauth
      → Run n log n'
      → IsSameNode n n' × IsAdmitted n log n'
  run-IsAdmitted n n' [] fresh start = ((refl, refl, refl, refl), inl fresh)
  run-IsAdmitted n n' (a ∷ log) fresh (next {n1} run step) =
      let (same, admitted) = run-IsAdmitted n n1 log fresh run in
      let (same', effect) = step-Effect n1 n' a step in
      (
        (same'.0 ∙ same.0, same'.1 ∙ same.1, same'.2 ∙ same.2, same'.3 ∙ same.3),
        step-IsAdmitted n n1 n' a log same admitted effect,
      )
