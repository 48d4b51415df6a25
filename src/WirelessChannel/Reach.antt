-- ===== src/WirelessChannel/Reach.antt =====
-- Whom `Send` of simple-wireless-channel.cc reaches.
use saero_rp.Prelude.{
  ℕ, ◌≡◌, ◌⊎◌, inl, inr, refl, false, List, [], ◌∷◌, ◌==◌, arith, Bool-cases, ap, sym, subst, ◌↔◌,
}
use saero_rp.Double.{Double, Vector}
use saero_rp.PacketQueue.{Packet}
use saero_rp.WirelessChannel.{TdmaMacLow, SimpleWirelessChannel, Reception, range_of, send_to, send}

abbrev pub Has : {A : Type 0} → A → List A → Type 0
Has a [] = ⊥
Has a (x ∷ xs) = (x ≡ a) ⊎ Has a xs

module _ (d : Double) (distance : Vector d.F → Vector d.F → d.F) (to_u64 : d.F → ℕ)
    (position : ℕ → Vector d.F) where
  -- The other device is within the sender's range.
  abbrev pub Reaches : SimpleWirelessChannel d.F → TdmaMacLow → TdmaMacLow → Type 0
  Reaches c sender low =
      ((low.device == sender.device) ≡ false)
      × (d.lt (range_of d distance to_u64 position c sender)
            (distance (position sender.node) (position low.node))
          ≡ false)

  -- What a device receives of a packet.
  abbrev pub reception : Packet → TdmaMacLow → TdmaMacLow → Reception
  reception p sender low = record {
    context = low.node;
    delay = to_u64 (d.mul (d.literal 33 1) (distance (position sender.node) (position low.node)));
    receiver = low;
    packet = p;
  }

  open_reach :
      (c : SimpleWirelessChannel d.F) (p : Packet) (sender low : TdmaMacLow)
      (lows : List TdmaMacLow)
      → Reaches c sender low
      → send_to d distance to_u64 position c p sender (low ∷ lows)
        ≡ reception p sender low ∷ send_to d distance to_u64 position c p sender lows
  unfolding send_to
  open_reach c p sender low lows h = ground (arith)

  pub sent :
      (c : SimpleWirelessChannel d.F) (p : Packet) (sender low : TdmaMacLow)
      (lows : List TdmaMacLow)
      → Has low lows
      → Reaches c sender low
      → Has (reception p sender low) (send_to d distance to_u64 position c p sender lows)
  unfolding send_to
  sent c p sender low [] h r = absurd h
  sent c p sender low (x ∷ lows) (inl same) h =
      let h' : Reaches c sender x = subst (λ y. Reaches c sender y) (sym same) h in
      subst (λ l. Has (reception p sender low) l) (sym (open_reach c p sender x lows h'))
        (inl (ap (reception p sender) same))
  sent c p sender low (x ∷ lows) (inr later) h =
      let rest = sent c p sender low lows later h in
      elim (Bool-cases (x.device == sender.device)) [
        | inl own ↦ ground (arith, own, rest)
        | inr other ↦
            elim (Bool-cases (
              d.lt (range_of d distance to_u64 position c sender)
                (distance (position sender.node) (position x.node)))) [
                  | inl far ↦ ground (arith, other, far, rest)
                  | inr near ↦
                      subst (λ l. Has (reception p sender low) l)
                        (sym (open_reach c p sender x lows (other, near))) (inr rest)
                ]
      ]

  received :
      (c : SimpleWirelessChannel d.F) (p : Packet) (sender : TdmaMacLow) (lows : List TdmaMacLow)
      (r : Reception)
      → Has r (send_to d distance to_u64 position c p sender lows)
      → (low : TdmaMacLow) × Has low lows × Reaches c sender low × (reception p sender low ≡ r)
  unfolding send_to
  received c p sender [] r h = absurd h
  received c p sender (x ∷ lows) r h = elim (Bool-cases (x.device == sender.device)) [
    | inl own ↦
        let (low, there, near, same) = received c p sender lows r (ground (arith, own, h)) in
        (low, inr there, near, same)
    | inr other ↦
        elim (Bool-cases (
          d.lt (range_of d distance to_u64 position c sender)
            (distance (position sender.node) (position x.node)))) [
              | inl far ↦
                  let (low, there, near, same) =
                    received c p sender lows r (ground (arith, other, far, h)) in
                  (low, inr there, near, same)
              | inr near ↦
                  let h' = subst (λ l. Has r l) (open_reach c p sender x lows (other, near)) h in
                  elim h' [
                    | inl same ↦ (x, inl refl, (other, near), same)
                    | inr later ↦
                        let (low, there, near', same) = received c p sender lows r later in
                        (low, inr there, near', same)
                  ]
            ]
  ]

  flip :
      (c : SimpleWirelessChannel d.F) (a b : TdmaMacLow)
      → ((u v : Vector d.F) → distance u v ≡ distance v u)
      → (a.node == c.gid) ≡ (b.node == c.gid)
      → Reaches c a b
      → Reaches c b a
  flip c a b symmetric kind h = (
    ground (arith, h.0),
    ground (arith, h.1, kind, symmetric (position a.node) (position b.node)),
  )

  -- `Send` schedules receptions for exactly the devices on the channel that are not the sender's
  -- and are within the sender's range, each at its node and with the delay of its distance. If
  -- distances are symmetric, then between two devices on the channel, both or neither of the ground
  -- station, a packet of the one reaches the other exactly if the other's packets reach it, with
  -- the same delay.
  pub send_iff :
      (c : SimpleWirelessChannel d.F) (p q : Packet) (a b : TdmaMacLow)
      → ((u v : Vector d.F) → distance u v ≡ distance v u)
      → Has a c.low_list
      → Has b c.low_list
      → (a.node == c.gid) ≡ (b.node == c.gid)
      → ((r : Reception)
          → Has r (send d distance to_u64 position c p a)
            ↔ ((low : TdmaMacLow) × Has low c.low_list × Reaches c a low × (reception p a low ≡ r)))
        × (Has (reception p a b) (send d distance to_u64 position c p a)
            ↔ Has (reception q b a) (send d distance to_u64 position c q b))
        × ((reception p a b).delay ≡ (reception q b a).delay)
  unfolding send
  send_iff c p q a b symmetric ha hb kind =
      let exact : (p' : Packet) (s : TdmaMacLow) (r : Reception)
          → Has r (send d distance to_u64 position c p' s) ↔ (
              (low : TdmaMacLow) × Has low c.low_list
              × Reaches c s low
              × (reception p' s low ≡ r)) =
        λ p' s r. (
          received c p' s c.low_list r,
          λ found.
              subst (λ r'. Has r' (send d distance to_u64 position c p' s)) found.3
                (sent c p' s found.0 c.low_list found.1 found.2),
        ) in
      (
        exact p a,
        (
          λ h.
              let found = (exact p a (reception p a b)).0 h in
              let same : found.0 ≡ b = ap (λ r. r.receiver) found.3 in
              sent c q b a c.low_list ha
                (flip c a b symmetric kind (subst (λ l. Reaches c a l) same found.2)),
          λ h.
              let found = (exact q b (reception q b a)).0 h in
              let same : found.0 ≡ a = ap (λ r. r.receiver) found.3 in
              sent c p a b c.low_list hb
                (flip c b a symmetric (sym kind) (subst (λ l. Reaches c b l) same found.2)),
        ),
        ap (λ u. to_u64 (d.mul (d.literal 33 1) u)) (symmetric (position a.node) (position b.node)),
      )
