-- ===== src/NetDevice/Setting.antt =====
-- One call that gives a device of tdma-mac-net-device.cc a part, before it is configured.
use saero_rp.Prelude.{
  ℕ, suc, ◌+◌, ◌≡◌, refl, ap, subst, Bool, true, false, ◌&&◌, ◌||◌, Option, none, some, List, [],
  ◌∷◌, ◌++◌, if◌then◌else◌, arith, Option-cases, inl, inr,
}
use saero_rp.CentralMac.Links
use saero_rp.CentralMac.Links.{
  TdmaCentralMac, Call, controller_channel, controller_start, channel_add, queue_mac,
  link_up_callback, queue_state,
}
use saero_rp.NetDevice
use saero_rp.NetDevice.{TdmaNetDevice, new_device, complete_config, configure, set_link}

-- A call of one of the four methods, with a pointer that is null for the channel only.
pub data Setting : Type 0 where
  the_mac : TdmaCentralMac → Setting
  the_node : ℕ → Setting
  the_channel : Option ℕ → Setting
  the_controller : ℕ → Setting

unfoldable pub set : TdmaNetDevice → Setting → Option (TdmaNetDevice × List Call)
set d (the_mac mac) = NetDevice.set_mac d mac
set d (the_node node) = NetDevice.set_node d (some node)
set d (the_channel channel) = NetDevice.set_channel d channel
set d (the_controller controller) = NetDevice.set_tdma_controller d (some controller)

-- The calls one after another.
unfoldable pub set_all : TdmaNetDevice → List Setting → Option (TdmaNetDevice × List Call)
unfolding set
set_all d [] = some (d, [])
set_all d (s ∷ ss) = elim (set d s) [
  | none ↦ none
  | some (d', calls) ↦ elim (set_all d' ss) [
    | none ↦ none
    | some (end, later) ↦ some (end, calls ++ later)
  ]
]

abbrev pub present : {A : Type 0} → Option A → Bool
present none = false
present (some a) = true

abbrev pub gives_mac : Setting → Bool
gives_mac (the_mac m) = true
gives_mac (the_node n) = false
gives_mac (the_channel c) = false
gives_mac (the_controller c) = false

abbrev pub gives_node : Setting → Bool
gives_node (the_mac m) = false
gives_node (the_node n) = true
gives_node (the_channel c) = false
gives_node (the_controller c) = false

abbrev pub gives_channel : Setting → Bool
gives_channel (the_mac m) = false
gives_channel (the_node n) = false
gives_channel (the_channel c) = present c
gives_channel (the_controller c) = false

abbrev pub gives_controller : Setting → Bool
gives_controller (the_mac m) = false
gives_controller (the_node n) = false
gives_controller (the_channel c) = false
gives_controller (the_controller c) = true

-- One of the calls does it.
abbrev pub some_gives : (Setting → Bool) → List Setting → Bool
some_gives gives [] = false
some_gives gives (s ∷ ss) = gives s || some_gives gives ss

-- Each of the four parts is there, or given by one of the calls.
abbrev pub all_given : TdmaNetDevice → List Setting → Bool
all_given d ss =
    (present d.mac || some_gives gives_mac ss)
    && (present d.node || some_gives gives_node ss)
    && (present d.channel || some_gives gives_channel ss)
    && (present d.controller || some_gives gives_controller ss)

-- The number of calls of `Add` of a channel.
abbrev pub adds : List Call → ℕ
adds [] = 0
adds (controller_channel c channel ∷ calls) = adds calls
adds (controller_start c ∷ calls) = adds calls
adds (channel_add channel ∷ calls) = suc (adds calls)
adds (queue_mac ∷ calls) = adds calls
adds (link_up_callback ∷ calls) = adds calls
adds (queue_state i ∷ calls) = adds calls

pub adds-append : (a b : List Call) → adds (a ++ b) ≡ adds a + adds b
adds-append [] b = omega arith
adds-append (controller_channel c channel ∷ a) b = adds-append a b
adds-append (controller_start c ∷ a) b = adds-append a b
adds-append (channel_add channel ∷ a) b = ground (arith, adds-append a b)
adds-append (queue_mac ∷ a) b = adds-append a b
adds-append (link_up_callback ∷ a) b = adds-append a b
adds-append (queue_state i ∷ a) b = adds-append a b

abbrev pub one_if : Bool → ℕ
one_if true = 1
one_if false = 0

-- What a call, or calls, of the methods leave of a device that is not configured.
pub record Sets (linked_before : Bool) (complete : Bool) (r : TdmaNetDevice × List Call)
    : Type 0 where
  pub completed : r.0.config_complete ≡ complete
  pub linked : r.0.link_up ≡ (if complete then true else linked_before)
  pub added : adds r.1 ≡ one_if complete

abbrev pub Completes : TdmaNetDevice → Type 0
Completes d =
    (r : TdmaNetDevice × List Call) × (complete_config d ≡ some r)
    × Sets d.link_up (all_given d []) r
    × (present r.0.mac ≡ present d.mac)
    × (present r.0.node ≡ present d.node)
    × (present r.0.channel ≡ present d.channel)
    × (present r.0.controller ≡ present d.controller)

incomplete :
    (d : TdmaNetDevice)
    → d.config_complete ≡ false
    → all_given d [] ≡ false
    → complete_config d ≡ some (d, [])
    → Completes d
incomplete d h g e = (
  (d, []),
  e,
  record {
    completed = ground (arith, h, g);
    linked = ground (arith, g);
    added = ground (arith, g);
  },
  refl,
  refl,
  refl,
  refl,
)

configure-Sets :
    (d : TdmaNetDevice) (mac : TdmaCentralMac) (channel controller : ℕ)
    → (r : TdmaNetDevice × List Call) × (configure d mac channel controller ≡ some r)
      × Sets d.link_up true r
      × (present r.0.mac ≡ true)
      × (r.0.node ≡ d.node)
      × (r.0.channel ≡ d.channel)
      × (r.0.controller ≡ d.controller)
unfolding configure set_link Links.set_channel Links.set_link_up_callback Links.set_tdma_controller
configure-Sets d mac channel controller =
    (_, refl, record { completed = refl; linked = refl; added = refl }, refl, refl, refl, refl)

pub complete_config-Sets : (d : TdmaNetDevice) → d.config_complete ≡ false → Completes d
unfolding complete_config
complete_config-Sets d h = elim (Option-cases d.mac) [
  | inl e ↦ incomplete d h (ground (arith, e)) (ground (arith, e))
  | inr (m, e) ↦ elim (Option-cases d.node) [
    | inl n ↦ incomplete d h (ground (arith, e, n)) (ground (arith, e, n))
    | inr (node, n) ↦ elim (Option-cases d.channel) [
      | inl c ↦ incomplete d h (ground (arith, e, n, c)) (ground (arith, e, n, c))
      | inr (channel, c) ↦ elim (Option-cases d.controller) [
        | inl t ↦ incomplete d h (ground (arith, e, n, c, t)) (ground (arith, e, n, c, t))
        | inr (controller, t) ↦
            let (r, e', sets, m', n', c', t') = configure-Sets d m channel controller in
            let all : all_given d [] ≡ true = ground (arith, e, n, c, t) in
            (
              r,
              ground (arith, e, n, c, t, h, e'),
              rw all sets,
              ground (arith, e, m'),
              ap present n',
              ap present c',
              ap present t',
            )
      ]
    ]
  ]
]

pub set-Sets :
    (d : TdmaNetDevice) (s : Setting)
    → d.config_complete ≡ false
    → all_given d [] ≡ false
    → (r : TdmaNetDevice × List Call) × (set d s ≡ some r)
      × Sets d.link_up (all_given d (s ∷ [])) r
      × (present r.0.mac ≡ (present d.mac || gives_mac s))
      × (present r.0.node ≡ (present d.node || gives_node s))
      × (present r.0.channel ≡ (present d.channel || gives_channel s))
      × (present r.0.controller ≡ (present d.controller || gives_controller s))
unfolding set NetDevice.set_mac NetDevice.set_node NetDevice.set_channel
    NetDevice.set_tdma_controller
set-Sets d (the_mac mac) h g =
    let (r, e, sets, m, n, c, t) =
      complete_config-Sets (record d { mac = some (Links.set_device mac d.self) }) h in
    (
      r,
      e,
      subst (λ b. Sets (d.link_up) b r) (ground arith) sets,
      ground (arith, m),
      ground (arith, n),
      ground (arith, c),
      ground (arith, t),
    )
set-Sets d (the_node node) h g =
    let (r, e, sets, m, n, c, t) = complete_config-Sets (record d { node = some node }) h in
    (
      r,
      e,
      subst (λ b. Sets (d.link_up) b r) (ground arith) sets,
      ground (arith, m),
      ground (arith, n),
      ground (arith, c),
      ground (arith, t),
    )
set-Sets d (the_channel none) h g = (
  (d, []),
  refl,
  record {
    completed = ground (arith, h, g);
    linked = ground (arith, g);
    added = ground (arith, g);
  },
  ground arith,
  ground arith,
  ground arith,
  ground arith,
)
set-Sets d (the_channel (some channel)) h g =
    let (r, e, sets, m, n, c, t) = complete_config-Sets (record d { channel = some channel }) h in
    (
      r,
      e,
      subst (λ b. Sets (d.link_up) b r) (ground arith) sets,
      ground (arith, m),
      ground (arith, n),
      ground (arith, c),
      ground (arith, t),
    )
set-Sets d (the_controller controller) h g =
    let (r, e, sets, m, n, c, t) =
      complete_config-Sets (record d { controller = some controller }) h in
    (
      r,
      e,
      subst (λ b. Sets (d.link_up) b r) (ground arith) sets,
      ground (arith, m),
      ground (arith, n),
      ground (arith, c),
      ground (arith, t),
    )
