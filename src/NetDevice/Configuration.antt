-- ===== src/NetDevice/Configuration.antt =====
-- The order in which a device of tdma-mac-net-device.cc is given its parts.
use saero_rp.Prelude.{
  Bool, ℕ, ◌≡◌, refl, ◌∙◌, true, false, ◌&&◌, none, some, List, [], ◌∷◌, ◌++◌, if◌then◌else◌, arith,
  Bool-cases, inl, inr,
}
use saero_rp.CentralMac.Links
use saero_rp.CentralMac.Links.{
  TdmaCentralMac, Call, controller_channel, controller_start, channel_add, queue_mac,
  link_up_callback, queue_state,
}
use saero_rp.NetDevice
use saero_rp.NetDevice.{TdmaNetDevice, new_device, complete_config, configure, set_link}
use saero_rp.NetDevice.Setting.{
  Setting, the_mac, the_node, the_channel, the_controller, set, set_all, gives_mac, gives_node,
  gives_channel, gives_controller, some_gives, all_given, adds, Sets, adds-append, set-Sets,
}

complete_config-done :
    (d : TdmaNetDevice) → d.config_complete ≡ true → complete_config d ≡ some (d, [])
unfolding complete_config
complete_config-done d h = ground arith

-- A device that is configured stays so, and no call adds it to a channel again.
set-done :
    (d : TdmaNetDevice) (s : Setting)
    → d.config_complete ≡ true
    → (r : TdmaNetDevice × List Call) × (set d s ≡ some r)
      × (r.0.config_complete ≡ true)
      × (r.0.link_up ≡ d.link_up)
      × (adds r.1 ≡ 0)
unfolding set NetDevice.set_mac NetDevice.set_node NetDevice.set_channel
    NetDevice.set_tdma_controller
set-done d (the_mac mac) h =
    let d' = record d { mac = some (Links.set_device mac d.self) } in
    ((d', []), complete_config-done d' h, h, refl, refl)
set-done d (the_node node) h =
    let d' = record d { node = some node } in ((d', []), complete_config-done d' h, h, refl, refl)
set-done d (the_channel none) h = ((d, []), refl, h, refl, refl)
set-done d (the_channel (some channel)) h =
    let d' = record d { channel = some channel } in
    ((d', []), complete_config-done d' h, h, refl, refl)
set-done d (the_controller controller) h =
    let d' = record d { controller = some controller } in
    ((d', []), complete_config-done d' h, h, refl, refl)

set_all-done :
    (d : TdmaNetDevice) (ss : List Setting)
    → d.config_complete ≡ true
    → (r : TdmaNetDevice × List Call) × (set_all d ss ≡ some r)
      × (r.0.config_complete ≡ true)
      × (r.0.link_up ≡ d.link_up)
      × (adds r.1 ≡ 0)
unfolding set_all
set_all-done d [] h = ((d, []), refl, h, refl, refl)
set_all-done d (s ∷ ss) h =
    let (r, e, complete, linked, added) = set-done d s h in
    let (r', e', complete', linked', added') = set_all-done r.0 ss complete in
    (
      (r'.0, r.1 ++ r'.1),
      ground (arith, e, e'),
      complete',
      linked' ∙ linked,
      ground (arith, adds-append r.1 r'.1, added, added'),
    )

set_all-Sets :
    (d : TdmaNetDevice) (ss : List Setting)
    → d.config_complete ≡ false
    → all_given d [] ≡ false
    → (r : TdmaNetDevice × List Call) × (set_all d ss ≡ some r) × Sets d.link_up (all_given d ss) r
unfolding set_all
set_all-Sets d [] h g = (
  (d, []),
  refl,
  record {
    completed = ground (arith, h, g);
    linked = ground (arith, g);
    added = ground (arith, g);
  },
)
set_all-Sets d (s ∷ ss) h g =
    let (r, e, sets, m, n, c, t) = set-Sets d s h g in
    elim (Bool-cases (all_given d (s ∷ []))) [
      | inl now ↦
          let (r', e', complete, linked, added) = set_all-done r.0 ss (sets.completed ∙ now) in
          let all : all_given d (s ∷ ss) ≡ true = ground (arith, now) in
          (
            (r'.0, r.1 ++ r'.1),
            ground (arith, e, e'),
            record {
              completed = ground (arith, complete, all);
              linked = ground (arith, linked, all, sets.linked, now);
              added = ground (arith, adds-append r.1 r'.1, added, sets.added, all, now);
            },
          )
      | inr not_yet ↦
          let later : all_given r.0 [] ≡ false = ground (arith, m, n, c, t, not_yet) in
          let (r', e', sets') = set_all-Sets r.0 ss (sets.completed ∙ not_yet) later in
          let all : all_given r.0 ss ≡ all_given d (s ∷ ss) = ground (arith, m, n, c, t) in
          (
            (r'.0, r.1 ++ r'.1),
            ground (arith, e, e'),
            record {
              completed = ground (arith, sets'.completed, all);
              linked = ground (arith, sets'.linked, all, sets.linked, not_yet);
              added = ground (arith, adds-append r.1 r'.1, sets'.added, all, sets.added, not_yet);
            },
          )
    ]

-- A new device, given any sequence of MACs, nodes, controllers, and channels that may be null, makes
-- no call through a null pointer. It is configured exactly if each of the four was given at some
-- time, in whatever order. Then its link is up and its low MAC was added to a channel exactly once;
-- otherwise the flag of the link is as it was, and there was no such addition.
pub set_all_complete :
    (self : ℕ) (link_up : Bool) (mtu : ℕ) (ss : List Setting)
    → (r : TdmaNetDevice × List Call) × (set_all (new_device self link_up mtu) ss ≡ some r)
      × (r.0.config_complete ≡ (
          some_gives gives_mac ss
          && some_gives gives_node ss
          && some_gives gives_channel ss
          && some_gives gives_controller ss))
      × (r.0.link_up ≡ (if r.0.config_complete then true else link_up))
      × (adds r.1 ≡ (if r.0.config_complete then 1 else 0))
unfolding new_device
set_all_complete self link_up mtu ss =
    let (r, e, sets) = set_all-Sets (new_device self link_up mtu) ss refl refl in
    (
      r,
      e,
      sets.completed,
      ground (arith, sets.completed, sets.linked),
      ground (arith, sets.completed, sets.added),
    )
