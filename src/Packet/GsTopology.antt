-- ===== src/Packet/GsTopology.antt =====
-- `GSTopologyHeader` of aerorp-packet.h and aerorp-packet.cc. A time of type `int64_t` is its
-- 64-bit pattern.
use saero_rp.Prelude.{
  ℕ, ◌+◌, ◌^◌, ◌<◌, ◌≡◌, Bool, ◌&&◌, none, some, List, ◌++◌, arith, ◌==◌, length, length-append,
  append_assoc,
}
use saero_rp.Wire.{
  Wire, IsWire, Reader, ◌>>=◌, pure, checked, checked_lem, bind_u32, bind_u64, bind_address,
}

pub record GsTopologyHeader : Type 0 where
  pub node1 : ℕ
  pub node2 : ℕ
  pub link_cost : ℕ
  pub link_start_time : ℕ
  pub link_end_time : ℕ

-- The fields have the values of their C++ types.
pub record IsInRange (h : GsTopologyHeader) : Type 0 where
  pub node1_range : h.node1 < 2 ^ 32
  pub node2_range : h.node2 < 2 ^ 32
  pub link_cost_range : h.link_cost < 2 ^ 32
  pub link_start_time_range : h.link_start_time < 2 ^ 64
  pub link_end_time_range : h.link_end_time < 2 ^ 64

-- `operator==`
unfoldable pub equals : GsTopologyHeader → GsTopologyHeader → Bool
equals a b =
    (a.node1 == b.node1)
    && (a.node2 == b.node2)
    && (a.link_cost == b.link_cost)
    && (a.link_start_time == b.link_start_time)
    && (a.link_end_time == b.link_end_time)

module _ (w : Wire) where
  abbrev pub get_serialized_size : ℕ
  get_serialized_size = 16

  unfoldable pub serialize : GsTopologyHeader → List ℕ
  serialize h =
      w.write_address h.node1
      ++ (w.write_address h.node2
          ++ (w.write_u32 h.link_cost
              ++ (w.write_u64 h.link_start_time ++ w.write_u64 h.link_end_time)))

  unfoldable pub read_fields : Reader GsTopologyHeader
  read_fields = do
    node1' ← w.read_address
    node2' ← w.read_address
    link_cost' ← w.read_u32
    link_start_time' ← w.read_u64
    link_end_time' ← w.read_u64
    pure (record {
      node1 = node1';
      node2 = node2';
      link_cost = link_cost';
      link_start_time = link_start_time';
      link_end_time = link_end_time';
    })

  unfoldable pub deserialize : Reader GsTopologyHeader
  unfolding read_fields
  deserialize = checked get_serialized_size read_fields

  module _ (laws : IsWire w) where
    read_fields-serialize :
        (h : GsTopologyHeader) (rest : List ℕ)
        → IsInRange h
        → read_fields (serialize h ++ rest) ≡ some (h, rest)
    unfolding read_fields serialize
    read_fields-serialize h rest r =
        simp (append_assoc, bind_address w laws, bind_u32 w laws, bind_u64 w laws) (ground arith)

    length-serialize : (h : GsTopologyHeader) → length (serialize h) ≡ 28
    unfolding serialize
    length-serialize h =
        omega (arith, length-append {0}, laws.length_address, laws.length_u32, laws.length_u64)

    -- `Serialize` writes twelve bytes more than `GetSerializedSize` says. The reads of `Deserialize`
    -- give the header back, and then its assertion on the size fails, for every header whose fields
    -- are in the ranges of their types and whatever follows.
    pub deserialize-serialize_gs_topology :
        (h : GsTopologyHeader) (rest : List ℕ)
        → IsInRange h
        → (length (serialize h) ≡ get_serialized_size + 12)
          × (read_fields (serialize h ++ rest) ≡ some (h, rest))
          × (deserialize (serialize h ++ rest) ≡ none)
    unfolding deserialize
    deserialize-serialize_gs_topology h rest r =
        let size = length-serialize h in
        let fields = read_fields-serialize h rest r in
        (
          size,
          fields,
          ground (
            arith,
            size,
            checked_lem get_serialized_size read_fields (serialize h) rest h fields,
          ),
        )
