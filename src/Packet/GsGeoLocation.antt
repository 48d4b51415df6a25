-- ===== src/Packet/GsGeoLocation.antt =====
-- `GSGeoLocationHeader` of aerorp-packet.h and aerorp-packet.cc. A time of type `int64_t` is its
-- 64-bit pattern.
use saero_rp.Prelude.{
  ℕ, ◌+◌, ◌*◌, ◌^◌, ◌<◌, ◌≡◌, Bool, ◌&&◌, some, List, ◌++◌, arith, ◌==◌, length, length-append,
  append_assoc,
}
use saero_rp.Wire.{
  Wire, IsWire, Reader, ◌>>=◌, pure, checked, checked_ok, bind_u32, bind_u64, bind_address,
}

pub record GsGeoLocationHeader : Type 0 where
  pub node : ℕ
  pub xcoordinate : ℕ
  pub ycoordinate : ℕ
  pub zcoordinate : ℕ
  pub xvelocity : ℕ
  pub yvelocity : ℕ
  pub zvelocity : ℕ
  pub start_time : ℕ
  pub end_time : ℕ

-- The fields have the values of their C++ types.
pub record IsInRange (h : GsGeoLocationHeader) : Type 0 where
  pub node_range : h.node < 2 ^ 32
  pub xcoordinate_range : h.xcoordinate < 2 ^ 32
  pub ycoordinate_range : h.ycoordinate < 2 ^ 32
  pub zcoordinate_range : h.zcoordinate < 2 ^ 32
  pub xvelocity_range : h.xvelocity < 2 ^ 32
  pub yvelocity_range : h.yvelocity < 2 ^ 32
  pub zvelocity_range : h.zvelocity < 2 ^ 32
  pub start_time_range : h.start_time < 2 ^ 64
  pub end_time_range : h.end_time < 2 ^ 64

-- `operator==`
unfoldable pub equals : GsGeoLocationHeader → GsGeoLocationHeader → Bool
equals a b =
    (a.xcoordinate == b.xcoordinate)
    && (a.ycoordinate == b.ycoordinate)
    && (a.zcoordinate == b.zcoordinate)
    && (a.xvelocity == b.xvelocity)
    && (a.yvelocity == b.yvelocity)
    && (a.zvelocity == b.zvelocity)
    && (a.start_time == b.start_time)
    && (a.end_time == b.end_time)

module _ (w : Wire) where
  abbrev pub get_serialized_size : ℕ
  get_serialized_size = w.sizeof_address + 6 * 4 + 2 * 8

  unfoldable pub serialize : GsGeoLocationHeader → List ℕ
  serialize h =
      w.write_address h.node
      ++ (w.write_u32 h.xcoordinate
          ++ (w.write_u32 h.ycoordinate
              ++ (w.write_u32 h.zcoordinate
                  ++ (w.write_u32 h.xvelocity
                      ++ (w.write_u32 h.yvelocity
                          ++ (w.write_u32 h.zvelocity
                              ++ (w.write_u64 h.start_time ++ w.write_u64 h.end_time)))))))

  unfoldable pub read_fields : Reader GsGeoLocationHeader
  read_fields = do
    node' ← w.read_address
    xcoordinate' ← w.read_u32
    ycoordinate' ← w.read_u32
    zcoordinate' ← w.read_u32
    xvelocity' ← w.read_u32
    yvelocity' ← w.read_u32
    zvelocity' ← w.read_u32
    start_time' ← w.read_u64
    end_time' ← w.read_u64
    pure (record {
      node = node';
      xcoordinate = xcoordinate';
      ycoordinate = ycoordinate';
      zcoordinate = zcoordinate';
      xvelocity = xvelocity';
      yvelocity = yvelocity';
      zvelocity = zvelocity';
      start_time = start_time';
      end_time = end_time';
    })

  unfoldable pub deserialize : Reader GsGeoLocationHeader
  unfolding read_fields
  deserialize = checked get_serialized_size read_fields

  module _ (laws : IsWire w) where
    read_fields-serialize :
        (h : GsGeoLocationHeader) (rest : List ℕ)
        → IsInRange h
        → read_fields (serialize h ++ rest) ≡ some (h, rest)
    unfolding read_fields serialize
    read_fields-serialize h rest r =
        simp (append_assoc, bind_address w laws, bind_u32 w laws, bind_u64 w laws) (ground arith)

    length-serialize : (h : GsGeoLocationHeader) → length (serialize h) ≡ get_serialized_size
    unfolding serialize
    length-serialize h = omega (
      arith,
      length-append {0},
      laws.length_address,
      laws.length_u32,
      laws.length_u64,
      laws.size_address,
    )

    -- `Serialize` writes as many bytes as `GetSerializedSize` says, and `Deserialize` of them,
    -- whatever follows, returns the header, if the fields are in the ranges of their types.
    pub deserialize-serialize_gs_geolocation :
        (h : GsGeoLocationHeader) (rest : List ℕ)
        → IsInRange h
        → (length (serialize h) ≡ get_serialized_size)
          × (deserialize (serialize h ++ rest) ≡ some (h, rest))
    unfolding deserialize
    deserialize-serialize_gs_geolocation h rest r = (
      length-serialize h,
      checked_ok get_serialized_size read_fields (serialize h) rest h (length-serialize h)
          (read_fields-serialize h rest r),
    )
