-- ===== src/Reception/Delivery.antt =====
-- A hello message from `SendHello`, in clear or encrypted by `RouteOutput`, at `RecvAERORP`.
use saero_rp.Prelude.{
  ℕ, ◌<◌, ◌^◌, ◌≡◌, ◌≢◌, ◌∙◌, true, false, not, ◌&&◌, some, [], ◌∷◌, ◌++◌, arith, take, drop,
  take-append, drop-append, append-nil,
}
use saero_rp.Double.{Double, Vector}
use saero_rp.StdMap.{IsOrdered}
use saero_rp.Wire.{IsWire, write_bytes-raw}
use saero_rp.Neighbor.{
  zero_address, get_position, get_velocity, get_entry_update_time, is_neighbour,
}
use saero_rp.Neighbor.Reads.{get-add_entry}
use saero_rp.Routing.Velocity.{
  encode, minus, hello_header, decode, position_of, truncate, decode-hello_header,
}
use saero_rp.Secure.{Message, iv_of, aad_of, secure}
use saero_rp.Secure.Undo.{
  hello-All, hello_bytes, sealed_hello, sealed_hello-IsInRange, secure_bytes-hello,
}
use saero_rp.Gcm.{IsEvp, dencryption, encryption}
use saero_rp.Node.{Env, Node}
use saero_rp.Packet.TypeTag.{hello, secure_hello}
use saero_rp.Packet.Hello.{HelloHeader, deserialize-serialize_hello}
use saero_rp.Packet.Hello
use saero_rp.Packet.SecureHello
use saero_rp.Packet.SecureHello.{deserialize-serialize_secure_hello}
use saero_rp.Reception.{
  recv, recv_type, recv_hello, recv_secure_hello, update_route_to_neighbor, is_unauth,
}
use saero_rp.Reception.Gate.{typed, recv-typed}

encode-IsSmall :
    (d : Double)
    → ((x : d.F) → d.to_u32 x < 2 ^ 32)
    → (v : Vector d.F)
    → let c = encode d v in (c.sign < 2 ^ 8) × (c.vx < 2 ^ 32) × (c.vy < 2 ^ 32) × (c.vz < 2 ^ 32)
unfolding encode
encode-IsSmall d fits v = (
  ground arith,
  ground (arith, fits v.x, fits (minus d v.x)),
  ground (arith, fits v.y, fits (minus d v.y)),
  ground (arith, fits v.z, fits (minus d v.z)),
)

-- The header that `SendHello` builds has fields of 32 bits.
pub hello_header-IsInRange :
    (d : Double)
    → ((x : d.F) → d.to_u32 x < 2 ^ 32)
    → (position velocity : Vector d.F) → Hello.IsInRange (hello_header d position velocity)
unfolding hello_header
hello_header-IsInRange d fits p v =
    let c = encode-IsSmall d fits v in
    record {
      posx = fits p.x;
      posy = fits p.y;
      posz = fits p.z;
      sign = c.0;
      velx = c.1;
      vely = c.2;
      velz = c.3;
    }

-- No component of the velocity is a NaN, so that `x >= 0` is the negation of `x < 0`.
abbrev pub IsNumber : (d : Double) → Vector d.F → Type 0
IsNumber d v =
    let number : d.F → Type 0 = λ x. d.le (d.literal 0 0) x ≡ not (d.lt x (d.literal 0 0)) in
    number v.x × number v.y × number v.z

module _ (env : Env) where
  open env use {host}
  open host use {double, end_neighbor}

  -- Neither the mode nor the status keeps the node from taking the message.
  abbrev pub Listens : Node env → Type 0
  Listens n = (is_unauth n.authentication_status && n.security_state) ≡ false

  -- What a node reads back of its neighbour after a hello message.
  abbrev pub Knows : Node env → ℕ → Vector double.F → Vector double.F → ℕ → Type 0
  Knows n sender p v now =
      let t = n.router.neighbors in
      let position : Vector double.F = record {
        x = double.of_u32 (double.to_u32 p.x);
        y = double.of_u32 (double.to_u32 p.y);
        z = double.of_u32 (double.to_u32 p.z);
      } in
      let velocity : Vector double.F = record {
        x = truncate double v.x;
        y = truncate double v.y;
        z = truncate double v.z;
      } in
      (get_position double end_neighbor t sender ≡ position)
      × (get_velocity double end_neighbor t sender ≡ velocity)
      × (get_entry_update_time end_neighbor t sender ≡ now)
      × (is_neighbour end_neighbor t sender ≡ true)

module _ (env : Env) (laws : IsWire env.wire) where
  open env use {wire, host, evp, platform}
  open host use {double, end_neighbor}

  pub recv-hello_bytes :
      (n : Node env) (sender uid now : ℕ) (h : HelloHeader)
      → Listens env n
      → Hello.IsInRange h
      → recv env n sender (record { uid = uid; bytes = hello_bytes wire laws h }) now
        ≡ some (recv_hello env n sender h now, [])
  unfolding recv_type
  recv-hello_bytes n sender uid now h listens r =
      let back = (deserialize-serialize_hello wire laws h [] r).1 in
      ground (
        arith,
        recv-typed env laws n sender uid now hello (Hello.serialize wire h),
        back,
        append-nil (Hello.serialize wire h),
      )

  module _ (trusted : IsEvp evp) (raw : (b : ℕ) → b < 2 ^ 8 → wire.write_u8 b ≡ b ∷ []) where
    -- The bytes behind the type header of an encrypted hello packet are decrypted to its hello
    -- header.
    recv_secure_hello-sealed :
        (n : Node env) (sender uid src dst now : ℕ) (h : HelloHeader)
        → n.aad_to_be_checked ≡ aad_of platform src dst
        → Hello.IsInRange h
        → recv_secure_hello env n sender uid
            (SecureHello.serialize wire (
              sealed_hello wire laws evp trusted n.shared_key
                (iv_of platform uid)
                (aad_of platform src dst)
                h))
            now
          ≡ some (recv_hello env n sender h now)
    unfolding recv_secure_hello dencryption encryption SecureHello.serialize
    recv_secure_hello-sealed n sender uid src dst now h aad r =
        let key = n.shared_key in
        let iv = iv_of platform uid in
        let data' = aad_of platform src dst in
        let s = sealed_hello wire laws evp trusted key iv data' h in
        let range = sealed_hello-IsInRange wire laws evp trusted key iv data' h r in
        let text = Hello.serialize wire h in
        let same : SecureHello.serialize wire s ≡ s.cipher ++ s.tag = ground (
          arith,
          write_bytes-raw wire raw s.cipher range.cipher_range.1,
          write_bytes-raw wire raw s.tag range.tag_range.1,
        ) in
        let read = (deserialize-serialize_secure_hello wire laws s [] range).1 in
        let back = (deserialize-serialize_hello wire laws h [] r).1 in
        let cipher : take 25 (s.cipher ++ s.tag) ≡ s.cipher =
          take-append 25 s.cipher s.tag range.cipher_range.0 in
        let tag : take 16 (drop 25 (s.cipher ++ s.tag)) ≡ s.tag = ground (
          arith,
          drop-append 25 s.cipher s.tag range.cipher_range.0,
          append-nil s.tag,
          take-append 16 s.tag [] range.tag_range.0,
        ) in
        ground (
          arith,
          same,
          read,
          append-nil (SecureHello.serialize wire s),
          cipher,
          tag,
          aad,
          trusted.decrypt_encrypt key iv data' text (hello-All wire laws h),
          trusted.accepts key iv data' text (hello-All wire laws h),
          back,
          append-nil text,
        )

    recv-secure :
        (n : Node env) (sender uid src dst assigned now : ℕ) (h : HelloHeader)
        → n.aad_to_be_checked ≡ aad_of platform src dst
        → Listens env n
        → Hello.IsInRange h
        → (m : Message) × (secure wire evp platform n.shared_key src dst assigned
              (record { uid = uid; bytes = hello_bytes wire laws h })
            ≡ some (m, false))
          × (recv env n sender m now ≡ some (recv_hello env n sender h now, []))
    unfolding secure recv_type
    recv-secure n sender uid src dst assigned now h aad listens r =
        let iv = iv_of platform uid in
        let data' = aad_of platform src dst in
        let s = sealed_hello wire laws evp trusted n.shared_key iv data' h in
        (
          typed env laws secure_hello uid (SecureHello.serialize wire s),
          ground (arith, secure_bytes-hello wire laws evp trusted n.shared_key iv data' h r),
          ground (
            arith,
            recv-typed env laws n sender uid now secure_hello (SecureHello.serialize wire s),
            recv_secure_hello-sealed n sender uid src dst now h aad r,
          ),
        )

    recv_hello-Knows :
        (n : Node env) (sender now : ℕ) (p v : Vector double.F)
        → IsOrdered n.router.neighbors.table
        → sender ≢ zero_address
        → IsNumber double v
        → Knows env (recv_hello env n sender (hello_header double p v) now) sender p v now
    unfolding recv_hello update_route_to_neighbor position_of hello_header
    recv_hello-Knows n sender now p v o h number =
        let velocity = decode-hello_header double env.unset p v number.0 number.1 number.2 in
        let reads =
          get-add_entry double end_neighbor n.router.neighbors sender
            (position_of double (hello_header double p v))
            (decode double env.unset (hello_header double p v)) now o h in
        (reads.0, reads.1 ∙ velocity, reads.2, reads.3)

    -- A hello packet of a position and a velocity, none of whose components is a NaN, arrives in
    -- clear and, if `RouteOutput` encrypts it from the address `src` to `dst` with the node's key,
    -- encrypted, with the same effect on a node that has these addresses as its additional data and
    -- is not in secure mode or is authenticated: the node sends no reply, and its neighbour table
    -- then gives, for the sender's address (not 0.0.0.0), the position converted to `uint32_t` and
    -- back, the velocity with each component's magnitude converted so and its sign kept, and the
    -- current time.
    pub secure_hello_arrives :
        ((x : double.F) → double.to_u32 x < 2 ^ 32)
        → (n : Node env) (sender uid src dst assigned now : ℕ) (p v : Vector double.F)
        → n.aad_to_be_checked ≡ aad_of platform src dst
        → Listens env n
        → IsOrdered n.router.neighbors.table
        → sender ≢ zero_address
        → IsNumber double v
        → (m : Message) × (n' : Node env) × (secure wire evp platform n.shared_key src dst assigned
              (record { uid = uid; bytes = hello_bytes wire laws (hello_header double p v) })
            ≡ some (m, false))
          × (recv env n sender
                (record { uid = uid; bytes = hello_bytes wire laws (hello_header double p v) })
                now
              ≡ some (n', []))
          × (recv env n sender m now ≡ some (n', []))
          × Knows env n' sender p v now
    secure_hello_arrives fits n sender uid src dst assigned now p v aad listens o h number =
        let hdr = hello_header double p v in
        let range = hello_header-IsInRange double fits p v in
        let (m, sealed, taken) =
          recv-secure n sender uid src dst assigned now hdr aad listens range in
        (
          m,
          recv_hello env n sender hdr now,
          sealed,
          recv-hello_bytes n sender uid now hdr listens range,
          taken,
          recv_hello-Knows n sender now p v o h number,
        )
