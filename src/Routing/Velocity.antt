-- ===== src/Routing/Velocity.antt =====
-- How `SendHello` of aerorp-routing-protocol.cc writes a velocity as three magnitudes and a sign
-- code, and how `RecvAERORP` reads it.
use saero_rp.Prelude.{ℕ, ◌≡◌, Bool, not, ◌&&◌, ◌||◌, arith, ◌==◌, if◌then◌else◌}
use saero_rp.Double.{Double, Vector}
use saero_rp.Packet.Hello.{HelloHeader}

module _ (d : Double) where
  open d use {F, literal, neg, mul, lt, le, of_u32, to_u32}

  -- `-1 * x`
  abbrev pub minus : F → F
  minus x = mul (neg (literal 1 0)) x

  abbrev is_neg : F → Bool
  is_neg x = lt x (literal 0 0)

  -- `x >= 0`
  abbrev is_pos : F → Bool
  is_pos x = le (literal 0 0) x

  -- The local variables VelocitySign and nodeVelocityX, nodeVelocityY, nodeVelocityZ.
  pub record Coded : Type 0 where
    pub sign : ℕ
    pub vx : ℕ
    pub vy : ℕ
    pub vz : ℕ

  unfoldable pub encode : Vector F → Coded
  encode v =
      let x = v.x in
      let y = v.y in
      let z = v.z in
      let zeros : Coded = record { sign = 0; vx = 0; vy = 0; vz = 0 } in
      let s1 : Coded =
        if is_neg x && (is_neg y && is_neg z)
        then record {
          sign = 1;
          vx = to_u32 (minus x);
          vy = to_u32 (minus y);
          vz = to_u32 (minus z);
        }
        else zeros in
      let s2 : Coded =
        if is_neg x && (is_neg y && is_pos z)
        then record { sign = 2; vx = to_u32 (minus x); vy = to_u32 (minus y); vz = to_u32 z }
        else s1 in
      let s3 : Coded =
        if is_neg x && (is_pos y && is_neg z)
        then record { sign = 3; vx = to_u32 (minus x); vy = to_u32 y; vz = to_u32 (minus z) }
        else s2 in
      let s4 : Coded =
        if is_pos x && (is_neg y && is_neg z)
        then record { sign = 4; vx = to_u32 x; vy = to_u32 (minus y); vz = to_u32 (minus z) }
        else s3 in
      let s5 : Coded =
        if is_neg x && (is_pos y && is_pos z)
        then record { sign = 5; vx = to_u32 (minus x); vy = to_u32 y; vz = to_u32 z }
        else s4 in
      let s6 : Coded =
        if is_pos x && (is_neg y && is_pos z)
        then record { sign = 6; vx = to_u32 x; vy = to_u32 (minus y); vz = to_u32 z }
        else s5 in
      let s7 : Coded =
        if is_pos x && (is_pos y && is_neg z)
        then record { sign = 7; vx = to_u32 x; vy = to_u32 y; vz = to_u32 (minus z) }
        else s6 in
      if is_neg x || (is_neg y || is_neg z)
      then s7
      else record { sign = 0; vx = to_u32 x; vy = to_u32 y; vz = to_u32 z }

  -- `unset` is what the three local variables hold if no case assigns them.
  unfoldable pub decode : Vector F → HelloHeader → Vector F
  decode unset h =
      let x = of_u32 h.origin_velx in
      let y = of_u32 h.origin_vely in
      let z = of_u32 h.origin_velz in
      if h.vel_sign == 0
      then record { x = x; y = y; z = z }
      else if h.vel_sign == 1
      then record { x = minus x; y = minus y; z = minus z }
      else if h.vel_sign == 2
      then record { x = minus x; y = minus y; z = z }
      else if h.vel_sign == 3
      then record { x = minus x; y = y; z = minus z }
      else if h.vel_sign == 4
      then record { x = x; y = minus y; z = minus z }
      else if h.vel_sign == 5
      then record { x = minus x; y = y; z = z }
      else if h.vel_sign == 6
      then record { x = x; y = minus y; z = z }
      else if h.vel_sign == 7
      then record { x = x; y = y; z = minus z }
      else unset

  -- The header that `SendHello` builds from a position and a velocity.
  unfoldable pub hello_header : Vector F → Vector F → HelloHeader
  unfolding encode
  hello_header position velocity =
      let c = encode velocity in
      record {
        origin_posx = to_u32 position.x;
        origin_posy = to_u32 position.y;
        origin_posz = to_u32 position.z;
        vel_sign = c.sign;
        origin_velx = c.vx;
        origin_vely = c.vy;
        origin_velz = c.vz;
      }

  -- The position that `RecvAERORP` takes from the header.
  unfoldable pub position_of : HelloHeader → Vector F
  position_of h = record {
    x = of_u32 h.origin_posx;
    y = of_u32 h.origin_posy;
    z = of_u32 h.origin_posz;
  }

  -- The magnitude of a number goes through `uint32_t`, its sign stays.
  abbrev pub truncate : F → F
  truncate x = if is_neg x then minus (of_u32 (to_u32 (minus x))) else of_u32 (to_u32 x)

  -- A velocity none of whose components is a NaN, so that `x >= 0` is the negation of `x < 0`, is
  -- read from the header that `SendHello` builds with each component's magnitude converted to
  -- `uint32_t` and back and its sign kept, and never from unset variables.
  pub decode-hello_header :
      (unset position velocity : Vector F)
      → is_pos velocity.x ≡ not (is_neg velocity.x)
      → is_pos velocity.y ≡ not (is_neg velocity.y)
      → is_pos velocity.z ≡ not (is_neg velocity.z)
      → decode unset (hello_header position velocity)
        ≡ record { x = truncate velocity.x; y = truncate velocity.y; z = truncate velocity.z }
  unfolding decode hello_header
  decode-hello_header unset p v hx hy hz = ground arith
