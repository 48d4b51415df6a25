-- ===== src/Beacon.antt =====
-- What a node sends of itself: `SendHello` and `SendGroundStationPackets` of
-- aerorp-routing-protocol.cc, and the timers that call them.
pub mod Ground
pub mod Expiry
use saero_rp.Prelude.{
  ℕ, Bool, true, false, not, ◌&&◌, Option, none, some, List, [], ◌∷◌, ◌++◌, ◌==◌, if◌then◌else◌,
  map,
}
use saero_rp.Double.{Vector}
use saero_rp.Routing.Velocity.{hello_header}
use saero_rp.Authentication.{Request, generate_shared_key, send_authentication_request_packet}
use saero_rp.Node.{Env, Node, Interface, Status, unauth, auth}
use saero_rp.Packet.TypeTag
use saero_rp.Packet.TypeTag.{hello, gs_geolocation, new_type_header}
use saero_rp.Packet.Hello
use saero_rp.Packet.GsGeoLocation
use saero_rp.Packet.GsGeoLocation.{GsGeoLocationHeader}
use saero_rp.Lookup.{ground_station_address}

-- A packet handed to a socket: its destination and its bytes.
pub record Broadcast : Type 0 where
  pub destination : ℕ
  pub bytes : List ℕ

-- The all-hosts broadcast on a /32 address, the subnet's otherwise.
abbrev pub broadcast_of : Interface → ℕ
broadcast_of i = if i.mask == 4294967295 then 4294967295 else i.broadcast

-- What `m_godGroundStation` answers of a node's address.
pub record GroundStation (F : Type 0) : Type 0 where
  pub get_position : ℕ → Vector F
  pub get_velocity : ℕ → Vector F
  pub get_faulted_position : ℕ → Vector F
  pub get_faulted_velocity : ℕ → Vector F

-- The delays with which the timers run, if they run.
pub record Timers : Type 0 where
  pub hello_interval : Option ℕ
  pub gs : Option ℕ
  pub authentication : Option ℕ

-- The random delays of a call: FIRST_JITTER, FIRSTAUTH_JITTER, `HelloInterval + JITTER` and
-- `GSInterval + JITTER`.
pub record Delays : Type 0 where
  pub first : ℕ
  pub first_auth : ℕ
  pub hello : ℕ
  pub gs : ℕ

-- What `AuthenticationIntialize` obtains.
pub record Credentials (env : Env) : Type 0 where
  pub random_no : ℕ
  pub certificate : List ℕ
  pub key_pair : env.crypto.KeyPair

module _ (env : Env) where
  open env use {host, wire}
  open host use {double}

  abbrev pub hello_packet : Vector double.F → Vector double.F → List ℕ
  hello_packet position velocity =
      TypeTag.serialize wire (new_type_header hello)
      ++ Hello.serialize wire (hello_header double position velocity)

  -- `SendHello`: a packet on each socket.
  unfoldable pub send_hello : Node env → Vector double.F → Vector double.F → List Broadcast
  send_hello n position velocity =
      map (λ i. record { destination = broadcast_of i; bytes = hello_packet position velocity })
        n.sockets

  abbrev pub gs_header : ℕ → Vector double.F → Vector double.F → GsGeoLocationHeader
  gs_header node position velocity = record {
    node = node;
    xcoordinate = double.to_u32 position.x;
    ycoordinate = double.to_u32 position.y;
    zcoordinate = double.to_u32 position.z;
    xvelocity = double.to_u32 velocity.x;
    yvelocity = double.to_u32 velocity.y;
    zvelocity = double.to_u32 velocity.z;
    start_time = 0;
    end_time = 0;
  }

  abbrev pub gs_packet : ℕ → Vector double.F → Vector double.F → List ℕ
  gs_packet node position velocity =
      TypeTag.serialize wire (new_type_header gs_geolocation)
      ++ GsGeoLocation.serialize wire (gs_header node position velocity)

  -- `SendGroundStationPackets`, for the addresses of all nodes: a packet on each socket for each
  -- address.
  unfoldable pub send_ground_station_packets :
      Node env → Bool → GroundStation double.F → List ℕ → List Broadcast
  send_ground_station_packets n attack g [] = []
  send_ground_station_packets n attack g (node ∷ nodes) =
      let position = if attack then g.get_faulted_position node else g.get_position node in
      let velocity = if attack then g.get_faulted_velocity node else g.get_velocity node in
      map (λ i. record { destination = broadcast_of i; bytes = gs_packet node position velocity })
        n.sockets
      ++ send_ground_station_packets n attack g nodes

  -- `AuthenticationIntialize`
  unfoldable pub authentication_intialize : Node env → Credentials env → Node env
  authentication_intialize n c = record n {
    certificate = c.certificate;
    key_pair = c.key_pair;
    my_random_no = c.random_no;
    authentication_status = unauth;
  }

  -- `Start`
  unfoldable pub start : Node env → Timers → Bool → Credentials env → Delays → Node env × Timers
  unfolding authentication_intialize
  start n t is_ground_station c delays =
      let n1 = if n.security_state then authentication_intialize n c else n in
      let n2 : Node env =
        if n.security_state && is_ground_station
        then record n1 { shared_key = generate_shared_key 32; authentication_status = auth }
        else n1 in
      let t1 : Timers =
        if n.security_state && not is_ground_station
        then elim n1.authentication_status [
          | unauth ↦ record t { authentication = some delays.first_auth }
          | auth ↦ record t { authentication = none; hello_interval = some delays.first }
        ]
        else t in
      let t2 : Timers =
        if is_ground_station
        then record t1 { gs = some delays.first }
        else record t1 { hello_interval = some delays.first } in
      (record n2 { router = record n2.router { queued_addresses = [] } }, t2)

  -- `HelloTimerExpire`, when the timer does not run.
  unfoldable pub hello_timer_expire :
      Node env → Timers → Vector double.F → Vector double.F → Delays → Timers × List Broadcast
  unfolding send_hello
  hello_timer_expire n t position velocity delays =
      let again : Timers = record t { hello_interval = some delays.hello } in
      let sent = send_hello n position velocity in
      if n.security_state
      then elim n.authentication_status [ auth ↦ (again, sent) | unauth ↦ (again, []) ]
      else (again, sent)

  -- `GSTimerExpire`
  unfoldable pub gs_timer_expire :
      Node env → Timers → Bool → GroundStation double.F → List ℕ → Delays → Timers × List Broadcast
  gs_timer_expire n t attack g nodes delays =
      (record t { gs = some delays.gs }, send_ground_station_packets n attack g nodes)

  -- `AuthenticationTimerExpire`: the requests go to the ground station, and the timer stops.
  unfoldable pub authentication_timer_expire : Node env → Timers → ℕ → Timers × List Request
  authentication_timer_expire n t now = (
    record t { authentication = none },
    send_authentication_request_packet env n ground_station_address now,
  )
