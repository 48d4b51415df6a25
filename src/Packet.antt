-- ===== src/Packet.antt =====
-- The headers of aerorp-packet.h and aerorp-packet.cc.
pub mod TypeTag
pub mod Hello
pub mod GsGeoLocation
pub mod GsTopology
pub mod AuthenticationRequest
pub mod AuthenticationReply
pub mod SecureHello
pub mod SecureGsGeoLocation
pub mod Messages
