-- ===== src/Node.antt =====
-- The state of a routing protocol with its authentication: aerorp-routing-protocol.h, and what the
-- protocol takes from OpenSSL and from the platform.
use saero_rp.Prelude.{ℕ, Bool, List}
use saero_rp.Double.{Vector}
use saero_rp.Wire.{Wire}
use saero_rp.Gcm.{Evp}
use saero_rp.Secure.{Platform}
use saero_rp.Routing.{Host, Router}

-- OpenSSL's certificates and RSA keys.
pub record Crypto : Type 1 where
  pub Cert : Type 0
  pub PublicKey : Type 0
  pub KeyPair : Type 0
  -- `d2i_X509`, `X509_get_pubkey`, and the store with the authority's certificate.
  pub decode_cert : List ℕ → Cert
  pub public_key : Cert → PublicKey
  pub verify_cert : Cert → Bool
  -- The digest signatures: whether a signature of some data is that of the key.
  pub sign_data : KeyPair → List ℕ → List ℕ
  pub verify_sign : PublicKey → List ℕ → List ℕ → Bool
  -- `RSA_public_encrypt`, and `RSA_private_decrypt` into a buffer, whose content is the last
  -- argument.
  pub public_encrypt : PublicKey → List ℕ → List ℕ
  pub private_decrypt : KeyPair → List ℕ → List ℕ → List ℕ

-- What the protocol does not implement, and what the velocity's variables hold if nothing is
-- assigned to them.
pub record Env : Type 1 where
  pub host : Host
  pub wire : Wire
  pub evp : Evp
  pub platform : Platform
  pub crypto : Crypto
  pub unset : Vector host.double.F

-- `STATE`
pub data Status : Type 0 where
  unauth auth : Status

-- `Ipv4InterfaceAddress` with the device of its interface.
pub record Interface : Type 0 where
  pub local : ℕ
  pub mask : ℕ
  pub broadcast : ℕ
  pub device : ℕ

-- `certificate` is the encoded `m_myCert`, and `auth_sockets` are the local addresses of
-- `m_authSocketAddresses`; `sockets` are the addresses of `m_socketAddresses`, in the map's order.
pub record Node (env : Env) : Type 0 where
  pub router : Router env.host.double.F
  pub node_id : ℕ
  pub security_state : Bool
  pub authentication_status : Status
  pub my_random_no : ℕ
  pub shared_key : List ℕ
  pub certificate : List ℕ
  pub key_pair : env.crypto.KeyPair
  pub aad_to_be_checked : List ℕ
  pub auth_sockets : List ℕ
  pub sockets : List Interface
