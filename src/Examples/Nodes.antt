-- ===== src/Examples/Nodes.antt =====
-- A node with an identity cipher and with keys that pad a text: values for the parameters of the
-- protocol.
use saero_rp.Prelude.{
  ℕ, ◌%◌, ◌^◌, ◌<◌, ◌≡◌, refl, true, List, [], ◌∷◌, ◌++◌, arith, take, take-append, length-append,
  append-All, subst, sym,
}
use saero_rp.Prelude.Int.{ℤ, pos}
use saero_rp.Double.{Double, IsOrderedDouble}
use saero_rp.Wire.{IsBytes}
use saero_rp.Wire.LittleEndian.{little_endian}
use saero_rp.Routing.{Host}
use saero_rp.Gcm.{Evp, IsEvp}
use saero_rp.Node.{Env, Node, Crypto, Status, auth}
use saero_rp.Authentication.Handshake.{IsCertified}
use saero_rp.Examples.Numbers.{ints, ints-IsOrderedDouble, point, distance, magnitude}
use saero_rp.Examples.Routes.{router}
use saero_rp.Examples.Headers.{filler, filler-IsBytes}

abbrev pub evp : Evp
evp = record {
  encrypt_update = λ key iv aad text. text;
  get_tag = λ key iv aad text. filler 16;
  decrypt_update = λ key iv aad cipher. cipher;
  decrypt_final = λ key iv aad cipher tag. pos 1;
}

pub evp-IsEvp : IsEvp evp
evp-IsEvp = record {
  decrypt_encrypt = λ key iv aad text h. refl;
  accepts = λ key iv aad text h. refl;
  cipher_bytes = λ key iv aad text h. (refl, h);
  tag_bytes = λ key iv aad text. filler-IsBytes 16;
}

-- Every certificate is good.
abbrev crypto : Crypto
crypto = record {
  Cert = List ℕ;
  PublicKey = List ℕ;
  KeyPair = List ℕ;
  decode_cert = λ bytes. bytes;
  public_key = λ cert. cert;
  verify_cert = λ cert. true;
  sign_data = λ key data'. filler 256;
  verify_sign = λ key data' sign. true;
  public_encrypt = λ key text. text ++ filler 224;
  private_decrypt = λ key cipher buffer. take 32 cipher;
}

-- Integers whose conversion to `uint32_t` wraps around.
abbrev pub words : Double
words = record ints { to_u32 = λ a. magnitude a % 2 ^ 32 }

pub words-IsOrderedDouble : IsOrderedDouble words
words-IsOrderedDouble = record {
  lt_irrefl = ints-IsOrderedDouble.lt_irrefl;
  lt_trans = ints-IsOrderedDouble.lt_trans;
}

abbrev host : Host
host = record {
  double = words;
  distance = distance;
  end_neighbor = λ m. (1, (record { position = point 0 0 0; velocity = point 0 0 0 }, 0));
  end_position = λ m. (1, (point 0 0 0, 0));
}

abbrev pub env : Env
env = record {
  host = host;
  wire = little_endian;
  evp = evp;
  platform = record {
    address_bytes = little_endian.write_address;
    u32_bytes = little_endian.write_u32;
    u64_bytes = little_endian.write_u64;
  };
  crypto = crypto;
  unset = point 0 0 0;
}

pub small : (x : ℤ) → words.to_u32 x < 2 ^ 32
small x = omega arith

-- A node in secure mode with one socket, at the address 4.
abbrev pub node : Status → Node env
node status = record {
  router = router;
  node_id = 5;
  security_state = true;
  authentication_status = status;
  my_random_no = 77;
  shared_key = filler 32;
  certificate = filler 727;
  key_pair = [];
  aad_to_be_checked = little_endian.write_address 4 ++ little_endian.write_address 255;
  auth_sockets = 6 ∷ [];
  sockets = record { local = 4; mask = 4294967040; broadcast = 255; device = 1 } ∷ [];
}

abbrev pub station : Node env
station = record (node auth) { node_id = 0; my_random_no = 78 }

-- What the keys do for a node with that certificate.
pub node-IsCertified :
    (n : Node env) → n.certificate ≡ filler 727 → n.my_random_no < 2 ^ 32 → IsCertified env n
node-IsCertified n cert small_no =
    let long : (text : List ℕ) → IsBytes 32 text → IsBytes 256 (text ++ filler 224) = λ text h. (
      omega (arith, h.0, length-append text (filler 224), (filler-IsBytes 224).0),
      append-All (λ b. b < 2 ^ 8) text (filler 224) h.1 (filler-IsBytes 224).1,
    ) in
    record {
      certified = refl;
      signed = λ text. refl;
      decrypted = λ text buffer h size. take-append 32 text (filler 224) h.0;
      encrypted_range = long;
      certificate_range = subst (λ bytes. IsBytes 727 bytes) (sym cert) (filler-IsBytes 727);
      sign_range = λ text. filler-IsBytes 256;
      random_range = small_no;
    }
