-- ===== src/Gcm.antt =====
-- The wrapper of OpenSSL's AES-256 in Galois/counter mode: gcm-converter.h and gcm-converter.cc.
use saero_rp.Prelude.{ℕ, zero, suc, ◌^◌, ◌<◌, ◌≡◌, List, length, All}
use saero_rp.Prelude.Int.{ℤ, pos, negsuc}
use saero_rp.Wire.{IsBytes}

-- The cipher, for a key, an initial vector and the data that is authenticated but not encrypted.
pub record Evp : Type 0 where
  -- The output of `EVP_EncryptUpdate`, and the tag that the context gives after it.
  pub encrypt_update : List ℕ → List ℕ → List ℕ → List ℕ → List ℕ
  pub get_tag : List ℕ → List ℕ → List ℕ → List ℕ → List ℕ
  -- The output of `EVP_DecryptUpdate` for a cipher text, and the result of `EVP_DecryptFinal_ex`
  -- after it for a tag.
  pub decrypt_update : List ℕ → List ℕ → List ℕ → List ℕ → List ℕ
  pub decrypt_final : List ℕ → List ℕ → List ℕ → List ℕ → List ℕ → ℤ

-- What is documented of it, for a text of bytes: under the same key, vector and additional data,
-- decryption undoes encryption and accepts the tag with the result 1. A cipher text is as long as
-- its plain text, and a tag has 16 bytes.
pub record IsEvp (e : Evp) : Type 0 where
  pub decrypt_encrypt :
      (key iv aad text : List ℕ)
      → All (λ b. b < 2 ^ 8) text
      → e.decrypt_update key iv aad (e.encrypt_update key iv aad text) ≡ text
  pub accepts :
      (key iv aad text : List ℕ)
      → All (λ b. b < 2 ^ 8) text
      → e.decrypt_final key iv aad (e.encrypt_update key iv aad text) (e.get_tag key iv aad text)
        ≡ pos 1
  pub cipher_bytes :
      (key iv aad text : List ℕ)
      → All (λ b. b < 2 ^ 8) text
      → IsBytes (length text) (e.encrypt_update key iv aad text)
  pub tag_bytes : (key iv aad text : List ℕ) → IsBytes 16 (e.get_tag key iv aad text)

module _ (e : Evp) where
  -- `Encryption`: the cipher text and the tag.
  unfoldable pub encryption : List ℕ → List ℕ → List ℕ → List ℕ → List ℕ × List ℕ
  encryption text aad key iv = (e.encrypt_update key iv aad text, e.get_tag key iv aad text)

  -- The result of `Dencryption`: that of the last call if it is positive, and -1 if not.
  abbrev pub positive_or_fail : ℤ → ℤ
  positive_or_fail (pos zero) = negsuc 0
  positive_or_fail (pos (suc n)) = pos (suc n)
  positive_or_fail (negsuc n) = negsuc 0

  -- `Dencryption`: its result, and the plain text.
  unfoldable pub dencryption : List ℕ → List ℕ → List ℕ → List ℕ → List ℕ → ℤ × List ℕ
  dencryption cipher aad tag key iv =
      (positive_or_fail (e.decrypt_final key iv aad cipher tag), e.decrypt_update key iv aad cipher)
