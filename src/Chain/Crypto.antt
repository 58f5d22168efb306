-- ===== src/Chain/Crypto.antt =====
-- crates/mamba-chain/src/crypto.rs: the key of the audit logs, and their encryption. The cipher, its
-- nonce and base64 are parameters.
use open_mamba.Base.{
  ℕ, String, Option, none, some, List, ◌++◌, eqb, length, unwrap_or, if◌then◌else◌, codes, utf8,
}
use open_mamba.Platform.{Platform, Reply, reply, error, ◌⧺◌}

pub record Encryptor : Type 0 where
  pub key : List ℕ

-- The message of the error of `hex::decode` on a text.
module _ (p : Platform) (hex_error : String → String) where
  abbrev pub key_of_bytes : String → Option (List ℕ) → Reply Encryptor
  key_of_bytes hex_key none = error (hex_error hex_key)
  key_of_bytes hex_key (some bytes) =
      if eqb (length bytes) 32
      then reply (record { key = bytes })
      else error "MAMBA_ENCRYPT_KEY must be 32 bytes (64 hex chars)"

  unfoldable pub from_hex_key : String → Reply Encryptor
  from_hex_key hex_key = key_of_bytes hex_key (p.hex_decode hex_key)

  -- The value of MAMBA_ENCRYPT_KEY, if it is set.
  unfoldable pub from_env : Option String → Reply Encryptor
  unfolding from_hex_key
  from_env key =
      from_hex_key
        (unwrap_or key "0000000000000000000000000000000000000000000000000000000000000001")

unfoldable pub hash : Platform → String → String
hash p payload = p.sha256_hex payload

-- `Aes256Gcm::encrypt` of a key, a nonce and a text in bytes, and `B64.encode`.
module _ (cipher : List ℕ → List ℕ → List ℕ → Reply (List ℕ))
    (base64_encode : List ℕ → String) where
  abbrev pub sealed_blob : List ℕ → Reply (List ℕ) → Reply String
  sealed_blob nonce (error e) = error ("encrypt failed: " ⧺ e)
  sealed_blob nonce (reply ciphertext) = reply (base64_encode (nonce ++ ciphertext))

  -- With the 12 bytes that `OsRng` fills.
  unfoldable pub encrypt : Encryptor → List ℕ → String → Reply String
  encrypt e nonce plaintext = sealed_blob nonce (cipher e.key nonce (utf8 (codes plaintext)))
