-- ===== src/Outbound/Shadowsocks/Cipher.antt =====
-- src/outbound/shadowsocks/cipher.rs: the methods, the keys and the sessions that encrypt and decrypt.
-- `none` stands for a panic; the counter of nonces is 64 bits wide and wraps around.
pub mod Keys
pub mod Nonces
pub mod Sealing
use home_guard.Prelude.{
  ℕ, zero, suc, ◌+◌, ◌-◌, ◌%◌, ◌^◌, Bool, true, false, ◌||◌, Option, none, some, List, [], ◌∷◌,
  ◌++◌, if◌then◌else◌, ◌==◌, nat_eq, list_eq, ltb, length, take, ◌>>=◌,
}
use home_guard.Prelude.Text.{Text, bytes, to_lowercase}
use home_guard.Prelude.BigEndian.{le_bytes, be_bytes}
use home_guard.Crates.Ring.{Ring}

pub data CipherMethod : Type 0 where
  aes_128_gcm aes_256_gcm chacha20_ietf_poly1305 : CipherMethod

-- `CipherMethod::from_str`
unfoldable pub method_of : Text → Option CipherMethod
method_of s =
    let name = to_lowercase s in
    if name == bytes "aes-128-gcm"
    then some aes_128_gcm
    else if name == bytes "aes-256-gcm"
    then some aes_256_gcm
    else if (name == bytes "chacha20-ietf-poly1305") || (name == bytes "chacha20-poly1305")
    then some chacha20_ietf_poly1305
    else none

abbrev pub key_size : CipherMethod → ℕ
key_size aes_128_gcm = 16
key_size aes_256_gcm = 32
key_size chacha20_ietf_poly1305 = 32

abbrev pub salt_size : CipherMethod → ℕ
salt_size m = key_size m

abbrev pub nonce_size : CipherMethod → ℕ
nonce_size m = 12

abbrev pub tag_size : CipherMethod → ℕ
tag_size m = 16

abbrev pub ss_subkey_info : Text
ss_subkey_info = bytes "ss-subkey"

-- The twelve bytes of a nonce.
unfoldable pub nonce_bytes : ℕ → Text
nonce_bytes counter = le_bytes 8 counter ++ 0 ∷ 0 ∷ 0 ∷ 0 ∷ []

abbrev pub next_counter : ℕ → ℕ
next_counter counter = (counter + 1) % 2 ^ 64

module _ (R : Ring) where
  abbrev pub algorithm : CipherMethod → R.Algorithm
  algorithm aes_128_gcm = R.aes_128_gcm
  algorithm aes_256_gcm = R.aes_256_gcm
  algorithm chacha20_ietf_poly1305 = R.chacha20_poly1305

  -- The loop of `evp_bytes_to_key`, on fuel.
  unfoldable pub extend_key : ℕ → Text → ℕ → Text → Text → Option Text
  extend_key zero password key_len prev key =
      if ltb (length key) key_len then none else some (take key_len key)
  extend_key (suc fuel) password key_len prev key =
      let hash = R.md5 (prev ++ password) in
      let rest = extend_key fuel password key_len hash (key ++ hash) in
      if ltb (length key) key_len then rest else some (take key_len key)

  unfoldable pub evp_bytes_to_key : Text → ℕ → Option Text
  unfolding extend_key
  evp_bytes_to_key password key_len = extend_key (suc key_len) password key_len [] []

  pub record AeadCipher : Type 0 where
    pub method : CipherMethod
    pub master_key : Text

  unfoldable pub new_cipher : CipherMethod → Text → Option AeadCipher
  unfolding evp_bytes_to_key
  new_cipher m password = evp_bytes_to_key password (key_size m) >>= λ key.
      some (record { method = m; master_key = key })

  unfoldable pub derive_subkey : Text → AeadCipher → Option Text
  derive_subkey salt c = R.hkdf salt c.master_key ss_subkey_info (key_size c.method)

  pub record AeadEncryptor : Type 0 where
    pub key : R.Key
    pub nonce_counter : ℕ
    pub tag_len : ℕ

  pub record AeadDecryptor : Type 0 where
    pub key : R.Key
    pub nonce_counter : ℕ
    pub tag_len : ℕ

  -- The key of a session.
  unfoldable pub session_key : Text → AeadCipher → Option R.Key
  unfolding derive_subkey
  session_key salt c = derive_subkey salt c >>= λ subkey. R.new_key (algorithm c.method) subkey

  unfoldable pub new_encryptor : Text → AeadCipher → Option AeadEncryptor
  unfolding session_key
  new_encryptor salt c = session_key salt c >>= λ k.
      some (record { key = k; nonce_counter = 0; tag_len = tag_size c.method })

  unfoldable pub new_decryptor : Text → AeadCipher → Option AeadDecryptor
  unfolding session_key
  new_decryptor salt c = session_key salt c >>= λ k.
      some (record { key = k; nonce_counter = 0; tag_len = tag_size c.method })

  -- `next_nonce`
  unfoldable pub next_nonce : AeadEncryptor → Text × AeadEncryptor
  unfolding nonce_bytes
  next_nonce e =
      (nonce_bytes e.nonce_counter, record e { nonce_counter = next_counter e.nonce_counter })

  -- `copy_from_slice` of the tag panics unless it has the length that was reserved for it.
  unfoldable pub encrypt : Text → AeadEncryptor → Option (Text × AeadEncryptor)
  unfolding next_nonce
  encrypt plain e =
      let (nonce, e') = next_nonce e in
      R.seal e.key nonce plain >>= λ (c, tag).
      if length tag == e.tag_len then some (c ++ tag, e') else none

  -- The length is cut to 16 bits.
  unfoldable pub encrypt_payload : Text → AeadEncryptor → Option (Text × AeadEncryptor)
  unfolding encrypt
  encrypt_payload payload e = encrypt (be_bytes 2 (length payload % 2 ^ 16)) e >>= λ (head, e').
      encrypt payload e' >>= λ (body, e''). some (head ++ body, e'')

  -- The plaintext, or none for an error, and the session.
  unfoldable pub decrypt : Text → AeadDecryptor → Option Text × AeadDecryptor
  unfolding nonce_bytes
  decrypt sealed d = if ltb (length sealed) d.tag_len then (none, d) else (
    R.open_sealed d.key (nonce_bytes d.nonce_counter) sealed,
    record d { nonce_counter = next_counter d.nonce_counter },
  )
