-- ===== src/Crates/Ring.antt =====
-- The crates `ring` and `md-5`: authenticated encryption, key derivation and a hash, with what the
-- code relies on of them. A key of the right length makes a key, what is sealed opens under the same
-- key and nonce, and the lengths are those of the documentation.
use home_guard.Prelude.{ℕ, ◌^◌, ◌<◌, ◌≡◌, Option, some, ◌++◌, length}
use home_guard.Prelude.Text.{Text}

pub record Ring : Type 1 where
  pub Algorithm : Type 0
  pub aes_128_gcm : Algorithm
  pub aes_256_gcm : Algorithm
  pub chacha20_poly1305 : Algorithm
  pub key_len : Algorithm → ℕ
  pub Key : Type 0
  -- `LessSafeKey::new(UnboundKey::new(algorithm, bytes)?)`
  pub new_key : Algorithm → Text → Option Key
  -- The ciphertext and the tag of `seal_in_place_separate_tag`, without additional data.
  pub seal : Key → Text → Text → Option (Text × Text)
  -- `open_in_place` on the ciphertext with its tag.
  pub open_sealed : Key → Text → Text → Option Text
  -- HKDF with SHA-1, of a salt, a secret, the info string and a length.
  pub hkdf : Text → Text → Text → ℕ → Option Text
  pub md5 : Text → Text
  pub key_len_aes_128 : key_len aes_128_gcm ≡ 16
  pub key_len_aes_256 : key_len aes_256_gcm ≡ 32
  pub key_len_chacha20 : key_len chacha20_poly1305 ≡ 32
  pub new_key_some :
      (a : Algorithm) (bytes : Text)
      → length bytes ≡ key_len a
      → (k : Key) × (new_key a bytes ≡ some k)
  pub seal_some :
      (k : Key) (nonce plain : Text)
      → length plain < 2 ^ 32
      → (c : Text) × (tag : Text) × (seal k nonce plain ≡ some (c, tag))
  pub seal_length :
      (k : Key) (nonce plain c tag : Text)
      → seal k nonce plain ≡ some (c, tag)
      → (length c ≡ length plain) × (length tag ≡ 16)
  pub open_sealed-seal :
      (k : Key) (nonce plain c tag : Text)
      → seal k nonce plain ≡ some (c, tag)
      → open_sealed k nonce (c ++ tag) ≡ some plain
  pub hkdf_some :
      (salt secret info : Text) (n : ℕ)
      → n < 256
      → (okm : Text) × (hkdf salt secret info n ≡ some okm) × (length okm ≡ n)
  pub md5_length : (s : Text) → length (md5 s) ≡ 16
