-- ===== src/Outbound/Shadowsocks/Cipher/Keys.antt =====
-- src/outbound/shadowsocks/cipher.rs: the keys that a password and a salt give.
use home_guard.Prelude.{
  ℕ, zero, suc, ◌+◌, ◌≤◌, ◌<◌, ◌≡◌, ◌∙◌, Bool-cases, some, [], ◌++◌, ltb, length, take, ltb→lt,
  ltb_false→le, length-append, length-take_le, inl, inr, arith, sym,
}
use home_guard.Prelude.Text.{Text}
use home_guard.Crates.Ring.{Ring}
use home_guard.Outbound.Shadowsocks.Cipher.{
  CipherMethod, key_size, AeadCipher, ss_subkey_info, aes_128_gcm, aes_256_gcm,
  chacha20_ietf_poly1305, extend_key, evp_bytes_to_key, new_cipher, algorithm, derive_subkey,
  session_key, new_encryptor, new_decryptor, tag_size,
}

module _ (R : Ring) where
  -- The fuel is enough when it is at least what the key lacks.
  extend_key_lem :
      (fuel : ℕ) (password : Text) (n : ℕ) (prev key : Text)
      → n ≤ length key + fuel
      → (out : Text) × (extend_key R fuel password n prev key ≡ some out) × (length out ≡ n)
  unfolding extend_key
  extend_key_lem zero password n prev key h = elim (Bool-cases (ltb (length key) n)) [
    | inl short ↦ absurd (omega (arith, ltb→lt (length key) n short))
    | inr long ↦ (take n key, rw (extend_key, long), length-take_le n key (omega arith))
  ]
  extend_key_lem (suc fuel) password n prev key h = elim (Bool-cases (ltb (length key) n)) [
    | inl short ↦
        (let hash = R.md5 (prev ++ password) in
          let (out, same, len) =
            extend_key_lem fuel password n hash (key ++ hash)
              (omega (arith, length-append key hash, R.md5_length (prev ++ password))) in
          (out, rw (extend_key, short, same), len))
    | inr long ↦
        (take n key, rw (extend_key, long), length-take_le n key (ltb_false→le (length key) n long))
  ]

  evp_bytes_to_key_lem :
      (password : Text) (n : ℕ)
      → (out : Text) × (evp_bytes_to_key R password n ≡ some out) × (length out ≡ n)
  unfolding evp_bytes_to_key
  evp_bytes_to_key_lem password n = extend_key_lem (suc n) password n [] [] (omega arith)

  key_len-algorithm : (m : CipherMethod) → R.key_len (algorithm R m) ≡ key_size m
  key_len-algorithm aes_128_gcm = R.key_len_aes_128
  key_len-algorithm aes_256_gcm = R.key_len_aes_256
  key_len-algorithm chacha20_ietf_poly1305 = R.key_len_chacha20

  key_size_small : (m : CipherMethod) → key_size m < 256
  key_size_small aes_128_gcm = omega arith
  key_size_small aes_256_gcm = omega arith
  key_size_small chacha20_ietf_poly1305 = omega arith

  pub session_key-some :
      (salt : Text) (c : AeadCipher R) → (k : R.Key) × (session_key R salt c ≡ some k)
  unfolding session_key derive_subkey
  session_key-some salt c =
      let (okm, made, len) =
        R.hkdf_some salt c.master_key ss_subkey_info (key_size c.method)
          (key_size_small c.method) in
      let (k, same) =
        R.new_key_some (algorithm R c.method) okm (len ∙ sym (key_len-algorithm c.method)) in
      (k, rw (made, same))

  -- Every password makes a cipher, with a key of the length that the method asks for, and every salt
  -- makes the cipher's two sessions without a panic: both have the same key and the counter 0.
  pub new_cipher-sessions :
      (m : CipherMethod) (password salt : Text)
      → (c : AeadCipher R) × (new_cipher R m password ≡ some c)
        × (length c.master_key ≡ key_size m)
        × (k : R.Key) × (new_encryptor R salt c
            ≡ some (record { key = k; nonce_counter = 0; tag_len = tag_size m }))
        × (new_decryptor R salt c
            ≡ some (record { key = k; nonce_counter = 0; tag_len = tag_size m }))
  unfolding new_cipher evp_bytes_to_key new_encryptor new_decryptor session_key
  new_cipher-sessions m password salt =
      let (key, made, len) = evp_bytes_to_key_lem password (key_size m) in
      let c : AeadCipher R = record { method = m; master_key = key } in
      let (k, same) = session_key-some salt c in
      (c, rw made, len, k, rw (new_encryptor, same), rw (new_decryptor, same))
