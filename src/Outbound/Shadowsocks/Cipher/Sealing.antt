-- ===== src/Outbound/Shadowsocks/Cipher/Sealing.antt =====
-- src/outbound/shadowsocks/cipher.rs: what one session seals, the session of the other side opens.
use home_guard.Prelude.{
  ◌+◌, ◌^◌, ◌<◌, ◌≡◌, ◌∙◌, some, ◌++◌, ltb, length, length-append, le→ltb_false, arith, true, false,
  ap, sym, >>=-eq-some, ◌==◌, nat_eq, beq_refl,
}
use home_guard.Prelude.Text.{Text}
use home_guard.Crates.Ring.{Ring}
use home_guard.Outbound.Shadowsocks.Cipher.{
  AeadCipher, session_key, new_encryptor, new_decryptor, AeadEncryptor, AeadDecryptor, encrypt,
  decrypt, next_nonce, nonce_bytes, next_counter,
}

module _ (R : Ring) where
  -- The session of the other side: the same key and the same counter.
  abbrev pub peer : AeadEncryptor R → AeadDecryptor R
  peer e = record { key = e.key; nonce_counter = e.nonce_counter; tag_len = e.tag_len }

  -- The two sessions of a salt are in step.
  pub new_decryptor-peer :
      (salt : Text) (c : AeadCipher R) (e : AeadEncryptor R)
      → new_encryptor R salt c ≡ some e
      → (new_decryptor R salt c ≡ some (peer e)) × (e.tag_len ≡ 16)
  unfolding new_encryptor new_decryptor
  new_decryptor-peer salt c e h =
      let (k, keyed, made) = >>=-eq-some (session_key R salt c) _ h in
      let same : record { key = k; nonce_counter = 0; tag_len = 16 } ≡ e = cc made in
      (rw (new_decryptor, keyed) (ap (λ t. some (peer t)) same), ap (λ t. t.tag_len) (sym same))

  -- A text that is not too long is sealed, into 16 bytes more than it has, and the session of the
  -- other side opens it to the same text and stays in step.
  pub decrypt-encrypt :
      (plain : Text) (e : AeadEncryptor R)
      → e.tag_len ≡ 16
      → length plain < 2 ^ 32
      → (sealed : Text) × (e' : AeadEncryptor R) × (encrypt R plain e ≡ some (sealed, e'))
        × (length sealed ≡ length plain + 16)
        × (decrypt R sealed (peer e) ≡ (some plain, peer e'))
        × (e'.tag_len ≡ 16)
  unfolding encrypt decrypt next_nonce
  decrypt-encrypt plain e reserved short =
      let (c, tag, made) = R.seal_some e.key (nonce_bytes e.nonce_counter) plain short in
      let (same, tag16) = R.seal_length e.key (nonce_bytes e.nonce_counter) plain c tag made in
      let opened = R.open_sealed-seal e.key (nonce_bytes e.nonce_counter) plain c tag made in
      let fits : (length tag == e.tag_len) ≡ true =
        ap (λ n. n == e.tag_len) (tag16 ∙ sym reserved) ∙ beq_refl e.tag_len in
      let long : length (c ++ tag) ≡ length plain + 16 = omega (arith, length-append c tag) in
      let enough : ltb (length (c ++ tag)) e.tag_len ≡ false =
        le→ltb_false (length (c ++ tag)) e.tag_len (omega arith) in
      (
        c ++ tag,
        record e { nonce_counter = next_counter e.nonce_counter },
        rw (encrypt, made, fits),
        long,
        rw (decrypt, enough, opened),
        reserved,
      )
