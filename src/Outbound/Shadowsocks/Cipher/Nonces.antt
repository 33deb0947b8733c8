-- ===== src/Outbound/Shadowsocks/Cipher/Nonces.antt =====
-- src/outbound/shadowsocks/cipher.rs: the nonces of a session.
use home_guard.Prelude.{
  ℕ, ◌+◌, ◌%◌, ◌^◌, ◌<◌, ◌≡◌, ◌≢◌, ◌∙◌, Option, some, List, [], ◌∷◌, length, take, arith, ap, sym,
  refl, ◌==◌, ◌>>=◌, >>=-eq-some, Bool-cases, inl, inr, nat_eq,
}
use home_guard.Prelude.Text.{Text}
use home_guard.Prelude.BigEndian.{le_bytes, from_le, from_le-le_bytes}
use home_guard.Crates.Ring.{Ring}
use home_guard.Outbound.Shadowsocks.Cipher.{
  AeadEncryptor, nonce_bytes, next_counter, encrypt, next_nonce,
}

le_bytes-prefix : (v : ℕ) → take 8 (nonce_bytes v) ≡ le_bytes 8 v
unfolding nonce_bytes le_bytes
le_bytes-prefix v = refl

nonce_bytes_injective : (i j : ℕ) → i < 2 ^ 64 → j < 2 ^ 64 → nonce_bytes i ≡ nonce_bytes j → i ≡ j
nonce_bytes_injective i j hi hj same =
    sym (from_le-le_bytes 8 i hi)
    ∙ ap from_le (sym (le_bytes-prefix i) ∙ ap (take 8) same ∙ le_bytes-prefix j)
    ∙ from_le-le_bytes 8 j hj

module _ (R : Ring) where
  -- The texts sealed in turn.
  unfoldable pub encrypt_all : List Text → AeadEncryptor R → Option (List Text × AeadEncryptor R)
  unfolding encrypt
  encrypt_all [] e = some ([], e)
  encrypt_all (plain ∷ rest) e = encrypt R plain e >>= λ (sealed, e').
      encrypt_all rest e' >>= λ (more, e''). some (sealed ∷ more, e'')

  encrypt-counter :
      (plain sealed : Text) (e e' : AeadEncryptor R)
      → encrypt R plain e ≡ some (sealed, e')
      → e'.nonce_counter ≡ next_counter e.nonce_counter
  unfolding encrypt next_nonce
  encrypt-counter plain sealed e e' h =
      let ((c, tag), made, rest) =
        >>=-eq-some (R.seal e.key (nonce_bytes e.nonce_counter) plain) _ h in
      elim (Bool-cases (length tag == e.tag_len)) [
        | inl fits ↦ cc (rw fits at rest)
        | inr other ↦ cc (rw other at rest)
      ]

  encrypt_all-counter :
      (plains out : List Text) (e e' : AeadEncryptor R)
      → encrypt_all plains e ≡ some (out, e')
      → e.nonce_counter < 2 ^ 64
      → e'.nonce_counter ≡ (e.nonce_counter + length plains) % 2 ^ 64
  unfolding encrypt_all
  encrypt_all-counter [] out e e' h small =
      let same : e ≡ e' = cc h in ap (λ s. s.nonce_counter) (sym same) ∙ omega arith
  encrypt_all-counter (plain ∷ rest) out e e' h small =
      let ((sealed, e1), made, h1) = >>=-eq-some (encrypt R plain e) _ h in
      let ((more, e2), again, h2) = >>=-eq-some (encrypt_all rest e1) _ h1 in
      let same : e2 ≡ e' = cc h2 in
      let step = encrypt-counter plain sealed e e1 made in
      let steps = encrypt_all-counter rest more e1 e2 again (omega arith) in
      ap (λ s. s.nonce_counter) (sym same) ∙ omega arith

  -- When at least one text and fewer than 2 ^ 64 texts have been sealed, the nonce that comes next
  -- is not the one the first of them was sealed with: a session does not use a nonce twice.
  pub encrypt_all-fresh :
      (plains out : List Text) (e e' : AeadEncryptor R)
      → encrypt_all plains e ≡ some (out, e')
      → e.nonce_counter < 2 ^ 64
      → 0 < length plains
      → length plains < 2 ^ 64
      → (next_nonce R e').0 ≢ (next_nonce R e).0
  unfolding next_nonce
  encrypt_all-fresh plains out e e' h small some_text few same =
      let last = encrypt_all-counter plains out e e' h small in
      let equal = nonce_bytes_injective e'.nonce_counter e.nonce_counter (omega arith) small same in
      omega arith
