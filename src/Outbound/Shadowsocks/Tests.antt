-- ===== src/Outbound/Shadowsocks/Tests.antt =====
-- The theorems on the cipher and the stream, at inputs.
use home_guard.Prelude.{◌≡◌, ◌≢◌, length, refl, some, [], ◌∷◌, ◌++◌, arith}
use home_guard.Prelude.Text.{Text, bytes}
use home_guard.Prelude.BigEndian.{le_bytes, from_le, be_bytes, from_be}
use home_guard.Outbound.Shadowsocks.Cipher.{
  AeadCipher, AeadEncryptor, aes_256_gcm, evp_bytes_to_key, extend_key, encrypt, encrypt_payload,
  nonce_bytes, decrypt, next_nonce, session_key, derive_subkey, new_cipher, new_encryptor,
  new_decryptor,
}
use home_guard.Outbound.Shadowsocks.Cipher.Nonces.{encrypt_all, encrypt_all-fresh}
use home_guard.Outbound.Shadowsocks.Cipher.Keys.{new_cipher-sessions}
use home_guard.Outbound.Shadowsocks.Stream.{
  ShadowsocksStream, read_exact, open_with, init_decryptor, read_chunk, read, write_all, err,
  invalid_data, chunks, chunks_within, encrypt_chunks,
}
use home_guard.Outbound.Shadowsocks.Stream.Queue.{Refines, Takes, read-Refines}
use home_guard.Outbound.Shadowsocks.Cipher.Sealing.{peer}
use home_guard.Outbound.Shadowsocks.Stream.Session.{read_all, read_all-write_all}
use home_guard.Outbound.Shadowsocks.Sample.{
  ring, cipher, salt, session, server, client, pad, length-pad, open_box, take_key,
}

program : Unit {0}
unfolding new_encryptor new_decryptor session_key derive_subkey pad open_box take_key
    encrypt_payload encrypt next_nonce nonce_bytes le_bytes be_bytes from_be from_le decrypt
    encrypt_chunks chunks chunks_within write_all read read_chunk init_decryptor read_exact
    open_with read_all extend_key evp_bytes_to_key new_cipher encrypt_all
program = tt

keyed : new_encryptor ring salt cipher ≡ some session
unfolding program
keyed = refl

read_all-write_all_example :
    (server' : ShadowsocksStream ring) × (write_all ring (bytes "hello") server ≡ some server')
    × (read_all ring 6 3 (record client { inbox = server'.outbox }) ≡ some (bytes "hello"))
read_all-write_all_example =
    read_all-write_all ring 3 (bytes "hello") server client (omega arith)
      (length-pad 32 (bytes "a salt")) keyed refl refl

new_cipher-sessions_example :
    (c : AeadCipher ring) × (new_cipher ring aes_256_gcm (bytes "a password") ≡ some c)
    × (length c.master_key ≡ 32)
    × (k : Text) × (new_encryptor ring salt c
        ≡ some (record { key = k; nonce_counter = 0; tag_len = 16 }))
    × (new_decryptor ring salt c ≡ some (record { key = k; nonce_counter = 0; tag_len = 16 }))
new_cipher-sessions_example = new_cipher-sessions ring aes_256_gcm (bytes "a password") salt

-- The session after one text.
abbrev later : AeadEncryptor ring
later = record session { nonce_counter = 1 }

sealed_one :
    encrypt_all ring (bytes "one" ∷ []) session ≡ some ((bytes "one" ++ pad 16 []) ∷ [], later)
unfolding program
sealed_one = refl

encrypt_all-fresh_example : (next_nonce ring later).0 ≢ (next_nonce ring session).0
encrypt_all-fresh_example =
    encrypt_all-fresh ring (bytes "one" ∷ []) ((bytes "one" ++ pad 16 []) ∷ []) session later
      sealed_one (omega arith) (omega arith) (omega arith)

-- A stream with two decrypted bytes, and a frame of three bytes on its way.
abbrev half_read : ShadowsocksStream ring
unfolding program
half_read = record client {
  decryptor = some (peer ring session);
  read_buffer = bytes "ab";
  inbox = 0 ∷ 3 ∷ pad 16 [] ++ bytes "cde" ++ pad 16 (1 ∷ []);
}

half_read-Refines : Refines ring half_read (bytes "abcde")
unfolding program
half_read-Refines = record {
  writer = session;
  writer' = record session { nonce_counter = 2 };
  chunks = bytes "cde" ∷ [];
  reserved = refl;
  shape = ((omega arith, omega arith), tt);
  coming = refl;
  in_step = refl;
  bytes = refl;
}

read-Refines_example : Takes ring 1 half_read (bytes "abcde")
read-Refines_example = read-Refines ring 1 (bytes "abcde") half_read (omega arith) half_read-Refines

-- A frame that was sealed under another nonce is refused.
out_of_order :
    (s : ShadowsocksStream ring) × (read ring 4
        (record half_read { read_buffer = []; inbox = 0 ∷ 3 ∷ pad 16 (1 ∷ []) })
      ≡ some (err invalid_data, s))
unfolding program
out_of_order = (_, refl)
