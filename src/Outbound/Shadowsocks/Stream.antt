-- ===== src/Outbound/Shadowsocks/Stream.antt =====
-- src/outbound/shadowsocks/mod.rs, `ShadowsocksStream`: the encrypted stream. The socket is the bytes
-- that the server sends before it closes and the bytes that were written to it; writing does not
-- fail. An outer `none` stands for a panic.
pub mod Frames
pub mod Queue
pub mod Session
use home_guard.Prelude.{
  ℕ, zero, suc, ◌+◌, ◌-◌, min, Bool, true, false, Option, none, some, List, [], ◌∷◌, ◌++◌,
  if◌then◌else◌, ◌==◌, nat_eq, ltb, length, take, drop,
}
use home_guard.Prelude.Text.{Text}
use home_guard.Prelude.BigEndian.{from_be}
use home_guard.Crates.Ring.{Ring}
use home_guard.Outbound.Address.{Address, encode}
use home_guard.Outbound.Shadowsocks.Cipher.{
  AeadCipher, AeadEncryptor, AeadDecryptor, salt_size, tag_size, new_encryptor, new_decryptor,
  encrypt_payload, decrypt,
}

pub data ErrorKind : Type 0 where
  unexpected_eof invalid_data : ErrorKind

pub data Result {ℓ} (A : Type ℓ) : Type ℓ where
  ok : A → Result A
  err : ErrorKind → Result A

abbrev pub max_chunk_size : ℕ
max_chunk_size = 0x3fff

-- `chunks(n)`, on the length as fuel.
unfoldable pub chunks_within : ℕ → ℕ → Text → List Text
chunks_within zero n s = []
chunks_within (suc fuel) n [] = []
chunks_within (suc fuel) n (c ∷ s) = take n (c ∷ s) ∷ chunks_within fuel n (drop n (c ∷ s))

unfoldable pub chunks : ℕ → Text → List Text
unfolding chunks_within
chunks n s = chunks_within (length s) n s

module _ (R : Ring) where
  pub record ShadowsocksStream : Type 0 where
    pub inbox : Text
    pub outbox : Text
    pub encryptor : AeadEncryptor R
    pub decryptor : Option (AeadDecryptor R)
    pub cipher : AeadCipher R
    pub read_buffer : Text
    pub pending_length : Option ℕ

  -- A step of the stream: it may panic, and keeps its effects when it answers with an error.
  abbrev pub Step : Type 0 → Type 0
  Step A = ShadowsocksStream → Option (Result A × ShadowsocksStream)

  -- The rest of a computation, which an error skips.
  abbrev pub and_then :
      {A B : Type 0}
      → (A → Step B)
      → Option (Result A × ShadowsocksStream)
      → Option (Result B × ShadowsocksStream)
  and_then f none = none
  and_then f (some (ok a, s)) = f a s
  and_then f (some (err e, s)) = some (err e, s)

  infixl 5 ◌>>=◌
  abbrev pub ◌>>=◌ : {A B : Type 0} → Step A → (A → Step B) → Step B
  ◌>>=◌ m f s = and_then f (m s)

  abbrev pub pure : {A : Type 0} → A → Step A
  pure a s = some (ok a, s)

  abbrev pub fail : {A : Type 0} → ErrorKind → Step A
  fail e s = some (err e, s)

  -- The handshake, with the random salt as an argument.
  unfoldable pub new : Text → Text → AeadCipher R → Address → Option ShadowsocksStream
  unfolding new_encryptor encrypt_payload encode
  new inbox salt cipher target = elim (new_encryptor R salt cipher) [
    | none ↦ none
    | some e ↦ elim (encrypt_payload R (encode target) e) [
      | none ↦ none
      | some (sealed, e') ↦ some (record {
        inbox = inbox;
        outbox = salt ++ sealed;
        encryptor = e';
        decryptor = none;
        cipher = cipher;
        read_buffer = [];
        pending_length = none;
      })
    ]
  ]

  -- `read_exact` on the socket: what there is of too short an input is consumed.
  unfoldable pub read_exact : ℕ → Step Text
  read_exact n s =
      if ltb (length s.inbox) n
      then some (err unexpected_eof, record s { inbox = [] })
      else some (ok (take n s.inbox), record s { inbox = drop n s.inbox })

  abbrev pub set_decryptor : Text → Step (AeadDecryptor R)
  unfolding new_decryptor
  set_decryptor salt s = elim (new_decryptor R salt s.cipher) [
    | none ↦ none
    | some d ↦ some (ok d, record s { decryptor = some d })
  ]

  -- The decryptor, set up from the salt of the server the first time.
  unfoldable pub init_decryptor : Step (AeadDecryptor R)
  unfolding read_exact set_decryptor
  init_decryptor s = elim s.decryptor [
    | some d ↦ some (ok d, s)
    | none ↦ (read_exact (salt_size s.cipher.method) >>= set_decryptor) s
  ]

  -- `decrypt` of the session that the stream holds.
  unfoldable pub open_with : AeadDecryptor R → Text → Step (Text × AeadDecryptor R)
  unfolding decrypt
  open_with d sealed s =
      let (plain, d') = decrypt R sealed d in
      let s' : ShadowsocksStream = record s { decryptor = some d' } in
      elim plain [ none ↦ some (err invalid_data, s') | some p ↦ some (ok (p, d'), s') ]

  -- The payload, once its length is known.
  abbrev pub read_payload : ℕ → AeadDecryptor R → Step Text
  unfolding read_exact open_with
  read_payload n d s =
      (read_exact (n + tag_size s.cipher.method) >>= λ body. open_with d body >>= λ (p, d'). pure p)
        s

  abbrev pub check_length : Text → AeadDecryptor R → Step Text
  unfolding read_payload
  check_length head d =
      if length head == 2
      then (if ltb max_chunk_size (from_be head)
          then fail invalid_data
          else read_payload (from_be head) d)
      else fail invalid_data

  -- A chunk, once there is a decryptor.
  abbrev pub read_with : AeadDecryptor R → Step Text
  unfolding read_exact open_with check_length
  read_with d s =
      (read_exact (2 + tag_size s.cipher.method) >>= λ head.
      open_with d head >>= λ (length_bytes, d'). check_length length_bytes d')
        s

  unfoldable pub read_chunk : Step Text
  unfolding init_decryptor read_with
  read_chunk s = (init_decryptor >>= read_with) s

  -- The loop of `write_chunk`: what is written, and the session.
  unfoldable pub encrypt_chunks : List Text → AeadEncryptor R → Option (Text × AeadEncryptor R)
  unfolding encrypt_payload
  encrypt_chunks [] e = some ([], e)
  encrypt_chunks (chunk ∷ rest) e = elim (encrypt_payload R chunk e) [
    | none ↦ none
    | some (sealed, e') ↦ elim (encrypt_chunks rest e') [
      | none ↦ none
      | some (more, e'') ↦ some (sealed ++ more, e'')
    ]
  ]

  unfoldable pub write_all : Text → ShadowsocksStream → Option ShadowsocksStream
  unfolding encrypt_chunks chunks
  write_all input s = elim (encrypt_chunks (chunks max_chunk_size input) s.encryptor) [
    | none ↦ none
    | some (sealed, e) ↦ some (record s { outbox = s.outbox ++ sealed; encryptor = e })
  ]

  -- What `read` does with the answer of `read_chunk`, for a buffer of a length.
  abbrev pub deliver :
      ℕ → Option (Result Text × ShadowsocksStream) → Option (Result Text × ShadowsocksStream)
  deliver n none = none
  deliver n (some (ok chunk, s)) =
      some (ok (take n chunk), record s { read_buffer = s.read_buffer ++ drop n chunk })
  deliver n (some (err unexpected_eof, s)) = some (ok [], s)
  deliver n (some (err invalid_data, s)) = some (err invalid_data, s)

  -- `read` into a buffer of a length: the bytes that are put there.
  unfoldable pub read : ℕ → Step Text
  unfolding read_chunk
  read n s = elim s.read_buffer [
    | [] ↦ deliver n (read_chunk s)
    | c ∷ rest ↦ some (ok (take n (c ∷ rest)), record s { read_buffer = drop n (c ∷ rest) })
  ]
