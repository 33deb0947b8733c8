-- ===== src/Outbound/Shadowsocks/Stream/Session.antt =====
-- src/outbound/shadowsocks/mod.rs: what one side writes, the other side reads.
use home_guard.Prelude.{
  ℕ, zero, suc, ◌<◌, ◌≤◌, ◌≡◌, ◌∙◌, Option, none, some, List, [], ◌∷◌, ◌++◌, length, take, drop,
  take-append-drop, length-append, length-take-le, All, arith, ap, sym, refl,
}
use home_guard.Prelude.Text.{Text}
use home_guard.Crates.Ring.{Ring}
use home_guard.Outbound.Shadowsocks.Cipher.{AeadEncryptor, new_encryptor, salt_size}
use home_guard.Outbound.Shadowsocks.Cipher.Sealing.{peer, new_decryptor-peer}
use home_guard.Outbound.Shadowsocks.Stream.{
  ShadowsocksStream, read_exact, init_decryptor, set_decryptor, and_then, read_chunk, read_with,
  deliver, ok, err, encrypt_chunks, max_chunk_size, read, write_all, chunks, chunks_within,
}
use home_guard.Outbound.Shadowsocks.Stream.Frames.{
  resume, read_exact_prefix, read_chunk-encrypt_payload,
}
use home_guard.Outbound.Shadowsocks.Stream.Queue.{
  concat, read_empty_lem, IsChunk, Refines, read-Refines,
}

drop-length-le : (n : ℕ) (s : Text) → length (drop n s) ≤ length s
drop-length-le zero s = omega arith
drop-length-le (suc n) [] = omega arith
drop-length-le (suc n) (c ∷ s) = omega (arith, drop-length-le n s)

concat-chunks_within :
    (fuel n : ℕ) (s : Text) → 0 < n → length s ≤ fuel → concat (chunks_within fuel n s) ≡ s
unfolding chunks_within
concat-chunks_within zero n [] h k = refl
concat-chunks_within zero n (c ∷ s) h k = absurd (omega arith)
concat-chunks_within (suc fuel) n [] h k = refl
concat-chunks_within (suc fuel) zero (c ∷ s) h k = absurd (omega arith)
concat-chunks_within (suc fuel) (suc n) (c ∷ s) h k =
    ap (λ t. take (suc n) (c ∷ s) ++ t)
      (concat-chunks_within fuel (suc n) (drop n s) h (omega (arith, drop-length-le n s)))
    ∙ take-append-drop (suc n) (c ∷ s)

chunks_within-IsChunk :
    (fuel n : ℕ) (s : Text) → 0 < n → n ≤ max_chunk_size → All IsChunk (chunks_within fuel n s)
unfolding chunks_within
chunks_within-IsChunk zero n s h k = tt
chunks_within-IsChunk (suc fuel) n [] h k = tt
chunks_within-IsChunk (suc fuel) zero (c ∷ s) h k = absurd (omega arith)
chunks_within-IsChunk (suc fuel) (suc n) (c ∷ s) h k = (
  (omega arith, omega (arith, length-take-le (suc n) (c ∷ s))),
  chunks_within-IsChunk fuel (suc n) (drop n s) h k,
)

none_left : (s : Text) → (0 < length s → 0 < 0) → s ≡ []
none_left [] h = refl
none_left (c ∷ s) h = absurd (omega (arith, h (omega arith)))

module _ (R : Ring) where
  encrypt_chunks-some :
      (cs : List Text) (e : AeadEncryptor R)
      → e.tag_len ≡ 16
      → All IsChunk cs
      → (sealed : Text) × (e' : AeadEncryptor R) × (encrypt_chunks R cs e ≡ some (sealed, e'))
        × (e'.tag_len ≡ 16)
  unfolding encrypt_chunks
  encrypt_chunks-some [] e reserved h = ([], e, refl, reserved)
  encrypt_chunks-some (c ∷ cs) e reserved ((size, short), h) =
      let (frame, e1, made, reserved1, chunk_read) =
        read_chunk-encrypt_payload R c e reserved short in
      let (more, e2, later, reserved2) = encrypt_chunks-some cs e1 reserved1 h in
      (frame ++ more, e2, rw (encrypt_chunks, made, later), reserved2)

  -- Everything there is to read, with buffers of n bytes.
  unfoldable pub read_all : ℕ → ℕ → ShadowsocksStream R → Option Text
  unfolding read
  read_all zero n s = none
  read_all (suc fuel) n s = elim (read R n s) [
    | none ↦ none
    | some (err e, s') ↦ none
    | some (ok [], s') ↦ some []
    | some (ok (c ∷ got), s') ↦ elim (read_all fuel n s') [
      | none ↦ none
      | some more ↦ some (c ∷ got ++ more)
    ]
  ]

  -- What is read depends on the first read alone.
  read_all_same :
      (fuel n : ℕ) (s t : ShadowsocksStream R)
      → read R n s ≡ read R n t
      → read_all (suc fuel) n s ≡ read_all (suc fuel) n t
  unfolding read_all
  read_all_same fuel n s t same = rw (read_all, same)

  read_all_lem :
      (fuel n : ℕ) (pending : Text) (s : ShadowsocksStream R)
      → 0 < n
      → length pending < fuel
      → Refines R s pending
      → read_all fuel n s ≡ some pending
  unfolding read_all
  read_all_lem zero n pending s some_room h r = absurd (omega arith)
  read_all_lem (suc fuel) n pending s some_room h r =
      let (got, rest, s', answered, parts, small, progress, r') =
        read-Refines R n pending s some_room r in
      let again : length rest < fuel → read_all fuel n s' ≡ some rest =
        λ shorter. read_all_lem fuel n rest s' some_room shorter r' in
      go got rest s' answered parts progress again
    where
      go :
          (got rest : Text) (s' : ShadowsocksStream R)
          → read R n s ≡ some (ok got, s')
          → pending ≡ got ++ rest
          → (0 < length pending → 0 < length got)
          → (length rest < fuel → read_all fuel n s' ≡ some rest)
          → read_all (suc fuel) n s ≡ some pending
      go [] rest s' answered parts progress again =
          rw (read_all, answered, none_left pending progress)
      go (c ∷ got) rest s' answered parts progress again =
          let all = again (omega (arith, ap length parts, length-append got rest)) in
          rw (read_all, answered, all, parts)

  -- The salt sets up the session of the reader.
  init_decryptor-salt :
      (salt sealed : Text) (e : AeadEncryptor R) (s : ShadowsocksStream R)
      → length salt ≡ salt_size s.cipher.method
      → new_encryptor R salt s.cipher ≡ some e
      → s.decryptor ≡ none
      → s.inbox ≡ salt ++ sealed
      → init_decryptor R s ≡ some (ok (peer R e), resume R sealed (peer R e) s)
  unfolding init_decryptor set_decryptor
  init_decryptor-salt salt sealed e s size keyed fresh parts =
      let (made, reserved) = new_decryptor-peer R salt s.cipher e keyed in
      let salted = read_exact_prefix R (salt_size s.cipher.method) salt sealed s parts size in
      let opened : init_decryptor R s
          ≡ and_then R (set_decryptor R) (read_exact R (salt_size s.cipher.method) s) =
        simp (init_decryptor, fresh) in
      let keyed' : set_decryptor R salt (record s { inbox = sealed })
          ≡ some (ok (peer R e), resume R sealed (peer R e) s) =
        rw (set_decryptor, made) in
      opened ∙ ap (and_then R (set_decryptor R)) salted ∙ keyed'

  -- The handshake of the server: a stream that has no session yet sets it up from the salt.
  read-salt :
      (n : ℕ) (salt sealed : Text) (e : AeadEncryptor R) (s : ShadowsocksStream R)
      → length salt ≡ salt_size s.cipher.method
      → new_encryptor R salt s.cipher ≡ some e
      → s.decryptor ≡ none
      → s.read_buffer ≡ []
      → s.inbox ≡ salt ++ sealed
      → read R n s ≡ read R n (resume R sealed (peer R e) s)
  unfolding read_chunk init_decryptor
  read-salt n salt sealed e s size keyed fresh same bytes =
      let set_up = init_decryptor-salt salt sealed e s size keyed fresh bytes in
      let ready : read_chunk R s ≡ read_chunk R (resume R sealed (peer R e) s) =
        ap (and_then R (read_with R)) set_up in
      read_empty_lem R n s same
      ∙ ap (deliver R n) ready
      ∙ sym (read_empty_lem R n (resume R sealed (peer R e) s) same)

  -- What the server writes after its salt, the client reads back to the end, with buffers of any
  -- size but zero and whatever the size of the input: the server does not panic, and the client
  -- reads exactly the input, within one read more than the input has bytes.
  pub read_all-write_all :
      (n : ℕ) (input : Text) (server client : ShadowsocksStream R)
      → 0 < n
      → length server.outbox ≡ salt_size client.cipher.method
      → new_encryptor R server.outbox client.cipher ≡ some server.encryptor
      → client.decryptor ≡ none
      → client.read_buffer ≡ []
      → (server' : ShadowsocksStream R) × (write_all R input server ≡ some server')
        × (read_all (suc (length input)) n (record client { inbox = server'.outbox }) ≡ some input)
  unfolding write_all chunks
  read_all-write_all n input server client some_room size keyed fresh same =
      let (keyed', reserved) =
        new_decryptor-peer R server.outbox client.cipher server.encryptor keyed in
      let parts =
        chunks_within-IsChunk (length input) max_chunk_size input (omega arith) (omega arith) in
      let whole =
        concat-chunks_within (length input) max_chunk_size input (omega arith) (omega arith) in
      let (sealed, e', coming, reserved') =
        encrypt_chunks-some (chunks max_chunk_size input) server.encryptor reserved parts in
      let bytes = server.outbox ++ sealed in
      let client' : ShadowsocksStream R = record client { inbox = bytes } in
      let ready : ShadowsocksStream R = resume R sealed (peer R server.encryptor) client' in
      let refines : Refines R ready input = record {
        writer = server.encryptor;
        writer' = e';
        chunks = chunks max_chunk_size input;
        reserved = reserved;
        shape = parts;
        coming = coming;
        in_step = refl;
        bytes = sym whole ∙ ap (λ b. b ++ concat (chunks max_chunk_size input)) (sym same);
      } in
      let salted =
        read-salt n server.outbox sealed server.encryptor client' size keyed fresh same refl in
      (
        record server { outbox = bytes; encryptor = e' },
        rw (write_all, coming),
        read_all_same (length input) n client' ready salted
            ∙ read_all_lem (suc (length input)) n input ready some_room (omega arith) refines,
      )
