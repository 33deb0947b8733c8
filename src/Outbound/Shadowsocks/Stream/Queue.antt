-- ===== src/Outbound/Shadowsocks/Stream/Queue.antt =====
-- src/outbound/shadowsocks/mod.rs: the encrypted stream as a queue of bytes.
use home_guard.Prelude.{
  ℕ, zero, suc, ◌<◌, ◌≤◌, ◌≡◌, ◌∙◌, inl, inr, Option-cases, some, List, [], ◌∷◌, ◌++◌, length, take,
  drop, take-append-drop, length-take-le, All, arith, ap, sym, refl,
}
use mathlib.Core.List.{append_assoc}
use home_guard.Prelude.Text.{Text}
use home_guard.Crates.Ring.{Ring}
use home_guard.Outbound.Shadowsocks.Cipher.{AeadEncryptor, AeadDecryptor, encrypt_payload}
use home_guard.Outbound.Shadowsocks.Cipher.Sealing.{peer}
use home_guard.Outbound.Shadowsocks.Stream.{
  ShadowsocksStream, ok, read_exact, read_chunk, init_decryptor, encrypt_chunks, max_chunk_size,
  read, deliver,
}
use home_guard.Outbound.Shadowsocks.Stream.Frames.{resume, read_chunk-encrypt_payload}

-- The chunks, one after the other.
abbrev pub concat : List Text → Text
concat [] = []
concat (c ∷ cs) = c ++ concat cs

-- What the writer makes a frame of.
abbrev pub IsChunk : Text → Type 0
IsChunk c = (0 < length c) × (length c ≤ max_chunk_size)

length-take-pos : (n : ℕ) (s : Text) → 0 < n → 0 < length s → 0 < length (take n s)
length-take-pos zero s h k = h
length-take-pos (suc n) [] h k = k
length-take-pos (suc n) (c ∷ s) h k = omega arith

module _ (R : Ring) where
  -- The bytes that the stream has yet to hand out: those it has decrypted, then those of the frames
  -- that a session in step with it has written and that are on their way.
  pub record Refines (s : ShadowsocksStream R) (pending : Text) : Type 0 where
    pub writer : AeadEncryptor R
    pub writer' : AeadEncryptor R
    pub chunks : List Text
    pub reserved : writer.tag_len ≡ 16
    pub shape : All IsChunk chunks
    pub coming : encrypt_chunks R chunks writer ≡ some (s.inbox, writer')
    pub in_step : s.decryptor ≡ some (peer R writer)
    pub bytes : pending ≡ s.read_buffer ++ concat chunks

  -- What `read` of n bytes does to the queue.
  abbrev pub Takes : ℕ → ShadowsocksStream R → Text → Type 0
  Takes n s pending =
      (got : Text) × (rest : Text) × (s' : ShadowsocksStream R) × (read R n s ≡ some (ok got, s'))
      × (pending ≡ got ++ rest)
      × (length got ≤ n)
      × (0 < length pending → 0 < length got)
      × Refines s' rest

  -- The stream itself, when its bytes to come and its session are these.
  resume_same :
      (inbox : Text) (d : AeadDecryptor R) (s : ShadowsocksStream R)
      → s.inbox ≡ inbox
      → s.decryptor ≡ some d
      → s ≡ resume R inbox d s
  resume_same inbox d s a b = rw (sym a, sym b)

  encrypt_chunks-cons :
      (c : Text) (cs : List Text) (frame inbox : Text) (e e1 e2 : AeadEncryptor R)
      → encrypt_payload R c e ≡ some (frame, e1)
      → encrypt_chunks R (c ∷ cs) e ≡ some (inbox, e2)
      → (more : Text) × (encrypt_chunks R cs e1 ≡ some (more, e2)) × (inbox ≡ frame ++ more)
  unfolding encrypt_chunks
  encrypt_chunks-cons c cs frame inbox e e1 e2 made h =
      let h1 = rw (encrypt_chunks, made) at h in
      elim (Option-cases (encrypt_chunks R cs e1)) [
        | inl nothing ↦ cc (rw nothing at h1)
        | inr ((more, e3), some_more) ↦
            (let h2 : some (frame ++ more, e3) ≡ some (inbox, e2) = rw some_more at h1 in
              (more, cc (some_more, h2), cc h2))
      ]

  -- A stream that has decrypted bytes left hands these out first.
  read_buffer_lem :
      (n c : ℕ) (rest : Text) (s : ShadowsocksStream R)
      → s.read_buffer ≡ c ∷ rest
      → read R n s ≡ some (ok (take n (c ∷ rest)), record s { read_buffer = drop n (c ∷ rest) })
  unfolding read
  read_buffer_lem n c rest s same = rw (read, same)

  -- A stream that has none reads a chunk.
  pub read_empty_lem :
      (n : ℕ) (s : ShadowsocksStream R)
      → s.read_buffer ≡ []
      → read R n s ≡ deliver R n (read_chunk R s)
  unfolding read
  read_empty_lem n s same = simp (read, same)

  from_buffer :
      (n c : ℕ) (left pending : Text) (s : ShadowsocksStream R)
      → 0 < n
      → s.read_buffer ≡ c ∷ left
      → Refines s pending
      → Takes n s pending
  from_buffer n c left pending s some_room same r = (
    take n (c ∷ left),
    drop n (c ∷ left) ++ concat r.chunks,
    record s { read_buffer = drop n (c ∷ left) },
    read_buffer_lem n c left s same,
    r.bytes
        ∙ ap (λ b. b ++ concat r.chunks) (same ∙ sym (take-append-drop n (c ∷ left)))
        ∙ append_assoc (take n (c ∷ left)) (drop n (c ∷ left)) (concat r.chunks),
    length-take-le n (c ∷ left),
    λ more. length-take-pos n (c ∷ left) some_room (omega arith),
    record {
      writer = r.writer;
      writer' = r.writer';
      chunks = r.chunks;
      reserved = r.reserved;
      shape = r.shape;
      coming = r.coming;
      in_step = r.in_step;
      bytes = refl;
    },
  )

  -- Nothing is on its way: the socket is at its end.
  at_end :
      (n : ℕ) (d : AeadDecryptor R) (s : ShadowsocksStream R)
      → s.read_buffer ≡ []
      → s.inbox ≡ []
      → s.decryptor ≡ some d
      → read R n s ≡ some (ok [], s)
  unfolding read_chunk init_decryptor read_exact
  at_end n d s same nothing in_step =
      read_empty_lem n s same
      ∙ ap (λ t. deliver R n (read_chunk R t)) (resume_same [] d s nothing in_step)
      ∙ ap (λ t. some (ok [], t)) (sym (resume_same [] d s nothing in_step))

  from_chunk :
      (n : ℕ) (c : Text) (cs : List Text) (pending : Text) (s : ShadowsocksStream R)
      → 0 < n
      → s.read_buffer ≡ []
      → (r : Refines s pending) → r.chunks ≡ c ∷ cs
      → Takes n s pending
  from_chunk n c cs pending s some_room same r split =
      let shape : IsChunk c × All IsChunk cs = rw split at r.shape in
      let ((size, short), shapes) = shape in
      let coming : encrypt_chunks R (c ∷ cs) r.writer ≡ some (s.inbox, r.writer') =
        rw split at r.coming in
      let (frame, e1, made, reserved, chunk_read) =
        read_chunk-encrypt_payload R c r.writer r.reserved short in
      let (more, later, parts) =
        encrypt_chunks-cons c cs frame s.inbox r.writer e1 r.writer' made coming in
      let answered : read R n s
          ≡ some (
            ok (take n c),
            record (resume R more (peer R e1) s) { read_buffer = s.read_buffer ++ drop n c },
          ) =
        read_empty_lem n s same
        ∙ ap (λ t. deliver R n (read_chunk R t)) (resume_same _ (peer R r.writer) s parts r.in_step)
        ∙ ap (deliver R n) (chunk_read more s) in
      (
        take n c,
        drop n c ++ concat cs,
        record (resume R more (peer R e1) s) { read_buffer = s.read_buffer ++ drop n c },
        answered,
        r.bytes
            ∙ ap (λ cs'. s.read_buffer ++ concat cs') split
            ∙ ap (λ b. b ++ (c ++ concat cs)) same
            ∙ ap (λ t. t ++ concat cs) (sym (take-append-drop n c))
            ∙ append_assoc (take n c) (drop n c) (concat cs),
        length-take-le n c,
        λ more. length-take-pos n c some_room size,
        record {
          writer = e1;
          writer' = r.writer';
          chunks = cs;
          reserved = reserved;
          shape = shapes;
          coming = later;
          in_step = refl;
          bytes = ap (λ b. (b ++ drop n c) ++ concat cs) (sym same);
        },
      )

  from_empty :
      (n : ℕ) (pending : Text) (s : ShadowsocksStream R)
      → 0 < n
      → s.read_buffer ≡ []
      → Refines s pending
      → Takes n s pending
  unfolding encrypt_chunks
  from_empty n pending s some_room same r = go r.chunks refl
    where
      go : (cs : List Text) → r.chunks ≡ cs → Takes n s pending
      go (c ∷ cs) split = from_chunk n c cs pending s some_room same r split
      go [] split =
          let nothing : s.inbox ≡ [] = cc (rw (encrypt_chunks, split) at r.coming) in
          let empty : pending ≡ [] =
            r.bytes ∙ ap (λ cs. s.read_buffer ++ concat cs) split ∙ ap (λ b. b ++ []) same in
          (
            [],
            [],
            s,
            at_end n (peer R r.writer) s same nothing r.in_step,
            empty,
            omega arith,
            λ more. omega (arith, ap length empty),
            record {
              writer = r.writer;
              writer' = r.writer';
              chunks = r.chunks;
              reserved = r.reserved;
              shape = r.shape;
              coming = r.coming;
              in_step = r.in_step;
              bytes = sym empty ∙ r.bytes;
            },
          )

  -- The stream refines a queue of bytes. While bytes are pending, a read into a buffer that has room
  -- hands out the first of them, at least one and no more than the buffer holds, and the stream then
  -- refines the queue of the others; when none are, it hands out nothing. It neither fails nor panics.
  pub read-Refines :
      (n : ℕ) (pending : Text) (s : ShadowsocksStream R)
      → 0 < n
      → Refines s pending
      → Takes n s pending
  read-Refines n pending s some_room r = go s.read_buffer refl
    where
      go : (b : Text) → s.read_buffer ≡ b → Takes n s pending
      go [] same = from_empty n pending s some_room same r
      go (c ∷ left) same = from_buffer n c left pending s some_room same r
