-- ===== src/Outbound/Shadowsocks/Stream/Frames.antt =====
-- src/outbound/shadowsocks/mod.rs: a frame that the other side writes is the chunk that is read.
use home_guard.Prelude.{
  ℕ, ◌+◌, ◌^◌, ◌≤◌, ◌≡◌, ◌∙◌, some, ◌++◌, ltb, length, take, drop, take-append, drop-append,
  length-append, le→ltb_false, arith, false, ap, sym, refl, nat_eq, ◌%◌,
}
use mathlib.Core.List.{append_assoc}
use home_guard.Prelude.Text.{Text}
use home_guard.Prelude.BigEndian.{be_bytes, from_be, from_be-be_bytes, length-be_bytes}
use home_guard.Crates.Ring.{Ring}
use home_guard.Outbound.Shadowsocks.Cipher.{AeadEncryptor, AeadDecryptor, decrypt, encrypt_payload}
use home_guard.Outbound.Shadowsocks.Cipher.Sealing.{peer, decrypt-encrypt}
use home_guard.Outbound.Shadowsocks.Stream.{
  ShadowsocksStream, Step, and_then, pure, ok, read_exact, open_with, read_chunk, init_decryptor,
  check_length, read_payload, max_chunk_size,
}

module _ (R : Ring) where
  -- The stream with other bytes to come and another session.
  abbrev pub resume : Text → AeadDecryptor R → ShadowsocksStream R → ShadowsocksStream R
  resume inbox d s = record s { inbox = inbox; decryptor = some d }

  -- What the input starts with is read, and the rest of it stays.
  pub read_exact_prefix :
      (n : ℕ) (now rest : Text) (s : ShadowsocksStream R)
      → s.inbox ≡ now ++ rest
      → length now ≡ n
      → read_exact R n s ≡ some (ok now, record s { inbox = rest })
  unfolding read_exact
  read_exact_prefix n now rest s parts same =
      let total = length-append now rest in
      let enough : ltb (length s.inbox) n ≡ false =
        le→ltb_false (length s.inbox) n (omega (arith, ap length parts, total)) in
      let front : take n s.inbox ≡ now =
        ap (take n) parts ∙ ap (λ k. take k (now ++ rest)) (sym same) ∙ take-append now rest in
      let back : drop n s.inbox ≡ rest =
        ap (drop n) parts ∙ ap (λ k. drop k (now ++ rest)) (sym same) ∙ drop-append now rest in
      rw (read_exact, enough, front, back)

  open_with_sealed :
      (sealed plain : Text) (inbox : Text) (d d' : AeadDecryptor R) (s : ShadowsocksStream R)
      → decrypt R sealed d ≡ (some plain, d')
      → open_with R d sealed (resume inbox d s) ≡ some (ok (plain, d'), resume inbox d' s)
  unfolding open_with
  open_with_sealed sealed plain inbox d d' s same =
      rw (open_with, ap (λ p. p.0) same, ap (λ p. p.1) same)

  -- A chunk is read in two parts: its length, then its payload.
  read_payload_lem :
      (body payload rest : Text) (d d' : AeadDecryptor R) (s : ShadowsocksStream R)
      → length body ≡ length payload + 16
      → decrypt R body d ≡ (some payload, d')
      → read_payload R (length payload) d (resume (body ++ rest) d s)
        ≡ some (ok payload, resume rest d' s)
  unfolding read_payload
  read_payload_lem body payload rest d d' s same opened =
      let take_body : Text → Step R Text =
        λ sealed s1. and_then R (λ (p, d1). pure R p) (open_with R d sealed s1) in
      ap (and_then R take_body)
        (read_exact_prefix (length payload + 16) body rest (resume (body ++ rest) d s) refl same)
      ∙ ap (and_then R (λ (p, d1). pure R p)) (open_with_sealed body payload rest d d' s opened)

  check_length_lem :
      (size : Text) (n : ℕ) (d : AeadDecryptor R) (s : ShadowsocksStream R)
      → length size ≡ 2
      → from_be size ≡ n
      → n ≤ max_chunk_size
      → check_length R size d s ≡ read_payload R n d s
  unfolding check_length
  check_length_lem size n d s two value short =
      let fits : ltb max_chunk_size n ≡ false = le→ltb_false max_chunk_size n short in
      rw (two, value, fits)

  read_chunk_lem :
      (head size more : Text) (d d' : AeadDecryptor R) (s : ShadowsocksStream R)
      → length head ≡ 18
      → decrypt R head d ≡ (some size, d')
      → read_chunk R (resume (head ++ more) d s) ≡ check_length R size d' (resume more d' s)
  unfolding read_chunk init_decryptor
  read_chunk_lem head size more d d' s same opened =
      let go_on : Text × AeadDecryptor R → Step R Text = λ (bytes, d1). check_length R bytes d1 in
      let take_head : Text → Step R Text =
        λ sealed s1. and_then R go_on (open_with R d sealed s1) in
      ap (and_then R take_head)
        (read_exact_prefix 18 head more (resume (head ++ more) d s) refl same)
      ∙ ap (and_then R go_on) (open_with_sealed head size more d d' s opened)

  -- A payload of at most max_chunk_size bytes makes a frame, and a stream in step with the writer
  -- reads that frame back to the payload, whatever follows, and stays in step.
  pub read_chunk-encrypt_payload :
      (payload : Text) (e : AeadEncryptor R)
      → e.tag_len ≡ 16
      → length payload ≤ max_chunk_size
      → (frame : Text) × (e' : AeadEncryptor R) × (encrypt_payload R payload e ≡ some (frame, e'))
        × (e'.tag_len ≡ 16)
        × ((rest : Text) (s : ShadowsocksStream R)
            → read_chunk R (resume (frame ++ rest) (peer R e) s)
              ≡ some (ok payload, resume rest (peer R e') s))
  unfolding encrypt_payload read_chunk init_decryptor check_length read_payload
  read_chunk-encrypt_payload payload e reserved short =
      let size = be_bytes 2 (length payload % 2 ^ 16) in
      let size2 : length size ≡ 2 = length-be_bytes 2 (length payload % 2 ^ 16) in
      let value : from_be size ≡ length payload =
        from_be-be_bytes 2 (length payload % 2 ^ 16) (omega arith) ∙ omega arith in
      let (head, e1, made1, len1, opened1, reserved1) =
        decrypt-encrypt R size e reserved (omega arith) in
      let (body, e2, made2, len2, opened2, reserved2) =
        decrypt-encrypt R payload e1 reserved1 (omega arith) in
      (
        head ++ body,
        e2,
        rw (encrypt_payload, made1, made2),
        reserved2,
        λ rest s.
            ap (λ t. read_chunk R (resume t (peer R e) s)) (append_assoc head body rest)
            ∙ read_chunk_lem head size (body ++ rest) (peer R e) (peer R e1) s
                (len1 ∙ ap (λ n. n + 16) size2) opened1
            ∙ check_length_lem size (length payload) (peer R e1)
                (resume (body ++ rest) (peer R e1) s) size2 value short
            ∙ read_payload_lem body payload rest (peer R e1) (peer R e2) s len2 opened2,
      )
