-- ===== src/Outbound/Shadowsocks/Sample.antt =====
-- A stand-in for the crates `ring` and `md-5`, and a server and a client to run the model on.
use home_guard.Prelude.{
  ℕ, zero, suc, ◌-◌, ◌≡◌, ◌∙◌, Option, none, some, [], ◌∷◌, ◌++◌, take, drop, length, length-append,
  take-append, drop-append, ◌==◌, beq_refl, nat_eq, list_eq, if◌then◌else◌, arith, ap, refl,
}
use home_guard.Prelude.Text.{Text, bytes}
use home_guard.Crates.Ring.{Ring}
use home_guard.Outbound.Shadowsocks.Cipher.{
  AeadCipher, AeadEncryptor, CipherMethod, aes_128_gcm, aes_256_gcm, chacha20_ietf_poly1305,
  key_size,
}
use home_guard.Outbound.Shadowsocks.Stream.{ShadowsocksStream}

-- A text cut or filled with zeros to a length.
unfoldable pub pad : ℕ → Text → Text
pad zero s = []
pad (suc n) [] = 0 ∷ pad n []
pad (suc n) (c ∷ s) = c ∷ pad n s

pub length-pad : (n : ℕ) (s : Text) → length (pad n s) ≡ n
unfolding pad
length-pad zero s = refl
length-pad (suc n) [] = ap suc (length-pad n [])
length-pad (suc n) (c ∷ s) = ap suc (length-pad n s)

-- A box is the text and the nonce; it opens when the nonce is the expected one.
unfoldable pub open_box : Text → Text → Text → Option Text
open_box key nonce s =
    let split = length s - 16 in if drop split s == pad 16 nonce then some (take split s) else none

open_box-append : (key nonce plain : Text) → open_box key nonce (plain ++ pad 16 nonce) ≡ some plain
unfolding open_box
open_box-append key nonce plain =
    let tag = pad 16 nonce in
    let split : length (plain ++ tag) - 16 ≡ length plain =
      omega (arith, length-append plain tag, length-pad 16 nonce) in
    rw (split, drop-append plain tag, take-append plain tag, beq_refl tag)

pub box_length :
    (nonce plain c tag : Text)
    → ◌≡◌ {A = Option (Text × Text)} (some (plain, pad 16 nonce)) (some (c, tag))
    → (length c ≡ length plain) × (length tag ≡ 16)
box_length nonce plain c tag made =
    let same : c ≡ plain = cc made in
    let tagged : tag ≡ pad 16 nonce = cc made in
    (ap length same, ap length tagged ∙ length-pad 16 nonce)

pub box_opens :
    (key nonce plain c tag : Text)
    → ◌≡◌ {A = Option (Text × Text)} (some (plain, pad 16 nonce)) (some (c, tag))
    → open_box key nonce (c ++ tag) ≡ some plain
box_opens key nonce plain c tag made =
    let same : c ++ tag ≡ plain ++ pad 16 nonce = cc made in
    ap (open_box key nonce) same ∙ open_box-append key nonce plain

unfoldable pub take_key : CipherMethod → Text → Option Text
take_key m s = if length s == key_size m then some s else none

pub take_key-some :
    (m : CipherMethod) (s : Text) → length s ≡ key_size m → (k : Text) × (take_key m s ≡ some k)
unfolding take_key
take_key-some m s same = (s, rw (take_key, same, beq_refl (key_size m)))

abbrev pub ring : Ring
ring = record {
  Algorithm = CipherMethod;
  aes_128_gcm = aes_128_gcm;
  aes_256_gcm = aes_256_gcm;
  chacha20_poly1305 = chacha20_ietf_poly1305;
  key_len = key_size;
  Key = Text;
  new_key = take_key;
  seal = λ key nonce plain. some (plain, pad 16 nonce);
  open_sealed = open_box;
  hkdf = λ salt secret info n. some (pad n (salt ++ secret ++ info));
  md5 = pad 16;
  key_len_aes_128 = refl;
  key_len_aes_256 = refl;
  key_len_chacha20 = refl;
  new_key_some = take_key-some;
  seal_some = λ key nonce plain short. (plain, pad 16 nonce, refl);
  seal_length = λ key. box_length;
  open_sealed-seal = box_opens;
  hkdf_some = λ salt secret info n short.
      (pad n (salt ++ secret ++ info), refl, length-pad n (salt ++ secret ++ info));
  md5_length = length-pad 16;
}

-- The server has sent its salt, and the client has no session for what it reads yet.
abbrev pub cipher : AeadCipher ring
cipher = record { method = chacha20_ietf_poly1305; master_key = pad 32 (bytes "a password") }

abbrev pub salt : Text
salt = pad 32 (bytes "a salt")

abbrev pub session : AeadEncryptor ring
session = record { key = pad 32 (salt ++ []); nonce_counter = 0; tag_len = 16 }

abbrev pub server : ShadowsocksStream ring
server = record {
  inbox = [];
  outbox = salt;
  encryptor = session;
  decryptor = none;
  cipher = cipher;
  read_buffer = [];
  pending_length = none;
}

abbrev pub client : ShadowsocksStream ring
client = record server { outbox = [] }
