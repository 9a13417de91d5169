-- ===== src/Auth/Sha256.antt =====
-- common/auth.c: SHA-256 and HMAC-SHA256. Words are numbers below 2 ^ 32, bytes below 256.
use Prim.Native.Nat.{bit_and, bit_or, bit_xor}
use sdr_slc_rtld.Base.{
  ℕ, zero, suc, ◌+◌, ◌-◌, ◌*◌, ◌/◌, ◌%◌, ◌^◌, true, false, List, [], ◌∷◌, ◌++◌, map, min, Bytes,
  length, take, drop, replicate, get_or, byte_at, ltb, ◌==◌, if◌then◌else◌,
}

abbrev u32 : ℕ → ℕ
u32 x = x % 2 ^ 32

-- ROTR(x, n), for a word.
unfoldable pub rotr : ℕ → ℕ → ℕ
rotr x n = bit_or (x / 2 ^ n) (u32 (x * 2 ^ (32 - n)))

abbrev pub round_constants : List ℕ
round_constants =
    0x428a2f98 ∷ 0x71374491 ∷ 0xb5c0fbcf ∷ 0xe9b5dba5 ∷ 0x3956c25b ∷ 0x59f111f1 ∷ 0x923f82a4
    ∷ 0xab1c5ed5 ∷ 0xd807aa98 ∷ 0x12835b01 ∷ 0x243185be ∷ 0x550c7dc3 ∷ 0x72be5d74 ∷ 0x80deb1fe
    ∷ 0x9bdc06a7 ∷ 0xc19bf174 ∷ 0xe49b69c1 ∷ 0xefbe4786 ∷ 0x0fc19dc6 ∷ 0x240ca1cc ∷ 0x2de92c6f
    ∷ 0x4a7484aa ∷ 0x5cb0a9dc ∷ 0x76f988da ∷ 0x983e5152 ∷ 0xa831c66d ∷ 0xb00327c8 ∷ 0xbf597fc7
    ∷ 0xc6e00bf3 ∷ 0xd5a79147 ∷ 0x06ca6351 ∷ 0x14292967 ∷ 0x27b70a85 ∷ 0x2e1b2138 ∷ 0x4d2c6dfc
    ∷ 0x53380d13 ∷ 0x650a7354 ∷ 0x766a0abb ∷ 0x81c2c92e ∷ 0x92722c85 ∷ 0xa2bfe8a1 ∷ 0xa81a664b
    ∷ 0xc24b8b70 ∷ 0xc76c51a3 ∷ 0xd192e819 ∷ 0xd6990624 ∷ 0xf40e3585 ∷ 0x106aa070 ∷ 0x19a4c116
    ∷ 0x1e376c08 ∷ 0x2748774c ∷ 0x34b0bcb5 ∷ 0x391c0cb3 ∷ 0x4ed8aa4a ∷ 0x5b9cca4f ∷ 0x682e6ff3
    ∷ 0x748f82ee ∷ 0x78a5636f ∷ 0x84c87814 ∷ 0x8cc70208 ∷ 0x90befffa ∷ 0xa4506ceb ∷ 0xbef9a3f7
    ∷ 0xc67178f2 ∷ []

-- The eight words of `h`, and the variables a to h.
pub record Words : Type 0 where
  pub a : ℕ
  pub b : ℕ
  pub c : ℕ
  pub d : ℕ
  pub e : ℕ
  pub f : ℕ
  pub g : ℕ
  pub h : ℕ

unfoldable pub load_word : Bytes → ℕ
load_word p = byte_at p 0 * 2 ^ 24 + byte_at p 1 * 2 ^ 16 + byte_at p 2 * 2 ^ 8 + byte_at p 3

-- w[0] to w[n - 1] of a block, newest first.
unfoldable pub load_words : ℕ → Bytes → List ℕ → List ℕ
unfolding load_word
load_words zero p w = w
load_words (suc n) p w = load_words n (drop 4 p) (load_word p ∷ w)

-- The next word of the schedule; `w` is newest first, so w[i - 2] is at 1.
unfoldable pub next_word : List ℕ → ℕ
unfolding rotr
next_word w =
    let x = get_or w 14 0 in
    let y = get_or w 1 0 in
    let s0 = bit_xor (bit_xor (rotr x 7) (rotr x 18)) (x / 2 ^ 3) in
    let s1 = bit_xor (bit_xor (rotr y 17) (rotr y 19)) (y / 2 ^ 10) in
    u32 (get_or w 15 0 + s0 + get_or w 6 0 + s1)

unfoldable pub schedule : ℕ → List ℕ → List ℕ
unfolding next_word
schedule zero w = w
schedule (suc n) w = schedule n (next_word w ∷ w)

-- One round. `~e & g` is `(2 ^ 32 - 1 - e) & g`.
unfoldable pub round : ℕ → ℕ → Words → Words
unfolding rotr
round k w s =
    let s1 = bit_xor (bit_xor (rotr s.e 6) (rotr s.e 11)) (rotr s.e 25) in
    let ch = bit_xor (bit_and s.e s.f) (bit_and (2 ^ 32 - 1 - s.e) s.g) in
    let t1 = u32 (s.h + s1 + ch + k + w) in
    let s0 = bit_xor (bit_xor (rotr s.a 2) (rotr s.a 13)) (rotr s.a 22) in
    let mj = bit_xor (bit_xor (bit_and s.a s.b) (bit_and s.a s.c)) (bit_and s.b s.c) in
    let t2 = u32 (s0 + mj) in
    record {
      a = u32 (t1 + t2);
      b = s.a;
      c = s.b;
      d = s.c;
      e = u32 (s.d + t1);
      f = s.e;
      g = s.f;
      h = s.g;
    }

unfoldable pub rounds : List ℕ → List ℕ → Words → Words
unfolding round
rounds [] ws s = s
rounds (k ∷ ks) [] s = s
rounds (k ∷ ks) (w ∷ ws) s = rounds ks ws (round k w s)

unfoldable pub add_words : Words → Words → Words
add_words s t = record {
  a = u32 (s.a + t.a);
  b = u32 (s.b + t.b);
  c = u32 (s.c + t.c);
  d = u32 (s.d + t.d);
  e = u32 (s.e + t.e);
  f = u32 (s.f + t.f);
  g = u32 (s.g + t.g);
  h = u32 (s.h + t.h);
}

unfoldable pub rev_onto : List ℕ → List ℕ → List ℕ
rev_onto [] ys = ys
rev_onto (x ∷ xs) ys = rev_onto xs (x ∷ ys)

-- sha256_block.
unfoldable pub sha256_block : Bytes → Words → Words
unfolding load_words schedule rounds add_words rev_onto
sha256_block p s =
    add_words s (rounds round_constants (rev_onto (schedule 48 (load_words 16 p [])) []) s)

-- `sha256_t`; `buf` holds its first `buflen` bytes.
pub record Sha256 : Type 0 where
  pub words : Words
  pub len : ℕ
  pub buf : Bytes

unfoldable pub sha256_init : Sha256
sha256_init = record {
  words = record {
    a = 0x6a09e667;
    b = 0xbb67ae85;
    c = 0x3c6ef372;
    d = 0xa54ff53a;
    e = 0x510e527f;
    f = 0x9b05688c;
    g = 0x1f83d9ab;
    h = 0x5be0cd19;
  };
  len = 0;
  buf = [];
}

-- The `if (s->buflen == 64)` of the loop.
unfoldable pub flush : Sha256 → Sha256
flush s =
    if length s.buf == 64 then record s { words = sha256_block s.buf s.words; buf = [] } else s

-- The loop of sha256_update: each round takes what fits the buffer, and one byte at least, so
-- the length is fuel enough.
unfoldable pub update_loop : ℕ → Bytes → Sha256 → Sha256
unfolding flush
update_loop zero p s = s
update_loop (suc fuel) p s = elim p [
  | [] ↦ s
  | c ∷ cs ↦
      let n = min (64 - length s.buf) (length (c ∷ cs)) in
      update_loop fuel (drop n (c ∷ cs)) (flush (record s { buf = s.buf ++ take n (c ∷ cs) }))
]

-- sha256_update. `len` is an uint64_t.
unfoldable pub sha256_update : Bytes → Sha256 → Sha256
unfolding update_loop
sha256_update p s = update_loop (length p) p (record s { len = (s.len + length p) % 2 ^ 64 })

-- `while (s->buflen != 56)`: at most 64 rounds reach it.
unfoldable pub pad_loop : ℕ → Sha256 → Sha256
unfolding sha256_update
pad_loop zero s = s
pad_loop (suc fuel) s = elim (length s.buf == 56) [
  | true ↦ s
  | false ↦ pad_loop fuel (sha256_update (0 ∷ []) s)
]

unfoldable pub be_bytes : ℕ → ℕ → Bytes
be_bytes zero x = []
be_bytes (suc n) x = x / 2 ^ (8 * n) % 256 ∷ be_bytes n x

unfoldable pub digest : Words → Bytes
unfolding be_bytes
digest s =
    be_bytes 4 s.a
    ++ (be_bytes 4 s.b
        ++ (be_bytes 4 s.c
            ++ (be_bytes 4 s.d
                ++ (be_bytes 4 s.e ++ (be_bytes 4 s.f ++ (be_bytes 4 s.g ++ be_bytes 4 s.h))))))

-- sha256_final.
unfoldable pub sha256_final : Sha256 → Bytes
unfolding pad_loop digest
sha256_final s =
    let bits = s.len * 8 % 2 ^ 64 in
    digest (sha256_update (be_bytes 8 bits) (pad_loop 64 (sha256_update (0x80 ∷ []) s))).words

unfoldable pub sha256 : Bytes → Bytes
unfolding sha256_final sha256_init
sha256 p = sha256_final (sha256_update p sha256_init)

-- The key as 64 bytes: hashed if it is longer, and zeros behind it.
unfoldable pub hmac_key : Bytes → Bytes
unfolding sha256
hmac_key key =
    let k = if ltb 64 (length key) then sha256 key else key in k ++ replicate (64 - length k) 0

-- auth_hmac_sha256.
unfoldable pub auth_hmac_sha256 : Bytes → Bytes → Bytes
unfolding hmac_key
auth_hmac_sha256 key msg =
    let k = hmac_key key in
    let ipad = map (λ x. bit_xor x 0x36) k in
    let opad = map (λ x. bit_xor x 0x5c) k in
    let inner = sha256_final (sha256_update msg (sha256_update ipad sha256_init)) in
    sha256_final (sha256_update inner (sha256_update opad sha256_init))
