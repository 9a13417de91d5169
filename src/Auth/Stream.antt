-- ===== src/Auth/Stream.antt =====
-- common/auth.c: sha256_update against a reading of one byte at a time.
use Prim.Native.Nat.{bit_xor}
use mathlib.Core.List.{append_assoc}
use sdr_slc_rtld.Base.{
  ℕ, zero, suc, Bool, map, ◌+◌, ◌-◌, ◌%◌, ◌^◌, ◌<◌, ◌≤◌, ◌≡◌, refl, ap, sym, ◌∙◌, true, false, [],
  ◌∷◌, ◌++◌, min, Bytes, length, take, drop, length-append, length-take, ◌==◌, arith, Bool-cases,
  inl, inr,
}
use sdr_slc_rtld.Auth.Sha256.{
  Sha256, flush, update_loop, sha256_update, pad_loop, sha256, sha256_final, sha256_init, hmac_key,
  auth_hmac_sha256,
}

-- The bytes one at a time: each is put into the buffer, and a full buffer is hashed.
unfoldable pub feed : Bytes → Sha256 → Sha256
feed [] s = s
feed (c ∷ cs) s = feed cs (flush (record s { buf = s.buf ++ (c ∷ []) }))

take-drop : (n : ℕ) (xs : Bytes) → take n xs ++ drop n xs ≡ xs
take-drop zero xs = refl
take-drop (suc n) [] = refl
take-drop (suc n) (x ∷ xs) = ap (λ r. x ∷ r) (take-drop n xs)

length-drop : (n : ℕ) (xs : Bytes) → length (drop n xs) ≡ length xs - n
length-drop zero xs = omega arith
length-drop (suc n) [] = omega arith
length-drop (suc n) (x ∷ xs) = omega (arith, length-drop n xs)

flush_below : (s : Sha256) → length s.buf < 64 → flush s ≡ s
unfolding flush
flush_below s h = elim (Bool-cases (length s.buf == 64)) [
  | inl e ↦ ground arith
  | inr e ↦ rw e refl
]

length-flush : (s : Sha256) → length s.buf ≤ 64 → length (flush s).buf < 64
unfolding flush
length-flush s h = elim (Bool-cases (length s.buf == 64)) [
  | inl e ↦ rw e (omega arith)
  | inr e ↦ rw e (ground arith)
]

flush-len : (s : Sha256) (l : ℕ) → flush (record s { len = l }) ≡ record (flush s) { len = l }
unfolding flush
flush-len s l = elim (Bool-cases (length s.buf == 64)) [ inl e ↦ rw e refl | inr e ↦ rw e refl ]

feed-append : (xs ys : Bytes) (s : Sha256) → feed (xs ++ ys) s ≡ feed ys (feed xs s)
unfolding feed
feed-append [] ys s = refl
feed-append (x ∷ xs) ys s = feed-append xs ys _

feed-len :
    (xs : Bytes) (s : Sha256) (l : ℕ)
    → feed xs (record s { len = l }) ≡ record (feed xs s) { len = l }
unfolding feed
feed-len [] s l = refl
feed-len (x ∷ xs) s l = ap (feed xs) (flush-len _ l) ∙ feed-len xs _ l

length-snoc : (xs : Bytes) (x : ℕ) → length (xs ++ (x ∷ [])) ≡ length xs + 1
length-snoc xs x = length-append xs (x ∷ [])

length-feed : (xs : Bytes) (s : Sha256) → length s.buf < 64 → length (feed xs s).buf < 64
unfolding feed
length-feed [] s h = h
length-feed (x ∷ xs) s h = length-feed xs _ (length-flush _ (omega (arith, length-snoc s.buf x, h)))

feed_chunk :
    (c : ℕ) (ts : Bytes) (s : Sha256)
    → length s.buf + length (c ∷ ts) ≤ 64
    → feed (c ∷ ts) s ≡ flush (record s { buf = s.buf ++ (c ∷ ts) })
unfolding feed
feed_chunk c [] s h = refl
feed_chunk c (d ∷ ts) s h =
    let more = length-snoc s.buf c in
    let s' : Sha256 = record s { buf = s.buf ++ (c ∷ []) } in
    ap (feed (d ∷ ts)) (flush_below s' (omega (arith, h, more)))
    ∙ feed_chunk d ts s' (omega (arith, h, more))
    ∙ ap (λ b. flush (record s { buf = b })) (append_assoc s.buf (c ∷ []) (d ∷ ts))

-- One round of the loop, on a part of the bytes that is not empty and fits the buffer.
update_round :
    (n c : ℕ) (cs : Bytes) (s : Sha256) (fuel : ℕ)
    → 0 < n
    → length s.buf + n ≤ 64
    → length s.buf < 64
    → length cs ≤ fuel
    → ((q : Bytes) (t : Sha256)
        → length t.buf < 64
        → length q ≤ fuel
        → update_loop fuel q t ≡ feed q t)
    → update_loop fuel (drop n (c ∷ cs)) (flush (record s { buf = s.buf ++ take n (c ∷ cs) }))
      ≡ feed (c ∷ cs) s
update_round zero c cs s fuel p fits room enough rest = absurd (omega (arith, p))
update_round (suc k) c cs s fuel p fits room enough rest =
    let short = length-take k cs in
    let chunk = feed_chunk c (take k cs) s (omega (arith, fits, short)) in
    let left = length-drop k cs in
    sym (ap (update_loop fuel (drop k cs)) chunk)
    ∙ rest (drop k cs) (feed (c ∷ take k cs) s) (length-feed (c ∷ take k cs) s room)
        (omega (arith, left, enough))
    ∙ sym (feed-append (c ∷ take k cs) (drop k cs) s)
    ∙ ap (λ r. feed (c ∷ r) s) (take-drop k cs)

update_loop-feed :
    (fuel : ℕ) (p : Bytes) (s : Sha256)
    → length s.buf < 64
    → length p ≤ fuel
    → update_loop fuel p s ≡ feed p s
unfolding update_loop feed
update_loop-feed zero [] s room enough = refl
update_loop-feed zero (c ∷ cs) s room enough = absurd (omega (arith, enough))
update_loop-feed (suc fuel) [] s room enough = refl
update_loop-feed (suc fuel) (c ∷ cs) s room enough =
    update_round (min (64 - length s.buf) (length (c ∷ cs))) c cs s fuel (omega (arith, room))
      (omega (arith, room)) room (omega (arith, enough)) (update_loop-feed fuel)

abbrev counted : ℕ → Sha256 → Sha256
counted n s = record s { len = (s.len + n) % 2 ^ 64 }

-- With room in the buffer, sha256_update counts the bytes and hashes them as if they came one at a
-- time: it cuts them into blocks at the same places and keeps the same rest in the buffer.
pub sha256_update-feed :
    (p : Bytes) (s : Sha256)
    → length s.buf < 64
    → sha256_update p s ≡ feed p (record s { len = (s.len + length p) % 2 ^ 64 })
unfolding sha256_update
sha256_update-feed p s room =
    update_loop-feed (length p) p (counted (length p) s) room (omega arith)

count_twice : (l m n : ℕ) → ((l + m) % 2 ^ 64 + n) % 2 ^ 64 ≡ (l + (m + n)) % 2 ^ 64
count_twice l m n = omega arith

-- With room in the buffer, two calls of sha256_update leave what one call on both parts leaves, so a
-- digest does not depend on how the message is cut into calls.
pub sha256_update-append :
    (p q : Bytes) (s : Sha256)
    → length s.buf < 64
    → sha256_update q (sha256_update p s) ≡ sha256_update (p ++ q) s
sha256_update-append p q s room =
    let t = feed p s in
    let room' = length-feed p s room in
    ap (sha256_update q) (sha256_update-feed p s room ∙ feed-len p s _)
    ∙ sha256_update-feed q _ room'
    ∙ feed-len q t _
    ∙ ap (λ l. record (feed q t) { len = l }) (count_twice s.len (length p) (length q))
    ∙ sym (
        sha256_update-feed (p ++ q) s room
        ∙ feed-len (p ++ q) s _
        ∙ ap {A = Sha256} (λ u. record u { len = (s.len + length (p ++ q)) % 2 ^ 64 })
            (feed-append p q s)
        ∙ ap (λ n. record (feed q t) { len = (s.len + n) % 2 ^ 64 }) (length-append p q))

-- The rounds of the padding loop from a buffer of b bytes.
abbrev padding : ℕ → ℕ
padding b = (120 - b) % 64

length-flush_mod : (s : Sha256) → length s.buf ≤ 64 → length (flush s).buf ≡ length s.buf % 64
unfolding flush
length-flush_mod s h = elim (Bool-cases (length s.buf == 64)) [
  | inl e ↦ rw e (ground arith)
  | inr e ↦ rw e (ground arith)
]

length-pad :
    (s : Sha256)
    → length s.buf < 64
    → length (sha256_update (0 ∷ []) s).buf ≡ (length s.buf + 1) % 64
unfolding feed
length-pad s room =
    let more = length-snoc s.buf 0 in
    ap (λ t. length t.buf) (sha256_update-feed (0 ∷ []) s room)
    ∙ length-flush_mod _ (omega (arith, more, room))
    ∙ ap (λ n. n % 64) more

pad_loop-length :
    (fuel : ℕ) (s : Sha256)
    → length s.buf < 64
    → padding (length s.buf) ≤ fuel
    → length (pad_loop fuel s).buf ≡ 56
unfolding pad_loop
pad_loop-length zero s room enough = omega (arith, room, enough)
pad_loop-length (suc fuel) s room enough =
    by_test (length s.buf == 56) refl (pad_loop-length fuel (sha256_update (0 ∷ []) s))
  where
    by_test :
        (b : Bool)
        → (length s.buf == 56) ≡ b
        → (length (sha256_update (0 ∷ []) s).buf < 64
            → padding (length (sha256_update (0 ∷ []) s).buf) ≤ fuel
            → length (pad_loop fuel (sha256_update (0 ∷ []) s)).buf ≡ 56)
        → length
            (elim b as (λ _. Sha256) [
              | true ↦ s
              | false ↦ pad_loop fuel (sha256_update (0 ∷ []) s)
            ]).buf
          ≡ 56
    by_test true e rest = ground arith
    by_test false e rest =
        let next = length-pad s room in rest (omega (arith, next)) (rw next (ground arith))

-- With room in the buffer, the padding loop of sha256_final reaches its end within 64 rounds: it
-- leaves 56 bytes in the buffer, the place for the length.
pub pad_loop-reaches : (s : Sha256) → length s.buf < 64 → length (pad_loop 64 s).buf ≡ 56
pad_loop-reaches s room = pad_loop-length 64 s room (omega arith)

-- HMAC as RFC 2104 writes it, from the key as a block of 64 bytes: the digest of the outer key and
-- the digest of the inner key and text.
unfoldable pub hmac_reference : Bytes → Bytes → Bytes
hmac_reference key msg =
    let inner = sha256 (map (λ x. bit_xor x 0x36) (hmac_key key) ++ msg) in
    sha256 (map (λ x. bit_xor x 0x5c) (hmac_key key) ++ inner)

sha256-parts :
    (p q : Bytes) → sha256_final (sha256_update q (sha256_update p sha256_init)) ≡ sha256 (p ++ q)
unfolding sha256 sha256_init
sha256-parts p q = ap sha256_final (sha256_update-append p q sha256_init (omega arith))

-- auth_hmac_sha256, which hashes the padded keys and what follows them in separate calls, computes
-- what RFC 2104 writes for that key block: two digests of SHA-256, each of one concatenation.
pub auth_hmac_sha256-hmac : (key msg : Bytes) → auth_hmac_sha256 key msg ≡ hmac_reference key msg
unfolding auth_hmac_sha256 hmac_reference
auth_hmac_sha256-hmac key msg =
    let inner = map (λ x. bit_xor x 0x36) (hmac_key key) in
    let outer = map (λ x. bit_xor x 0x5c) (hmac_key key) in
    sha256-parts outer (sha256_final (sha256_update msg (sha256_update inner sha256_init)))
    ∙ ap (λ d. sha256 (outer ++ d)) (sha256-parts inner msg)
