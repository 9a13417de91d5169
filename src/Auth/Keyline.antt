-- ===== src/Auth/Keyline.antt =====
-- common/auth.c: auth_keyring_load reads the line that auth_keygen_main writes.
use mathlib.Core.List.{append_assoc}
use sdr_slc_rtld.Base.{
  ℕ, zero, suc, ◌+◌, ◌<◌, ◌≡◌, ◌≢◌, refl, ap, sym, ◌∙◌, true, false, [], ◌∷◌, ◌++◌, Bytes, length,
  length-append, ◌==◌, arith, Bool-cases, inl, inr,
}
use sdr_slc_rtld.Libc.{is_space, skip_spaces, fgets}
use sdr_slc_rtld.Auth.Keyring.{split_word, entry, read_secret, read_entry, read_line, trim_end}
use sdr_slc_rtld.Auth.Keygen.{id_byte, id_bytes, key_line}
use sdr_slc_rtld.Auth.Lines.{Visible, NoNul, Visible-NoNul, NoNul-append, until_nul-NoNul}

pub id_bytes-Visible : (s : Bytes) → id_bytes s ≡ true → NoNul s → Visible s
unfolding id_bytes id_byte
id_bytes-Visible [] e n = tt
id_bytes-Visible (c ∷ cs) e (a, n) = (ground arith, a, id_bytes-Visible cs (ground arith) n)

-- Without a newline before its end, a line that fits is read whole.
abbrev NoNewline : Bytes → Type 0
NoNewline [] = Unit
NoNewline (c ∷ cs) = (c ≢ b'\n') × NoNewline cs

Visible-NoNewline : (s : Bytes) → Visible s → NoNewline s
unfolding is_space
Visible-NoNewline [] v = tt
Visible-NoNewline (c ∷ cs) (a, b, v) = (ground arith, Visible-NoNewline cs v)

NoNewline-append : (s t : Bytes) → NoNewline s → NoNewline t → NoNewline (s ++ t)
NoNewline-append [] t a b = b
NoNewline-append (c ∷ cs) t (x, a) b = (x, NoNewline-append cs t a b)

fgets_whole :
    (room : ℕ) (s : Bytes)
    → NoNewline s
    → length s < room
    → fgets room (s ++ (b'\n' ∷ [])) ≡ (s ++ (b'\n' ∷ []), [])
unfolding fgets
fgets_whole zero s n h = absurd (omega (arith, h))
fgets_whole (suc room) [] n h = refl
fgets_whole (suc room) (c ∷ cs) (a, n) h = elim (Bool-cases (c == b'\n')) [
  | inl k ↦ absurd (a (ground arith))
  | inr k ↦ rw (k, fgets_whole room cs n (omega (arith, h))) refl
]

trim_end-space : (c : ℕ) → is_space c ≡ true → trim_end (c ∷ []) ≡ []
unfolding trim_end
trim_end-space c e = rw e refl

trim_end-Visible :
    (c : ℕ) (cs : Bytes) → Visible (c ∷ cs) → trim_end (c ∷ (cs ++ (b'\n' ∷ []))) ≡ c ∷ cs
unfolding trim_end
trim_end-Visible c [] (a, b, v) = rw a refl
trim_end-Visible c (d ∷ ds) (a, b, v) = rw (trim_end-Visible d ds v) refl

trim_end-append :
    (pre x : Bytes) (d : ℕ) (ds : Bytes)
    → trim_end x ≡ d ∷ ds
    → trim_end (pre ++ x) ≡ pre ++ (d ∷ ds)
unfolding trim_end
trim_end-append [] x d ds e = e
trim_end-append (c ∷ []) x d ds e = rw e refl
trim_end-append (c ∷ c' ∷ pre) x d ds e = rw (trim_end-append (c' ∷ pre) x d ds e) refl

split_word-Visible : (s t : Bytes) → Visible s → split_word (s ++ (b' ' ∷ t)) ≡ (s, b' ' ∷ t)
unfolding split_word is_space
split_word-Visible [] t v = refl
split_word-Visible (c ∷ cs) t (a, b, v) = rw (split_word-Visible cs t v) (ground arith)

skip_spaces-Visible : (c : ℕ) (cs : Bytes) → is_space c ≡ false → skip_spaces (c ∷ cs) ≡ c ∷ cs
unfolding skip_spaces
skip_spaces-Visible c cs a = rw a refl

read_secret-Visible :
    (key_id : Bytes) (c : ℕ) (cs : Bytes)
    → is_space c ≡ false
    → read_secret key_id (b' ' ∷ c ∷ cs) ≡ entry key_id (c ∷ cs)
unfolding read_secret
read_secret-Visible key_id c cs a = rw (skip_spaces-Visible c cs a, read_secret) refl

read_entry-words :
    (key_id psk : Bytes)
    → Visible key_id
    → Visible psk
    → psk ≢ []
    → read_entry (key_id ++ (b' ' ∷ psk)) ≡ entry key_id psk
unfolding read_entry
read_entry-words key_id [] v w n = absurd (n refl)
read_entry-words key_id (c ∷ cs) v w n =
    rw (split_word-Visible key_id (c ∷ cs) v) (read_secret-Visible key_id c cs w.0)

module _ (key_id psk : Bytes) where
  key_line-body : key_line key_id psk ≡ (key_id ++ (b' ' ∷ psk)) ++ (b'\n' ∷ [])
  key_line-body = sym (append_assoc key_id (b' ' ∷ psk) (b'\n' ∷ []))

  key_line-NoNul : Visible key_id → Visible psk → NoNul (key_line key_id psk)
  key_line-NoNul v w = NoNul-append key_id _ (Visible-NoNul key_id v) (
    (λ e. omega (arith, e)),
    NoNul-append psk (b'\n' ∷ []) (Visible-NoNul psk w) ((λ e. omega (arith, e)), tt),
  )

  pub fgets-key_line :
      Visible key_id
      → Visible psk
      → length key_id + length psk < 333
      → fgets 335 (key_line key_id psk) ≡ (key_line key_id psk, [])
  fgets-key_line v w h = rw key_line-body (
      fgets_whole 335 (key_id ++ (b' ' ∷ psk))
        (NoNewline-append key_id (b' ' ∷ psk) (Visible-NoNewline key_id v)
          ((λ e. omega (arith, e)), Visible-NoNewline psk w))
        (omega (arith, length-append key_id (b' ' ∷ psk), h)))

trim_end-key_line :
    (key_id psk : Bytes)
    → Visible psk
    → psk ≢ []
    → trim_end (key_line key_id psk) ≡ key_id ++ (b' ' ∷ psk)
trim_end-key_line key_id [] w n = absurd (n refl)
trim_end-key_line key_id (c ∷ cs) w n =
    ap trim_end (sym (append_assoc key_id (b' ' ∷ []) _))
    ∙ trim_end-append (key_id ++ (b' ' ∷ [])) _ c cs (trim_end-Visible c cs w)
    ∙ append_assoc key_id (b' ' ∷ []) (c ∷ cs)

-- A line that begins with a visible byte other than the mark of a comment.
read_line-entry :
    (x : ℕ) (rest : Bytes)
    → NoNul (x ∷ rest)
    → is_space x ≡ false
    → (x == b'#') ≡ false
    → read_line (x ∷ rest) ≡ read_entry (trim_end (x ∷ rest))
unfolding read_line read_entry
read_line-entry x rest n a k =
    rw (until_nul-NoNul (x ∷ rest) n, skip_spaces-Visible x rest a, k, read_line) refl

pub read_line-key_line :
    (key_id psk : Bytes)
    → key_id ≢ []
    → id_bytes key_id ≡ true
    → NoNul key_id
    → Visible psk
    → psk ≢ []
    → read_line (key_line key_id psk) ≡ entry key_id psk
unfolding id_bytes id_byte
read_line-key_line [] psk m e o w n = absurd (m refl)
read_line-key_line (x ∷ xs) psk m e o w n =
    let v = id_bytes-Visible (x ∷ xs) e o in
    read_line-entry x _ (key_line-NoNul (x ∷ xs) psk v w) v.0 (ground arith)
    ∙ ap read_entry (trim_end-key_line (x ∷ xs) psk w n)
    ∙ read_entry-words (x ∷ xs) psk v w n
