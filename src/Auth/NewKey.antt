-- ===== src/Auth/NewKey.antt =====
-- common/auth.c: a key that keygen makes is loaded by the daemon, and opens it.
use sdr_slc_rtld.Base.{
  ℕ, ◌+◌, ◌<◌, ◌≡◌, ◌≢◌, ap, ◌∙◌, true, not, ◌||◌, some, List, [], ◌∷◌, ◌++◌, Bytes, length, leb,
  arith, Bool-cases, inl, inr,
}
use sdr_slc_rtld.Auth.Verify.{Key, auth_hex}
use sdr_slc_rtld.Auth.Keyring.{KeyFile, auth_keyring_load, take_line}
use sdr_slc_rtld.Auth.Keygen.{
  Settings, Host, Outcome, id_bytes, has_id, key_line, append_to, write_line, generate, keygen,
}
use sdr_slc_rtld.Auth.Lines.{NoNul, auth_hex-Visible, length-auth_hex}
use sdr_slc_rtld.Auth.Keyline.{id_bytes-Visible, fgets-key_line, read_line-key_line}
use sdr_slc_rtld.Auth.Keyfile.{
  EndsFile, auth_keyring_load-append_to, new_key, take_line-new, load_loop-last,
}

-- What has happened where keygen exits with 0.
record Done (file : KeyFile) (key_id raw : Bytes) (out : Outcome) : Type 0 where
  visible : id_bytes key_id ≡ true
  short : length key_id < 64
  appended : out.file ≡ append_to file (key_line key_id (auth_hex raw))
  shown : out.printed ≡ some (auth_hex raw)

module _ (h : Host) (file : KeyFile) (key_id raw : Bytes) where
  write_line-code :
      (line psk : Bytes)
      → (write_line h.written file line psk).code ≡ 0
      → write_line h.written file line psk
        ≡ record { code = 0; file = append_to file line; printed = some psk }
  unfolding write_line
  write_line-code line psk e = ground arith

  generate-code :
      h.random ≡ some raw
      → (generate h file key_id).code ≡ 0
      → generate h file key_id ≡ record {
        code = 0;
        file = append_to file (key_line key_id (auth_hex raw));
        printed = some (auth_hex raw);
      }
  unfolding generate
  generate-code r e = elim (Bool-cases (not h.made_parent || not h.opened)) [
    | inl k ↦ absurd (stuck (rw (r, k, generate) at e))
    | inr k ↦ rw (r, k, generate) (write_line-code _ _ (rw (r, k, generate) at e))
  ]
    where
      stuck : ◌≡◌ {A = ℕ} 1 0 → ⊥
      stuck q = omega (arith, q)

module _ (h : Host) (o : Settings) (raw : Bytes) (keys : List Key) where
  keygen-Done :
      h.random ≡ some raw
      → auth_keyring_load (h.files o.path) ≡ some keys
      → (keygen h o).code ≡ 0
      → Done (h.files o.path) o.key_id raw (keygen h o)
  unfolding keygen
  keygen-Done r l e = elim (Bool-cases (not (id_bytes o.key_id) || leb 64 (length o.key_id))) [
    | inl k ↦ absurd (refused 2 (omega arith) (rw k at e))
    | inr k ↦ elim (Bool-cases (has_id keys o.key_id)) [
      | inl q ↦ absurd (refused 1 (omega arith) (rw (k, l, q, keygen) at e))
      | inr q ↦
          let made = generate-code h (h.files o.path) o.key_id raw r (rw (k, l, q, keygen) at e) in
          rw (k, l, q, keygen)
            (record {
              visible = ground arith;
              short = ground arith;
              appended = ap (λ (x : Outcome). x.file) made;
              shown = ap (λ (x : Outcome). x.printed) made;
            })
    ]
  ]
    where
      refused : (n : ℕ) → 0 < n → n ≡ 0 → ⊥
      refused n p q = omega (arith, p, q)

  -- The file that keygen leaves, and what it prints.
  pub keygen-auth_keyring_load :
      h.random ≡ some raw
      → length raw ≡ 32
      → auth_keyring_load (h.files o.path) ≡ some keys
      → length keys < 32
      → EndsFile (h.files o.path)
      → o.key_id ≢ []
      → NoNul o.key_id
      → (keygen h o).code ≡ 0
      → (auth_keyring_load (keygen h o).file ≡ some (keys ++ (new_key o.key_id raw ∷ [])))
        × ((keygen h o).printed ≡ some (auth_hex raw))
  keygen-auth_keyring_load r n l few ends named nonul e =
      let d = keygen-Done r l e in
      let visible = auth_hex-Visible raw in
      let long : length (auth_hex raw) ≡ 64 = omega (arith, length-auth_hex raw, n) in
      let filled : auth_hex raw ≢ [] = λ q. omega (arith, long, ap length q) in
      let line = read_line-key_line o.key_id (auth_hex raw) named d.visible nonul visible filled in
      let whole =
        fgets-key_line o.key_id (auth_hex raw) (id_bytes-Visible o.key_id d.visible nonul) visible
          (room d.short long) in
      let taken = take_line-new o.key_id (auth_hex raw) keys few d.short (fits long) in
      (
        ap auth_keyring_load d.appended
            ∙ auth_keyring_load-append_to (h.files o.path) (key_line o.key_id (auth_hex raw)) ends l
                few
            ∙ load_loop-last (key_line o.key_id (auth_hex raw)) keys _ (not_empty o.key_id _) whole
                (ap (λ x. take_line x keys) line ∙ taken),
        d.shown,
      )
    where
      room :
          length o.key_id < 64
          → length (auth_hex raw) ≡ 64
          → length o.key_id + length (auth_hex raw) < 333
      room a b = omega (arith, a, b)

      fits : length (auth_hex raw) ≡ 64 → length (auth_hex raw) < 256
      fits b = omega (arith, b)

      not_empty : (s t : Bytes) → key_line s t ≢ []
      not_empty [] t q = cc
      not_empty (c ∷ cs) t q = cc
