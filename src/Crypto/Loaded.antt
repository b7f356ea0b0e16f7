-- ===== src/Crypto/Loaded.antt =====
-- A keyring that was parsed is one that secrets can be sealed with.
use intelli_study_planner_br.Base.{
  ℤ, ◌≡◌, sym, ◌∙◌, true, some, List, [], ◌∷◌, Text, arith, any, ◌==◌, int_eq, Bool-cases, inl, inr,
  ◌⊎◌, Option, none, refl,
}
use intelli_study_planner_br.Crypto.Keyring.{
  done, failed, unicode_error, Base64, MasterKeyring, key_in, key, add_entries, checked_ring, parse,
}
use intelli_study_planner_br.Enrolment.Cells.{split_on}
use intelli_study_planner_br.Crypto.Seal.{Cipher, SealedSecret, Drawn, dek_aad, seal}
use intelli_study_planner_br.Crypto.Opened.{bind-done}

any-key_in :
    (v : ℤ) (keys : List (ℤ × Text))
    → any (λ (k : ℤ × Text). k.0 == v) keys ≡ true
    → (bytes : Text) × (key_in v keys ≡ some bytes)
unfolding key_in
any-key_in v [] h = absurd (grind arith)
any-key_in v ((w, bytes) ∷ keys) h = elim (Bool-cases (w == v)) [
  | inl same ↦ (bytes, rw same)
  | inr other ↦ (let (b, e) = any-key_in v keys (sym (rw other) ∙ h) in (b, rw (other, e)))
]

none-or-some : (o : Option Text) → (o ≡ none) ⊎ (bytes : Text) × (o ≡ some bytes)
none-or-some none = inl refl
none-or-some (some bytes) = inr (bytes, refl)

module _ (B : Base64) where
  ring-active :
      (v : ℤ) (keys : List (ℤ × Text)) (ring : MasterKeyring)
      → checked_ring B v keys ≡ done ring
      → any (λ (k : ℤ × Text). k.0 == ring.active_version) ring.keys ≡ true
  ring-active v keys ring e = grind arith

  parse-active :
      (spec : Text) (v : ℤ) (ring : MasterKeyring)
      → parse B spec v ≡ done ring
      → (master : Text) × (key ring ring.active_version ≡ done master)
  unfolding parse key
  parse-active spec v ring e =
      let (keys, entries, checked) =
        bind-done (add_entries B [] (split_on b',' spec)) (checked_ring B v) ring e in
      let (master, there) =
        any-key_in ring.active_version ring.keys (ring-active v keys ring checked) in
      (master, rw there)

  -- Under a keyring that was parsed from the settings, sealing fails for a text that has no UTF-8, with
  -- the error of encode(), and for no other text: the active master key is one of the loaded ones, so
  -- there is never a configuration error.
  pub seal-parsed :
      (C : Cipher) (spec : Text) (v : ℤ) (ring : MasterKeyring) (plaintext aad : Text)
      (drawn : Drawn)
      → parse B spec v ≡ done ring
      → ((C.encode plaintext ≡ none) × (seal C plaintext aad ring drawn ≡ failed unicode_error))
        ⊎ (bytes : Text) × (C.encode plaintext ≡ some bytes)
          × (sealed : SealedSecret) × (seal C plaintext aad ring drawn ≡ done sealed)
  unfolding seal
  seal-parsed C spec v ring plaintext aad drawn e =
      let (master, there) = parse-active spec v ring e in
      elim (none-or-some (C.encode plaintext)) [
        | inl missing ↦ inl (missing, rw missing)
        | inr (bytes, written) ↦ inr (
          bytes,
          written,
          record {
            ciphertext = C.encrypt drawn.dek drawn.nonce bytes aad;
            nonce = drawn.nonce;
            dek_wrapped = C.encrypt master drawn.dek_nonce drawn.dek dek_aad;
            dek_nonce = drawn.dek_nonce;
            key_version = ring.active_version;
          },
          rw (written, there),
        )
      ]
