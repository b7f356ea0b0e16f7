-- ===== src/Crypto/Carried.antt =====
-- A token is read back as the secret that it carries.
use intelli_study_planner_br.Base.{
  ℕ, zero, suc, ◌+◌, ◌-◌, ◌%◌, ◌≤◌, pos, ◌≡◌, refl, sym, ap, ◌∙◌, true, some, [], ◌∷◌, ◌++◌, Text,
  codes, arith, length, all, text_of_nat, text_of_int, nat_eq, text_eq, ==_refl, text_of_nat-digits,
  int_of_text-text_of_nat, is_digit,
}
use intelli_study_planner_br.Crypto.Seal.{SealedSecret}
use intelli_study_planner_br.Crypto.Rows.{is_free, split_on-join}
use intelli_study_planner_br.Crypto.Token.{
  UrlBase64, repeat_char, rstrip, b64, unb64, to_token, from_parts, from_token,
}

-- What is documented of URL-safe base64: a body without `=` or `.`, padded with at most two `=` to a
-- multiple of four, and the decoder undoes the encoder.
pub record IsBase64 (B : UrlBase64) : Type 0 where
  pub body : Text → Text
  pub padding : Text → ℕ
  pub encodes : (raw : Text) → B.encode64 raw ≡ body raw ++ repeat_char b'=' (padding raw)
  pub few : (raw : Text) → padding raw ≤ 2
  pub whole : (raw : Text) → (length (body raw) + padding raw) % 4 ≡ 0
  pub no_equals : (raw : Text) → is_free b'=' (body raw) ≡ true
  pub no_dots : (raw : Text) → is_free b'.' (body raw) ≡ true
  pub decodes : (raw : Text) → B.decode64 (B.encode64 raw) ≡ some raw

rstrip-repeat_char : (c n : ℕ) → rstrip c (repeat_char c n) ≡ []
unfolding rstrip
rstrip-repeat_char c zero = refl
rstrip-repeat_char c (suc n) = rw (rstrip-repeat_char c n, ==_refl c)

rstrip-append : (c n : ℕ) (s : Text) → is_free c s ≡ true → rstrip c (s ++ repeat_char c n) ≡ s
unfolding rstrip
rstrip-append c n [] f = rstrip-repeat_char c n
rstrip-append c n (d ∷ s) f = grind (arith, rstrip-append c n s)

missing-exact : (l k : ℕ) → k ≤ 2 → (l + k) % 4 ≡ 0 → (4 - l % 4) % 4 ≡ k
missing-exact l k h e = omega arith

no_dot_digits : (s : Text) → all is_digit s ≡ true → is_free b'.' s ≡ true
no_dot_digits [] h = refl
no_dot_digits (c ∷ s) h = grind (arith, no_dot_digits s)

module _ (B : UrlBase64) where
  b64-body : (law : IsBase64 B) (raw : Text) → b64 B raw ≡ law.body raw
  unfolding b64
  b64-body law raw =
      ap (rstrip b'=') (law.encodes raw)
      ∙ rstrip-append b'=' (law.padding raw) (law.body raw) (law.no_equals raw)

  unb64-b64 : (law : IsBase64 B) (raw : Text) → unb64 B (b64 B raw) ≡ some raw
  unfolding unb64
  unb64-b64 law raw =
      ap (unb64 B) (b64-body law raw)
      ∙ ap (λ k. B.decode64 (law.body raw ++ repeat_char b'=' k))
          (missing-exact (length (law.body raw)) (law.padding raw) (law.few raw) (law.whole raw))
      ∙ ap B.decode64 (sym (law.encodes raw))
      ∙ law.decodes raw

  b64_free : (law : IsBase64 B) (raw : Text) → is_free b'.' (b64 B raw) ≡ true
  b64_free law raw = ap (is_free b'.') (b64-body law raw) ∙ law.no_dots raw

  -- Over a base64 codec as it is documented, the token of a sealed secret, whose version is no negative
  -- number, is read back as that secret.
  pub from_token-to_token :
      (ciphertext nonce dek_wrapped dek_nonce : Text) (version : ℕ)
      → IsBase64 B
      → let sealed : SealedSecret = record {
        ciphertext = ciphertext;
        nonce = nonce;
        dek_wrapped = dek_wrapped;
        dek_nonce = dek_nonce;
        key_version = pos version;
      } in
        from_token B (to_token B sealed) ≡ some sealed
  unfolding from_token to_token text_of_int
  from_token-to_token ciphertext nonce dek_wrapped dek_nonce version law =
      ap (from_parts B) (
        split_on-join b'.' (codes "v1")
          (text_of_nat version
            ∷ b64 B nonce
            ∷ b64 B ciphertext
            ∷ b64 B dek_nonce
            ∷ b64 B dek_wrapped
            ∷ [])
          (rw (
            no_dot_digits (text_of_nat version) (text_of_nat-digits version),
            b64_free law nonce,
            b64_free law ciphertext,
            b64_free law dek_nonce,
            b64_free law dek_wrapped,
          )))
      ∙ rw (
        int_of_text-text_of_nat version,
        unb64-b64 law nonce,
        unb64-b64 law ciphertext,
        unb64-b64 law dek_nonce,
        unb64-b64 law dek_wrapped,
      )
