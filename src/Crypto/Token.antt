-- ===== src/Crypto/Token.antt =====
-- A sealed secret as one text: to_token and from_token. base64.urlsafe_b64encode and urlsafe_b64decode
-- are parameters, `none` where the decoder raises.
use intelli_study_planner_br.Base.{
  ℕ, zero, suc, ◌-◌, ◌%◌, ◌&&◌, Option, none, some, List, [], ◌∷◌, ◌++◌, Text, codes, join, length,
  is_empty, text_of_int, int_of_text, if◌then◌else◌, ◌==◌, nat_eq, text_eq,
}
use intelli_study_planner_br.Base.Maybe.{◌>>=◌}
use intelli_study_planner_br.Enrolment.Cells.{split_on}
use intelli_study_planner_br.Crypto.Seal.{SealedSecret}

pub record UrlBase64 : Type 0 where
  pub encode64 : Text → Text
  pub decode64 : Text → Option Text

abbrev pub repeat_char : ℕ → ℕ → Text
repeat_char c zero = []
repeat_char c (suc n) = c ∷ repeat_char c n

-- s.rstrip(c) for a character
unfoldable pub rstrip : ℕ → Text → Text
rstrip c [] = []
rstrip c (d ∷ s) = let rest = rstrip c s in if is_empty rest && (d == c) then [] else d ∷ rest

-- -len(text) % 4
abbrev pub missing : Text → ℕ
missing text = (4 - length text % 4) % 4

module _ (B : UrlBase64) where
  -- _b64
  unfoldable pub b64 : Text → Text
  b64 raw = rstrip b'=' (B.encode64 raw)

  -- _unb64
  unfoldable pub unb64 : Text → Option Text
  unb64 text = B.decode64 (text ++ repeat_char b'=' (missing text))

  unfoldable pub to_token : SealedSecret → Text
  unfolding join text_of_int
  to_token sealed = join (codes ".") (
      codes "v1"
      ∷ text_of_int sealed.key_version
      ∷ b64 sealed.nonce
      ∷ b64 sealed.ciphertext
      ∷ b64 sealed.dek_nonce
      ∷ b64 sealed.dek_wrapped
      ∷ [])

  unfoldable pub from_parts : List Text → Option SealedSecret
  from_parts (tag ∷ version ∷ nonce ∷ ciphertext ∷ dek_nonce ∷ dek_wrapped ∷ []) =
      let sealed : Option SealedSecret = do
        key_version ← int_of_text version
        n ← unb64 nonce
        c ← unb64 ciphertext
        dn ← unb64 dek_nonce
        dw ← unb64 dek_wrapped
        some (record {
          ciphertext = c;
          nonce = n;
          dek_wrapped = dw;
          dek_nonce = dn;
          key_version = key_version;
        })
      in if tag == codes "v1" then sealed else none
  from_parts _ = none

  unfoldable pub from_token : Text → Option SealedSecret
  unfolding split_on from_parts
  from_token token = from_parts (split_on b'.' token)
