-- ===== src/Crypto/Seal.antt =====
-- Sealing, opening and rewrapping a secret. The bytes that os.urandom draws are arguments.
use intelli_study_planner_br.Base.{
  ℤ, Option, none, some, [], ◌∷◌, ◌++◌, Text, codes, join, drop, length, strip, if◌then◌else◌, ◌==◌,
  int_eq, ◌-◌,
}
use intelli_study_planner_br.Crypto.Keyring.{
  decryption_error, unicode_error, Outcome, done, failed, ◌>>=◌, MasterKeyring, key,
}

-- AESGCM(key).encrypt(nonce, data, aad) and decrypt, with `none` for InvalidTag; the UTF-8 of encode()
-- and decode(), with `none` for a UnicodeError (a lone surrogate, bytes that are not UTF-8).
pub record Cipher : Type 0 where
  pub encrypt : Text → Text → Text → Text → Text
  pub decrypt : Text → Text → Text → Text → Option Text
  pub encode : Text → Option Text
  pub decode : Text → Option Text

pub record SealedSecret : Type 0 where
  pub ciphertext : Text
  pub nonce : Text
  pub dek_wrapped : Text
  pub dek_nonce : Text
  pub key_version : ℤ

-- _DEK_AAD
abbrev pub dek_aad : Text
dek_aad = codes "intellistudy:llm-credential-dek:v1"

-- build_aad; ids and provider as texts.
unfoldable pub build_aad : Text → Text → Text → Text
unfolding join
build_aad user_id provider credential_id =
    join (codes "|") (codes "llm-credential" ∷ user_id ∷ provider ∷ credential_id ∷ [])

-- What a call of `seal` draws.
pub record Drawn : Type 0 where
  pub dek : Text
  pub nonce : Text
  pub dek_nonce : Text

abbrev pub opened : Option Text → Outcome Text
opened none = failed decryption_error
opened (some bytes) = done bytes

abbrev pub coded : Option Text → Outcome Text
coded none = failed unicode_error
coded (some text) = done text

module _ (C : Cipher) where
  unfoldable pub seal : Text → Text → MasterKeyring → Drawn → Outcome SealedSecret
  seal plaintext aad ring drawn = coded (C.encode plaintext) >>= λ bytes.
      key ring ring.active_version >>= λ master. done (record {
        ciphertext = C.encrypt drawn.dek drawn.nonce bytes aad;
        nonce = drawn.nonce;
        dek_wrapped = C.encrypt master drawn.dek_nonce drawn.dek dek_aad;
        dek_nonce = drawn.dek_nonce;
        key_version = ring.active_version;
      })

  -- _unwrap_dek
  unfoldable pub unwrap_dek : SealedSecret → MasterKeyring → Outcome Text
  unwrap_dek sealed ring = key ring sealed.key_version >>= λ master.
      opened (C.decrypt master sealed.dek_nonce sealed.dek_wrapped dek_aad)

  unfoldable pub unseal : SealedSecret → Text → MasterKeyring → Outcome Text
  unseal sealed aad ring = unwrap_dek sealed ring >>= λ dek.
      opened (C.decrypt dek sealed.nonce sealed.ciphertext aad) >>= λ bytes. coded (C.decode bytes)

  unfoldable pub rewrap : SealedSecret → MasterKeyring → Text → Outcome SealedSecret
  rewrap sealed ring dek_nonce =
      if sealed.key_version == ring.active_version
      then done sealed
      else unwrap_dek sealed ring >>= λ dek. key ring ring.active_version >>= λ master.
          done (record {
            ciphertext = sealed.ciphertext;
            nonce = sealed.nonce;
            dek_wrapped = C.encrypt master dek_nonce dek dek_aad;
            dek_nonce = dek_nonce;
            key_version = ring.active_version;
          })

-- last4
unfoldable pub last4 : Text → Text
unfolding strip
last4 secret = padded (drop (length (strip secret) - 4) (strip secret))
  where
    padded : Text → Text
    padded tail = drop (length tail) (codes "****") ++ tail
