-- ===== src/Crypto/Keyring.antt =====
-- The master keys: MasterKeyring and _decode_master_key.
use intelli_study_planner_br.Base.{
  ℕ, ℤ, pos, Option, none, some, List, [], ◌∷◌, ◌++◌, Text, length, strip, is_empty, int_of_text,
  if◌then◌else◌, ◌==◌, nat_eq, int_eq, any,
}
use intelli_study_planner_br.Enrolment.Cells.{split_on}

-- VaultConfigurationError and DecryptionError, and the UnicodeError of encode() and decode().
pub data Error : Type 0 where
  configuration_error decryption_error unicode_error : Error

pub data Outcome {ℓ} (A : Type ℓ) : Type ℓ where
  done : A → Outcome A
  failed : Error → Outcome A

infixl 5 ◌>>=◌
abbrev pub ◌>>=◌ {ℓ κ} : {A : Type ℓ} {B : Type κ} → Outcome A → (A → Outcome B) → Outcome B
done a >>= f = f a
failed e >>= f = failed e

-- b64decode with the standard alphabet and with the URL-safe one, strictly; `none` where it raises.
pub record Base64 : Type 0 where
  pub standard : Text → Option Text
  pub url_safe : Text → Option Text

pub record MasterKeyring : Type 0 where
  pub keys : List (ℤ × Text)
  pub active_version : ℤ

unfoldable pub key_in : ℤ → List (ℤ × Text) → Option Text
key_in version [] = none
key_in version ((v, key) ∷ keys) = if v == version then some key else key_in version keys

abbrev found_key : Option Text → Outcome Text
found_key none = failed configuration_error
found_key (some key) = done key

-- MasterKeyring.key
unfoldable pub key : MasterKeyring → ℤ → Outcome Text
unfolding key_in
key ring version = found_key (key_in version ring.keys)

-- entry.rpartition(":") where there is a colon: what is before and behind the last one.
abbrev onto_before : ℕ → ℕ → Text → Option (Text × Text) → Option (Text × Text)
onto_before c d s (some (a, b)) = some (d ∷ a, b)
onto_before c d s none = if d == c then some ([], s) else none

unfoldable pub last_split : ℕ → Text → Option (Text × Text)
last_split c [] = none
last_split c (d ∷ s) = onto_before c d s (last_split c s)

abbrev pub rpartition : Text → Text × Text
rpartition entry = elim (last_split b':' entry) [ none ↦ ([], entry) | some parts ↦ parts ]

abbrev pub version_of : Text → Option ℤ
version_of [] = some (pos 1)
version_of (c ∷ s) = int_of_text (c ∷ s)

-- MASTER_KEY_BYTES
abbrev of_length : Text → Outcome Text
of_length bytes = if length bytes == 32 then done bytes else failed configuration_error

abbrev or_else : Option Text → Outcome Text → Outcome Text
or_else none other = other
or_else (some bytes) other = of_length bytes

module _ (B : Base64) where
  -- _decode_master_key
  unfoldable pub decode_master_key : Text → Outcome Text
  unfolding strip
  decode_master_key text =
      or_else (B.standard (strip text))
        (or_else (B.url_safe (strip text)) (failed configuration_error))

  abbrev pub add_version : List (ℤ × Text) → Text → Option ℤ → Outcome (List (ℤ × Text))
  add_version keys key_text none = failed configuration_error
  add_version keys key_text (some version) =
      if any (λ (k : ℤ × Text). k.0 == version) keys
      then failed configuration_error
      else decode_master_key key_text >>= λ bytes. done (keys ++ (version, bytes) ∷ [])

  abbrev pub add_entry : List (ℤ × Text) → Text → Outcome (List (ℤ × Text))
  add_entry keys [] = done keys
  add_entry keys (c ∷ s) =
      let parts : Text × Text = rpartition (c ∷ s) in add_version keys parts.1 (version_of parts.0)

  unfoldable pub add_entries : List (ℤ × Text) → List Text → Outcome (List (ℤ × Text))
  unfolding strip last_split int_of_text decode_master_key
  add_entries keys [] = done keys
  add_entries keys (entry ∷ entries) =
      add_entry keys (strip entry) >>= λ keys'. add_entries keys' entries

  abbrev pub checked_ring : ℤ → List (ℤ × Text) → Outcome MasterKeyring
  checked_ring active_version keys =
      if is_empty keys
      then failed configuration_error
      else if any (λ (k : ℤ × Text). k.0 == active_version) keys
      then done (record { keys = keys; active_version = active_version })
      else failed configuration_error

  -- MasterKeyring.parse
  unfoldable pub parse : Text → ℤ → Outcome MasterKeyring
  unfolding add_entries split_on
  parse spec active_version = add_entries [] (split_on b',' spec) >>= checked_ring active_version
