-- ===== src/Crypto/Samples.antt =====
-- A small cipher, tests and witnesses of the envelope encryption.
use intelli_study_planner_br.Base.{
  ℕ, zero, suc, ◌+◌, ◌-◌, ◌*◌, ◌%◌, ◌≤◌, ◌<◌, leb, ◌&&◌, Bool, any, ◌⊎◌, pos, ◌≡◌, ◌≢◌, refl, sym,
  ap, ◌∙◌, true, Option, none, some, [], ◌∷◌, ◌++◌, Text, codes, arith, length, take, drop,
  if◌then◌else◌, ◌==◌, ==_refl, text_eq, text_beq_iff, Bool-cases, inl, inr, nat_eq,
}
use intelli_study_planner_br.Crypto.Keyring.{
  configuration_error, decryption_error, unicode_error, done, failed, Base64, MasterKeyring, key,
  parse,
}
use intelli_study_planner_br.Crypto.Seal.{
  Cipher, SealedSecret, Drawn, dek_aad, build_aad, seal, unseal, rewrap, unwrap_dek, last4,
}
use intelli_study_planner_br.Crypto.Opened.{IsCipher, unseal-seal, rewrap-unseal}
use intelli_study_planner_br.Crypto.Rows.{unseal-moved}
use intelli_study_planner_br.Crypto.Loaded.{seal-parsed}
use intelli_study_planner_br.Crypto.Token.{UrlBase64, repeat_char, missing, to_token, from_token}
use intelli_study_planner_br.Crypto.Carried.{IsBase64, from_token-to_token}
use intelli_study_planner_br.Crypto.Rows.{is_free}

-- The authenticated data, with its length, in front of the text.
abbrev open_with : Text → Text → Option Text
open_with [] a = none
open_with (n ∷ s) a = if take n s == a then some (drop n s) else none

-- A text with a lone surrogate has no UTF-8.
abbrev is_surrogate : ℕ → Bool
is_surrogate c = leb 55296 c && leb c 57343

abbrev cipher : Cipher
cipher = record {
  encrypt = λ k n p a. length a ∷ (a ++ p);
  decrypt = λ k n c a. open_with c a;
  encode = λ s. if any is_surrogate s then none else some s;
  decode = λ s. if any is_surrogate s then none else some s;
}

take-length : (a p : Text) → take (length a) (a ++ p) ≡ a
take-length [] p = refl
take-length (c ∷ a) p = ap (λ (t : Text). c ∷ t) (take-length a p)

drop-length : (a p : Text) → drop (length a) (a ++ p) ≡ p
drop-length [] p = refl
drop-length (c ∷ a) p = drop-length a p

other_data : (a a' p : Text) → a ≢ a' → open_with (length a ∷ (a ++ p)) a' ≡ none
other_data a a' p ne = elim (Bool-cases (take (length a) (a ++ p) == a')) [
  | inl same ↦
      absurd (ne (sym (take-length a p) ∙ (text_beq_iff (take (length a) (a ++ p)) a').0 same))
  | inr other ↦ rw other
]

cipher-IsCipher : IsCipher cipher
cipher-IsCipher = record {
  opens = λ k n p a. rw (take-length a p, ==_refl a, drop-length a p);
  binds = λ k n p a a' ne. other_data a a' p ne;
  decodes = λ s b e. ground arith;
}

abbrev old_ring : MasterKeyring
old_ring = record { keys = (pos 1, codes "first") ∷ []; active_version = pos 1 }

abbrev new_ring : MasterKeyring
new_ring = record {
  keys = (pos 1, codes "first") ∷ (pos 2, codes "second") ∷ [];
  active_version = pos 2;
}

abbrev drawn : Drawn
drawn = record { dek = codes "data key"; nonce = codes "n"; dek_nonce = codes "m" }

abbrev row_aad : Text
row_aad = build_aad (codes "ann") (codes "openai") (codes "c1")

abbrev sealed : SealedSecret
sealed = record {
  ciphertext = length row_aad ∷ (row_aad ++ codes "sk-1");
  nonce = codes "n";
  dek_wrapped = length dek_aad ∷ (dek_aad ++ codes "data key");
  dek_nonce = codes "m";
  key_version = pos 1;
}

seals : seal cipher (codes "sk-1") row_aad old_ring drawn ≡ done sealed
unfolding seal key
seals = refl

unseal-seal_example : unseal cipher sealed row_aad old_ring ≡ done (codes "sk-1")
unseal-seal_example =
    unseal-seal cipher (codes "sk-1") row_aad old_ring drawn sealed cipher-IsCipher seals

abbrev rewrapped : SealedSecret
rewrapped = record sealed { dek_nonce = codes "o"; key_version = pos 2 }

rewraps : rewrap cipher sealed new_ring (codes "o") ≡ done rewrapped
unfolding rewrap unwrap_dek key
rewraps = refl

rewrap-unseal_example :
    ((aad : Text) → unseal cipher rewrapped aad new_ring ≡ unseal cipher sealed aad new_ring)
    × ((later : Text) → rewrap cipher rewrapped new_ring later ≡ done rewrapped)
rewrap-unseal_example =
    rewrap-unseal cipher sealed rewrapped new_ring (codes "o") cipher-IsCipher rewraps

other_row :
    codes "ann" ∷ codes "openai" ∷ codes "c1" ∷ [] ≢ codes "bob" ∷ codes "openai" ∷ codes "c1" ∷ []
other_row e = grind arith

unseal-moved_example :
    unseal cipher sealed (build_aad (codes "bob") (codes "openai") (codes "c1")) old_ring
    ≡ failed decryption_error
unseal-moved_example =
    unseal-moved cipher (codes "ann") (codes "openai") (codes "c1") (codes "bob") (codes "openai")
      (codes "c1") (codes "sk-1") old_ring drawn sealed cipher-IsCipher refl refl other_row seals

-- A decoder that takes every text of 32 characters as it is.
abbrev base64 : Base64
base64 = record { standard = λ s. some s; url_safe = λ s. none }

abbrev key_text : Text
key_text = codes "0123456789abcdef0123456789abcdef"

abbrev parsed_ring : MasterKeyring
parsed_ring = record { keys = (pos 2, key_text) ∷ []; active_version = pos 2 }

parses : parse base64 (codes " 2:0123456789abcdef0123456789abcdef, ") (pos 2) ≡ done parsed_ring
unfolding parse
parses = refl

refuses_version :
    parse base64 (codes "0123456789abcdef0123456789abcdef") (pos 2) ≡ failed configuration_error
unfolding parse
refuses_version = refl

shows_last4 : last4 (codes " sk-abc ") ≡ codes "-abc"
unfolding last4
shows_last4 = refl

refuses_surrogate : seal cipher (55357 ∷ []) row_aad parsed_ring drawn ≡ failed unicode_error
unfolding seal
refuses_surrogate = refl

seal-parsed_example :
    ((cipher.encode (codes "sk-1") ≡ none)
      × (seal cipher (codes "sk-1") row_aad parsed_ring drawn ≡ failed unicode_error))
    ⊎ (bytes : Text) × (cipher.encode (codes "sk-1") ≡ some bytes)
      × (s : SealedSecret) × (seal cipher (codes "sk-1") row_aad parsed_ring drawn ≡ done s)
seal-parsed_example =
    seal-parsed base64 cipher (codes " 2:0123456789abcdef0123456789abcdef, ") (pos 2) parsed_ring
      (codes "sk-1") row_aad drawn parses

-- Two characters for a byte, which are neither padding nor dots.
pairs : Text → Text
pairs [] = []
pairs (c ∷ s) = (c + 100) ∷ (c + 100) ∷ pairs s

unpairs : Text → Text
unpairs (x ∷ y ∷ s) = let rest = unpairs s in if leb 100 x then (x - 100) ∷ rest else []
unpairs _ = []

abbrev pairs64 : UrlBase64
pairs64 = record {
  encode64 = λ raw. pairs raw ++ repeat_char b'=' (missing (pairs raw));
  decode64 = λ text. some (unpairs text);
}

length-pairs : (s : Text) → length (pairs s) ≡ 2 * length s
unfolding pairs
length-pairs [] = refl
length-pairs (c ∷ s) = omega (arith, length-pairs s)

few_missing : (l m : ℕ) → l ≡ 2 * m → (4 - l % 4) % 4 ≤ 2
few_missing l m e = omega arith

whole_length : (l : ℕ) → (l + (4 - l % 4) % 4) % 4 ≡ 0
whole_length l = omega arith

pairs_free : (d : ℕ) (s : Text) → d < 100 → is_free d (pairs s) ≡ true
unfolding pairs
pairs_free d [] h = refl
pairs_free d (c ∷ s) h = grind (arith, pairs_free d s)

unpairs-pairs : (s : Text) (k : ℕ) → unpairs (pairs s ++ repeat_char b'=' k) ≡ s
unfolding pairs unpairs
unpairs-pairs [] zero = refl
unpairs-pairs [] (suc zero) = refl
unpairs-pairs [] (suc (suc k)) = refl
unpairs-pairs (c ∷ s) k = grind (arith, unpairs-pairs s k)

pairs64-IsBase64 : IsBase64 pairs64
pairs64-IsBase64 = record {
  body = pairs;
  padding = λ raw. missing (pairs raw);
  encodes = λ raw. refl;
  few = λ raw. few_missing (length (pairs raw)) (length raw) (length-pairs raw);
  whole = λ raw. whole_length (length (pairs raw));
  no_equals = λ raw. pairs_free b'=' raw (omega arith);
  no_dots = λ raw. pairs_free b'.' raw (omega arith);
  decodes = λ raw. ap some (unpairs-pairs raw (missing (pairs raw)));
}

from_token-to_token_example : from_token pairs64 (to_token pairs64 sealed) ≡ some sealed
from_token-to_token_example =
    from_token-to_token pairs64 sealed.ciphertext sealed.nonce sealed.dek_wrapped sealed.dek_nonce 1
      pairs64-IsBase64

not_a_token : from_token pairs64 (codes "sk-plain") ≡ none
unfolding from_token
not_a_token = refl
