-- ===== src/Crypto/Rows.antt =====
-- A sealed secret and the row that it belongs to.
use mathlib.Core.List.{append_assoc}
use intelli_study_planner_br.Base.{
  ℕ, ◌≡◌, ◌≢◌, sym, ap, ◌∙◌, Bool, true, not, List, [], ◌∷◌, ◌++◌, Text, codes, join, drop, arith,
  all, elem, nat_eq,
}
use intelli_study_planner_br.Enrolment.Cells.{split_on}
use intelli_study_planner_br.Enrolment.Trimmed.{split_on-free, split_on-append}
use intelli_study_planner_br.Crypto.Keyring.{decryption_error, done, failed, MasterKeyring}
use intelli_study_planner_br.Crypto.Seal.{Cipher, SealedSecret, Drawn, build_aad, seal, unseal}
use intelli_study_planner_br.Crypto.Opened.{IsCipher, seal-dek}

abbrev pub is_free : ℕ → Text → Bool
is_free c s = not (elem c s)

join-cons :
    (c : ℕ) (s t : Text) (ss : List Text)
    → join (c ∷ []) (s ∷ t ∷ ss) ≡ s ++ c ∷ join (c ∷ []) (t ∷ ss)
unfolding join
join-cons c s t ss = rw append_assoc

-- Texts that are joined by a character that none of them has are split off again.
pub split_on-join :
    (c : ℕ) (s : Text) (ss : List Text)
    → all (is_free c) (s ∷ ss) ≡ true
    → split_on c (join (c ∷ []) (s ∷ ss)) ≡ s ∷ ss
unfolding join
split_on-join c s [] h = split_on-free c s (grind arith)
split_on-join c s (t ∷ ss) h =
    ap (split_on c) (join-cons c s t ss)
    ∙ split_on-append c s (join (c ∷ []) (t ∷ ss)) (grind arith)
    ∙ ap (λ (ts : List Text). s ∷ ts) (split_on-join c t ss (grind arith))

abbrev pub no_pipes : Text → Text → Text → Bool
no_pipes user provider credential = all (is_free b'|') (user ∷ provider ∷ credential ∷ [])

parts_of :
    (u p c : Text)
    → no_pipes u p c ≡ true
    → split_on b'|' (build_aad u p c) ≡ codes "llm-credential" ∷ u ∷ p ∷ c ∷ []
unfolding build_aad
parts_of u p c h = split_on-join b'|' (codes "llm-credential") (u ∷ p ∷ c ∷ []) h

-- Rows that differ in user, provider or id have different data to authenticate.
build_aad_injective :
    (u p c u' p' c' : Text)
    → no_pipes u p c ≡ true
    → no_pipes u' p' c' ≡ true
    → build_aad u p c ≡ build_aad u' p' c'
    → u ∷ p ∷ c ∷ [] ≡ u' ∷ p' ∷ c' ∷ []
build_aad_injective u p c u' p' c' h h' e =
    ap (drop 1) (sym (parts_of u p c h) ∙ ap (split_on b'|') e ∙ parts_of u' p' c' h')

-- Where the cipher refuses other authenticated data, a secret that was sealed for one row fails to
-- open for a row of another user, another provider or another id (none of which has a pipe in it).
pub unseal-moved :
    (C : Cipher) (u p c u' p' c' plaintext : Text) (ring : MasterKeyring) (drawn : Drawn)
    (sealed : SealedSecret)
    → IsCipher C
    → no_pipes u p c ≡ true
    → no_pipes u' p' c' ≡ true
    → u ∷ p ∷ c ∷ [] ≢ u' ∷ p' ∷ c' ∷ []
    → seal C plaintext (build_aad u p c) ring drawn ≡ done sealed
    → unseal C sealed (build_aad u' p' c') ring ≡ failed decryption_error
unseal-moved C u p c u' p' c' plaintext ring drawn sealed law h h' ne e =
    let (bytes, written, same) =
      seal-dek C plaintext (build_aad u p c) (build_aad u' p' c') ring drawn sealed law e in
    same
    ∙ rw (
        law.binds drawn.dek drawn.nonce bytes (build_aad u p c) (build_aad u' p' c')
          (λ both. ne (build_aad_injective u p c u' p' c' h h' both)))
