-- ===== src/Crypto/Opened.antt =====
-- What was sealed is opened again, under old and new master keys.
use intelli_study_planner_br.Base.{
  ◌≡◌, ◌≢◌, refl, sym, ap, ◌∙◌, subst, Bool, true, false, Option, none, some, Text, arith, ◌==◌,
  ==_refl, int_eq,
}
use intelli_study_planner_br.Crypto.Keyring.{Outcome, done, failed, ◌>>=◌, MasterKeyring, key}
use intelli_study_planner_br.Crypto.Seal.{
  Cipher, SealedSecret, Drawn, dek_aad, opened, coded, seal, unwrap_dek, unseal, rewrap,
}

-- What AES-GCM and UTF-8 promise.
pub record IsCipher (C : Cipher) : Type 0 where
  pub opens : (k n p a : Text) → C.decrypt k n (C.encrypt k n p a) a ≡ some p
  pub binds : (k n p a a' : Text) → a ≢ a' → C.decrypt k n (C.encrypt k n p a) a' ≡ none
  pub decodes : (s b : Text) → C.encode s ≡ some b → C.decode b ≡ some s

pub done_path : {A : Type 0} {a b : A} → done a ≡ done b → a ≡ b
done_path e = grind arith

pub bind-done :
    {A B : Type 0} (m : Outcome A) (f : A → Outcome B) (b : B)
    → (m >>= f) ≡ done b
    → (a : A) × (m ≡ done a) × (f a ≡ done b)
bind-done (done a) f b e = (a, refl, e)
bind-done (failed x) f b e = absurd (grind arith)

pub coded-done : (o : Option Text) (text : Text) → coded o ≡ done text → o ≡ some text
coded-done none text e = absurd (grind arith)
coded-done (some t) text e = ap some (done_path e)

module _ (C : Cipher) where
  -- The data key of a secret that was sealed under the active master key.
  unwrap-sealed :
      (ring : MasterKeyring) (master dek text nonce dek_nonce : Text)
      → IsCipher C
      → key ring ring.active_version ≡ done master
      → unwrap_dek C
          (record {
            ciphertext = text;
            nonce = nonce;
            dek_wrapped = C.encrypt master dek_nonce dek dek_aad;
            dek_nonce = dek_nonce;
            key_version = ring.active_version;
          })
          ring
        ≡ done dek
  unfolding unwrap_dek
  unwrap-sealed ring master dek text nonce dek_nonce law there =
      rw (there, law.opens master dek_nonce dek dek_aad)

  -- The opening of a sealed secret, up to the layer of the data key.
  pub seal-dek :
      (plaintext aad aad' : Text) (ring : MasterKeyring) (drawn : Drawn) (sealed : SealedSecret)
      → IsCipher C
      → seal C plaintext aad ring drawn ≡ done sealed
      → (bytes : Text) × (C.encode plaintext ≡ some bytes)
        × (unseal C sealed aad' ring ≡ (
            opened
              (C.decrypt drawn.dek drawn.nonce (C.encrypt drawn.dek drawn.nonce bytes aad) aad')
            >>= λ b. coded (C.decode b)))
  unfolding seal unseal
  seal-dek plaintext aad aad' ring drawn sealed law e =
      let (bytes, written, rest) = bind-done (coded (C.encode plaintext)) _ sealed e in
      let (master, there, same) = bind-done (key ring ring.active_version) _ sealed rest in
      (
        bytes,
        coded-done (C.encode plaintext) bytes written,
        ap (λ s. unseal C s aad' ring) (sym (done_path same))
            ∙ rw (unwrap-sealed ring master drawn.dek _ drawn.nonce drawn.dek_nonce law there),
      )

  -- Where the cipher opens what it encrypted, a sealed secret opens to the text that was sealed, for
  -- the row that it was sealed for.
  pub unseal-seal :
      (plaintext aad : Text) (ring : MasterKeyring) (drawn : Drawn) (sealed : SealedSecret)
      → IsCipher C
      → seal C plaintext aad ring drawn ≡ done sealed
      → unseal C sealed aad ring ≡ done plaintext
  unseal-seal plaintext aad ring drawn sealed law e =
      let (bytes, written, same) = seal-dek plaintext aad aad ring drawn sealed law e in
      same ∙ rw (law.opens drawn.dek drawn.nonce bytes aad, law.decodes plaintext bytes written)

  rewrapped :
      (sealed sealed' : SealedSecret) (ring : MasterKeyring) (dek_nonce : Text) (current : Bool)
      → IsCipher C
      → (sealed.key_version == ring.active_version) ≡ current
      → rewrap C sealed ring dek_nonce ≡ done sealed'
      → (aad : Text)
      → (unseal C sealed' aad ring ≡ unseal C sealed aad ring)
        × (sealed'.key_version ≡ ring.active_version)
  unfolding rewrap unseal
  rewrapped sealed sealed' ring dek_nonce true law same e aad =
      subst
        (λ (s : SealedSecret).
          (unseal C s aad ring ≡ unseal C sealed aad ring) × (s.key_version ≡ ring.active_version))
        (done_path (rw same at e)) (refl, int_eq.separates same)
  rewrapped sealed sealed' ring dek_nonce false law same e aad =
      let (dek, unwrapped, rest) = bind-done (unwrap_dek C sealed ring) _ sealed' (rw same at e) in
      let (master, there, last) = bind-done (key ring ring.active_version) _ sealed' rest in
      (
        ap (λ (s : SealedSecret). unseal C s aad ring) (sym (done_path last))
            ∙ ap
                (λ m. m >>= λ d.
                  opened (C.decrypt d sealed.nonce sealed.ciphertext aad) >>= λ bytes.
                  coded (C.decode bytes))
                (unwrap-sealed ring master dek sealed.ciphertext sealed.nonce dek_nonce law there
                  ∙ sym unwrapped),
        ap (λ (s : SealedSecret). s.key_version) (sym (done_path last)),
      )

  rewrap-current :
      (sealed : SealedSecret) (ring : MasterKeyring) (dek_nonce : Text)
      → sealed.key_version ≡ ring.active_version
      → rewrap C sealed ring dek_nonce ≡ done sealed
  unfolding rewrap
  rewrap-current sealed ring dek_nonce e = rw (e, ==_refl ring.active_version)

  -- A rewrapped secret opens to what the secret opened to, with the same failures, for whatever row;
  -- and rewrapping it once more under the same master keys changes nothing.
  pub rewrap-unseal :
      (sealed sealed' : SealedSecret) (ring : MasterKeyring) (dek_nonce : Text)
      → IsCipher C
      → rewrap C sealed ring dek_nonce ≡ done sealed'
      → ((aad : Text) → unseal C sealed' aad ring ≡ unseal C sealed aad ring)
        × ((later : Text) → rewrap C sealed' ring later ≡ done sealed')
  rewrap-unseal sealed sealed' ring dek_nonce law e = (
    λ aad.
        (rewrapped sealed sealed' ring dek_nonce (sealed.key_version == ring.active_version) law
          refl e aad).0,
    λ later.
        rewrap-current sealed' ring later
          (rewrapped sealed sealed' ring dek_nonce (sealed.key_version == ring.active_version) law
            refl e later).1,
  )
