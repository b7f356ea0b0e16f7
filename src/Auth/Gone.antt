-- ===== src/Auth/Gone.antt =====
-- Secrets and checkpoint threads that are deleted one by one, and what the stores promise.
use intelli_study_planner_br.Base.{
  ℕ, ◌≡◌, refl, sym, ap, ◌∙◌, subst, Bool, true, false, not, ◌&&◌, Option, none, some, List, [],
  ◌∷◌, codes, arith, any, keep, is_empty, ◌||◌, ◌==◌, text_eq, nat_eq, Bool-cases, inl, inr,
  if◌then◌else◌,
}
use intelli_study_planner_br.Base.Tables.{any-kept}
use intelli_study_planner_br.Vault.Rows.{Credential}
use intelli_study_planner_br.Vault.Secrets.{Stores, store_for}
use intelli_study_planner_br.Vault.Service.{delete_in}
use intelli_study_planner_br.Vault.Upkeep.{purged, delete_secrets}
use intelli_study_planner_br.Vault.Candidates.{IsRow}
use intelli_study_planner_br.Auth.Deletion.{
  ChatSession, session_ids, delete_checkpoint_threads, is_owned,
}

-- What Infisical and the local store promise: a secret that was deleted is not there, deleting a
-- secret brings no other one back, and the local store, whose secrets are in the rows, does nothing.
pub record Erases {S : Type 0} (stores : Stores S) : Type 0 where
  pub erases :
      (s s' : S) (c : Credential)
      → stores.infisical_store.delete s c ≡ some s'
      → stores.infisical_store.get s' c ≡ none
  pub stays :
      (s s' : S) (c d : Credential)
      → stores.infisical_store.get s c ≡ none
      → stores.infisical_store.delete s d ≡ some s'
      → stores.infisical_store.get s' c ≡ none
  pub idle : (s : S) (c : Credential) → stores.local_store.delete s c ≡ some s

-- What adelete_thread promises: the thread of that id is gone, and every other one is as it was.
abbrev pub DeletesThread : {T : Type 0} → (ℕ → T → T) → (ℕ → T → Bool) → Type 0
DeletesThread {T} adelete_thread has_thread =
    (n m : ℕ) (t : T) → has_thread m (adelete_thread n t) ≡ (not (n == m) && has_thread m t)

abbrev pub is_infisical : Credential → Bool
is_infisical c = c.backend == codes "infisical"

pub keep-IsRow :
    (q : Credential → Bool) (c : Credential) (rows : List Credential)
    → IsRow c rows
    → q c ≡ true
    → IsRow c (keep q rows)
keep-IsRow q c [] row pass = absurd row
keep-IsRow q c (x ∷ xs) row pass = on (q x) refl row (λ later. keep-IsRow q c xs later pass)
  where
    on :
        (b : Bool)
        → q x ≡ b
        → IsRow c (x ∷ xs)
        → (IsRow c xs → IsRow c (keep q xs))
        → IsRow c (if b then x ∷ keep q xs else keep q xs)
    on true e (inl same) rest = inl same
    on true e (inr later) rest = inr (rest later)
    on false e (inl same) rest = absurd (grind (arith, e, pass, ap q same))
    on false e (inr later) rest = rest later

purged-some :
    {S : Type 0} (o : Option S) (rest : S → Option S) (s' : S)
    → purged o rest ≡ some s'
    → (s : S) × (o ≡ some s) × (rest s ≡ some s')
purged-some none rest s' e = absurd (grind arith)
purged-some (some s) rest s' e = (s, refl, e)

pub any-owned :
    (n m : ℕ) (chats : List ChatSession)
    → any (λ k. k == m) (session_ids n chats) ≡ any (λ c. is_owned n c && c.id == m) chats
any-owned n m [] = refl
any-owned n m (c ∷ chats) = grind (arith, any-owned n m chats)

module _ {T : Type 0} (adelete_thread : ℕ → T → T) (has_thread : ℕ → T → Bool) where
  pub has-delete_checkpoint_threads :
      (ns : List ℕ) (m : ℕ) (t : T)
      → DeletesThread adelete_thread has_thread
      → has_thread m (delete_checkpoint_threads adelete_thread ns t)
        ≡ (not (any (λ k. k == m) ns) && has_thread m t)
  unfolding delete_checkpoint_threads
  has-delete_checkpoint_threads [] m t law = refl
  has-delete_checkpoint_threads (n ∷ ns) m t law =
      has-delete_checkpoint_threads ns m (adelete_thread n t) law ∙ split (law n m t)
    where
      split :
          has_thread m (adelete_thread n t) ≡ (not (n == m) && has_thread m t)
          → (not (any (λ k. k == m) ns) && has_thread m (adelete_thread n t))
            ≡ (not (any (λ k. k == m) (n ∷ ns)) && has_thread m t)
      split e = grind arith

module _ {S : Type 0} (stores : Stores S) (law : Erases stores) where
  unfoldable pub IsGone : S → Credential → Type 0
  IsGone s c = stores.infisical_store.get s c ≡ none

  delete_in-stays :
      (s s' : S) (c d : Credential)
      → IsGone s c
      → delete_in (store_for stores d.backend) s d ≡ some s'
      → IsGone s' c
  unfolding IsGone store_for
  delete_in-stays s s' c d gone e =
      elim (Bool-cases (is_empty d.backend || d.backend == codes "local")) [
        | inl local ↦ subst (λ x. IsGone x c) (grind (arith, law.idle s d, rw (local) at e)) gone
        | inr remote ↦ elim (Bool-cases (is_infisical d)) [
          | inl infisical ↦ law.stays s s' c d gone (rw (remote, infisical) at e)
          | inr unknown ↦ absurd (grind (arith, rw (remote, unknown) at e))
        ]
      ]

  delete_secrets-stays :
      (cs : List Credential) (c : Credential) (s s' : S)
      → IsGone s c
      → delete_secrets stores cs s ≡ some s'
      → IsGone s' c
  unfolding delete_secrets IsGone
  delete_secrets-stays [] c s s' gone e = subst (λ x. IsGone x c) (grind arith) gone
  delete_secrets-stays (d ∷ cs) c s s' gone e =
      let (s1, first, rest) =
        purged-some (delete_in (store_for stores d.backend) s d) (delete_secrets stores cs) s' e in
      delete_secrets-stays cs c s1 s' (delete_in-stays s s1 c d gone first) rest

  -- Every secret of the list that Infisical holds is gone.
  pub delete_secrets-erases :
      (cs : List Credential) (c : Credential) (s s' : S)
      → IsRow c cs
      → is_infisical c ≡ true
      → delete_secrets stores cs s ≡ some s'
      → IsGone s' c
  unfolding delete_secrets IsGone store_for
  delete_secrets-erases [] c s s' row remote e = absurd row
  delete_secrets-erases (d ∷ cs) c s s' (inr later) remote e =
      let (s1, first, rest) =
        purged-some (delete_in (store_for stores d.backend) s d) (delete_secrets stores cs) s' e in
      delete_secrets-erases cs c s1 s' later remote rest
  delete_secrets-erases (d ∷ cs) c s s' (inl same) remote e =
      let (s1, first, rest) =
        purged-some (delete_in (store_for stores d.backend) s d) (delete_secrets stores cs) s' e in
      delete_secrets-stays cs c s1 s'
        (subst (λ x. IsGone s1 x) same
          (law.erases s s1 d
            (in_infisical d s s1 (subst (λ x. is_infisical x ≡ true) (sym same) remote) first)))
        rest
    where
      in_infisical :
          (d : Credential) (s s1 : S)
          → is_infisical d ≡ true
          → delete_in (store_for stores d.backend) s d ≡ some s1
          → stores.infisical_store.delete s d ≡ some s1
      in_infisical d s s1 here first =
          subst (λ b. delete_in (store_for stores b) s d ≡ some s1)
            (text_eq.separates {x = d.backend} {y = codes "infisical"} here) first

pub keep_twice : {A : Type 0} (q : A → Bool) (xs : List A) → keep q (keep q xs) ≡ keep q xs
keep_twice q [] = refl
keep_twice q (x ∷ xs) = grind (arith, keep_twice q xs)

pub dropped {ℓ} :
    {A : Type ℓ} (p : A → Bool) (xs : List A) → any p (keep (λ x. not (p x)) xs) ≡ false
dropped p xs = any-kept p (λ x. not (p x)) (λ x h. ap not h) xs

pub none-any :
    (p : Credential → Bool) (rows : List Credential)
    → ((c : Credential) → IsRow c rows → p c ≡ false)
    → any p rows ≡ false
none-any p [] h = refl
none-any p (c ∷ rows) h = rw (h c (inl refl)) (none-any p rows (λ d row. h d (inr row)))
