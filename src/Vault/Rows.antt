-- ===== src/Vault/Rows.antt =====
-- The rows of llm_credential and llm_credential_audit (app/models/credential.py), with the statements
-- that the vault issues on them. Ids, users and instants are numbers.
use intelli_study_planner_br.Base.{
  ℕ, suc, Bool, true, false, not, ◌&&◌, Option, none, some, List, [], ◌∷◌, Text, any, leb,
  if◌then◌else◌, ◌==◌, text_eq, nat_eq,
}

-- app/llm/registry.py
pub data Provider : Type 0 where
  gemini anthropic openai : Provider

abbrev pub provider_beq : Provider → Provider → Bool
provider_beq gemini gemini = true
provider_beq anthropic anthropic = true
provider_beq openai openai = true
provider_beq _ _ = false

pub data Status : Type 0 where
  active invalid revoked : Status

abbrev pub is_active : Status → Bool
is_active active = true
is_active _ = false

-- What a store answers on `put`: where the secret is kept.
pub record StoredSecret : Type 0 where
  pub backend : Text
  pub sealed : Option Text
  pub secret_ref : Option Text

-- LLMCredential; the columns of the sealed secret are one.
pub record Credential : Type 0 where
  pub id : ℕ
  pub user_id : ℕ
  pub provider : Provider
  pub label : Text
  pub backend : Text
  pub secret_ref : Option Text
  pub sealed : Option Text
  pub last4 : Text
  pub is_default : Bool
  pub status : Status
  pub last_used_at : Option ℕ
  pub last_verified_at : Option ℕ
  pub created_at : ℕ

pub data AuditAction : Type 0 where
  created rotated relabelled default_set verified rejected deleted : AuditAction

pub record Audit : Type 0 where
  pub user_id : ℕ
  pub credential_id : ℕ
  pub provider : Provider
  pub action : AuditAction
  pub detail : Option Text

pub record Db : Type 0 where
  pub rows : List Credential
  pub audits : List Audit

abbrev pub has_id : ℕ → Credential → Bool
has_id n c = c.id == n

-- Whose key, and for which provider.
abbrev pub is_of : ℕ → Provider → Credential → Bool
is_of user p c = (c.user_id == user) && provider_beq c.provider p

abbrev pub is_default_of : ℕ → Provider → Credential → Bool
is_default_of user p c = c.is_default && is_of user p c

-- How many rows pass a test.
unfoldable pub count : (Credential → Bool) → List Credential → ℕ
count p [] = 0
count p (c ∷ cs) = if p c then suc (count p cs) else count p cs

-- db.get: the row of an id.
unfoldable pub row_of : ℕ → List Credential → Option Credential
row_of n [] = none
row_of n (c ∷ cs) = if has_id n c then some c else row_of n cs

-- The row of an id, changed.
unfoldable pub change_row : ℕ → (Credential → Credential) → List Credential → List Credential
change_row n f [] = []
change_row n f (c ∷ cs) = if has_id n c then f c ∷ cs else c ∷ change_row n f cs

unfoldable pub delete_row : ℕ → List Credential → List Credential
delete_row n [] = []
delete_row n (c ∷ cs) = if has_id n c then cs else c ∷ delete_row n cs

abbrev pub is_kept : Option ℕ → Credential → Bool
is_kept none c = false
is_kept (some n) c = has_id n c

-- The UPDATE of `_clear_defaults`.
unfoldable pub clear_defaults : ℕ → Provider → Option ℕ → List Credential → List Credential
clear_defaults user p kept [] = []
clear_defaults user p kept (c ∷ cs) =
    (if is_default_of user p c && not (is_kept kept c) then record c { is_default = false } else c)
    ∷ clear_defaults user p kept cs

abbrev pub set_default : Credential → Credential
set_default c = record c { is_default = true }

-- uq_llm_credential_label: the labels of one user and provider are distinct.
abbrev pub takes_label : Credential → Credential → Bool
takes_label c d = is_of c.user_id c.provider d && (d.label == c.label)

-- Whether another row than that of `c` has its label.
abbrev pub label_taken : Credential → List Credential → Bool
label_taken c rows = any (λ d. takes_label c d && not (has_id c.id d)) rows

abbrev pub older : Option Credential → Credential → Credential
older none c = c
older (some d) c = if leb c.created_at d.created_at then c else d

-- The oldest of the rows that pass a test.
unfoldable pub oldest : (Credential → Bool) → List Credential → Option Credential
oldest p [] = none
oldest p (c ∷ cs) = let rest = oldest p cs in if p c then some (older rest c) else rest

abbrev pub promoted : Option Credential → List Credential → List Credential
promoted none rows = rows
promoted (some c) rows = change_row c.id set_default rows

-- _promote_replacement
unfoldable pub promote_replacement : ℕ → Provider → List Credential → List Credential
unfolding oldest change_row
promote_replacement user p rows =
    promoted (oldest (λ c. is_of user p c && is_active c.status) rows) rows
