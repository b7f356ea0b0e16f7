-- ===== src/Vault/Requests.antt =====
-- What callers ask of VaultService, what it answers, and what it does to single rows.
use intelli_study_planner_br.Base.{
  ℕ, zero, suc, Bool, true, false, not, ◌||◌, Option, none, some, List, [], ◌∷◌, ◌++◌, Text, codes,
  any, if◌then◌else◌, ◌==◌, text_eq, nat_eq, length, drop, strip, ◌-◌,
}
use intelli_study_planner_br.Vault.Rows.{
  Provider, gemini, anthropic, openai, active, StoredSecret, Credential, AuditAction, default_set,
  Audit, Db, is_of, row_of, change_row, delete_row, clear_defaults, set_default,
  promote_replacement,
}
use intelli_study_planner_br.Vault.Secrets.{is_mismatch}

pub record Vault (S : Type 0) : Type 0 where
  pub db : Db
  pub secrets : S

-- What the provider answers to a key (app/llm/verify.py).
pub data Verdict : Type 0 where
  accepted key_rejected unavailable : Verdict

-- VaultError, KeyNotFound, DuplicateLabel, and an exception that the service does not handle.
pub data Failure : Type 0 where
  vault_error key_not_found duplicate_label unhandled : Failure

pub data Result (A : Type 0) : Type 0 where
  ok : A → Result A
  failed : Failure → Result A

pad : ℕ → Text → Text
pad zero t = t
pad (suc n) t = 42 ∷ pad n t

-- crypto.last4: the last four characters of the stripped key, padded on the left with asterisks.
unfoldable pub last4 : Text → Text
unfolding pad strip
last4 secret =
    let key : Text = strip secret in
    let tail : Text = drop (length key - 4) key in pad (4 - length tail) tail

abbrev pub owned_by : ℕ → Option Credential → Option Credential
owned_by user none = none
owned_by user (some c) = if c.user_id == user then some c else none

-- VaultService.get_key; `none` for KeyNotFound.
unfoldable pub get_key : ℕ → ℕ → List Credential → Option Credential
unfolding row_of
get_key user n rows = owned_by user (row_of n rows)

abbrev pub audit : Credential → ℕ → AuditAction → Option Text → Audit
audit c user action detail = record {
  user_id = user;
  credential_id = c.id;
  provider = c.provider;
  action = action;
  detail = detail;
}

abbrev pub if_some : Option Text → Option Text → Option Text
if_some none old = old
if_some (some t) old = some t

-- f"…{credential.last4}"
abbrev pub hint : Credential → Option Text
hint c = some (8230 ∷ c.last4)

-- apply_stored: the sealed columns stay where the store seals nothing.
abbrev pub apply_stored : StoredSecret → Credential → Credential
apply_stored stored c = record c {
  backend = stored.backend;
  secret_ref = stored.secret_ref;
  sealed = if_some stored.sealed c.sealed;
}

abbrev pub label_of : Provider → Text
label_of gemini = codes "My Google Gemini key"
label_of anthropic = codes "My Anthropic Claude key"
label_of openai = codes "My OpenAI key"

-- `label or self._auto_label(provider)`
abbrev pub label_or : Option Text → Provider → Text
label_or (some (c ∷ s)) p = c ∷ s
label_or _ p = label_of p

-- `_reject_obvious_mismatch` and `_verify`: the time of the verification, if there was one.
unfoldable pub check_key :
    (Provider → Text → Verdict) → Bool → ℕ → Provider → Text → Result (Option ℕ)
unfolding is_mismatch
check_key verify_key verify now p api_key =
    if is_mismatch p api_key
    then failed vault_error
    else if verify
    then judged (verify_key p api_key)
    else ok none
  where
    judged : Verdict → Result (Option ℕ)
    judged accepted = ok (some now)
    judged key_rejected = failed vault_error
    judged unavailable = failed vault_error

-- What a caller asks for on creation, with the id and the instant that the row gets.
pub record CreateRequest : Type 0 where
  pub id : ℕ
  pub user : ℕ
  pub provider : Provider
  pub api_key : Text
  pub label : Option Text
  pub make_default : Bool
  pub verify : Bool
  pub now : ℕ

pub record UpdateRequest : Type 0 where
  pub id : ℕ
  pub user : ℕ
  pub api_key : Option Text
  pub label : Option Text
  pub make_default : Bool
  pub verify : Bool
  pub now : ℕ

-- The row before its secret is stored.
abbrev pub new_row : CreateRequest → Text → Option ℕ → Credential
new_row r backend verified_at = record {
  id = r.id;
  user_id = r.user;
  provider = r.provider;
  label = label_or r.label r.provider;
  backend = backend;
  secret_ref = none;
  sealed = none;
  last4 = last4 r.api_key;
  is_default = false;
  status = active;
  last_used_at = none;
  last_verified_at = verified_at;
  created_at = r.now;
}

-- `make_default or is_first`, and what follows of it; `rows` are those before the new one.
unfoldable pub insert_row : CreateRequest → Credential → List Credential → List Credential
unfolding clear_defaults change_row
insert_row r c rows =
    if r.make_default || not (any (is_of r.user r.provider) rows)
    then change_row c.id set_default (clear_defaults r.user r.provider none (rows ++ c ∷ []))
    else rows ++ c ∷ []

-- The rows without a key; a deleted default is replaced.
unfoldable pub drop_row : Credential → List Credential → List Credential
unfolding delete_row promote_replacement
drop_row c rows =
    let rest : List Credential = delete_row c.id rows in
    if c.is_default then promote_replacement c.user_id c.provider rest else rest

abbrev pub with_audit : Audit → List Credential → Db → Db
with_audit a rows db = record { rows = rows; audits = db.audits ++ a ∷ [] }

-- The changes of a replaced key; the secret was stored.
abbrev pub rotate : StoredSecret → Text → Option ℕ → Credential → Credential
rotate stored api_key verified_at c = record (apply_stored stored c) {
  last4 = last4 api_key;
  status = active;
  last_verified_at = verified_at;
}

-- What `make_default` does to the rows on an update.
unfoldable pub choose_default : Bool → Credential → List Credential → List Credential
unfolding clear_defaults change_row
choose_default false c rows = rows
choose_default true c rows =
    change_row c.id set_default (clear_defaults c.user_id c.provider (some c.id) rows)

abbrev pub default_audits : Bool → ℕ → Credential → List Audit
default_audits true user c = audit c user default_set none ∷ []
default_audits false user c = []

abbrev pub label_change : Option Text → Credential → Option Text
label_change none c = none
label_change (some l) c = if l == c.label then none else some l
