-- ===== src/Vault/Secrets.antt =====
-- The interface of app/services/secret_store.py, and app/llm/keyshape.py. A store may fail; its own
-- state is of a type that the vault does not look into.
use intelli_study_planner_br.Base.{
  Bool, false, not, Option, none, some, Text, codes, starts_with, strip, if◌then◌else◌, ◌==◌,
  text_eq, is_empty, ◌||◌,
}
use intelli_study_planner_br.Vault.Rows.{
  Provider, gemini, anthropic, openai, provider_beq, Credential, StoredSecret,
}

-- SecretStore: `none` stands for SecretStoreError or VaultConfigurationError.
pub record SecretStore (S : Type 0) : Type 0 where
  pub name : Text
  pub put : S → Credential → Text → Option (S × StoredSecret)
  pub get : S → Credential → Option Text
  pub delete : S → Credential → Option S

-- The two stores, and the settings' SECRET_BACKEND.
pub record Stores (S : Type 0) : Type 0 where
  pub local_store : SecretStore S
  pub infisical_store : SecretStore S
  pub secret_backend : Text

-- store_for; `none` where it raises.
unfoldable pub store_for : {S : Type 0} → Stores S → Text → Option (SecretStore S)
store_for stores backend =
    if is_empty backend || backend == codes "local"
    then some stores.local_store
    else if backend == codes "infisical"
    then some stores.infisical_store
    else none

-- active_store
unfoldable pub active_store : {S : Type 0} → Stores S → Option (SecretStore S)
unfolding store_for
active_store stores = store_for stores stores.secret_backend

-- The prefixes of _SIGNATURES, in order.
unfoldable pub identify : Text → Option Provider
unfolding strip starts_with
identify api_key =
    let key : Text = strip api_key in
    if starts_with key (codes "sk-ant-")
    then some anthropic
    else if starts_with key (codes "AIza")
    then some gemini
    else if starts_with key (codes "sk-proj-")
    then some openai
    else if starts_with key (codes "sk-")
    then some openai
    else none

abbrev differs : Option Provider → Provider → Bool
differs none p = false
differs (some q) p = not (provider_beq q p)

-- mismatch_reason: whether there is one.
unfoldable pub is_mismatch : Provider → Text → Bool
unfolding identify
is_mismatch p api_key = differs (identify api_key) p
