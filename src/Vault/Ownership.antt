-- ===== src/Vault/Ownership.antt =====
-- app/services/credential_resolver.py: whose key a chat turn runs on.
use intelli_study_planner_br.Base.{
  ℕ, ◌≡◌, refl, ap, subst, Bool, true, false, not, ◌&&◌, Option, none, some, List, Text, arith,
  is_empty, Bool-cases, inl, inr, ◌⊎◌,
}
use intelli_study_planner_br.Vault.Rows.{
  provider_beq, Provider, gemini, anthropic, openai, Credential,
}
use intelli_study_planner_br.Vault.Secrets.{Stores}
use intelli_study_planner_br.Vault.Requests.{Vault}
use intelli_study_planner_br.Vault.Upkeep.{reveal}
use intelli_study_planner_br.Vault.Resolver.{
  provider_for, default_model, ChatSession, Settings, LlmConfig, Resolution, resolved,
  no_credential, is_usable, active_for, choose, Choice, switched, choose_provider, with_key,
  with_credential, resolve_for, resolve, only_other_provider, is_asked, text_or, session_model,
}
use intelli_study_planner_br.Vault.Candidates.{
  IsRow, IsUsableRow, IsRow-choose, IsUsableRow-choose_provider,
}

-- The model and the provider of a choice agree.
abbrev Serves : Text → Provider → Type 0
Serves model p = provider_for model ≡ some p

default_model-Serves : (p : Provider) → Serves (default_model p) p
unfolding provider_for
default_model-Serves gemini = refl
default_model-Serves anthropic = refl
default_model-Serves openai = refl

switched-Serves :
    (user : ℕ) (p : Provider) (model : Text) (rows : List Credential) (o : Option Provider)
    → Serves model p
    → Serves (switched user p model rows o).model (switched user p model rows o).provider
switched-Serves user p model rows none e = e
switched-Serves user p model rows (some q) e = default_model-Serves q

choose_provider-Serves :
    (user : ℕ) (asked : Option Text) (p : Provider) (model : Text) (rows : List Credential)
    → Serves model p
    → Serves
        (choose_provider user asked p model rows).model
        (choose_provider user asked p model rows).provider
unfolding choose_provider
choose_provider-Serves user asked p model rows e =
    elim (Bool-cases (is_empty (active_for user p rows) && not (is_asked asked))) [
      | inl other ↦ rw other (switched-Serves user p model rows (only_other_provider user p rows) e)
      | inr own ↦ rw own e
    ]

module _ {S : Type 0} (settings : Settings) (stores : Stores S) (v : Vault S) where
  -- What a configuration with a credential rests on.
  pub record IsOwnKey (user : ℕ) (config : LlmConfig) : Type 0 where
    pub key : Credential
    pub is_row : IsRow key v.db.rows
    pub usable : is_usable user config.provider key ≡ true
    pub identifies : config.credential_id ≡ some key.id
    pub opens : reveal stores key v.secrets ≡ some config.api_key

  -- What a configuration without one rests on: the key of the server, where the settings allow it.
  pub record IsFallback (config : LlmConfig) : Type 0 where
    pub allowed : settings.allow_system_fallback_key ≡ true
    pub is_for_gemini : provider_beq config.provider gemini ≡ true
    pub present : is_empty settings.gemini_api_key ≡ false
    pub same_key : config.api_key ≡ settings.gemini_api_key
    pub anonymous : config.credential_id ≡ none

  abbrev config_in : LlmConfig → Resolution → LlmConfig
  config_in other (resolved config) = config
  config_in other _ = other

  module _ (user : ℕ) (config : LlmConfig) where
    abbrev Rests : LlmConfig → Type 0
    Rests c = (provider_for c.model ≡ some c.provider) × (IsOwnKey user c ⊎ IsFallback c)

    Rests-with_key :
        (choice : Choice) (c : Credential)
        → Serves choice.model choice.provider
        → IsUsableRow user choice.provider v.db.rows c
        → (o : Option Text) → reveal stores c v.secrets ≡ o
        → with_key settings stores choice c o ≡ resolved config
        → Rests config
    Rests-with_key choice c serves (row, pass) none opened h = cc
    Rests-with_key choice c serves (row, pass) (some key) opened h =
        subst (λ x. Rests x) (ap (config_in config) h)
          (
            serves,
            inl (record {
              key = c;
              is_row = row;
              usable = pass;
              identifies = refl;
              opens = opened;
            }),
          )

    wrong : {p : Provider} {b : Bool} → no_credential p b ≡ resolved config → ⊥
    wrong e = cc

    Rests-with_credential :
        (choice : Choice) (o : Option Credential)
        → Serves choice.model choice.provider
        → ((c : Credential) → o ≡ some c → IsUsableRow user choice.provider v.db.rows c)
        → with_credential settings stores user choice v o ≡ resolved config
        → Rests config
    Rests-with_credential choice (some c) serves usable h =
        Rests-with_key choice c serves (usable c refl) (reveal stores c v.secrets) refl h
    Rests-with_credential choice none serves usable h =
        elim (Bool-cases (
          settings.allow_system_fallback_key
          && provider_beq choice.provider gemini
          && not (is_empty settings.gemini_api_key))) [
            | inl free ↦
                subst (λ x. Rests x) (ap (config_in config) (rw free at h))
                  (
                    serves,
                    inr (record {
                      allowed = grind (arith, free);
                      is_for_gemini = grind (arith, free);
                      present = grind (arith, free);
                      same_key = refl;
                      anonymous = refl;
                    }),
                  )
            | inr closed ↦ absurd (wrong (rw closed at h))
          ]

    Rests-resolve_for :
        (asked : Option Text) (session : Option ChatSession) (model : Text) (o : Option Provider)
        → provider_for model ≡ o
        → resolve_for settings stores user asked session model v o ≡ resolved config
        → Rests config
    Rests-resolve_for asked session model none known h = cc
    Rests-resolve_for asked session model (some p) known h =
        let choice : Choice = choose_provider user asked p model v.db.rows in
        Rests-with_credential choice (choose choice.candidates session)
          (choose_provider-Serves user asked p model v.db.rows known)
          (λ c e.
            IsUsableRow-choose_provider user asked p model v.db.rows c
              (IsRow-choose choice.candidates session c e))
          h

  -- A turn that is resolved runs on a model of the provider that it is resolved to. It runs either on a
  -- key in the table that is the student's own, active, for that provider, and opened by its secret store;
  -- or, without a credential, on the server's Gemini key, where the provider is Gemini, the settings
  -- allow the fallback and the key is not empty.
  pub resolve-IsOwnKey :
      (user : ℕ) (asked : Option Text) (session : Option ChatSession) (config : LlmConfig)
      → resolve settings stores user asked session v ≡ resolved config
      → (provider_for config.model ≡ some config.provider)
        × (IsOwnKey user config ⊎ IsFallback config)
  unfolding resolve
  resolve-IsOwnKey user asked session config h =
      let model : Text = text_or asked (text_or (session_model session) settings.gemini_model) in
      Rests-resolve_for user config asked session model (provider_for model) refl h
