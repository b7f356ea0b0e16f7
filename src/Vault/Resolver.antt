-- ===== src/Vault/Resolver.antt =====
-- app/services/credential_resolver.py: which key a chat turn runs on; with provider_for of
-- app/llm/registry.py.
use intelli_study_planner_br.Base.{
  ℕ, Bool, true, false, not, ◌&&◌, ◌||◌, Option, none, some, List, [], ◌∷◌, Text, codes, leb,
  is_empty, any, keep, strip, lower, starts_with, if◌then◌else◌, nat_eq, text_eq,
}
use intelli_study_planner_br.Vault.Rows.{
  Provider, gemini, anthropic, openai, provider_beq, Credential, is_of, is_active, row_of,
}
use intelli_study_planner_br.Vault.Secrets.{Stores}
use intelli_study_planner_br.Vault.Requests.{Vault}
use intelli_study_planner_br.Vault.Upkeep.{reveal}

-- _NAME_PREFIXES. Every registered name starts with the prefix of its provider, so that the registry's
-- own look-up answers the same.
unfoldable pub provider_for : Text → Option Provider
unfolding strip lower starts_with
provider_for model =
    let name : Text = lower (strip model) in
    if starts_with name (codes "gemini") || starts_with name (codes "models/gemini")
    then some gemini
    else if starts_with name (codes "claude")
    then some anthropic
    else if starts_with name (codes "gpt-")
        || starts_with name (codes "o1")
        || starts_with name (codes "o3")
        || starts_with name (codes "o4")
    then some openai
    else none

abbrev pub default_model : Provider → Text
default_model gemini = codes "gemini-3.5-flash"
default_model anthropic = codes "claude-sonnet-5"
default_model openai = codes "gpt-5.1"

pub record ChatSession : Type 0 where
  pub model : Option Text
  pub credential_id : Option ℕ

pub record Settings : Type 0 where
  pub gemini_model : Text
  pub allow_system_fallback_key : Bool
  pub gemini_api_key : Text

-- LLMConfig
pub record LlmConfig : Type 0 where
  pub provider : Provider
  pub model : Text
  pub api_key : Text
  pub credential_id : Option ℕ

pub data Resolution : Type 0 where
  resolved : LlmConfig → Resolution
  unknown_model : Resolution
  unreadable : Resolution
  no_credential : (provider : Provider) (invalid_only : Bool) → Resolution

-- Defaults come first, then the oldest.
abbrev pub precedes : Credential → Credential → Bool
precedes a b =
    if a.is_default
    then not b.is_default || leb a.created_at b.created_at
    else not b.is_default && leb a.created_at b.created_at

unfoldable pub insert_sorted : Credential → List Credential → List Credential
insert_sorted c [] = c ∷ []
insert_sorted c (d ∷ ds) =
    let rest = insert_sorted c ds in if precedes c d then c ∷ d ∷ ds else d ∷ rest

unfoldable pub sorted : List Credential → List Credential
unfolding insert_sorted
sorted [] = []
sorted (c ∷ cs) = insert_sorted c (sorted cs)

abbrev pub is_usable : ℕ → Provider → Credential → Bool
is_usable user p c = is_of user p c && is_active c.status

-- _active_for
unfoldable pub active_for : ℕ → Provider → List Credential → List Credential
unfolding sorted
active_for user p rows = sorted (keep (is_usable user p) rows)

-- _has_any
unfoldable pub has_any : ℕ → Provider → List Credential → Bool
has_any user p rows = any (is_of user p) rows

abbrev held : ℕ → List Credential → Provider → Bool
held user rows p = any (is_usable user p) rows

abbrev only_one : Bool → Provider → Bool → Provider → Option Provider
only_one true p false q = some p
only_one false p true q = some q
only_one _ p _ q = none

-- _only_other_provider: the provider of the active keys for others than `exclude`, if it is one.
unfoldable pub only_other_provider : ℕ → Provider → List Credential → Option Provider
only_other_provider user gemini rows =
    only_one (held user rows anthropic) anthropic (held user rows openai) openai
only_other_provider user anthropic rows =
    only_one (held user rows gemini) gemini (held user rows openai) openai
only_other_provider user openai rows =
    only_one (held user rows gemini) gemini (held user rows anthropic) anthropic

abbrev pub pinned_id : Option ChatSession → Option ℕ
pinned_id none = none
pinned_id (some s) = s.credential_id

abbrev pub first_of : List Credential → Option Credential
first_of [] = none
first_of (c ∷ cs) = some c

abbrev pub or_first : Option Credential → List Credential → Option Credential
or_first (some c) cs = some c
or_first none cs = first_of cs

abbrev pub pick : Option ℕ → List Credential → Option Credential
pick none cs = first_of cs
pick (some n) cs = or_first (row_of n cs) cs

-- _choose
unfoldable pub choose : List Credential → Option ChatSession → Option Credential
unfolding row_of
choose candidates session = pick (pinned_id session) candidates

abbrev pub text_or : Option Text → Text → Text
text_or (some (c ∷ s)) t = c ∷ s
text_or _ t = t

abbrev pub session_model : Option ChatSession → Option Text
session_model none = none
session_model (some s) = s.model

-- The provider and the model to use, with the active keys for it.
pub record Choice : Type 0 where
  pub provider : Provider
  pub model : Text
  pub candidates : List Credential

abbrev pub switched : ℕ → Provider → Text → List Credential → Option Provider → Choice
switched user p model rows none = record { provider = p; model = model; candidates = [] }
switched user p model rows (some q) = record {
  provider = q;
  model = default_model q;
  candidates = active_for user q rows;
}

abbrev pub is_asked : Option Text → Bool
is_asked none = false
is_asked (some t) = true

unfoldable pub choose_provider : ℕ → Option Text → Provider → Text → List Credential → Choice
unfolding active_for only_other_provider
choose_provider user requested p model rows =
    let candidates : List Credential = active_for user p rows in
    if is_empty candidates && not (is_asked requested)
    then switched user p model rows (only_other_provider user p rows)
    else record { provider = p; model = model; candidates = candidates }

module _ {S : Type 0} (settings : Settings) (stores : Stores S) where
  abbrev pub with_key : Choice → Credential → Option Text → Resolution
  with_key choice c none = unreadable
  with_key choice c (some key) = resolved (record {
    provider = choice.provider;
    model = choice.model;
    api_key = key;
    credential_id = some c.id;
  })

  abbrev is_gemini : Provider → Bool
  is_gemini p = provider_beq p gemini

  abbrev pub with_credential : ℕ → Choice → Vault S → Option Credential → Resolution
  with_credential user choice v (some c) = with_key choice c (reveal stores c v.secrets)
  with_credential user choice v none =
      if settings.allow_system_fallback_key
        && is_gemini choice.provider
        && not (is_empty settings.gemini_api_key)
      then resolved (record {
        provider = choice.provider;
        model = choice.model;
        api_key = settings.gemini_api_key;
        credential_id = none;
      })
      else no_credential choice.provider (has_any user choice.provider v.db.rows)

  abbrev pub resolve_for :
      ℕ → Option Text → Option ChatSession → Text → Vault S → Option Provider → Resolution
  resolve_for user requested session model v none = unknown_model
  resolve_for user requested session model v (some p) =
      let choice : Choice = choose_provider user requested p model v.db.rows in
      with_credential user choice v (choose choice.candidates session)

  -- CredentialResolver.resolve
  unfoldable pub resolve : ℕ → Option Text → Option ChatSession → Vault S → Resolution
  unfolding provider_for choose_provider choose reveal has_any
  resolve user requested session v =
      let model : Text =
        text_or requested (text_or (session_model session) settings.gemini_model) in
      resolve_for user requested session model v (provider_for model)
