-- ===== src/Vault/Samples.antt =====
-- A small secret store, tests and witnesses of the vault.
use intelli_study_planner_br.Base.{
  ◌⊎◌, ℕ, ◌≤◌, ◌≡◌, ◌≢◌, refl, Bool, true, false, Option, none, some, List, [], ◌∷◌, Text, codes,
  arith, ◌==◌, nat_eq, if◌then◌else◌,
}
use intelli_study_planner_br.Vault.Rows.{
  active, Provider, anthropic, openai, Credential, StoredSecret, count, is_default_of, row_of,
  has_id,
}
use intelli_study_planner_br.Vault.Secrets.{SecretStore, Stores, identify}
use intelli_study_planner_br.Vault.Requests.{
  Vault, Verdict, accepted, ok, failed, key_not_found, CreateRequest, UpdateRequest, check_key,
  get_key,
}
use intelli_study_planner_br.Vault.Service.{create_key, update_key, delete_key}
use intelli_study_planner_br.Vault.Upkeep.{verify_stored_key}
use intelli_study_planner_br.Vault.Reachable.{Reaches, starts, goes_on, creates, default-once}
use intelli_study_planner_br.Vault.Resolver.{provider_for, Settings, LlmConfig, resolved, resolve}
use intelli_study_planner_br.Vault.Ownership.{IsOwnKey, IsFallback, resolve-IsOwnKey}
use intelli_study_planner_br.Vault.Trail.{Extends, Steps-Extends}
use intelli_study_planner_br.Vault.Access.{foreign-key_not_found}

-- The keys by credential, the latest first.
abbrev Drawer : Type 0
Drawer = List (ℕ × Text)

key_in : ℕ → Drawer → Option Text
key_in n [] = none
key_in n ((m, key) ∷ rest) = if m == n then some key else key_in n rest

abbrev drawer : SecretStore Drawer
drawer = record {
  name = codes "infisical";
  put = λ s c key. some (
    (c.id, key) ∷ s,
    record { backend = codes "infisical"; sealed = none; secret_ref = some (codes "ref") },
  );
  get = λ s c. key_in c.id s;
  delete = λ s c. some s;
}

abbrev stores : Stores Drawer
stores = record {
  local_store = drawer;
  infisical_store = drawer;
  secret_backend = codes "infisical";
}

abbrev accepting : Provider → Text → Verdict
accepting p key = accepted

abbrev nothing : Vault Drawer
nothing = record { db = record { rows = []; audits = [] }; secrets = [] }

abbrev adds : ℕ → Text → CreateRequest
adds n label = record {
  id = n;
  user = 7;
  provider = openai;
  api_key = codes "sk-proj-abcd";
  label = some label;
  make_default = false;
  verify = true;
  now = n;
}

abbrev one_key : Vault Drawer
one_key = (create_key stores accepting (adds 1 (codes "laptop")) nothing).1

abbrev two_keys : Vault Drawer
two_keys = (create_key stores accepting (adds 2 (codes "phone")) one_key).1

abbrev second_left : Vault Drawer
second_left = (delete_key stores accepting 7 1 two_keys).1

-- The first key is the default, and its deletion promotes the second.
second_promoted : count (is_default_of 7 openai) second_left.db.rows ≡ 1
unfolding create_key delete_key count
second_promoted = refl

anthropic_key : identify (codes " sk-ant-x ") ≡ some anthropic
unfolding identify
anthropic_key = refl

fresh_one : count (has_id 1) nothing.db.rows ≡ 0
unfolding count
fresh_one = refl

fresh_two : count (has_id 2) one_key.db.rows ≡ 0
unfolding create_key count
fresh_two = refl

abbrev two_steps : Reaches stores accepting two_keys
two_steps =
    goes_on one_key two_keys
      (goes_on nothing one_key (starts nothing refl)
        (creates (adds 1 (codes "laptop")) nothing fresh_one))
      (creates (adds 2 (codes "phone")) one_key fresh_two)

default-once_example : count (is_default_of 7 openai) two_keys.db.rows ≤ 1
default-once_example = default-once stores accepting two_keys two_steps 7 openai

abbrev row : ℕ → Text → Bool → Credential
row n label is_default = record {
  id = n;
  user_id = 7;
  provider = openai;
  label = label;
  backend = codes "infisical";
  secret_ref = some (codes "ref");
  sealed = none;
  last4 = codes "abcd";
  is_default = is_default;
  status = active;
  last_used_at = none;
  last_verified_at = some n;
  created_at = n;
}

first_row : row_of 1 two_keys.db.rows ≡ some (row 1 (codes "laptop") true)
unfolding create_key row_of
first_row = refl

second_row : get_key 7 2 two_keys.db.rows ≡ some (row 2 (codes "phone") false)
unfolding create_key get_key
second_row = refl

abbrev relabels : ℕ → ℕ → UpdateRequest
relabels user n = record {
  id = n;
  user = user;
  api_key = some (codes "sk-proj-wxyz");
  label = some (codes "laptop");
  make_default = false;
  verify = false;
  now = 9;
}

stranger : (row 1 (codes "laptop") true).user_id ≢ (relabels 8 1).user
stranger = omega arith

foreign-key_not_found_example :
    (update_key stores accepting (relabels 8 1) two_keys ≡ (failed key_not_found, two_keys))
    × ((delete_key stores accepting 8 1 two_keys ≡ (failed key_not_found, two_keys))
        × (verify_stored_key stores accepting 8 1 9 [] two_keys ≡ (failed key_not_found, two_keys)))
foreign-key_not_found_example =
    foreign-key_not_found stores accepting two_keys (relabels 8 1) (row 1 (codes "laptop") true) 9
      [] first_row stranger

checked : check_key accepting false 9 openai (codes "sk-proj-wxyz") ≡ ok none
unfolding check_key
checked = refl

abbrev kept_ref : StoredSecret
kept_ref = record { backend = codes "infisical"; sealed = none; secret_ref = some (codes "ref") }

abbrev rotated_keys : Vault Drawer
rotated_keys = record { db = two_keys.db; secrets = (2, codes "sk-proj-wxyz") ∷ two_keys.secrets }

abbrev settings : Settings
settings = record {
  gemini_model = codes "gemini-3.5-flash";
  allow_system_fallback_key = false;
  gemini_api_key = [];
}

abbrev config : LlmConfig
config = record {
  provider = openai;
  model = codes "gpt-5.1";
  api_key = codes "sk-proj-abcd";
  credential_id = some 1;
}

default_chosen : resolve settings stores 7 (some (codes "gpt-5.1")) none two_keys ≡ resolved config
unfolding resolve create_key key_in
default_chosen = refl

-- Without a Gemini key, the provider of the keys is used.
switched_provider : resolve settings stores 7 none none two_keys ≡ resolved config
unfolding resolve create_key key_in
switched_provider = refl

resolve-IsOwnKey_example :
    (provider_for (codes "gpt-5.1") ≡ some openai)
    × (IsOwnKey settings stores two_keys 7 config ⊎ IsFallback settings stores two_keys config)
resolve-IsOwnKey_example =
    resolve-IsOwnKey settings stores two_keys 7 none none config switched_provider

Steps-Extends_example : Extends one_key two_keys
Steps-Extends_example =
    Steps-Extends stores accepting one_key two_keys
      (creates (adds 2 (codes "phone")) one_key fresh_two)
