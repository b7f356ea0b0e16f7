-- ===== src/Auth/Leaving.antt =====
-- Two keys at Infisical, two chats with their threads, and the deletion of the account of one of them.
use intelli_study_planner_br.Base.{
  ℕ, ◌≡◌, refl, true, not, ◌&&◌, none, some, List, [], ◌∷◌, codes, arith, keep, elem, if◌then◌else◌,
  ◌==◌, text_eq, nat_eq,
}
use intelli_study_planner_br.Vault.Rows.{openai, active, Credential}
use intelli_study_planner_br.Vault.Secrets.{SecretStore, Stores}
use intelli_study_planner_br.Auth.Rows.{done, failed, invalid_password}
use intelli_study_planner_br.Auth.Service.{verify_password}
use intelli_study_planner_br.Auth.Deletion.{Store, ChatSession, delete_account}
use intelli_study_planner_br.Auth.Gone.{Erases, DeletesThread}
use intelli_study_planner_br.Auth.Erased.{IsErased, delete_account-IsErased}
use intelli_study_planner_br.Auth.Samples.{platform, ann, with_bob, joined, no_rows}

-- Ids, of secrets or of threads.
abbrev without : ℕ → List ℕ → List ℕ
without n ids = keep (λ k. not (k == n)) ids

elem-without : (n m : ℕ) (ids : List ℕ) → elem m (without n ids) ≡ (not (n == m) && elem m ids)
elem-without n m [] = grind arith
elem-without n m (k ∷ ids) = grind (arith, elem-without n m ids)

abbrev drawer : SecretStore (List ℕ)
drawer = record {
  name = codes "infisical";
  put = λ s c key. none;
  get = λ s c. if elem c.id s then some (codes "sk-1") else none;
  delete = λ s c. some (without c.id s);
}

abbrev stores : Stores (List ℕ)
stores = record {
  local_store = record drawer { delete = λ s c. some s };
  infisical_store = drawer;
  secret_backend = codes "infisical";
}

stores-Erases : Erases stores
stores-Erases = record {
  erases = λ s s' c e. grind (arith, elem-without c.id c.id s);
  stays = λ s s' c d gone e. grind (arith, elem-without d.id c.id s);
  idle = λ s c. refl;
}

without-DeletesThread : DeletesThread without elem
without-DeletesThread n m t = elem-without n m t

abbrev key_of : ℕ → ℕ → Credential
key_of user n = record {
  id = n;
  user_id = user;
  provider = openai;
  label = codes "laptop";
  backend = codes "infisical";
  secret_ref = some (codes "ref");
  sealed = none;
  last4 = codes "abcd";
  is_default = true;
  status = active;
  last_used_at = none;
  last_verified_at = none;
  created_at = 1;
}

abbrev chat : ℕ → ℕ → ChatSession
chat user n = record { id = n; user_id = some user }

-- Ann is user 7, Bob is user 8.
abbrev full : Store (List ℕ)
full = record {
  auth = with_bob joined;
  vault = record {
    db = record { rows = key_of 7 1 ∷ key_of 8 2 ∷ []; audits = [] };
    secrets = 1 ∷ 2 ∷ [];
  };
  chats = chat 7 3 ∷ chat 8 4 ∷ [];
}

abbrev left : Store (List ℕ)
left = record {
  auth = with_bob no_rows;
  vault = record { db = record { rows = key_of 8 2 ∷ []; audits = [] }; secrets = 2 ∷ [] };
  chats = chat 8 4 ∷ [];
}

leaves :
    delete_account platform stores without ann (codes "old") (full, 3 ∷ 4 ∷ [])
    ≡ (done left, 4 ∷ [])
unfolding delete_account
leaves = refl

refuses_password :
    delete_account platform stores without ann (codes "new") (full, 3 ∷ 4 ∷ [])
    ≡ (failed invalid_password, 3 ∷ 4 ∷ [])
unfolding delete_account
refuses_password = refl

delete_account-IsErased_example :
    (verify_password platform ann.password_hash (codes "old") ≡ true)
    × IsErased stores elem 7 full left (3 ∷ 4 ∷ []) (4 ∷ [])
delete_account-IsErased_example =
    delete_account-IsErased stores elem platform without ann (codes "old") full left (3 ∷ 4 ∷ [])
      (4 ∷ []) stores-Erases without-DeletesThread leaves
