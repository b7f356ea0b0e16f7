-- ===== src/Vault/Refused.antt =====
-- app/services/vault_service.py: what an update that fails leaves behind.
use intelli_study_planner_br.Base.{◌≡◌, some, Text, ◌⊎◌, nat_eq, text_eq}
use intelli_study_planner_br.Vault.Rows.{Provider, Credential, StoredSecret}
use intelli_study_planner_br.Vault.Secrets.{Stores, store_for}
use intelli_study_planner_br.Vault.Requests.{
  Vault, Verdict, duplicate_label, UpdateRequest, get_key, Failure,
}
use intelli_study_planner_br.Vault.Service.{put_in}

module _ {S : Type 0} (stores : Stores S) (verify_key : Provider → Text → Verdict)
    (v : Vault S) where
  -- What a refused update has done where it replaced the key before it saw that the label is taken.
  pub record IsReplaced (r : UpdateRequest) (e : Failure) (v' : Vault S) : Type 0 where
    pub row : Credential
    pub key : Text
    pub stored : StoredSecret
    pub found : get_key r.user r.id v.db.rows ≡ some row
    pub given : r.api_key ≡ some key
    pub put : put_in (store_for stores row.backend) v.secrets row key ≡ some (v'.secrets, stored)
    pub reported : e ≡ duplicate_label
    pub rolled_back : v'.db ≡ v.db

  -- The ways in which an update fails.
  IsRefused : UpdateRequest → Failure → Vault S → Type 0
  IsRefused r e v' = (v' ≡ v) ⊎ IsReplaced r e v'
