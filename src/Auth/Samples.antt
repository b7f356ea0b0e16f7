-- ===== src/Auth/Samples.antt =====
-- A small platform, tests and witnesses of the accounts.
use intelli_study_planner_br.Base.{
  ℕ, ◌≡◌, ◌≢◌, refl, false, Option, none, some, [], ◌∷◌, Text, codes, arith, if◌then◌else◌, ◌==◌,
  text_eq, ==_refl,
}
use intelli_study_planner_br.Vault.Secrets.{SecretStore, Stores}
use intelli_study_planner_br.Auth.Rows.{
  User, AuthSession, PasswordResetToken, Db, done, failed, invalid_link, invalid_login,
}
use intelli_study_planner_br.Auth.Service.{
  Platform, matches, mismatch, Drawn, new_user, register, login, request_password_reset,
  reset_password, authenticate,
}
use intelli_study_planner_br.Auth.Calls.{registers, asks_link, resets, Steps, stops, steps}
use intelli_study_planner_br.Auth.Spent.{reset_password-once}
use intelli_study_planner_br.Auth.Valid.{IsValid}
use intelli_study_planner_br.Auth.Invariant.{Steps-IsValid}
use intelli_study_planner_br.Auth.Sessions.{login-authenticate, reset_password-signs_out}
use intelli_study_planner_br.Auth.Recovery.{IsHasher, recover, recover-succeeds}

abbrev pub hashed : Text → Text → Text
hashed salt password = 0 ∷ password

abbrev pub platform : Platform
platform = record {
  hash = hashed;
  verify = λ h password. if h == (0 ∷ password) then matches else mismatch;
  check_needs_rehash = λ h. false;
  hash_session_token = λ token. 1 ∷ token;
  session_days = 30;
  reset_minutes = 60;
}

platform-IsHasher : IsHasher platform
unfolding IsHasher
platform-IsHasher salt password = rw (==_refl (0 ∷ password))

abbrev unused_store : SecretStore (Unit {0})
unused_store = record {
  name = codes "infisical";
  put = λ s c key. none;
  get = λ s c. none;
  delete = λ s c. some s;
}

abbrev stores : Stores (Unit {0})
stores = record {
  local_store = unused_store;
  infisical_store = unused_store;
  secret_backend = codes "infisical";
}

abbrev pub no_rows : Db
no_rows = record { users = []; sessions = []; resets = [] }

no_rows-IsValid : IsValid no_rows
no_rows-IsValid = record {
  emails = refl;
  ids = refl;
  session_hashes = refl;
  reset_hashes = refl;
  session_owners = refl;
  reset_owners = refl;
  single = λ n. omega arith;
}

abbrev pub ann : User
ann = new_user 7 (codes "ann@uow") none (hashed [] (codes "old"))

abbrev draws : Text → Drawn
draws t = record { salt = []; token = t }

abbrev session : Text → ℕ → AuthSession
session t end = record { user_id = 7; token_hash = 1 ∷ t; expires_at = end }

abbrev link : Option ℕ → PasswordResetToken
link used_at = record {
  user_id = 7;
  token_hash = 1 ∷ codes "link";
  expires_at = 3610;
  used_at = used_at;
}

abbrev pub joined : Db
joined = record { users = ann ∷ []; sessions = session (codes "a") 2592001 ∷ []; resets = [] }

abbrev asked : Db
asked = record {
  users = ann ∷ [];
  sessions = session (codes "a") 2592001 ∷ [];
  resets = link none ∷ [];
}

abbrev changed : Db
changed = record {
  users = new_user 7 (codes "ann@uow") none (hashed [] (codes "new")) ∷ [];
  sessions = [];
  resets = link (some 20) ∷ [];
}

abbrev Fine : Text → Type 0
Fine t = t ≢ 1 ∷ codes "link"

joins :
    register platform (codes "ann@uow") (codes "old") none 7 (draws (codes "a")) 1 no_rows
    ≡ done ((ann, codes "a"), joined)
unfolding register
joins = refl

asks :
    request_password_reset platform (codes "ann@uow") (codes "link") 10 joined
    ≡ done (some (record { to_email = codes "ann@uow"; raw_token = codes "link" }), asked)
unfolding request_password_reset
asks = refl

changes : reset_password platform (codes "link") (codes "new") [] 20 asked ≡ done changed
unfolding reset_password
changes = refl

wrong_password :
    login platform (codes "ann@uow") (codes "old") (draws (codes "b")) 30 changed
    ≡ failed invalid_login
unfolding login
wrong_password = refl

abbrev history : Steps {T = Unit {0}} platform stores (λ n t. t) (λ t. Unit {0}) no_rows changed
history = steps (registers _ _ none 7 (draws (codes "a")) 1 no_rows joined _ joins) (
    steps (asks_link _ _ 10 joined asked _ tt asks)
      (steps (resets _ _ [] 20 asked changed changes) (stops changed)))

Steps-IsValid_example : IsValid changed
Steps-IsValid_example =
    Steps-IsValid platform stores (λ n (t : Unit {0}). t) history no_rows-IsValid

reset_password-once_example :
    reset_password platform (codes "link") (codes "x") [] 40 changed ≡ failed invalid_link
reset_password-once_example =
    reset_password-once platform stores (λ n (t : Unit {0}). t) (codes "link") (codes "new") [] 20
      asked changed changed changes (stops changed) (codes "x") [] 40

abbrev entered : Db
entered = record joined {
  sessions = session (codes "b") 2592005 ∷ session (codes "a") 2592001 ∷ [];
}

enters :
    login platform (codes "ann@uow") (codes "old") (draws (codes "b")) 5 joined
    ≡ done ((ann, codes "b"), entered)
unfolding login
enters = refl

joined-IsValid : IsValid joined
joined-IsValid =
    Steps-IsValid platform stores (λ n (t : Unit {0}). t) {Allowed = λ t. Unit {0}}
      (steps (registers _ _ none 7 (draws (codes "a")) 1 no_rows joined _ joins) (stops joined))
      no_rows-IsValid

login-authenticate_example : authenticate platform (some (codes "b")) 100 entered ≡ some ann
login-authenticate_example =
    login-authenticate platform (codes "ann@uow") (codes "old") (draws (codes "b")) 5 joined entered
      (ann, codes "b") refl joined-IsValid enters 100

abbrev bob : User
bob = new_user 8 (codes "bob@uow") none (hashed [] (codes "bob"))

abbrev pub with_bob : Db → Db
with_bob db = record db {
  users = bob ∷ db.users;
  sessions = record { user_id = 8; token_hash = 1 ∷ codes "c"; expires_at = 900 } ∷ db.sessions;
}

changes_ann :
    reset_password platform (codes "link") (codes "new") [] 20 (with_bob asked)
    ≡ done (with_bob changed)
unfolding reset_password
changes_ann = refl

bob_stays : authenticate platform (some (codes "c")) 30 (with_bob changed) ≡ some bob
unfolding authenticate
bob_stays = refl

reset_password-signs_out_example : bob.id ≢ 7
reset_password-signs_out_example =
    reset_password-signs_out platform (codes "link") (codes "new") [] 20 (with_bob asked)
      (with_bob changed) (link none) refl changes_ann (some (codes "c")) 30 bob bob_stays

recover-succeeds_example :
    (v : User) × (db' : Db) × (recover platform
        (codes "ann@uow")
        (codes "link")
        10
        (codes "new")
        []
        20
        (draws (codes "b"))
        30
        joined
      ≡ done ((v, codes "b"), db'))
    × (v.id ≡ 7)
recover-succeeds_example =
    recover-succeeds platform (codes "ann@uow") (codes "link") 10 (codes "new") [] 20
      (draws (codes "b")) 30 joined ann platform-IsHasher joined-IsValid refl refl refl
      (omega arith)
