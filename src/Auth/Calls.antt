-- ===== src/Auth/Calls.antt =====
-- Runs of the service: a call that raises changes nothing, so only the calls that return are steps.
use intelli_study_planner_br.Base.{ℕ, ◌≡◌, Option, Text}
use intelli_study_planner_br.Vault.Secrets.{Stores}
use intelli_study_planner_br.Auth.Rows.{User, Db, done}
use intelli_study_planner_br.Auth.Service.{
  Platform, Mail, Drawn, register, login, logout, request_password_reset, reset_password,
}
use intelli_study_planner_br.Auth.Deletion.{Store, delete_account}

module _ {S T : Type 0} (P : Platform) (stores : Stores S) (adelete_thread : ℕ → T → T) where
  -- A step between the tables; `Allowed` is asked of the hash of a link that is drawn in it.
  pub data Step (Allowed : Text → Type 0) : Db → Db → Type 0 where
    registers :
        (email password : Text) (name : Option Text) (id : ℕ) (drawn : Drawn) (now : ℕ)
        (db db' : Db) (answer : User × Text)
        → register P email password name id drawn now db ≡ done (answer, db')
        → Step Allowed db db'
    logs_in :
        (email password : Text) (drawn : Drawn) (now : ℕ) (db db' : Db) (answer : User × Text)
        → login P email password drawn now db ≡ done (answer, db')
        → Step Allowed db db'
    logs_out : (token : Option Text) (db : Db) → Step Allowed db (logout P token db)
    asks_link :
        (email raw_token : Text) (now : ℕ) (db db' : Db) (mail : Option Mail)
        → Allowed (P.hash_session_token raw_token)
        → request_password_reset P email raw_token now db ≡ done (mail, db')
        → Step Allowed db db'
    resets :
        (token password salt : Text) (now : ℕ) (db db' : Db)
        → reset_password P token password salt now db ≡ done db'
        → Step Allowed db db'
    leaves :
        (user : User) (password : Text) (st st' : Store S) (threads threads' : T)
        → delete_account P stores adelete_thread user password (st, threads) ≡ (done st', threads')
        → Step Allowed st.auth st'.auth

  pub data Steps (Allowed : Text → Type 0) : Db → Db → Type 0 where
    stops : (db : Db) → Steps Allowed db db
    steps :
        {db db' db'' : Db} → Step Allowed db db' → Steps Allowed db' db'' → Steps Allowed db db''
