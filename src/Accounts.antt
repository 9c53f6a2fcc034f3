-- ===== src/Accounts.antt =====
-- The accounts of Supabase Auth and the rows of `users` that belong to them, as
-- apps/api/src/modules/auth/auth.service.ts and apps/api/src/modules/users/users.service.ts make them:
-- an account first, then the row, and the account deleted again when the row is refused.
pub mod Undone
pub mod Memory
use edu_lanka.Prelude.{
  ℕ, String, ◌≡◌, ◌≢◌, Bool, true, false, not, Option, none, some, List, [], ◌∷◌, ◌++◌, select, All,
  str_eq,
}
use edu_lanka.Http.{Result, ok, err, HttpError, Action}
use edu_lanka.Postgrest.{Reply, found, failed, Table}
use edu_lanka.Text.{Text}
use edu_lanka.User.{UserRole}
use edu_lanka.Redis.{Redis}

-- An account; the tenant is that of its `user_metadata`.
pub record Account : Type 0 where
  pub id : String
  pub email : Option String
  pub phone : Option String
  pub tenant_id : Option String

-- `{ data, error }` of `createUser`: the id of the account, or the message of the error.
pub data Created : Type 0 where
  created : String → Created
  refused : Text → Created

-- `supabase.auth` and `supabase.auth.admin`.
pub record AuthAdmin : Type 1 where
  pub Db : Type 0
  pub accounts : Db → List Account
  -- `createUser`, with the account for the id that it gets, and its password.
  pub create_user : (String → Account) → String → Db → Created × Db
  pub create_user_created :
      (make : String → Account) (password : String) (db : Db) (id : String)
      → (create_user make password db).0 ≡ created id
      → accounts (create_user make password db).1 ≡ accounts db ++ make id ∷ []
  pub create_user_fresh :
      (make : String → Account) (password : String) (db : Db) (id : String)
      → (create_user make password db).0 ≡ created id
      → All (λ a. a.id ≢ id) (accounts db)
  pub create_user_refused :
      (make : String → Account) (password : String) (db : Db) (message : Text)
      → (create_user make password db).0 ≡ refused message
      → accounts (create_user make password db).1 ≡ accounts db
  -- `deleteUser`, whose error is dropped.
  pub delete_user : String → Db → Db

-- The columns of `users` that a registration writes.
pub record Profile : Type 0 where
  pub id : String
  pub user_id : String
  pub tenant_id : Option String
  pub email : Option String
  pub phone_number : Option String
  pub full_name : String
  pub role : UserRole
  pub is_active : Bool

pub record StudentRow : Type 0 where
  pub id : String
  pub tenant_id : String
  pub user_id : String
  pub admission_no : String
  pub class_id : Option String

pub record ParentRow : Type 0 where
  pub id : String
  pub tenant_id : String
  pub user_id : String

pub record LearnerRow : Type 0 where
  pub id : String
  pub user_id : String
  pub plan : String
  pub is_active : Bool

-- What is written, with the code and the message of the error of the last request on `users`.
pub record AccountStores : Type 1 where
  pub Auth : AuthAdmin
  pub Profiles : Table Profile
  pub Students : Table StudentRow
  pub Parents : Table ParentRow
  pub Learners : Table LearnerRow
  pub Tokens : Redis
  pub error_code : Profiles.Db → String

pub record People (D : AccountStores) : Type 0 where
  pub auth : D.Auth.Db
  pub users : D.Profiles.Db
  pub students : D.Students.Db
  pub parents : D.Parents.Db
  pub learners : D.Learners.Db
  pub redis : D.Tokens.Db

module _ (D : AccountStores) where
  abbrev pub with_auth : People D → D.Auth.Db → People D
  with_auth s db = record s { auth = db }

  abbrev pub opened : (Text → HttpError) → People D → Created × D.Auth.Db → Result String × People D
  opened error s (created id, db) = (ok id, with_auth s db)
  opened error s (refused message, db) = (err (error message), with_auth s db)

  -- `createUser`, with the exception for the message of its error.
  abbrev pub open_account :
      (String → Account) → String → (Text → HttpError) → Action (People D) String
  open_account make password error s = opened error s (D.Auth.create_user make password s.auth)

  abbrev pub delete_account : String → People D → People D
  delete_account uid s = with_auth s (D.Auth.delete_user uid s.auth)

  abbrev pub profile_added :
      (People D → People D)
      → (D.Profiles.Db → HttpError)
      → People D
      → Reply String × D.Profiles.Db
      → Result String × People D
  profile_added undo error s (found id, db) = (ok id, record s { users = db })
  profile_added undo error s (failed, db) = (err (error db), undo (record s { users = db }))

  -- The insert into `users`; when it is refused, the account is taken back.
  abbrev pub add_profile :
      (People D → People D)
      → (String → Profile)
      → (D.Profiles.Db → HttpError)
      → Action (People D) String
  add_profile undo make error s = profile_added undo error s (D.Profiles.insert make s.users)

  abbrev pub paired : String → Result String × People D → Result (String × String) × People D
  paired uid (ok id, s) = (ok (uid, id), s)
  paired uid (err e, s) = (err e, s)

  abbrev pub then_profile :
      (String → People D → People D)
      → (String → String → Profile)
      → (D.Profiles.Db → HttpError)
      → Result String × People D
      → Result (String × String) × People D
  then_profile undo profile error (ok uid, s) =
      paired uid (add_profile (undo uid) (profile uid) error s)
  then_profile undo profile error (err e, s) = (err e, s)

  -- Both steps: the id of the account, and that of the row.
  unfoldable pub add_user :
      (String → Account)
      → String
      → (Text → HttpError)
      → (String → People D → People D)
      → (String → String → Profile)
      → (D.Profiles.Db → HttpError)
      → Action (People D) (String × String)
  add_user make password refusal undo profile error s =
      then_profile undo profile error (open_account make password refusal s)
