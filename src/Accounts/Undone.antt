-- ===== src/Accounts/Undone.antt =====
-- A registration leaves an account and its row, or neither (apps/api/src/modules/auth/auth.service.ts,
-- apps/api/src/modules/users/users.service.ts).
use mathlib.Core.Path.{subst}
use edu_lanka.Prelude.{
  String, ◌≡◌, ◌≢◌, refl, sym, ap, ◌∙◌, inl, inr, not, List, [], ◌∷◌, ◌++◌, select, All, Bool-cases,
  str_eq, str_eq_iff,
}
use edu_lanka.Http.{Result, ok, err, HttpError}
use edu_lanka.Postgrest.{Reply, found, failed}
use edu_lanka.Text.{Text}
use edu_lanka.Accounts.{
  Account, Created, created, refused, Profile, AccountStores, People, opened, delete_account,
  profile_added, paired, then_profile, add_user,
}

-- An element with a new key is the only one that its deletion takes away.
pub select-new :
    {A : Type 0} (key : A → String) (id : String) (xs : List A) (x : A)
    → All (λ y. key y ≢ id) xs
    → key x ≡ id
    → select (λ y. not (str_eq (key y) id)) (xs ++ x ∷ []) ≡ xs
select-new key id [] x h e = rw ((str_eq_iff (key x) id).1 e) refl
select-new key id (y ∷ xs) x (h, hs) e = elim (Bool-cases (str_eq (key y) id)) [
  | inl k ↦ absurd (h ((str_eq_iff (key y) id).0 k))
  | inr k ↦ rw (k, select-new key id xs x hs e) refl
]

module _ (D : AccountStores) where
  -- Nothing has been added.
  abbrev pub HasSameUsers : People D → People D → Type 0
  HasSameUsers s s' =
      (D.Auth.accounts s'.auth ≡ D.Auth.accounts s.auth)
      × (D.Profiles.rows s'.users ≡ D.Profiles.rows s.users)

  -- An account and a row for it have been added, both with ids that were not used.
  abbrev pub HasAdded :
      (String → Account)
      → (String → String → Profile)
      → People D
      → People D
      → String × String
      → Type 0
  HasAdded make profile s s' (uid, id) =
      (D.Auth.accounts s'.auth ≡ D.Auth.accounts s.auth ++ make uid ∷ [])
      × (D.Profiles.rows s'.users ≡ D.Profiles.rows s.users ++ profile uid id ∷ [])
      × All (λ a. a.id ≢ uid) (D.Auth.accounts s.auth)
      × All (λ r. D.Profiles.key r ≢ id) (D.Profiles.rows s.users)

  -- What a registration has done: all of it, or nothing.
  abbrev pub IsWhole :
      (String → Account)
      → (String → String → Profile)
      → People D
      → Result (String × String) × People D
      → Type 0
  IsWhole make profile s (ok ids, s') = HasAdded make profile s s' ids
  IsWhole make profile s (err e, s') = HasSameUsers s s'

  module _ (make : String → Account) (made : (id : String) → (make id).id ≡ id)
      (undo : String → People D → People D)
      (undone : (uid : String) (s : People D)
        → (D.Auth.accounts (undo uid s).auth
            ≡ select (λ a. not (str_eq a.id uid)) (D.Auth.accounts s.auth))
          × ((undo uid s).users ≡ s.users))
      (profile : String → String → Profile) (error : D.Profiles.Db → HttpError) where
    profile_added-IsWhole :
        (s t : People D) (uid : String) (x : Reply String × D.Profiles.Db)
        → D.Profiles.insert (profile uid) t.users ≡ x
        → t.users ≡ s.users
        → D.Auth.accounts t.auth ≡ D.Auth.accounts s.auth ++ make uid ∷ []
        → All (λ a. a.id ≢ uid) (D.Auth.accounts s.auth)
        → IsWhole make profile s (paired D uid (profile_added D (undo uid) error t x))
    profile_added-IsWhole s t uid (found id, db) e same accounts fresh =
        let rows = D.Profiles.insert_found (profile uid) t.users id (ap (λ z. z.0) e) in
        (
          accounts,
          ap (λ z. D.Profiles.rows z.1) (sym e)
              ∙ rows
              ∙ ap (λ z. D.Profiles.rows z ++ profile uid id ∷ []) same,
          fresh,
          subst (λ z. All (λ r. D.Profiles.key r ≢ id) (D.Profiles.rows z)) same
              (D.Profiles.insert_fresh (profile uid) t.users id (ap (λ z. z.0) e)),
        )
    profile_added-IsWhole s t uid (failed, db) e same accounts fresh =
        let rows = D.Profiles.insert_failed (profile uid) t.users (ap (λ z. z.0) e) in
        let (gone, users) = undone uid (record t { users = db }) in
        (
          gone
              ∙ ap (select (λ a. not (str_eq a.id uid))) accounts
              ∙ select-new (λ a. a.id) uid (D.Auth.accounts s.auth) (make uid) fresh (made uid),
          ap D.Profiles.rows users
              ∙ ap (λ z. D.Profiles.rows z.1) (sym e)
              ∙ rows
              ∙ ap D.Profiles.rows same,
        )

    opened-IsWhole :
        (password : String) (refusal : Text → HttpError) (s : People D) (x : Created × D.Auth.Db)
        → D.Auth.create_user make password s.auth ≡ x
        → IsWhole make profile s (then_profile D undo profile error (opened D refusal s x))
    opened-IsWhole password refusal s (created uid, db) e =
        let t : People D = record s { auth = db } in
        let first = ap (λ z. z.0) e in
        let accounts =
          ap (λ z. D.Auth.accounts z.1) (sym e)
          ∙ D.Auth.create_user_created make password s.auth uid first in
        profile_added-IsWhole s t uid (D.Profiles.insert (profile uid) s.users) refl refl accounts
          (D.Auth.create_user_fresh make password s.auth uid first)
    opened-IsWhole password refusal s (refused message, db) e = (
      ap (λ z. D.Auth.accounts z.1) (sym e)
          ∙ D.Auth.create_user_refused make password s.auth message (ap (λ z. z.0) e),
      refl,
    )

    pub add_user-IsWhole :
        (password : String) (refusal : Text → HttpError) (s : People D)
        → IsWhole make profile s (add_user D make password refusal undo profile error s)
    unfolding add_user
    add_user-IsWhole password refusal s =
        opened-IsWhole password refusal s (D.Auth.create_user make password s.auth) refl

-- A registration of an account and a row touches no other table.
module _ (D : AccountStores) where
  abbrev pub HasSameStudents : {A : Type 0} → People D → Result A × People D → Type 0
  HasSameStudents s x = x.1.students ≡ s.students

  profile_added-HasSameStudents :
      (uid : String) (error : D.Profiles.Db → HttpError) (s t : People D)
      (x : Reply String × D.Profiles.Db)
      → t.students ≡ s.students
      → HasSameStudents s (paired D uid (profile_added D (delete_account D uid) error t x))
  profile_added-HasSameStudents uid error s t (found id, db) h = h
  profile_added-HasSameStudents uid error s t (failed, db) h = h

  opened-HasSameStudents :
      (profile : String → String → Profile) (refusal : Text → HttpError)
      (error : D.Profiles.Db → HttpError) (s : People D) (x : Created × D.Auth.Db)
      → HasSameStudents s (then_profile D (delete_account D) profile error (opened D refusal s x))
  opened-HasSameStudents profile refusal error s (created uid, db) =
      profile_added-HasSameStudents uid error s (record s { auth = db }) _ refl
  opened-HasSameStudents profile refusal error s (refused message, db) = refl

  pub add_user-HasSameStudents :
      (make : String → Account) (password : String) (refusal : Text → HttpError)
      (profile : String → String → Profile) (error : D.Profiles.Db → HttpError) (s : People D)
      → HasSameStudents s (add_user D make password refusal (delete_account D) profile error s)
  unfolding add_user
  add_user-HasSameStudents make password refusal profile error s =
      opened-HasSameStudents profile refusal error s _
