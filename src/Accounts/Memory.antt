-- ===== src/Accounts/Memory.antt =====
-- Accounts held in memory: an instance of Supabase Auth in Accounts.antt, on which the services run in
-- the tests.
use edu_lanka.Prelude.{String, ◌≡◌, refl, ap, ◌∙◌, not, List, [], ◌∷◌, select, str_eq}
use edu_lanka.Postgrest.{Reply, found, failed, Table}
use edu_lanka.PostgrestMemory.{Memory, memory_table}
use edu_lanka.Text.{Text, codes}
use edu_lanka.RedisMemory.{memory_redis, empty_redis}
use edu_lanka.Accounts.{Account, Created, created, refused, AuthAdmin, AccountStores, People}

abbrev table : Table Account
table = memory_table (λ a. a.id)

abbrev answered : Reply String × Memory Account → Created × Memory Account
answered (found id, m) = (created id, m)
answered (failed, m) = (refused (codes "User already registered"), m)

pub answered-created :
    (x : Reply String × Memory Account) (id : String)
    → (answered x).0 ≡ created id
    → (x.0 ≡ found id) × ((answered x).1 ≡ x.1)
answered-created (found i, m) id h = (cc, refl)
answered-created (failed, m) id h = cc

pub answered-refused :
    (x : Reply String × Memory Account) (message : Text)
    → (answered x).0 ≡ refused message
    → (x.0 ≡ failed) × ((answered x).1 ≡ x.1)
answered-refused (found i, m) message h = cc
answered-refused (failed, m) message h = (refl, refl)

abbrev pub memory_auth : AuthAdmin
memory_auth = record {
  Db = Memory Account;
  accounts = λ m. m.stored;
  create_user = λ make password m. answered (table.insert make m);
  create_user_created = λ make password m id h.
      let (e, same) = answered-created (table.insert make m) id h in
      ap (λ z. z.stored) same ∙ table.insert_found make m id e;
  create_user_fresh = λ make password m id h.
      table.insert_fresh make m id (answered-created (table.insert make m) id h).0;
  create_user_refused = λ make password m message h.
      let (e, same) = answered-refused (table.insert make m) message h in
      ap (λ z. z.stored) same ∙ table.insert_failed make m e;
  delete_user = λ id m. record m { stored = select (λ a. not (str_eq a.id id)) m.stored };
}

abbrev pub stores : AccountStores
stores = record {
  Auth = memory_auth;
  Profiles = memory_table (λ r. r.id);
  Students = memory_table (λ r. r.id);
  Parents = memory_table (λ r. r.id);
  Learners = memory_table (λ r. r.id);
  Tokens = memory_redis;
  error_code = λ db. "23505";
}

abbrev pub fresh_ids : {A : Type 0} → List String → Memory A
fresh_ids ids = record { stored = []; ids = ids }

-- Empty tables, with the ids that they will give.
abbrev pub people : List String → List String → List String → People stores
people accounts users learners = record {
  auth = fresh_ids accounts;
  users = fresh_ids users;
  students = fresh_ids ("s1" ∷ []);
  parents = fresh_ids [];
  learners = fresh_ids learners;
  redis = empty_redis;
}
