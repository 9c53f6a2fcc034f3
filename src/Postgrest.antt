-- ===== src/Postgrest.antt =====
-- A table behind the Supabase client (`.from(table)`), which the services call and do not implement.
-- The laws are the documented behaviour of PostgREST: what a successful reply says of the rows, and
-- that a failed request changes no row.
use edu_lanka.Prelude.{
  ℕ, ◌+◌, ◌-◌, take, drop, String, ◌≡◌, ◌≢◌, ◌⊎◌, Bool, not, Option, none, some, List, [], ◌∷◌,
  ◌++◌, select, modify, All,
}

-- `{ data, error }`: an error, or the data.
pub data Reply {ℓ} (A : Type ℓ) : Type ℓ where
  found : A → Reply A
  failed : Reply A

pub record Table (Row : Type 0) : Type 1 where
  pub Db : Type 0
  pub rows : Db → List Row
  -- The primary key.
  pub key : Row → String
  -- `.select('*')` with filters.
  pub select_all : (Row → Bool) → Db → Reply (List Row)
  pub select_all_found :
      (p : Row → Bool) (db : Db) (rs : List Row)
      → select_all p db ≡ found rs
      → rs ≡ select p (rows db)
  -- The same, ended by `.range(from, to)`.
  pub select_range : (Row → Bool) → ℕ → ℕ → Db → Reply (List Row)
  pub select_range_found :
      (p : Row → Bool) (from to : ℕ) (db : Db) (rs : List Row)
      → select_range p from to db ≡ found rs
      → rs ≡ take (to + 1 - from) (drop from (select p (rows db)))
  -- The same, ended by `.maybeSingle()`.
  pub maybe_single : (Row → Bool) → Db → Reply (Option Row)
  pub maybe_single_none :
      (p : Row → Bool) (db : Db) → maybe_single p db ≡ found none → select p (rows db) ≡ []
  pub maybe_single_some :
      (p : Row → Bool) (db : Db) (r : Row)
      → maybe_single p db ≡ found (some r)
      → select p (rows db) ≡ r ∷ []
  -- `.update(f)` with filters.
  pub update : (Row → Bool) → (Row → Row) → Db → Reply (Unit {0}) × Db
  pub update_found :
      (p : Row → Bool) (f : Row → Row) (db : Db)
      → (update p f db).0 ≡ found tt
      → rows (update p f db).1 ≡ modify p f (rows db)
  pub update_failed :
      (p : Row → Bool) (f : Row → Row) (db : Db)
      → (update p f db).0 ≡ failed
      → rows (update p f db).1 ≡ rows db
  -- The same, ended by `.select().single()`: it fails unless the filters pass one row.
  pub update_single : (Row → Bool) → (Row → Row) → Db → Reply Row × Db
  pub update_single_found :
      (p : Row → Bool) (f : Row → Row) (db : Db) (r : Row)
      → (update_single p f db).0 ≡ found r
      → (old : Row) × (select p (rows db) ≡ old ∷ [])
        × (r ≡ f old)
        × (rows (update_single p f db).1 ≡ modify p f (rows db))
  pub update_single_failed :
      (p : Row → Bool) (f : Row → Row) (db : Db)
      → (update_single p f db).0 ≡ failed
      → rows (update_single p f db).1 ≡ rows db
  -- The same, ended by `.select().maybeSingle()`: no row is not an error.
  pub update_maybe : (Row → Bool) → (Row → Row) → Db → Reply (Option Row) × Db
  pub update_maybe_none :
      (p : Row → Bool) (f : Row → Row) (db : Db)
      → (update_maybe p f db).0 ≡ found none
      → (select p (rows db) ≡ []) × (rows (update_maybe p f db).1 ≡ rows db)
  pub update_maybe_some :
      (p : Row → Bool) (f : Row → Row) (db : Db) (r : Row)
      → (update_maybe p f db).0 ≡ found (some r)
      → (old : Row) × (select p (rows db) ≡ old ∷ [])
        × (r ≡ f old)
        × (rows (update_maybe p f db).1 ≡ modify p f (rows db))
  pub update_maybe_failed :
      (p : Row → Bool) (f : Row → Row) (db : Db)
      → (update_maybe p f db).0 ≡ failed
      → rows (update_maybe p f db).1 ≡ rows db
  -- `.insert(row)`: the database gives the row a fresh key.
  pub insert : (String → Row) → Db → Reply String × Db
  pub insert_found :
      (make : String → Row) (db : Db) (id : String)
      → (insert make db).0 ≡ found id
      → rows (insert make db).1 ≡ rows db ++ make id ∷ []
  pub insert_fresh :
      (make : String → Row) (db : Db) (id : String)
      → (insert make db).0 ≡ found id
      → All (λ r. key r ≢ id) (rows db)
  pub insert_failed :
      (make : String → Row) (db : Db)
      → (insert make db).0 ≡ failed
      → rows (insert make db).1 ≡ rows db
  -- `.upsert(row, { onConflict })` with `.select().single()`: the stored row with the same key, which
  -- the test finds, is changed; if there is none, a row with a fresh id is added.
  pub upsert : (Row → Bool) → (Row → Row) → (String → Row) → Db → Reply Row × Db
  pub upsert_found :
      (p : Row → Bool) (f : Row → Row) (make : String → Row) (db : Db) (r : Row)
      → (upsert p f make db).0 ≡ found r
      → ((old : Row) × (select p (rows db) ≡ old ∷ [])
          × (r ≡ f old)
          × (rows (upsert p f make db).1 ≡ modify p f (rows db)))
        ⊎ ((id : String) × (select p (rows db) ≡ [])
            × (r ≡ make id)
            × (rows (upsert p f make db).1 ≡ rows db ++ r ∷ []))
  pub upsert_failed :
      (p : Row → Bool) (f : Row → Row) (make : String → Row) (db : Db)
      → (upsert p f make db).0 ≡ failed
      → rows (upsert p f make db).1 ≡ rows db
  -- `.delete()` with filters.
  pub remove : (Row → Bool) → Db → Reply (Unit {0}) × Db
  pub remove_found :
      (p : Row → Bool) (db : Db)
      → (remove p db).0 ≡ found tt
      → rows (remove p db).1 ≡ select (λ r. not (p r)) (rows db)
  pub remove_failed :
      (p : Row → Bool) (db : Db) → (remove p db).0 ≡ failed → rows (remove p db).1 ≡ rows db
