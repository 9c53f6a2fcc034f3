-- ===== src/PostgrestMemory.antt =====
-- A table held in memory, with the ids that it will give to new rows: an instance of the interface of
-- Postgrest.antt, on which the services run in the tests.
use edu_lanka.Prelude.{
  ap, ◌∙◌, inl, inr, ◌⊎◌, ◌+◌, ◌-◌, take, drop, String, ◌≡◌, ◌≢◌, refl, Bool, true, false, not,
  Option, none, some, List, [], ◌∷◌, ◌++◌, select, modify, any, All, str_eq, str_eq_refl, arith,
}
use edu_lanka.Postgrest.{Reply, found, failed, Table}

pub record Memory (Row : Type 0) : Type 0 where
  pub stored : List Row
  pub ids : List String

pub found-injective : {A : Type 0} {a b : A} → found a ≡ found b → b ≡ a
found-injective h = cc

pub found-ne-failed : {A P : Type 0} {a : A} → found a ≡ failed → P
found-ne-failed h = cc

unfoldable pub at_most_one : {Row : Type 0} → List Row → Reply (Option Row)
at_most_one [] = found none
at_most_one (r ∷ []) = found (some r)
at_most_one (r ∷ _ ∷ _) = failed

module _ {Row : Type 0} (key : Row → String) where
  unfoldable pub update_one :
      List Row → (Row → Bool) → (Row → Row) → Memory Row → Reply Row × Memory Row
  update_one [] p f m = (failed, m)
  update_one (r ∷ []) p f m = (found (f r), record m { stored = modify p f m.stored })
  update_one (r ∷ _ ∷ _) p f m = (failed, m)

  unfoldable pub update_at_most_one :
      List Row → (Row → Bool) → (Row → Row) → Memory Row → Reply (Option Row) × Memory Row
  update_at_most_one [] p f m = (found none, m)
  update_at_most_one (r ∷ []) p f m =
      (found (some (f r)), record m { stored = modify p f m.stored })
  update_at_most_one (r ∷ _ ∷ _) p f m = (failed, m)

  pub maybe_updated_none :
      (rs : List Row) (p : Row → Bool) (f : Row → Row) (m : Memory Row)
      → (update_at_most_one rs p f m).0 ≡ found none
      → (rs ≡ []) × ((update_at_most_one rs p f m).1.stored ≡ m.stored)
  unfolding update_at_most_one
  maybe_updated_none [] p f m h = (refl, refl)
  maybe_updated_none (s ∷ []) p f m h = ground arith
  maybe_updated_none (s ∷ t ∷ rs) p f m h = ground arith

  pub maybe_updated_some :
      (rs : List Row) (p : Row → Bool) (f : Row → Row) (m : Memory Row) (r : Row)
      → (update_at_most_one rs p f m).0 ≡ found (some r)
      → (old : Row) × (rs ≡ old ∷ [])
        × (r ≡ f old)
        × ((update_at_most_one rs p f m).1.stored ≡ modify p f m.stored)
  unfolding update_at_most_one
  maybe_updated_some [] p f m r h = (r, ground arith, ground arith, ground arith)
  maybe_updated_some (s ∷ []) p f m r h = (s, refl, ground arith, refl)
  maybe_updated_some (s ∷ t ∷ rs) p f m r h = (r, ground arith, ground arith, ground arith)

  pub maybe_updated_failed :
      (rs : List Row) (p : Row → Bool) (f : Row → Row) (m : Memory Row)
      → (update_at_most_one rs p f m).0 ≡ failed
      → (update_at_most_one rs p f m).1.stored ≡ m.stored
  unfolding update_at_most_one
  maybe_updated_failed [] p f m h = refl
  maybe_updated_failed (s ∷ []) p f m h = ground arith
  maybe_updated_failed (s ∷ t ∷ rs) p f m h = refl

  store : Bool → String → List String → (String → Row) → Memory Row → Reply String × Memory Row
  store true id rest make m = (failed, m)
  store false id rest make m = (found id, record { stored = m.stored ++ make id ∷ []; ids = rest })

  unfoldable pub insert_with : List String → (String → Row) → Memory Row → Reply String × Memory Row
  unfolding store
  insert_with [] make m = (failed, m)
  insert_with (id ∷ rest) make m = store (any (λ r. str_eq (key r) id) m.stored) id rest make m

  pub maybe_none : (rs : List Row) → at_most_one rs ≡ found none → rs ≡ []
  unfolding at_most_one
  maybe_none [] h = refl
  maybe_none (r ∷ []) h = ground arith
  maybe_none (r ∷ s ∷ rs) h = ground arith

  pub maybe_some : (rs : List Row) (r : Row) → at_most_one rs ≡ found (some r) → rs ≡ r ∷ []
  unfolding at_most_one
  maybe_some [] r h = ground arith
  maybe_some (s ∷ []) r h = ground arith
  maybe_some (s ∷ t ∷ rs) r h = ground arith

  pub update_one_found :
      (rs : List Row) (p : Row → Bool) (f : Row → Row) (m : Memory Row) (r : Row)
      → (update_one rs p f m).0 ≡ found r
      → (old : Row) × (rs ≡ old ∷ [])
        × (r ≡ f old)
        × ((update_one rs p f m).1.stored ≡ modify p f m.stored)
  unfolding update_one
  update_one_found [] p f m r h = (r, ground arith, ground arith, ground arith)
  update_one_found (s ∷ []) p f m r h = (s, refl, ground arith, refl)
  update_one_found (s ∷ t ∷ rs) p f m r h = (r, ground arith, ground arith, ground arith)

  pub update_one_failed :
      (rs : List Row) (p : Row → Bool) (f : Row → Row) (m : Memory Row)
      → (update_one rs p f m).0 ≡ failed
      → (update_one rs p f m).1.stored ≡ m.stored
  unfolding update_one
  update_one_failed [] p f m h = refl
  update_one_failed (s ∷ []) p f m h = ground arith
  update_one_failed (s ∷ t ∷ rs) p f m h = refl

  not_any-All :
      (id : String) (rs : List Row)
      → any (λ r. str_eq (key r) id) rs ≡ false
      → All (λ r. key r ≢ id) rs
  not_any-All id [] h = tt
  not_any-All id (r ∷ rs) h =
      ((λ e. ground (arith, str_eq_refl id)), not_any-All id rs (ground arith))

  store_found :
      (taken : Bool) (i : String) (rest : List String) (make : String → Row) (m : Memory Row)
      (id : String)
      → any (λ r. str_eq (key r) i) m.stored ≡ taken
      → (store taken i rest make m).0 ≡ found id
      → ((store taken i rest make m).1.stored ≡ m.stored ++ make id ∷ [])
        × All (λ r. key r ≢ id) m.stored
  unfolding store
  store_found true i rest make m id e h = cc
  store_found false i rest make m id e h =
      let same : i ≡ id = ground arith in (rw same, rw (← same) (not_any-All i m.stored e))

  pub insert_with_found :
      (ids : List String) (make : String → Row) (m : Memory Row) (id : String)
      → (insert_with ids make m).0 ≡ found id
      → ((insert_with ids make m).1.stored ≡ m.stored ++ make id ∷ [])
        × All (λ r. key r ≢ id) m.stored
  unfolding insert_with
  insert_with_found [] make m id h = cc
  insert_with_found (i ∷ rest) make m id h = store_found _ i rest make m id refl h

  pub insert_with_failed :
      (ids : List String) (make : String → Row) (m : Memory Row)
      → (insert_with ids make m).0 ≡ failed
      → (insert_with ids make m).1.stored ≡ m.stored
  unfolding insert_with
  insert_with_failed [] make m h = refl
  insert_with_failed (i ∷ rest) make m h = ground arith

  abbrev added : (String → Row) → Reply String × Memory Row → Reply Row × Memory Row
  added make (failed, m) = (failed, m)
  added make (found id, m) = (found (make id), m)

  unfoldable pub upsert_one :
      List Row → (Row → Bool) → (Row → Row) → (String → Row) → Memory Row → Reply Row × Memory Row
  unfolding insert_with
  upsert_one [] p f make m = added make (insert_with m.ids make m)
  upsert_one (r ∷ []) p f make m = (found (f r), record m { stored = modify p f m.stored })
  upsert_one (r ∷ _ ∷ _) p f make m = (failed, m)

  added-found :
      (make : String → Row) (reply : Reply String) (m : Memory Row) (r : Row)
      → (added make (reply, m)).0 ≡ found r
      → (id : String) × (reply ≡ found id) × (r ≡ make id) × ((added make (reply, m)).1 ≡ m)
  added-found make failed m r h = cc
  added-found make (found id) m r h = (id, refl, found-injective h, refl)

  added-failed :
      (make : String → Row) (reply : Reply String) (m : Memory Row)
      → (added make (reply, m)).0 ≡ failed
      → (reply ≡ failed) × ((added make (reply, m)).1 ≡ m)
  added-failed make failed m h = (refl, refl)
  added-failed make (found id) m h = cc

  pub upsert_one_found :
      (rs : List Row) (p : Row → Bool) (f : Row → Row) (make : String → Row) (m : Memory Row)
      (r : Row)
      → (upsert_one rs p f make m).0 ≡ found r
      → ((old : Row) × (rs ≡ old ∷ [])
          × (r ≡ f old)
          × ((upsert_one rs p f make m).1.stored ≡ modify p f m.stored))
        ⊎ ((id : String) × (rs ≡ [])
            × (r ≡ make id)
            × ((upsert_one rs p f make m).1.stored ≡ m.stored ++ r ∷ []))
  unfolding upsert_one
  upsert_one_found [] p f make m r h =
      let (reply, m') = insert_with m.ids make m in
      let (id, e, made, same) = added-found make reply m' r h in
      let (stored, _) = insert_with_found m.ids make m id e in
      inr (id, refl, made, ap (λ x. x.stored) same ∙ rw made stored)
  upsert_one_found (s ∷ []) p f make m r h = inl (s, refl, found-injective h, refl)
  upsert_one_found (s ∷ t ∷ rs) p f make m r h = cc

  pub upsert_one_failed :
      (rs : List Row) (p : Row → Bool) (f : Row → Row) (make : String → Row) (m : Memory Row)
      → (upsert_one rs p f make m).0 ≡ failed
      → (upsert_one rs p f make m).1.stored ≡ m.stored
  unfolding upsert_one
  upsert_one_failed [] p f make m h =
      let (reply, m') = insert_with m.ids make m in
      let (e, same) = added-failed make reply m' h in
      ap (λ x. x.stored) same ∙ insert_with_failed m.ids make m e
  upsert_one_failed (s ∷ []) p f make m h = cc
  upsert_one_failed (s ∷ t ∷ rs) p f make m h = refl

  abbrev pub memory_table : Table Row
  memory_table = record {
    Db = Memory Row;
    rows = λ m. m.stored;
    key = key;
    select_all = λ p m. found (select p m.stored);
    select_all_found = λ p m rs h. found-injective h;
    select_range = λ p from to m. found (take (to + 1 - from) (drop from (select p m.stored)));
    select_range_found = λ p from to m rs h. found-injective h;
    maybe_single = λ p m. at_most_one (select p m.stored);
    maybe_single_none = λ p m h. maybe_none (select p m.stored) h;
    maybe_single_some = λ p m r h. maybe_some (select p m.stored) r h;
    update = λ p f m. (found tt, record m { stored = modify p f m.stored });
    update_found = λ p f m h. refl;
    update_failed = λ p f m h. found-ne-failed h;
    update_single = λ p f m. update_one (select p m.stored) p f m;
    update_single_found = λ p f m r h. update_one_found (select p m.stored) p f m r h;
    update_single_failed = λ p f m h. update_one_failed (select p m.stored) p f m h;
    update_maybe = λ p f m. update_at_most_one (select p m.stored) p f m;
    update_maybe_none = λ p f m h. maybe_updated_none (select p m.stored) p f m h;
    update_maybe_some = λ p f m r h. maybe_updated_some (select p m.stored) p f m r h;
    update_maybe_failed = λ p f m h. maybe_updated_failed (select p m.stored) p f m h;
    insert = λ make m. insert_with m.ids make m;
    insert_found = λ make m id h. (insert_with_found m.ids make m id h).0;
    insert_fresh = λ make m id h. (insert_with_found m.ids make m id h).1;
    insert_failed = λ make m h. insert_with_failed m.ids make m h;
    upsert = λ p f make m. upsert_one (select p m.stored) p f make m;
    upsert_found = λ p f make m r h. upsert_one_found (select p m.stored) p f make m r h;
    upsert_failed = λ p f make m h. upsert_one_failed (select p m.stored) p f make m h;
    remove = λ p m. (found tt, record m { stored = select (λ r. not (p r)) m.stored });
    remove_found = λ p m h. refl;
    remove_failed = λ p m h. found-ne-failed h;
  }
