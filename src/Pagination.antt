-- ===== src/Pagination.antt =====
-- `fetchAllRows` of the billing service (apps/api/src/modules/billing/billing.service.ts): the loop
-- that reads a table page by page.
use mathlib.Core.List.{append-nil, append_assoc}
use edu_lanka.Prelude.{
  ℕ, zero, suc, ◌+◌, ◌-◌, ◌*◌, ◌≤◌, ◌<◌, ◌≡◌, ◌≢◌, refl, ◌∙◌, ap, ◌⊎◌, inl, inr, Option, some, none,
  List, [], ◌∷◌, ◌++◌, length, take, drop, drop-drop, drop-short, length-drop, length-take,
  take-append-drop, ltb, if◌then◌else◌, arith, Bool-cases, Bool, select, length-select,
}
use edu_lanka.Http.{HttpError, Result, ok, err}
use edu_lanka.Postgrest.{Reply, found, failed, Table}

abbrev pub page_size : ℕ
page_size = 1000

module _ {A : Type 0} (size : ℕ) (query : ℕ → ℕ → Reply (List A)) where
  -- One round has read `reply`; `more` is the next round.
  abbrev after_page :
      Reply (List A) → List A → (List A → Option (Reply (List A))) → Option (Reply (List A))
  after_page failed all more = some failed
  after_page (found []) all more = some (found all)
  after_page (found (r ∷ rs)) all more =
      let next = more (all ++ r ∷ rs) in
      if ltb (length (r ∷ rs)) size then some (found (all ++ r ∷ rs)) else next

  -- The rounds of the loop; `none` means that the fuel ran out.
  pub fetch_pages : ℕ → ℕ → List A → Option (Reply (List A))
  fetch_pages zero from all = none
  fetch_pages (suc fuel) from all =
      after_page (query from (from + size - 1)) all (fetch_pages fuel (from + size))

  -- The pages are slices of one list.
  abbrev pub Serves : List A → Type 0
  Serves xs =
      (from : ℕ) (rs : List A)
      → query from (from + size - 1) ≡ found rs
      → rs ≡ take size (drop from xs)

  module _ (xs : List A) (serves : Serves xs) (positive : 0 < size) where
    -- A page moves from what is left to what has been read.
    read_page :
        (from : ℕ) (all page : List A)
        → all ++ drop from xs ≡ xs
        → page ≡ take size (drop from xs)
        → (all ++ page) ++ drop (from + size) xs ≡ xs
    read_page from all page e h =
        rw (append_assoc, h, ← drop-drop from size xs, take-append-drop size (drop from xs)) e

    last_page :
        (from : ℕ) (all page : List A)
        → all ++ drop from xs ≡ xs
        → page ≡ take size (drop from xs)
        → length page < size
        → all ++ page ≡ xs
    last_page from all page e h short =
        let none_left : drop (from + size) xs ≡ [] =
          rw (← drop-drop from size xs) (drop-short size (drop from xs) (rw (← h) short)) in
        rw (none_left, append-nil) at (read_page from all page e h)

    full_page :
        (from : ℕ) (page : List A)
        → page ≡ take size (drop from xs)
        → ¬ (length page < size)
        → from ≤ length xs
        → from + size ≤ length xs
    full_page from page e full h =
        omega (arith, ap length e, length-take size (drop from xs), length-drop from xs)

    abbrev Done : Option (Reply (List A)) → Type 0
    Done o = (o ≡ some failed) ⊎ (o ≡ some (found xs))

    after_page-Done :
        (from : ℕ) (all : List A) (reply : Reply (List A)) (more : List A → Option (Reply (List A)))
        → query from (from + size - 1) ≡ reply
        → all ++ drop from xs ≡ xs
        → from ≤ length xs
        → ((next : List A)
            → next ++ drop (from + size) xs ≡ xs
            → from + size ≤ length xs
            → Done (more next))
        → Done (after_page reply all more)
    after_page-Done from all failed more q e le rest = inl refl
    after_page-Done from all (found []) more q e le rest =
        inr (rw (rw append-nil at (last_page from all [] e (serves from [] q) positive)))
    after_page-Done from all (found (r ∷ rs)) more q e le rest =
        let page = serves from (r ∷ rs) q in
        elim (Bool-cases (ltb (length (r ∷ rs)) size)) [
          | inl short ↦ rw short (inr (rw (last_page from all (r ∷ rs) e page (ground arith))))
          | inr full ↦ rw full (
              rest (all ++ r ∷ rs) (read_page from all (r ∷ rs) e page)
                (full_page from (r ∷ rs) page (ground arith) le))
        ]

    fetch_pages_from :
        (fuel from : ℕ) (all : List A)
        → all ++ drop from xs ≡ xs
        → from ≤ length xs
        → length xs < from + fuel * size
        → Done (fetch_pages fuel from all)
    unfolding fetch_pages
    fetch_pages_from zero from all e le h = absurd (omega arith)
    fetch_pages_from (suc fuel) from all e le h =
        after_page-Done from all _ (fetch_pages fuel (from + size)) refl e le
          λ next e' le'. fetch_pages_from fuel (from + size) next e' le' (omega arith)

    fetch_pages-found :
        (fuel from : ℕ) (all : List A)
        → ((k : ℕ) → query k (k + size - 1) ≢ failed)
        → fetch_pages fuel from all ≢ some failed
    unfolding fetch_pages
    fetch_pages-found zero from all answered = cc
    fetch_pages-found (suc fuel) from all answered =
        after_page-found _ all (fetch_pages fuel (from + size)) (answered from)
          λ next. fetch_pages-found fuel (from + size) next answered
      where
        after_page-found :
            (reply : Reply (List A)) (all : List A) (more : List A → Option (Reply (List A)))
            → reply ≢ failed
            → ((next : List A) → more next ≢ some failed)
            → after_page reply all more ≢ some failed
        after_page-found failed all more h rest = absurd (h refl)
        after_page-found (found []) all more h rest = cc
        after_page-found (found (r ∷ rs)) all more h rest = ground (arith, rest (all ++ r ∷ rs))

-- If the pages are slices of one list and none of them fails, the loop ends and has read the whole
-- list, each row once and in order. Fuel for one page more than the list fills is enough.
pub fetch_pages_whole :
    {A : Type 0} (query : ℕ → ℕ → Reply (List A)) (xs : List A)
    → Serves page_size query xs
    → ((k : ℕ) → query k (k + page_size - 1) ≢ failed)
    → (fuel : ℕ) → length xs < fuel * page_size
    → fetch_pages page_size query fuel 0 [] ≡ some (found xs)
fetch_pages_whole query xs serves answered fuel h =
    elim (fetch_pages_from page_size query xs serves (omega arith) fuel 0 [] refl (omega arith)
      (omega arith)) [
        | inl bad ↦
            absurd
              (fetch_pages-found page_size query xs serves (omega arith) fuel 0 [] answered bad)
        | inr good ↦ good
      ]

module _ {Row : Type 0} (T : Table Row) where
  -- What the service is given: the rows, or the error that a page has thrown. A loop that runs for
  -- ever would not return; by `fetch_pages_whole` and `fetch_all_rows_rows` this does not happen.
  abbrev settle : Option (Reply (List Row)) → Result (List Row)
  settle none = err HttpError.thrown
  settle (some failed) = err HttpError.thrown
  settle (some (found rs)) = ok rs

  pub fetch_all_rows : (Row → Bool) → T.Db → Result (List Row)
  fetch_all_rows p db = settle (
      fetch_pages page_size (λ from to. T.select_range p from to db) (suc (length (T.rows db))) 0
        [])

  page_slice : (from : ℕ) → from + page_size - 1 + 1 - from ≡ page_size
  page_slice from = omega arith

  table-Serves :
      (p : Row → Bool) (db : T.Db)
      → Serves page_size (λ from to. T.select_range p from to db) (select p (T.rows db))
  table-Serves p db from rs e =
      let slice = T.select_range_found p from (from + page_size - 1) db rs e in
      slice ∙ ap (λ n. take n (drop from (select p (T.rows db)))) (page_slice from)

  settle-rows :
      (o : Option (Reply (List Row))) (xs : List Row) {rs : List Row}
      → (o ≡ some failed) ⊎ (o ≡ some (found xs))
      → settle o ≡ ok rs
      → rs ≡ xs
  settle-rows none xs (inl e) h = cc
  settle-rows none xs (inr e) h = cc
  settle-rows (some failed) xs e h = cc
  settle-rows (some (found rs)) xs (inl e) h = cc
  settle-rows (some (found rs)) xs (inr e) h = ground arith

  -- What the service gets is what the filters select.
  pub fetch_all_rows_rows :
      (p : Row → Bool) (db : T.Db) {rs : List Row}
      → fetch_all_rows p db ≡ ok rs
      → rs ≡ select p (T.rows db)
  unfolding fetch_all_rows
  fetch_all_rows_rows p db h =
      settle-rows _ (select p (T.rows db))
        (fetch_pages_from page_size _ _ (table-Serves p db) (omega arith) (suc (length (T.rows db)))
          0 [] refl (omega arith) (omega (arith, length-select p (T.rows db))))
        h
