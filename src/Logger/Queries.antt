-- ===== src/Logger/Queries.antt =====
-- What the two queries of logger/logger.go find.
use s_ui_next.Logger.{
  BufferEntry, LogEntry, LogQuery, collect_logs, get_logs, asked, line_of, normalize_page,
  query_matches, entry_of, found_logs, query_logs,
}
use s_ui_next.GoText.{Unicode}
use s_ui_next.Paging.Laws.{pages, pages-all}
use s_ui_next.Paging.{page}
use s_ui_next.Prelude.Int.{ℤ, pos, pos_part}
use s_ui_next.Prelude.{
  ℕ, zero, suc, ◌*◌, ◌≤◌, ◌<◌, ◌≡◌, ◌∙◌, refl, ap, arith, String, Bool, ◌&&◌, List, [], ◌∷◌, ◌++◌,
  map, some, keep, take, get_elem?, length, leb, if◌then◌else◌, Bool-cases, inl, inr,
}
use s_ui_next.Logger.Order.{
  IsNewestFirst, count, sort_newest-IsNewestFirst, count-sort_newest, count-map-keep,
}

module _ {ℓ} {A : Type ℓ} where
  -- The list from its end.
  abbrev pub newest_first : List A → List A
  newest_first [] = []
  newest_first (x ∷ xs) = newest_first xs ++ x ∷ []

  newest_first-snoc : (xs : List A) (x : A) → newest_first (xs ++ x ∷ []) ≡ x ∷ newest_first xs
  newest_first-snoc [] x = refl
  newest_first-snoc (y ∷ xs) x = rw (newest_first-snoc xs x) refl

  -- The element at an index inside the list, and the stretch up to it.
  split_at_index :
      (xs : List A) (i : ℕ)
      → i < length xs
      → (x : A) × (get_elem? xs i ≡ some x) × (take (suc i) xs ≡ take i xs ++ x ∷ [])
  split_at_index [] i h = absurd (omega (arith, h))
  split_at_index (x ∷ xs) zero h = (x, refl, refl)
  split_at_index (x ∷ xs) (suc i) h =
      let (y, e, s) = split_at_index xs i (omega (arith, h)) in (y, e, ap (◌∷◌ x) s)

  take-length : (xs : List A) → take (length xs) xs ≡ xs
  take-length [] = refl
  take-length (x ∷ xs) = ap (◌∷◌ x) (take-length xs)

module _ (log_level : String → ℕ) (level_name : ℕ → String) where
  -- The entries that the loop may meet, filtered and cut, with their lines.
  abbrev lines : ℕ → List BufferEntry → ℕ → List String
  lines level entries c =
      map (line_of level_name) (take c (keep (λ e. leb e.level level) (newest_first entries)))

  -- One turn of the loop at an entry that is severe enough, and at one that is not.
  collect_logs_step :
      (level : ℕ) (b : List BufferEntry) (i c : ℕ) (x : BufferEntry)
      → get_elem? b i ≡ some x
      → collect_logs log_level level_name level b (suc i) (suc c) ≡ (
          if leb x.level level
          then line_of level_name x ∷ collect_logs log_level level_name level b i c
          else collect_logs log_level level_name level b i (suc c))
  unfolding collect_logs
  collect_logs_step level b i c x e = ground (arith, e)

  collect_logs-lines :
      (level : ℕ) (b : List BufferEntry) (i c : ℕ)
      → i ≤ length b
      → collect_logs log_level level_name level b i c ≡ lines level (take i b) c
  unfolding collect_logs
  collect_logs-lines level b zero zero h = refl
  collect_logs-lines level b zero (suc c) h = refl
  collect_logs-lines level b (suc i) zero h = refl
  collect_logs-lines level b (suc i) (suc c) h =
      let (x, e, s) = split_at_index b i (omega (arith, h)) in
      elim (Bool-cases (leb x.level level)) [
        | inl y ↦
            rw (s, collect_logs_step level b i c x e, newest_first-snoc (take i b) x, y)
              (ap (◌∷◌ (line_of level_name x)) (collect_logs-lines level b i c (omega (arith, h))))
        | inr n ↦
            rw (s, collect_logs_step level b i c x e, newest_first-snoc (take i b) x, n)
              (collect_logs-lines level b i (suc c) (omega (arith, h)))
      ]

  -- `GetLogs` gives the newest entries of the asked severity or worse, newest first, and no more
  -- than asked for.
  pub get_logs-lines :
      (c : ℤ) (level : String) (b : List BufferEntry)
      → get_logs log_level level_name c level b
        ≡ map (line_of level_name) (
            take
              (asked log_level level_name c)
              (keep (λ e. leb e.level (log_level level)) (newest_first b)))
  unfolding get_logs
  get_logs-lines c level b =
      collect_logs-lines (log_level level) b (length b) (asked log_level level_name c) (omega arith)
      ∙ ap (λ l. lines (log_level level) l (asked log_level level_name c)) (take-length b)

-- A page that is asked for within the bounds is given as asked.
normalize_page-within :
    (n limit most : ℕ)
    → 0 < limit
    → limit ≤ most
    → normalize_page (pos n) (pos limit) most ≡ (n, limit)
unfolding normalize_page
normalize_page-within n limit most low high = ground arith

module _ (unicode : Unicode) (level_name : ℕ → String) where
  -- What `QueryLogs` cuts its page out of is newest first, and holds each entry of the ring that
  -- matches the query as often as the ring does, and no other.
  pub found_logs_lem :
      (query : LogQuery) (b : List BufferEntry) (p : LogEntry → Bool)
      → IsNewestFirst (found_logs unicode level_name query b)
        × (count p (found_logs unicode level_name query b)
            ≡ count
                (λ e. query_matches unicode level_name query e && p (entry_of unicode level_name e))
                b)
  unfolding found_logs
  found_logs_lem query b p = (
    sort_newest-IsNewestFirst _,
    count-sort_newest p _
        ∙ count-map-keep p (entry_of unicode level_name) (query_matches unicode level_name query) b,
  )

  abbrev pub at_offset : LogQuery → ℕ → LogQuery
  at_offset query n = record query { offset = pos n }

  -- The pages that a client gets which asks for one after the other, and their last total.
  abbrev pub walk_pages : ℕ → LogQuery → List BufferEntry → List LogEntry
  walk_pages zero query b = []
  walk_pages (suc k) query b =
      walk_pages k query b
      ++ (query_logs unicode level_name (at_offset query (k * pos_part query.limit)) b).0

  found_logs-at_offset :
      (query : LogQuery) (n : ℕ) (b : List BufferEntry)
      → found_logs unicode level_name (at_offset query n) b ≡ found_logs unicode level_name query b
  unfolding found_logs query_matches
  found_logs-at_offset query n b = refl

  query_logs-page :
      (query : LogQuery) (n limit : ℕ) (b : List BufferEntry)
      → query.limit ≡ pos limit
      → 0 < limit
      → limit ≤ 5000
      → (query_logs unicode level_name (at_offset query n) b).0
        ≡ page n limit (found_logs unicode level_name query b)
  unfolding query_logs
  query_logs-page query n limit b e low high =
      let bounds =
        ap (λ l. normalize_page (pos n) l 5000) e ∙ normalize_page-within n limit 5000 low high in
      ap (λ (q : ℕ × ℕ). page q.0 q.1 (found_logs unicode level_name (at_offset query n) b)) bounds
      ∙ ap (page n limit) (found_logs-at_offset query n b)

  walk_pages-pages :
      (k : ℕ) (query : LogQuery) (limit : ℕ) (b : List BufferEntry)
      → query.limit ≡ pos limit
      → 0 < limit
      → limit ≤ 5000
      → walk_pages k query b ≡ pages k limit (found_logs unicode level_name query b)
  walk_pages-pages zero query limit b e low high = refl
  walk_pages-pages (suc k) query limit b e low high =
      ap
        (λ l. l ++ (query_logs unicode level_name (at_offset query (k * pos_part query.limit)) b).0)
        (walk_pages-pages k query limit b e low high)
      ∙ ap (λ l. pages k limit (found_logs unicode level_name query b) ++ l)
          (query_logs-page query (k * pos_part query.limit) limit b e low high
            ∙ ap (λ l. page (k * pos_part l) limit (found_logs unicode level_name query b)) e)

  -- A client that asks for page after page of one size, of at most 5000, gets every entry that the
  -- query finds once and in order, as soon as the pages are as many as the total needs.
  pub walk_pages-all :
      (k : ℕ) (query : LogQuery) (limit : ℕ) (b : List BufferEntry)
      → query.limit ≡ pos limit
      → 0 < limit
      → limit ≤ 5000
      → (query_logs unicode level_name query b).1 ≤ k * limit
      → walk_pages k query b ≡ found_logs unicode level_name query b
  unfolding query_logs
  walk_pages-all k query limit b e low high enough =
      walk_pages-pages k query limit b e low high
      ∙ pages-all k limit (found_logs unicode level_name query b) enough
