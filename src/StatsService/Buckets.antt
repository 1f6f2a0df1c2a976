-- ===== src/StatsService/Buckets.antt =====
-- The buckets of `downsampleStats` (service/stats.go) share the rows out: none is lost or counted
-- twice.
use s_ui_next.StatsService.Downsample.{
  Grid, insert_by_time, sort_by_time, last_row, sum_bucket, bucket_start, bucket_end, grid,
  bucket_row, bucket_rows, downsample_sorted, downsample_stats,
}
use s_ui_next.StatsTracker.{Stats}
use s_ui_next.Prelude.{
  ℕ, suc, zero, ◌+◌, ◌*◌, ◌/◌, ◌≤◌, ◌<◌, ◌≡◌, ◌∙◌, refl, ap, arith, Bool, true, false, ◌&&◌,
  comparable_bool, ◌==◌, List, [], ◌∷◌, ltb, leb, nat_eq, length, length-append, if◌then◌else◌, All,
  Bool-cases, inl, inr,
}

-- A sum and a count with one row more where the test holds.
abbrev count_in : Bool → Stats → ℕ × ℕ → ℕ × ℕ
count_in b row total = if b then (row.traffic + total.0, suc total.1) else total

-- The traffic and the number of the rows of a direction.
abbrev pub totals : Bool → List Stats → ℕ × ℕ
totals dir [] = (0, 0)
totals dir (row ∷ rows) = count_in (row.direction == dir) row (totals dir rows)

-- What the buckets below `n` hold together, in a direction.
abbrev pub bucket_totals : Grid → Bool → List Stats → ℕ → ℕ × ℕ
bucket_totals g dir rows zero = (0, 0)
bucket_totals g dir rows (suc i) =
    let rest = bucket_totals g dir rows i in
    let here = sum_bucket (bucket_start g i) (bucket_end g i) dir rows in
    (rest.0 + here.0, rest.1 + here.1)

-- Where the buckets below `m` end.
abbrev bound : Grid → ℕ → ℕ
bound g m = if nat_eq m g.num_buckets then g.time_max + 1 else g.time_min + m * g.bucket_span

abbrev IsWithin : Grid → Stats → Type 0
IsWithin g row = (g.time_min ≤ row.date_time) × (row.date_time ≤ g.time_max)

module _ (g : Grid) (dir : Bool) where
  bucket_totals-nil : (m : ℕ) → bucket_totals g dir [] m ≡ (0, 0)
  unfolding sum_bucket
  bucket_totals-nil zero = refl
  bucket_totals-nil (suc i) = rw (bucket_totals-nil i) refl

  -- One row more is counted in the buckets below `m` exactly where it lies before their end.
  bucket_totals-cons :
      (row : Stats) (rows : List Stats) (m : ℕ)
      → IsWithin g row
      → 0 < g.num_buckets
      → m ≤ g.num_buckets
      → bucket_totals g dir (row ∷ rows) m
        ≡ count_in
            (ltb row.date_time (bound g m) && (row.direction == dir))
            row
            (bucket_totals g dir rows m)
  unfolding sum_bucket
  bucket_totals-cons row rows zero (low, high) some_bucket h = ground arith
  bucket_totals-cons row rows (suc i) (low, high) some_bucket h =
      ground (arith, bucket_totals-cons row rows i (low, high) some_bucket)

  -- All the buckets together hold the rows that lie within the grid.
  bucket_totals-All :
      (rows : List Stats)
      → All (IsWithin g) rows
      → 0 < g.num_buckets
      → bucket_totals g dir rows g.num_buckets ≡ totals dir rows
  bucket_totals-All [] h some_bucket = bucket_totals-nil g.num_buckets
  bucket_totals-All (row ∷ rows) (within, h) some_bucket = ground (
    arith,
    bucket_totals-cons row rows g.num_buckets within some_bucket,
    bucket_totals-All rows h some_bucket,
  )

totals-insert_by_time :
    (dir : Bool) (row : Stats) (rows : List Stats)
    → totals dir (insert_by_time row rows) ≡ totals dir (row ∷ rows)
unfolding insert_by_time
totals-insert_by_time dir row [] = refl
totals-insert_by_time dir row (other ∷ rows) = ground (arith, totals-insert_by_time dir row rows)

totals-sort_by_time :
    (dir : Bool) (rows : List Stats) → totals dir (sort_by_time rows) ≡ totals dir rows
unfolding sort_by_time
totals-sort_by_time dir [] = refl
totals-sort_by_time dir (row ∷ rows) =
    totals-insert_by_time dir row (sort_by_time rows)
    ∙ ap (count_in (row.direction == dir) row) (totals-sort_by_time dir rows)

abbrev IsFrom : ℕ → List Stats → Type 0
IsFrom n [] = Unit
IsFrom n (row ∷ rows) = (n ≤ row.date_time) × IsFrom row.date_time rows

insert_by_time-IsFrom :
    (n : ℕ) (row : Stats) (rows : List Stats)
    → n ≤ row.date_time
    → IsFrom n rows
    → IsFrom n (insert_by_time row rows)
unfolding insert_by_time
insert_by_time-IsFrom n row [] h k = (h, tt)
insert_by_time-IsFrom n row (other ∷ rows) h (k, l) =
    elim (Bool-cases (leb row.date_time other.date_time)) [
      | inl y ↦ rw y (h, (ground arith, l))
      | inr later ↦ rw later (k, insert_by_time-IsFrom other.date_time row rows (ground arith) l)
    ]

sort_by_time-IsFrom : (rows : List Stats) → IsFrom 0 (sort_by_time rows)
unfolding sort_by_time
sort_by_time-IsFrom [] = tt
sort_by_time-IsFrom (row ∷ rows) =
    insert_by_time-IsFrom 0 row (sort_by_time rows) (omega arith) (sort_by_time-IsFrom rows)

IsFrom-last_row :
    (first : Stats) (rows : List Stats)
    → IsFrom first.date_time rows
    → first.date_time ≤ (last_row first rows).date_time
IsFrom-last_row first [] h = omega arith
IsFrom-last_row first (row ∷ rows) (k, h) = omega (arith, IsFrom-last_row row rows h)

-- Sorted rows lie between any time before the first and that of the last.
sorted-All :
    (low high : ℕ) (first : Stats) (rows : List Stats)
    → low ≤ first.date_time
    → IsFrom first.date_time rows
    → (last_row first rows).date_time ≤ high
    → All (λ row. (low ≤ row.date_time) × (row.date_time ≤ high)) (first ∷ rows)
sorted-All low high first [] l h k = ((l, k), tt)
sorted-All low high first (row ∷ rows) l (m, h) k =
    ((l, omega (arith, IsFrom-last_row row rows h)), sorted-All low high row rows (omega arith) h k)

-- The grid of a chart.
abbrev pub chart_grid : List Stats → ℕ → Grid
chart_grid [] num_buckets = record {
  time_min = 0;
  time_max = 0;
  bucket_span = 1;
  num_buckets = num_buckets;
}
chart_grid (first ∷ rows) num_buckets = grid first rows num_buckets

chart-IsWithin :
    (rows : List Stats) (n : ℕ) → IsFrom 0 rows → All (IsWithin (chart_grid rows n)) rows
chart-IsWithin [] n h = tt
chart-IsWithin (first ∷ rows) n (l, h) =
    sorted-All first.date_time (last_row first rows).date_time first rows (omega arith) h
      (omega arith)

partition_sorted :
    (rows : List Stats) (num_buckets : ℕ) (dir : Bool)
    → IsFrom 0 rows
    → 0 < num_buckets
    → bucket_totals (chart_grid rows num_buckets) dir rows num_buckets ≡ totals dir rows
partition_sorted [] n dir h k = bucket_totals-All (chart_grid [] n) dir [] tt k
partition_sorted (first ∷ rows) n dir h k =
    bucket_totals-All (grid first rows n) dir (first ∷ rows) (chart-IsWithin (first ∷ rows) n h) k

-- The buckets of a chart share its rows out: with at least one bucket, the traffic and the number
-- of the rows of a direction, summed over the buckets, are those of all the rows of the chart, so no
-- row is lost and none is counted in two buckets.
pub sum_bucket-partition :
    (stats : List Stats) (num_buckets : ℕ) (dir : Bool)
    → 0 < num_buckets
    → bucket_totals
        (chart_grid (sort_by_time stats) num_buckets)
        dir
        (sort_by_time stats)
        num_buckets
      ≡ totals dir stats
sum_bucket-partition stats num_buckets dir h =
    partition_sorted (sort_by_time stats) num_buckets dir (sort_by_time-IsFrom stats) h
    ∙ totals-sort_by_time dir stats

length-bucket_rows :
    (g : Grid) (first : Stats) (rows : List Stats) (n : ℕ)
    → length (bucket_rows g first rows n) ≡ n * 2
unfolding bucket_rows
length-bucket_rows g first rows zero = refl
length-bucket_rows g first rows (suc i) = omega (
  arith,
  length-bucket_rows g first rows i,
  length-append (bucket_rows g first rows i)
      (bucket_row g first rows i false ∷ bucket_row g first rows i true ∷ []),
)

length-downsample_sorted : (rows : List Stats) (n : ℕ) → length (downsample_sorted rows n) ≤ n * 2
unfolding downsample_sorted
length-downsample_sorted [] n = omega arith
length-downsample_sorted (first ∷ rows) n =
    omega (arith, length-bucket_rows (grid first rows n) first (first ∷ rows) n)

-- A chart never has more rows than it may have.
pub length-downsample_stats :
    (stats : List Stats) (max_rows : ℕ) → length (downsample_stats stats max_rows) ≤ max_rows
unfolding downsample_stats
length-downsample_stats stats max_rows =
    ground (arith, length-downsample_sorted (sort_by_time stats) (max_rows / 2))
