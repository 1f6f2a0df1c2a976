-- ===== src/StatsService/Downsample.antt =====
-- `downsampleStats` of service/stats.go: averages of a chart's rows in equal buckets of time.
use s_ui_next.Prelude.{
  ℕ, suc, zero, ◌++◌, ◌+◌, ◌-◌, ◌*◌, ◌/◌, Bool, true, false, ◌&&◌, comparable_bool, ◌==◌, List, [],
  ◌∷◌, ltb, leb, nat_eq, length, if◌then◌else◌,
}
use s_ui_next.StatsTracker.{Stats}

-- `sort.Slice` by time. The rows of one time may stand in any order; here they keep theirs.
unfoldable pub insert_by_time : Stats → List Stats → List Stats
insert_by_time row [] = row ∷ []
insert_by_time row (other ∷ rows) =
    if leb row.date_time other.date_time
    then row ∷ other ∷ rows
    else other ∷ insert_by_time row rows

unfoldable pub sort_by_time : List Stats → List Stats
unfolding insert_by_time
sort_by_time [] = []
sort_by_time (row ∷ rows) = insert_by_time row (sort_by_time rows)

abbrev pub last_row : Stats → List Stats → Stats
last_row row [] = row
last_row row (next ∷ rows) = last_row next rows

-- The innermost loop: the sum and the count of one bucket and direction.
unfoldable pub sum_bucket : ℕ → ℕ → Bool → List Stats → ℕ × ℕ
sum_bucket bucket_start bucket_end dir [] = (0, 0)
sum_bucket bucket_start bucket_end dir (r ∷ rows) =
    let rest = sum_bucket bucket_start bucket_end dir rows in
    if leb bucket_start r.date_time && (ltb r.date_time bucket_end && (r.direction == dir))
    then (r.traffic + rest.0, suc rest.1)
    else rest

abbrev pub average : ℕ × ℕ → ℕ
average (sum, count) = if ltb 0 count then sum / count else 0

-- Where the buckets lie.
pub record Grid : Type 0 where
  pub time_min : ℕ
  pub time_max : ℕ
  pub bucket_span : ℕ
  pub num_buckets : ℕ

abbrev pub bucket_start : Grid → ℕ → ℕ
bucket_start g i = g.time_min + i * g.bucket_span

-- The last bucket ends behind the last row.
abbrev pub bucket_end : Grid → ℕ → ℕ
bucket_end g i =
    if nat_eq (suc i) g.num_buckets then g.time_max + 1 else g.time_min + suc i * g.bucket_span

unfoldable pub bucket_row : Grid → Stats → List Stats → ℕ → Bool → Stats
unfolding sum_bucket
bucket_row g first rows i dir = record {
  date_time = bucket_start g i;
  resource = first.resource;
  tag = first.tag;
  direction = dir;
  traffic = average (sum_bucket (bucket_start g i) (bucket_end g i) dir rows);
}

-- The rows of the buckets below `n`, in order.
unfoldable pub bucket_rows : Grid → Stats → List Stats → ℕ → List Stats
unfolding bucket_row
bucket_rows g first rows zero = []
bucket_rows g first rows (suc i) =
    bucket_rows g first rows i
    ++ (bucket_row g first rows i false ∷ bucket_row g first rows i true ∷ [])

abbrev pub grid : Stats → List Stats → ℕ → Grid
grid first rows num_buckets =
    let time_max = (last_row first rows).date_time in
    let span = (time_max - first.date_time) / num_buckets in
    record {
      time_min = first.date_time;
      time_max = time_max;
      bucket_span = if nat_eq span 0 then 1 else span;
      num_buckets = num_buckets;
    }

unfoldable pub downsample_sorted : List Stats → ℕ → List Stats
unfolding bucket_rows
downsample_sorted [] num_buckets = []
downsample_sorted (first ∷ rows) num_buckets =
    bucket_rows (grid first rows num_buckets) first (first ∷ rows) num_buckets

unfoldable pub downsample_stats : List Stats → ℕ → List Stats
unfolding downsample_sorted sort_by_time
downsample_stats stats max_rows =
    if leb (length stats) max_rows
    then stats
    else downsample_sorted (sort_by_time stats) (max_rows / 2)
