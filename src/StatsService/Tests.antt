-- ===== src/StatsService/Tests.antt =====
-- The statistics job of service/stats.go on a small table, and a chart that is downsampled.
use s_ui_next.Clients.Tests.{ListTx, store, list_database}
use s_ui_next.Clients.{Client, marshal}
use s_ui_next.GoMap.{insert}
use s_ui_next.StatsService.Buckets.{totals, bucket_totals, chart_grid, sum_bucket-partition}
use s_ui_next.StatsService.Credit.{credited, save_stats-credits}
use s_ui_next.StatsService.Downsample.{
  insert_by_time, sort_by_time, sum_bucket, bucket_row, bucket_rows, downsample_sorted,
  downsample_stats,
}
use s_ui_next.StatsService.{
  Onlines, nobody, note_online, note_all, credit_row, credit_rows, store_rows, write_stats,
  save_stats,
}
use s_ui_next.StatsTracker.{Stats}
use s_ui_next.Prelude.Int.{pos}
use s_ui_next.Prelude.{
  ℕ, String, ◌≡◌, refl, arith, Bool, true, false, List, [], ◌∷◌, ◌++◌, map, some, ok,
}

program : Unit {0}
unfolding insert_by_time sort_by_time sum_bucket bucket_row bucket_rows downsample_sorted
    downsample_stats note_online note_all credit_row credit_rows store_rows write_stats save_stats
    store insert
program = tt

abbrev amy : Client
amy = record {
  id = 1;
  enable = true;
  name = "amy";
  sub_id = "s1";
  config = "{}";
  inbounds = marshal (3 ∷ []);
  links = marshal [];
  volume = pos 100;
  expiry = pos 0;
  down = 90;
  up = 20;
  delay_start = false;
  auto_reset = false;
  reset_days = pos 0;
  next_reset = pos 0;
  total_up = 0;
  total_down = 0;
}

abbrev before : ListTx
before = record {
  rows = amy ∷ record amy { id = 2; name = "bob" } ∷ [];
  log = [];
  samples = [];
  keyed = refl;
}

abbrev sample : ℕ → String → String → Bool → ℕ → Stats
sample date_time resource tag direction traffic = record {
  date_time = date_time;
  resource = resource;
  tag = tag;
  direction = direction;
  traffic = traffic;
}

abbrev reports : List Stats
reports =
    sample 7 "user" "amy" true 5
    ∷ sample 7 "user" "amy" false 6
    ∷ sample 7 "inbound" "amy" true 1000
    ∷ []

abbrev after : ListTx
after = record {
  rows = record amy { up = 25; down = 96 } ∷ record amy { id = 2; name = "bob" } ∷ [];
  log = [];
  samples = reports;
  keyed = refl;
}

abbrev online_after : Onlines
online_after = record { inbound = "amy" ∷ []; user = "amy" ∷ []; outbound = [] }

run : save_stats list_database true (some reports) before nobody ≡ ok (after, online_after)
unfolding program
run = refl

save_stats-credits_example :
    (after.rows ≡ map (credited reports) before.rows) × (after.samples ≡ before.samples ++ reports)
unfolding program
save_stats-credits_example =
    save_stats-credits list_database true reports before after nobody online_after run

-- Two rows to a bucket, one upload each, out of order.
abbrev chart : List Stats
chart =
    sample 9 "user" "amy" true 40
    ∷ sample 0 "user" "amy" true 10
    ∷ sample 2 "user" "amy" true 20
    ∷ sample 8 "user" "amy" true 30
    ∷ sample 1 "user" "amy" false 3
    ∷ []

downsampled :
    downsample_stats chart 4
    ≡ sample 0 "user" "amy" false 3
      ∷ sample 0 "user" "amy" true 15
      ∷ sample 4 "user" "amy" false 0
      ∷ sample 4 "user" "amy" true 35
      ∷ []
unfolding program
downsampled = refl

sum_bucket-partition_example :
    bucket_totals (chart_grid (sort_by_time chart) 2) true (sort_by_time chart) 2
    ≡ totals true chart
sum_bucket-partition_example = sum_bucket-partition chart 2 true (omega arith)
