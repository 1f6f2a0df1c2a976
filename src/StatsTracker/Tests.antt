-- ===== src/StatsTracker/Tests.antt =====
-- Runs of the traffic counters of core/tracker_stats.go, and the theorems at concrete ledgers.
use s_ui_next.GoMap.{lookup, insert, has_key}
use s_ui_next.Prelude.{◌+◌, ◌≡◌, refl, comparable_string, true, List, [], ◌∷◌, arith}
use s_ui_next.StatsTracker.Activities.{
  Activity, routed, carried, collected, act, act_all, brought_by_all, accounted, opened,
}
use s_ui_next.StatsTracker.Conservation.{act_all-accounted}
use s_ui_next.StatsTracker.Reports.{reported, held}
use s_ui_next.StatsTracker.{
  StatsTracker, new_stats_tracker, load_or_create_counter, get_read_counters, add_traffic, carry,
  stats_rows, swap_all, get_stats,
}

program : Unit {0}
unfolding lookup insert has_key load_or_create_counter get_read_counters add_traffic carry
    stats_rows swap_all get_stats act act_all brought_by_all accounted
program = tt

abbrev day : List Activity
day =
    routed "in" "" "amy"
    ∷ carried 0 5 7
    ∷ routed "in" "out" "bob"
    ∷ collected 100
    ∷ carried 0 2 1
    ∷ carried 1 30 0
    ∷ []

day_run :
    (reported "user" "amy" true (act_all day (opened new_stats_tracker)).rows ≡ 5)
    × (held true (lookup "amy" (act_all day (opened new_stats_tracker)).tracker.users) ≡ 2)
    × (brought_by_all "amy" true day [] ≡ 7)
unfolding program
day_run = (refl, refl, refl)

act_all-accounted_example :
    accounted "amy" true (act_all day (opened new_stats_tracker))
    ≡ held true (lookup "amy" new_stats_tracker.users) + brought_by_all "amy" true day []
unfolding program
act_all-accounted_example =
    act_all-accounted "amy" true day new_stats_tracker
      (record { inbounds_map = tt; outbounds_map = tt; users_map = tt }) (omega arith)

abbrev waiting : StatsTracker
waiting = record new_stats_tracker { users = ("amy", record { read = 5; write = 0 }) ∷ [] }
