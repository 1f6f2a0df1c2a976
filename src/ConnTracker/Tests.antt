-- ===== src/ConnTracker/Tests.antt =====
-- Runs of the connection table of core/tracker_conn.go, and its theorems at a small table.
use s_ui_next.ConnTracker.Closing.{Routing, route_all, close_conn_by_inbound_lem}
use s_ui_next.ConnTracker.Lifecycle.{
  Use, reads, writes, closes, apply, apply_all, is_last, TrackedUntilEnd, routed_connection-tracked,
}
use s_ui_next.ConnTracker.{
  ConnTracker, eof, net_error, new_conn_tracker, track_connection, untrack_connection,
  routed_connection, routed_packet_connection, close_loop, close_conn_by_inbound,
  should_untrack_io_err, do_untrack, read, write, close,
}
use s_ui_next.GoMap.{insert, delete, has_key}
use s_ui_next.Prelude.{◌≡◌, refl, comparable_string, true, false, List, [], ◌∷◌, some, none}

program : Unit {0}
unfolding track_connection untrack_connection routed_connection routed_packet_connection close_loop
    close_conn_by_inbound should_untrack_io_err do_untrack read write close insert delete has_key
    apply apply_all is_last
program = tt

two : ConnTracker
unfolding program
two = (routed_packet_connection "b" 2 "out" (routed_connection "a" 1 "in" new_conn_tracker).0).0

close_run : (close_conn_by_inbound "in" two).0.closed ≡ 1 ∷ []
unfolding program two
close_run = refl

uses : List Use
uses = reads none ∷ writes (some (net_error true)) ∷ reads (some eof) ∷ closes ∷ []

uses_run : has_key "a" (apply_all uses (routed_connection "a" 1 "in" two)).0.connections ≡ false
unfolding program two uses
uses_run = refl

abbrev routings : List Routing
routings =
    record { id = "a"; conn = 1; is_packet = false; inbound = "in" }
    ∷ record { id = "b"; conn = 2; is_packet = true; inbound = "out" }
    ∷ record { id = "c"; conn = 3; is_packet = true; inbound = "in" }
    ∷ []

close_conn_by_inbound_lem_example :
    ((close_conn_by_inbound "in" (route_all routings new_conn_tracker)).0.closed ≡ 1 ∷ 3 ∷ [])
    × ((close_conn_by_inbound "in" (route_all routings new_conn_tracker)).1 ≡ 2)
    × ((close_conn_by_inbound "out"
          (close_conn_by_inbound "in" (route_all routings new_conn_tracker)).0).0.closed
        ≡ 1 ∷ 3 ∷ 2 ∷ [])
close_conn_by_inbound_lem_example =
    close_conn_by_inbound_lem "in" "out" routings ((refl, (refl, tt)), ((refl, tt), (tt, tt))) refl

routed_connection-tracked_example :
    TrackedUntilEnd "c" "a" two uses (routed_connection "c" 3 "in" two)
    × TrackedUntilEnd "c" "a" two uses (routed_packet_connection "c" 3 "in" two)
routed_connection-tracked_example = routed_connection-tracked "c" "a" 3 "in" two uses refl
