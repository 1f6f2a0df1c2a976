-- ===== src/Logger/Tests.antt =====
-- Runs of logger/logger.go on a small ring, and its theorems there.
use s_ui_next.GoText.{Unicode, trim_left, trim_right, map_chars, contains}
use s_ui_next.Logger.{
  BufferEntry, LogQuery, buffer_size, collect_logs, get_logs, asked, line_of, insert_newest,
  sort_newest, normalize_page, log_matches, query_matches, entry_of, found_logs, query_logs,
}
use s_ui_next.Logger.Order.{IsNewestFirst, count}
use s_ui_next.Logger.Queries.{newest_first, get_logs-lines, found_logs_lem}
use s_ui_next.Logger.Ring.{newest, add_all, add_all-newest}
use s_ui_next.Paging.{page}
use s_ui_next.Prelude.Int.{pos}
use s_ui_next.Prelude.{ℕ, zero, suc, String, ◌≡◌, refl, ◌&&◌, List, [], ◌∷◌, map, keep, take, leb}

program : Unit {0}
unfolding trim_left trim_right map_chars contains collect_logs get_logs insert_newest sort_newest
    normalize_page log_matches query_matches entry_of found_logs query_logs page
program = tt

abbrev ascii : Unicode
ascii = record { lower = λ c. c; upper = λ c. c; fold = λ c. c }

abbrev level_name : ℕ → String
level_name zero = "CRITICAL"
level_name (suc zero) = "ERROR"
level_name (suc (suc n)) = "INFO"

abbrev log_level : String → ℕ
log_level name = 1

abbrev logged : ℕ → ℕ → String → BufferEntry
logged timestamp level log = record {
  timestamp = timestamp;
  time = "t";
  level = level;
  log = log;
  user = "root";
  source = "system";
}

abbrev ring : List BufferEntry
ring = logged 1 4 "start" ∷ logged 2 1 "no port" ∷ logged 3 4 "stop" ∷ logged 4 0 "no disk" ∷ []

abbrev problems : LogQuery
problems = record {
  level = "all";
  user = "";
  search = " no ";
  start = pos 2;
  stop = pos 0;
  offset = pos 0;
  limit = pos 1;
}

abbrev errors : LogQuery
errors = record problems { level = "ERROR"; search = "" }

lines_run : get_logs log_level level_name (pos 1) "ERROR" ring ≡ "t CRITICAL - no disk" ∷ []
unfolding program
lines_run = refl

query_run : query_logs ascii level_name errors ring ≡ (
  record {
    timestamp = 2;
    time = "t";
    level = "ERROR";
    message = "no port";
    user = "root";
    source = "system";
  }
      ∷ [],
  1,
)
unfolding program
query_run = refl

add_all-newest_example : add_all ring [] ≡ newest buffer_size ring
add_all-newest_example = add_all-newest ring

get_logs-lines_example :
    get_logs log_level level_name (pos 1) "ERROR" ring
    ≡ map (line_of level_name) (
        take
          (asked log_level level_name (pos 1))
          (keep (λ e. leb e.level (log_level "ERROR")) (newest_first ring)))
get_logs-lines_example = get_logs-lines log_level level_name (pos 1) "ERROR" ring

found_logs_lem_example :
    IsNewestFirst (found_logs ascii level_name errors ring)
    × (count (λ e. leb e.timestamp 2) (found_logs ascii level_name errors ring)
        ≡ count
            (λ e.
              query_matches ascii level_name errors e
              && leb (entry_of ascii level_name e).timestamp 2)
            ring)
found_logs_lem_example = found_logs_lem ascii level_name errors ring (λ e. leb e.timestamp 2)
