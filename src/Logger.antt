-- ===== src/Logger.antt =====
-- logger/logger.go: the ring of log entries in memory and its two queries. The levels are those of
-- the go-logging library: their order is that of numbers, `log_level` is its `LogLevel` and
-- `level_name` its `String`. Times are seconds, and the clock's text is an argument.
pub mod Ring
pub mod Order
pub mod Queries
pub mod Tests
use Prim.Native.String.{◌++◌ as concat}
use s_ui_next.GoText.{Unicode, trim_space, to_lower, to_upper, contains}
use s_ui_next.Paging.{page}
use s_ui_next.Prelude.Int.{ℤ, pos, negsuc, pos_part, ltb_ℤ}
use s_ui_next.Prelude.{
  ℕ, zero, suc, ◌+◌, String, comparable_string, ◌==◌, Bool, true, false, not, ◌&&◌, ◌||◌, List, [],
  ◌∷◌, ◌++◌, map, Option, none, some, keep, drop, length, get_elem?, ltb, leb, if◌then◌else◌,
}

pub record BufferEntry : Type 0 where
  pub timestamp : ℕ
  pub time : String
  pub level : ℕ
  pub log : String
  pub user : String
  pub source : String

pub record LogEntry : Type 0 where
  pub timestamp : ℕ
  pub time : String
  pub level : String
  pub message : String
  pub user : String
  pub source : String

pub record LogQuery : Type 0 where
  pub level : String
  pub user : String
  pub search : String
  pub start : ℤ
  pub stop : ℤ
  pub offset : ℤ
  pub limit : ℤ

abbrev pub buffer_size : ℕ
buffer_size = 10240

-- `addStructuredToBuffer`
unfoldable pub add_structured_to_buffer : BufferEntry → List BufferEntry → List BufferEntry
add_structured_to_buffer entry log_buffer =
    (if leb buffer_size (length log_buffer) then drop 1 log_buffer else log_buffer) ++ entry ∷ []

-- Newest first, as `sort.Slice` puts them; entries of one second may stand in any order there.
unfoldable pub insert_newest : LogEntry → List LogEntry → List LogEntry
insert_newest entry [] = entry ∷ []
insert_newest entry (other ∷ entries) =
    if leb other.timestamp entry.timestamp
    then entry ∷ other ∷ entries
    else other ∷ insert_newest entry entries

unfoldable pub sort_newest : List LogEntry → List LogEntry
unfolding insert_newest
sort_newest [] = []
sort_newest (entry ∷ entries) = insert_newest entry (sort_newest entries)

-- The text that `GetLogs` gives for one entry.
abbrev pub line_of : (ℕ → String) → BufferEntry → String
line_of level_name entry =
    concat entry.time (concat " " (concat (level_name entry.level) (concat " - " entry.log)))

module _ (log_level : String → ℕ) (level_name : ℕ → String) where
  -- The loop of `GetLogs` from index `i - 1` down, with room for `c` more lines.
  unfoldable pub collect_logs : ℕ → List BufferEntry → ℕ → ℕ → List String
  collect_logs level log_buffer zero c = []
  collect_logs level log_buffer (suc i) zero = []
  collect_logs level log_buffer (suc i) (suc c) = elim (get_elem? log_buffer i) [
    | none ↦ []
    | some entry ↦ elim (leb entry.level level) [
      | true ↦ line_of level_name entry ∷ collect_logs level log_buffer i c
      | false ↦ collect_logs level log_buffer i (suc c)
    ]
  ]

  -- How many lines are asked for: ten where the number is not positive.
  abbrev pub asked : ℤ → ℕ
  asked c = if ltb_ℤ (pos 0) c then pos_part c else 10

  unfoldable pub get_logs : ℤ → String → List BufferEntry → List String
  get_logs c level log_buffer =
      collect_logs (log_level level) log_buffer (length log_buffer) (asked c)

-- The bounds that `QueryLogs` and `normalizePage` put on a page.
unfoldable pub normalize_page : ℤ → ℤ → ℕ → ℕ × ℕ
normalize_page offset limit most =
    let size = if ltb_ℤ (pos 0) limit then pos_part limit else 100 in
    (pos_part offset, if ltb most size then most else size)

module _ (unicode : Unicode) (level_name : ℕ → String) where
  -- The tests of the loop of `QueryLogs`, with the cleaned texts of the query.
  unfoldable pub log_matches : String → String → String → ℤ → ℤ → BufferEntry → Bool
  log_matches level user search start stop entry =
      (level == "" || (level == "ALL" || level_name entry.level == level))
      && (not (ltb_ℤ (pos 0) start && ltb_ℤ (pos entry.timestamp) start)
          && (not (ltb_ℤ (pos 0) stop && ltb_ℤ stop (pos entry.timestamp))
              && ((user == ""
                    || (contains (to_lower unicode entry.user) user
                        || contains (to_lower unicode entry.log) user))
                  && (search == ""
                      || (contains (to_lower unicode entry.log) search
                          || contains (to_lower unicode entry.user) search)))))

  unfoldable pub query_matches : LogQuery → BufferEntry → Bool
  query_matches query entry =
      log_matches (to_upper unicode (trim_space query.level))
        (to_lower unicode (trim_space query.user)) (to_lower unicode (trim_space query.search))
        query.start query.stop entry

  unfoldable pub entry_of : BufferEntry → LogEntry
  entry_of entry = record {
    timestamp = entry.timestamp;
    time = entry.time;
    level = level_name entry.level;
    message = entry.log;
    user = entry.user;
    source = entry.source;
  }

  -- What `QueryLogs` cuts its page out of.
  unfoldable pub found_logs : LogQuery → List BufferEntry → List LogEntry
  found_logs query log_buffer = sort_newest (map entry_of (keep (query_matches query) log_buffer))

  unfoldable pub query_logs : LogQuery → List BufferEntry → List LogEntry × ℕ
  query_logs query log_buffer =
      let (offset, limit) = normalize_page query.offset query.limit 5000 in
      let entries = found_logs query log_buffer in (page offset limit entries, length entries)
