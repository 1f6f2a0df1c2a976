-- ===== src/StatsTracker.antt =====
-- core/tracker_stats.go: the traffic counters of the running core, by inbound, outbound and user.
-- A connection holds pointers to counters. The maps never replace or drop a counter but in `Reset`,
-- and nothing reads the counters that `Reset` lets go. So a pointer is the counter's name together
-- with the number of resets before it was taken (`generation`). A counter is an int64, kept as its
-- bit pattern: an addition wraps, and half of the patterns are negative.
pub mod Reports
pub mod Activities
pub mod Conservation
pub mod Tests
use s_ui_next.GoMap.{GoMap, lookup, insert}
use s_ui_next.Prelude.{
  ℕ, suc, ◌+◌, ◌%◌, String, comparable_string, comparable_nat, ◌==◌, Bool, true, false, ◌&&◌, ◌||◌,
  List, [], ◌∷◌, ◌++◌, Option, none, some, map, ltb, if◌then◌else◌,
}

pub record Counter : Type 0 where
  pub read : ℕ
  pub write : ℕ

pub record StatsTracker : Type 0 where
  pub inbounds : GoMap String Counter
  pub outbounds : GoMap String Counter
  pub users : GoMap String Counter
  pub generation : ℕ

-- A row of `model.Stats` without its key.
pub record Stats : Type 0 where
  pub date_time : ℕ
  pub resource : String
  pub tag : String
  pub direction : Bool
  pub traffic : ℕ

-- 2 ^ 63, the first bit pattern that is negative, and 2 ^ 64.
abbrev pub int64_half : ℕ
int64_half = 9223372036854775808

abbrev pub int64_mod : ℕ
int64_mod = 18446744073709551616

abbrev pub add64 : ℕ → ℕ → ℕ
add64 a b = (a + b) % int64_mod

-- `v > 0` on an int64.
abbrev pub is_positive : ℕ → Bool
is_positive v = ltb 0 v && ltb v int64_half

abbrev pub zero_counter : Counter
zero_counter = record { read = 0; write = 0 }

abbrev pub new_stats_tracker : StatsTracker
new_stats_tracker = record { inbounds = []; outbounds = []; users = []; generation = 0 }

unfoldable pub reset : StatsTracker → StatsTracker
reset t = record { inbounds = []; outbounds = []; users = []; generation = suc t.generation }

-- `loadOrCreateCounter`, for its effect on the map.
unfoldable pub load_or_create_counter : String → GoMap String Counter → GoMap String Counter
load_or_create_counter name obj = elim (lookup name obj) [
  | none ↦ insert name zero_counter obj
  | some _ ↦ obj
]

abbrev pub load_if_named : String → GoMap String Counter → GoMap String Counter
load_if_named name obj = if name == "" then obj else load_or_create_counter name obj

-- The counters that a connection adds to: those of the names that are not empty.
pub record CounterConn : Type 0 where
  pub inbound : String
  pub outbound : String
  pub user : String
  pub taken_in : ℕ

-- `getReadCounters`, and so `RoutedConnection` and `RoutedPacketConnection`.
unfoldable pub get_read_counters :
    String → String → String → StatsTracker → StatsTracker × CounterConn
unfolding load_or_create_counter
get_read_counters inbound outbound user t = (
  record t {
    inbounds = load_if_named inbound t.inbounds;
    outbounds = load_if_named outbound t.outbounds;
    users = load_if_named user t.users;
  },
  record { inbound = inbound; outbound = outbound; user = user; taken_in = t.generation },
)

-- What the wrapped connection does to one of its counters.
unfoldable pub add_traffic : String → ℕ → ℕ → GoMap String Counter → GoMap String Counter
add_traffic name received sent obj = elim (lookup name obj) [
  | none ↦ obj
  | some counter ↦
      insert name (record { read = add64 counter.read received; write = add64 counter.write sent })
        obj
]

abbrev pub add_if_named : String → ℕ → ℕ → GoMap String Counter → GoMap String Counter
add_if_named name received sent obj = if name == "" then obj else add_traffic name received sent obj

-- Bytes that go through a wrapped connection.
unfoldable pub carry : CounterConn → ℕ → ℕ → StatsTracker → StatsTracker
unfolding add_traffic
carry conn received sent t =
    if conn.taken_in == t.generation
    then record t {
      inbounds = add_if_named conn.inbound received sent t.inbounds;
      outbounds = add_if_named conn.outbound received sent t.outbounds;
      users = add_if_named conn.user received sent t.users;
    }
    else t

-- The loop of `GetStats` over one of the maps: the rows that it appends.
unfoldable pub stats_rows : ℕ → String → GoMap String Counter → List Stats
stats_rows dt resource [] = []
stats_rows dt resource ((tag, counter) ∷ obj) =
    let rest = stats_rows dt resource obj in
    if is_positive counter.write || is_positive counter.read
    then record {
      date_time = dt;
      resource = resource;
      tag = tag;
      direction = false;
      traffic = counter.write;
    }
      ∷ record {
        date_time = dt;
        resource = resource;
        tag = tag;
        direction = true;
        traffic = counter.read;
      }
      ∷ rest
    else rest

-- The same loop's `Swap(0)` of every counter.
unfoldable pub swap_all : GoMap String Counter → GoMap String Counter
swap_all = map (λ e. (e.0, zero_counter))

unfoldable pub get_stats : ℕ → StatsTracker → StatsTracker × List Stats
unfolding stats_rows swap_all
get_stats dt t = (
  record t {
    inbounds = swap_all t.inbounds;
    outbounds = swap_all t.outbounds;
    users = swap_all t.users;
  },
  stats_rows dt "inbound" t.inbounds
      ++ (stats_rows dt "outbound" t.outbounds ++ stats_rows dt "user" t.users),
)
