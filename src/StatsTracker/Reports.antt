-- ===== src/StatsTracker/Reports.antt =====
-- What the rows of `GetStats` (core/tracker_stats.go) report of each counter.
use s_ui_next.GoMap.{GoMap, lookup, has_key, IsMap}
use s_ui_next.Prelude.{
  ℕ, ◌+◌, ◌<◌, ◌≡◌, ◌≢◌, refl, String, str_iff, comparable_string, comparable_bool, ◌==◌, Bool,
  true, false, ◌&&◌, List, [], ◌∷◌, ◌++◌, Option, none, some, if◌then◌else◌, arith, Bool-cases, inl,
  inr,
}
use s_ui_next.StatsTracker.{
  Counter, StatsTracker, Stats, int64_half, zero_counter, stats_rows, swap_all, get_stats,
}

-- Whether a row speaks of this resource, tag and direction.
abbrev pub is_about : String → String → Bool → Stats → Bool
is_about resource tag direction row =
    row.resource == resource && (row.tag == tag && row.direction == direction)

-- The traffic that rows report for a resource, a tag and a direction.
abbrev pub reported : String → String → Bool → List Stats → ℕ
reported resource tag direction [] = 0
reported resource tag direction (row ∷ rows) =
    (if is_about resource tag direction row then row.traffic else 0)
    + reported resource tag direction rows

-- What a counter holds in a direction, and 0 where there is none.
abbrev pub held : Bool → Option Counter → ℕ
held direction none = 0
held true (some counter) = counter.read
held false (some counter) = counter.write

module _ (resource tag : String) (direction : Bool) where
  pub reported-append :
      (xs ys : List Stats)
      → reported resource tag direction (xs ++ ys)
        ≡ reported resource tag direction xs + reported resource tag direction ys
  reported-append [] ys = omega arith
  reported-append (x ∷ xs) ys = omega (arith, reported-append xs ys)

  reported-stats_rows_other :
      (dt : ℕ) (kind : String) (obj : GoMap String Counter)
      → kind ≢ resource
      → reported resource tag direction (stats_rows dt kind obj) ≡ 0
  unfolding stats_rows
  reported-stats_rows_other dt kind [] ne = refl
  reported-stats_rows_other dt kind ((name, counter) ∷ obj) ne =
      ground (arith, reported-stats_rows_other dt kind obj ne, str_iff kind resource)

  reported-stats_rows_absent :
      (dt : ℕ) (obj : GoMap String Counter)
      → has_key tag obj ≡ false
      → reported resource tag direction (stats_rows dt resource obj) ≡ 0
  unfolding stats_rows has_key
  reported-stats_rows_absent dt [] h = refl
  reported-stats_rows_absent dt ((name, counter) ∷ obj) h =
      ground (arith, reported-stats_rows_absent dt obj)

module _ (resource tag : String) (dt : ℕ) where
  reported-stats_rows :
      (direction : Bool) (obj : GoMap String Counter)
      → IsMap obj
      → held direction (lookup tag obj) < int64_half
      → reported resource tag direction (stats_rows dt resource obj)
        ≡ held direction (lookup tag obj)
  unfolding stats_rows lookup
  reported-stats_rows direction [] m h = refl
  reported-stats_rows true ((name, counter) ∷ obj) m h = elim (Bool-cases (name == tag)) [
    | inl y ↦
        let gone = rw ((str_iff name tag).0 y) at m.0 in
        ground (
          arith,
          reported-stats_rows_absent resource tag true dt obj gone,
          str_iff resource resource,
        )
    | inr n ↦
        ground (arith, reported-stats_rows true obj m.1 (rw n at h), str_iff resource resource)
  ]
  reported-stats_rows false ((name, counter) ∷ obj) m h = elim (Bool-cases (name == tag)) [
    | inl y ↦
        let gone = rw ((str_iff name tag).0 y) at m.0 in
        ground (
          arith,
          reported-stats_rows_absent resource tag false dt obj gone,
          str_iff resource resource,
        )
    | inr n ↦
        ground (arith, reported-stats_rows false obj m.1 (rw n at h), str_iff resource resource)
  ]

inbound_not_user : ◌≢◌ {A = String} "inbound" "user"
inbound_not_user = ground (arith, str_iff "inbound" "user")

outbound_not_user : ◌≢◌ {A = String} "outbound" "user"
outbound_not_user = ground (arith, str_iff "outbound" "user")

-- All counters are maps, as they are in Go.
pub record IsTracker (t : StatsTracker) : Type 0 where
  pub inbounds_map : IsMap t.inbounds
  pub outbounds_map : IsMap t.outbounds
  pub users_map : IsMap t.users

-- Where a user's counter has not run past the largest int64 in a direction, the rows of one
-- collection report exactly the traffic that it held in that direction.
pub reported-get_stats_user :
    (user : String) (direction : Bool) (dt : ℕ) (t : StatsTracker)
    → IsTracker t
    → held direction (lookup user t.users) < int64_half
    → reported "user" user direction (get_stats dt t).1 ≡ held direction (lookup user t.users)
unfolding get_stats
reported-get_stats_user user direction dt t v h = ground (
  arith,
  reported-append "user" user direction (stats_rows dt "inbound" t.inbounds)
      (stats_rows dt "outbound" t.outbounds ++ stats_rows dt "user" t.users),
  reported-append "user" user direction (stats_rows dt "outbound" t.outbounds)
      (stats_rows dt "user" t.users),
  reported-stats_rows_other "user" user direction dt "inbound" t.inbounds (inbound_not_user),
  reported-stats_rows_other "user" user direction dt "outbound" t.outbounds (outbound_not_user),
  reported-stats_rows "user" user dt direction t.users v.users_map h,
)

lookup-swap_all :
    (tag : String) (obj : GoMap String Counter)
    → lookup tag (swap_all obj) ≡ (if has_key tag obj then some zero_counter else none)
unfolding lookup swap_all has_key
lookup-swap_all tag [] = refl
lookup-swap_all tag ((name, counter) ∷ obj) = ground (arith, lookup-swap_all tag obj)

has_key-swap_all :
    (tag : String) (obj : GoMap String Counter)
    → has_key tag obj ≡ false
    → has_key tag (swap_all obj) ≡ false
unfolding swap_all has_key
has_key-swap_all tag [] h = refl
has_key-swap_all tag ((name, counter) ∷ obj) h = ground (arith, has_key-swap_all tag obj)

pub swap_all-has_key :
    (tag : String) (obj : GoMap String Counter)
    → has_key tag obj ≡ true
    → has_key tag (swap_all obj) ≡ true
unfolding swap_all has_key
swap_all-has_key tag [] h = h
swap_all-has_key tag ((name, counter) ∷ obj) h = ground (arith, swap_all-has_key tag obj)

-- A collection takes what it reports: right after it every user's counter holds nothing.
pub held-get_stats_user :
    (user : String) (direction : Bool) (dt : ℕ) (t : StatsTracker)
    → held direction (lookup user (get_stats dt t).0.users) ≡ 0
unfolding get_stats
held-get_stats_user user true dt t = ground (arith, lookup-swap_all user t.users)
held-get_stats_user user false dt t = ground (arith, lookup-swap_all user t.users)

pub swap_all-IsMap : (obj : GoMap String Counter) → IsMap obj → IsMap (swap_all obj)
unfolding swap_all has_key
swap_all-IsMap [] m = tt
swap_all-IsMap ((name, counter) ∷ obj) (n, m) = (has_key-swap_all name obj n, swap_all-IsMap obj m)
