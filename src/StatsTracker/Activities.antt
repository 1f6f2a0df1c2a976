-- ===== src/StatsTracker/Activities.antt =====
-- What can happen to the counters of core/tracker_stats.go while the core runs, and that a connection
-- that was handed out keeps the counter of its user.
use s_ui_next.GoMap.Laws.{insert-IsMap, has_key-insert, lookup-has_key}
use s_ui_next.GoMap.{GoMap, lookup, IsMap, has_key}
use s_ui_next.Prelude.{
  ℕ, ◌+◌, ◌≡◌, String, str_iff, comparable_string, comparable_nat, ◌==◌, Bool, true, ◌&&◌, List, [],
  ◌∷◌, ◌++◌, Option, none, some, if◌then◌else◌, arith, Bool-cases, inl, inr, Option-cases, not, ◌⊎◌,
  ◌∙◌, refl, zero, suc, ◌||◌, get_elem?,
}
use s_ui_next.StatsTracker.Reports.{reported, held, IsTracker, swap_all-IsMap, swap_all-has_key}
use s_ui_next.StatsTracker.{
  Counter, StatsTracker, CounterConn, Stats, zero_counter, add64, load_or_create_counter,
  load_if_named, get_read_counters, add_traffic, add_if_named, carry, get_stats,
}

-- What can happen to the counters while the core runs. A connection is named by its place in the
-- order in which the connections were routed.
pub data Activity : Type 0 where
  routed : String → String → String → Activity
  carried : ℕ → ℕ → ℕ → Activity
  collected : ℕ → Activity

-- The counters, what was collected of them, and the wrapped connections that were handed out.
pub record Ledger : Type 0 where
  pub tracker : StatsTracker
  pub rows : List Stats
  pub conns : List CounterConn

abbrev pub carry_at : Option CounterConn → ℕ → ℕ → StatsTracker → StatsTracker
carry_at none received sent t = t
carry_at (some conn) received sent t = carry conn received sent t

unfoldable pub act : Activity → Ledger → Ledger
act (routed inbound outbound user) l =
    let (t, conn) = get_read_counters inbound outbound user l.tracker in
    record l { tracker = t; conns = l.conns ++ conn ∷ [] }
act (carried place received sent) l = record l {
  tracker = carry_at (get_elem? l.conns place) received sent l.tracker;
}
act (collected dt) l =
    let (t, rows) = get_stats dt l.tracker in record l { tracker = t; rows = l.rows ++ rows }

unfoldable pub act_all : List Activity → Ledger → Ledger
act_all [] l = l
act_all (a ∷ later) l = act_all later (act a l)

-- The users of the connections that were routed, in order.
abbrev pub users_after : Activity → List String → List String
users_after (routed inbound outbound user) users = users ++ user ∷ []
users_after _ users = users

-- The part of a connection's bytes that is a user's: all of those in the direction if the
-- connection was routed for the user. The empty name is no user.
abbrev pub share : String → Bool → String → ℕ → ℕ → ℕ
share user direction name received sent =
    if name == user && not (user == "") then (if direction then received else sent) else 0

abbrev pub share_of : String → Bool → Option String → ℕ → ℕ → ℕ
share_of user direction none received sent = 0
share_of user direction (some name) received sent = share user direction name received sent

-- The bytes of a user in an activity, after connections of these users were routed.
abbrev pub brought : String → Bool → Activity → List String → ℕ
brought user direction (carried place received sent) users =
    share_of user direction (get_elem? users place) received sent
brought user direction _ users = 0

unfoldable pub brought_by_all : String → Bool → List Activity → List String → ℕ
brought_by_all user direction [] users = 0
brought_by_all user direction (a ∷ later) users =
    brought user direction a users + brought_by_all user direction later (users_after a users)

-- All that is known of a user's traffic: what the rows report and what waits in the counter.
unfoldable pub accounted : String → Bool → Ledger → ℕ
accounted user direction l =
    reported "user" user direction l.rows + held direction (lookup user l.tracker.users)

-- A ledger before the first connection.
abbrev pub opened : StatsTracker → Ledger
opened t = record { tracker = t; rows = []; conns = [] }

load_if_named-IsMap :
    (name : String) (obj : GoMap String Counter) → IsMap obj → IsMap (load_if_named name obj)
unfolding load_or_create_counter
load_if_named-IsMap name obj m = ground (arith, insert-IsMap name zero_counter obj m)

add_if_named-IsMap :
    (name : String) (received sent : ℕ) (obj : GoMap String Counter)
    → IsMap obj
    → IsMap (add_if_named name received sent obj)
unfolding add_traffic
add_if_named-IsMap name received sent obj m = elim (Option-cases (lookup name obj)) [
  | inl gone ↦ ground arith
  | inr (old, found) ↦ ground (
    arith,
    insert-IsMap name (record { read = add64 old.read received; write = add64 old.write sent }) obj
        m,
  )
]

-- A connection that was handed out for a user adds to the counter of that user, which is there.
abbrev pub IsOwn : StatsTracker → CounterConn → String → Type 0
IsOwn t conn user =
    (conn.user ≡ user)
    × (conn.taken_in ≡ t.generation)
    × (user == "" || has_key user t.users ≡ true)

abbrev pub IsRouted : StatsTracker → List CounterConn → List String → Type 0
IsRouted t [] [] = Unit
IsRouted t (conn ∷ conns) (user ∷ users) = IsOwn t conn user × IsRouted t conns users
IsRouted t conns users = ⊥

-- The generation stays, and no counter of a user goes.
abbrev Grows : StatsTracker → StatsTracker → Type 0
Grows t t' =
    (t.generation ≡ t'.generation)
    × ((user : String) → has_key user t.users ≡ true → has_key user t'.users ≡ true)

IsRouted-Grows :
    (t t' : StatsTracker) (conns : List CounterConn) (users : List String)
    → Grows t t'
    → IsRouted t conns users
    → IsRouted t' conns users
IsRouted-Grows t t' [] [] g r = tt
IsRouted-Grows t t' [] (user ∷ users) g r = elim r [ ]
IsRouted-Grows t t' (conn ∷ conns) [] g r = elim r [ ]
IsRouted-Grows t t' (conn ∷ conns) (user ∷ users) g ((own, taken, there), r) =
    ((own, taken ∙ g.0, ground (arith, there, g.1 user)), IsRouted-Grows t t' conns users g r)

IsRouted-snoc :
    (t : StatsTracker) (conns : List CounterConn) (users : List String) (conn : CounterConn)
    (user : String)
    → IsRouted t conns users
    → IsOwn t conn user
    → IsRouted t (conns ++ conn ∷ []) (users ++ user ∷ [])
IsRouted-snoc t [] [] conn user r own = (own, tt)
IsRouted-snoc t [] (u ∷ users) conn user r own = elim r [ ]
IsRouted-snoc t (c ∷ conns) [] conn user r own = elim r [ ]
IsRouted-snoc t (c ∷ conns) (u ∷ users) conn user (o, r) own =
    (o, IsRouted-snoc t conns users conn user r own)

pub IsRouted-at :
    (t : StatsTracker) (conns : List CounterConn) (users : List String) (place : ℕ)
    → IsRouted t conns users
    → ((get_elem? conns place ≡ none) × (get_elem? users place ≡ none))
      ⊎ ((conn : CounterConn) × (user : String) × (get_elem? conns place ≡ some conn)
          × (get_elem? users place ≡ some user)
          × IsOwn t conn user)
IsRouted-at t [] [] place r = inl (refl, refl)
IsRouted-at t [] (user ∷ users) place r = elim r [ ]
IsRouted-at t (conn ∷ conns) [] place r = elim r [ ]
IsRouted-at t (conn ∷ conns) (user ∷ users) zero (own, r) = inr (conn, user, refl, refl, own)
IsRouted-at t (conn ∷ conns) (user ∷ users) (suc place) (own, r) = IsRouted-at t conns users place r

-- What holds of a ledger in which connections of these users were routed.
pub record IsLedger (users : List String) (l : Ledger) : Type 0 where
  pub is_tracker : IsTracker l.tracker
  pub is_routed : IsRouted l.tracker l.conns users

module _ (name : String) (obj : GoMap String Counter) where
  has_key-load_if_named :
      (user : String) → has_key user obj ≡ true → has_key user (load_if_named name obj) ≡ true
  unfolding load_or_create_counter
  has_key-load_if_named user h = ground (arith, has_key-insert name user zero_counter obj)

  has_key-load_self : name == "" || has_key name (load_if_named name obj) ≡ true
  unfolding load_or_create_counter
  has_key-load_self = elim (Option-cases (lookup name obj)) [
    | inl gone ↦ ground (arith, has_key-insert name name zero_counter obj, str_iff name name)
    | inr (old, found) ↦ ground (arith, lookup-has_key name obj)
  ]

  has_key-add_if_named :
      (received sent : ℕ) (user : String)
      → has_key user obj ≡ true
      → has_key user (add_if_named name received sent obj) ≡ true
  unfolding add_traffic
  has_key-add_if_named received sent user h = elim (Option-cases (lookup name obj)) [
    | inl gone ↦ ground arith
    | inr (old, found) ↦ ground (
      arith,
      has_key-insert name user
          (record { read = add64 old.read received; write = add64 old.write sent }) obj,
    )
  ]

carry-IsTracker :
    (conn : CounterConn) (received sent : ℕ) (t : StatsTracker)
    → IsTracker t
    → IsTracker (carry conn received sent t)
unfolding carry
carry-IsTracker conn received sent t v = elim (Bool-cases (conn.taken_in == t.generation)) [
  | inl y ↦ rw y (record {
    inbounds_map = add_if_named-IsMap conn.inbound received sent _ v.inbounds_map;
    outbounds_map = add_if_named-IsMap conn.outbound received sent _ v.outbounds_map;
    users_map = add_if_named-IsMap conn.user received sent _ v.users_map;
  })
  | inr n ↦ rw n v
]

carry-Grows :
    (conn : CounterConn) (received sent : ℕ) (t : StatsTracker)
    → Grows t (carry conn received sent t)
unfolding carry
carry-Grows conn received sent t = elim (Bool-cases (conn.taken_in == t.generation)) [
  | inl y ↦ rw y (refl, has_key-add_if_named conn.user t.users received sent)
  | inr n ↦ rw n (refl, λ user h. h)
]

carry_at-IsLedger :
    (users : List String) (conn : Option CounterConn) (received sent : ℕ) (l : Ledger)
    → IsLedger users l
    → IsLedger users (record l { tracker = carry_at conn received sent l.tracker })
carry_at-IsLedger users none received sent l v = v
carry_at-IsLedger users (some conn) received sent l v = record {
  is_tracker = carry-IsTracker conn received sent l.tracker v.is_tracker;
  is_routed =
      IsRouted-Grows l.tracker (carry conn received sent l.tracker) l.conns users
        (carry-Grows conn received sent l.tracker) v.is_routed;
}

pub act-IsLedger :
    (a : Activity) (users : List String) (l : Ledger)
    → IsLedger users l
    → IsLedger (users_after a users) (act a l)
unfolding act get_read_counters get_stats
act-IsLedger (routed inbound outbound user) users l v =
    let t = (get_read_counters inbound outbound user l.tracker).0 in
    record {
      is_tracker = record {
        inbounds_map = load_if_named-IsMap inbound _ v.is_tracker.inbounds_map;
        outbounds_map = load_if_named-IsMap outbound _ v.is_tracker.outbounds_map;
        users_map = load_if_named-IsMap user _ v.is_tracker.users_map;
      };
      is_routed =
          IsRouted-snoc t l.conns users (get_read_counters inbound outbound user l.tracker).1 user
            (IsRouted-Grows l.tracker t l.conns users
              (refl, has_key-load_if_named user l.tracker.users) v.is_routed)
            (refl, refl, has_key-load_self user l.tracker.users);
    }
act-IsLedger (carried place received sent) users l v =
    carry_at-IsLedger users (get_elem? l.conns place) received sent l v
act-IsLedger (collected dt) users l v = record {
  is_tracker = record {
    inbounds_map = swap_all-IsMap _ v.is_tracker.inbounds_map;
    outbounds_map = swap_all-IsMap _ v.is_tracker.outbounds_map;
    users_map = swap_all-IsMap _ v.is_tracker.users_map;
  };
  is_routed =
      IsRouted-Grows l.tracker (get_stats dt l.tracker).0 l.conns users
        (refl, λ user h. swap_all-has_key user l.tracker.users h) v.is_routed;
}
