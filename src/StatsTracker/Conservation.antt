-- ===== src/StatsTracker/Conservation.antt =====
-- No byte of a user's traffic is lost or counted twice by the counters of core/tracker_stats.go.
use s_ui_next.GoMap.Laws.{lookup-insert, has_key-lookup}
use s_ui_next.GoMap.{GoMap, lookup, has_key}
use s_ui_next.Prelude.{
  ap, ℕ, ◌+◌, ◌<◌, ◌≡◌, String, str_iff, comparable_string, comparable_nat, ◌==◌, Bool, true, false,
  List, [], ◌∷◌, arith, Bool-cases, inl, inr, Option-cases, ◌∙◌, ◌||◌, nat_eq_iff,
}
use s_ui_next.StatsTracker.Reports.{
  held, IsTracker, reported-append, reported-get_stats_user, held-get_stats_user,
}
use s_ui_next.StatsTracker.{
  Counter, StatsTracker, CounterConn, int64_half, zero_counter, add64, load_or_create_counter,
  load_if_named, get_read_counters, add_traffic, add_if_named, carry, get_stats,
}
use s_ui_next.StatsTracker.Activities.{
  Activity, routed, carried, collected, Ledger, act, act_all, users_after, share, brought,
  brought_by_all, accounted, opened, IsOwn, IsRouted-at, IsLedger, act-IsLedger,
}

module _ (user : String) where
  held-load_if_named :
      (direction : Bool) (name : String) (obj : GoMap String Counter)
      → held direction (lookup user (load_if_named name obj)) ≡ held direction (lookup user obj)
  unfolding load_or_create_counter
  held-load_if_named true name obj =
      ground (arith, lookup-insert name user zero_counter obj, str_iff name user)
  held-load_if_named false name obj =
      ground (arith, lookup-insert name user zero_counter obj, str_iff name user)

  held-add_self :
      (direction : Bool) (received sent : ℕ) (obj : GoMap String Counter)
      → user == "" || has_key user obj ≡ true
      → held direction (lookup user obj) + share user direction user received sent < int64_half
      → held direction (lookup user (add_if_named user received sent obj))
        ≡ held direction (lookup user obj) + share user direction user received sent
  unfolding add_traffic
  held-add_self direction received sent obj k h = elim (Option-cases (lookup user obj)) [
    | inl gone ↦ ground (arith, str_iff user user, has_key-lookup user obj gone)
    | inr (old, found) ↦
        let new : Counter = record {
          read = add64 old.read received;
          write = add64 old.write sent;
        } in
        elim (Bool-cases direction) [
          | inl up ↦ ground (arith, str_iff user user, lookup-insert user user new obj)
          | inr down ↦ ground (arith, str_iff user user, lookup-insert user user new obj)
        ]
  ]

  held-add_other :
      (direction : Bool) (name : String) (received sent : ℕ) (obj : GoMap String Counter)
      → (name == user) ≡ false
      → held direction (lookup user (add_if_named name received sent obj))
        ≡ held direction (lookup user obj) + share user direction name received sent
  unfolding add_traffic
  held-add_other direction name received sent obj n = elim (Option-cases (lookup name obj)) [
    | inl gone ↦ ground arith
    | inr (old, found) ↦ ground (
      arith,
      lookup-insert name user
          (record { read = add64 old.read received; write = add64 old.write sent }) obj,
    )
  ]

  held-add_if_named :
      (direction : Bool) (name : String) (received sent : ℕ) (obj : GoMap String Counter)
      → name == "" || has_key name obj ≡ true
      → held direction (lookup user obj) + share user direction name received sent < int64_half
      → held direction (lookup user (add_if_named name received sent obj))
        ≡ held direction (lookup user obj) + share user direction name received sent
  unfolding add_traffic
  held-add_if_named direction name received sent obj k h = elim (Bool-cases (name == user)) [
    | inl y ↦
        let same = (str_iff name user).0 y in
        rw same (held-add_self direction received sent obj (rw same at k) (rw same at h))
    | inr n ↦ held-add_other direction name received sent obj n
  ]

carry-accounted :
    (user : String) (direction : Bool) (conn : CounterConn) (name : String) (received sent : ℕ)
    (t : StatsTracker)
    → IsOwn t conn name
    → held direction (lookup user t.users) + share user direction name received sent < int64_half
    → held direction (lookup user (carry conn received sent t).users)
      ≡ held direction (lookup user t.users) + share user direction name received sent
unfolding carry
carry-accounted user direction conn name received sent t (own, taken, there) h =
    let same : (conn.taken_in == t.generation) ≡ true = (nat_eq_iff _ _).1 taken in
    rw (same, own) (held-add_if_named user direction name received sent t.users there h)

-- One activity accounts for exactly what it brings.
act-accounted :
    (user : String) (direction : Bool) (a : Activity) (users : List String) (l : Ledger)
    → IsLedger users l
    → held direction (lookup user l.tracker.users) + brought user direction a users < int64_half
    → accounted user direction (act a l)
      ≡ accounted user direction l + brought user direction a users
unfolding accounted act
act-accounted user direction (routed inbound outbound name) users l v h =
    unfold get_read_counters in
    omega (arith, held-load_if_named user direction name l.tracker.users)
act-accounted user direction (carried place received sent) users l v h =
    elim (IsRouted-at l.tracker l.conns users place v.is_routed) [
      | inl (c, n) ↦ rw (c, n) (omega arith)
      | inr (conn, name, c, n, own) ↦
          rw (c, n)
            (omega (
              arith,
              carry-accounted user direction conn name received sent l.tracker own (rw n at h),
            ))
    ]
act-accounted user direction (collected dt) users l v h = omega (
  arith,
  reported-append "user" user direction l.rows (get_stats dt l.tracker).1,
  reported-get_stats_user user direction dt l.tracker v.is_tracker (omega arith),
  held-get_stats_user user direction dt l.tracker,
)

activities-accounted :
    (user : String) (direction : Bool) (later : List Activity) (users : List String) (l : Ledger)
    → IsLedger users l
    → accounted user direction l + brought_by_all user direction later users < int64_half
    → accounted user direction (act_all later l)
      ≡ accounted user direction l + brought_by_all user direction later users
unfolding act_all brought_by_all
activities-accounted user direction [] users l v h = omega arith
activities-accounted user direction (a ∷ later) users l v h =
    let one = act-accounted user direction a users l v (unfold accounted in omega arith) in
    omega (
      arith,
      one,
      activities-accounted user direction later (users_after a users) (act a l)
          (act-IsLedger a users l v) (omega (arith, one)),
    )

-- Whatever connections are routed, whatever they carry and whenever the counters are collected (with
-- no reset between): what the rows report of a user in a direction, with what still waits in the
-- counter, is what waited there at first and exactly the bytes, in that direction, of the
-- connections that were routed for the user, while the sum stays below 2 ^ 63.
pub act_all-accounted :
    (user : String) (direction : Bool) (activities : List Activity) (t : StatsTracker)
    → IsTracker t
    → held direction (lookup user t.users) + brought_by_all user direction activities []
      < int64_half
    → accounted user direction (act_all activities (opened t))
      ≡ held direction (lookup user t.users) + brought_by_all user direction activities []
unfolding accounted
act_all-accounted user direction activities t v h =
    let nothing_reported : accounted user direction (opened t)
        ≡ held direction (lookup user t.users) =
      omega arith in
    activities-accounted user direction activities [] (opened t)
      (record { is_tracker = v; is_routed = tt }) (omega (arith, nothing_reported))
    ∙ ap (λ n. n + brought_by_all user direction activities []) nothing_reported
