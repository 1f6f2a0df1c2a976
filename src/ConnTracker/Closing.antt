-- ===== src/ConnTracker/Closing.antt =====
-- What `CloseConnByInbound` (core/tracker_conn.go) closes, counts and leaves of the connections that
-- were routed.
use s_ui_next.ConnTracker.{
  ConnectionInfo, ConnTracker, new_conn_tracker, track_connection, routed_connection,
  routed_packet_connection, close_loop, close_conn_by_inbound,
}
use s_ui_next.GoMap.Laws.{has_key-insert}
use s_ui_next.GoMap.{GoMap, insert, has_key}
use s_ui_next.Prelude.{
  ℕ, String, str_iff, comparable_string, ◌==◌, Bool, true, false, not, ◌||◌, List, [], ◌∷◌, ◌++◌,
  map, keep, some, none, length, All, ◌≡◌, ◌∙◌, refl, ap, Bool-cases, inl, inr, if◌then◌else◌,
}

-- A connection that was routed, of one of the two kinds, under the identifier that it got.
pub record Routing : Type 0 where
  pub id : String
  pub conn : ℕ
  pub is_packet : Bool
  pub inbound : String

abbrev pub route : Routing → ConnTracker → ConnTracker
route r t =
    if r.is_packet
    then (routed_packet_connection r.id r.conn r.inbound t).0
    else (routed_connection r.id r.conn r.inbound t).0

abbrev pub route_all : List Routing → ConnTracker → ConnTracker
route_all [] t = t
route_all (r ∷ rs) t = route_all rs (route r t)

-- No two connections have one identifier.
abbrev pub HasDistinctIds : List Routing → Type 0
HasDistinctIds [] = Unit
HasDistinctIds (r ∷ rs) = All (λ o. (r.id == o.id) ≡ false) rs × HasDistinctIds rs

-- The connections that were routed from an inbound, in order.
abbrev pub conns_of : String → List Routing → List ℕ
conns_of inbound [] = []
conns_of inbound (r ∷ rs) =
    let rest = conns_of inbound rs in if r.inbound == inbound then r.conn ∷ rest else rest

abbrev entry_of : Routing → String × ConnectionInfo
entry_of r = (
  r.id,
  if r.is_packet
      then record {
        id = r.id;
        conn = none;
        packet_conn = some r.conn;
        inbound = r.inbound;
        kind = "udp";
      }
      else record {
        id = r.id;
        conn = some r.conn;
        packet_conn = none;
        inbound = r.inbound;
        kind = "tcp";
      },
)

abbrev IsNew : GoMap String ConnectionInfo → Routing → Type 0
IsNew m r = has_key r.id m ≡ false

or_false : (a b : Bool) → a || b ≡ false → (a ≡ false) × (b ≡ false)
or_false true b h = cc
or_false false b h = (refl, h)

insert-append :
    (key : String) (info : ConnectionInfo) (m : GoMap String ConnectionInfo)
    → has_key key m ≡ false
    → insert key info m ≡ m ++ (key, info) ∷ []
unfolding insert has_key
insert-append key info [] h = refl
insert-append key info (entry ∷ m) h =
    let (n, later) = or_false (entry.0 == key) (has_key key m) h in
    rw n (ap (◌∷◌ entry) (insert-append key info m later))

route-connections :
    (r : Routing) (t : ConnTracker)
    → ((route r t).connections ≡ insert r.id (entry_of r).1 t.connections)
      × ((route r t).closed ≡ t.closed)
unfolding routed_connection routed_packet_connection track_connection
route-connections r t = elim (Bool-cases r.is_packet) [
  | inl y ↦ rw y (refl, refl)
  | inr n ↦ rw n (refl, refl)
]

IsNew-insert :
    (r : Routing) (info : ConnectionInfo) (m : GoMap String ConnectionInfo) (rs : List Routing)
    → All (IsNew m) rs
    → All (λ o. (r.id == o.id) ≡ false) rs
    → All (IsNew (insert r.id info m)) rs
IsNew-insert r info m [] h d = tt
IsNew-insert r info m (o ∷ rs) (h, hs) (d, ds) =
    (has_key-insert r.id o.id info m ∙ rw d h, IsNew-insert r info m rs hs ds)

append_assoc {ℓ} : {A : Type ℓ} (xs ys zs : List A) → (xs ++ ys) ++ zs ≡ xs ++ (ys ++ zs)
append_assoc [] ys zs = refl
append_assoc (x ∷ xs) ys zs = ap (◌∷◌ x) (append_assoc xs ys zs)

append_nil {ℓ} : {A : Type ℓ} (xs : List A) → xs ≡ xs ++ []
append_nil [] = refl
append_nil (x ∷ xs) = ap (◌∷◌ x) (append_nil xs)

none_there : (rs : List Routing) → All (IsNew []) rs
unfolding has_key
none_there [] = tt
none_there (r ∷ rs) = (refl, none_there rs)

-- Routing keeps the connections in the order in which they come, and closes none.
route_all-connections :
    (rs : List Routing) (t : ConnTracker)
    → HasDistinctIds rs
    → All (IsNew t.connections) rs
    → ((route_all rs t).connections ≡ t.connections ++ map entry_of rs)
      × ((route_all rs t).closed ≡ t.closed)
route_all-connections [] t d n = (append_nil t.connections, refl)
route_all-connections (r ∷ rs) t (d, ds) (n, ns) =
    let (added, closed) = route-connections r t in
    let new = IsNew-insert r (entry_of r).1 t.connections rs ns d in
    let rest = route_all-connections rs (route r t) ds (rw added new) in
    (
      rest.0
          ∙ ap (λ m. m ++ map entry_of rs)
              (added ∙ insert-append r.id (entry_of r).1 t.connections n)
          ∙ append_assoc t.connections (entry_of r ∷ []) (map entry_of rs),
      rest.1 ∙ closed,
    )

abbrev is_other : String → Routing → Bool
is_other inbound r = not (r.inbound == inbound)

close_loop-entries :
    (inbound : String) (rs : List Routing)
    → close_loop inbound (map entry_of rs) ≡ (
      map entry_of (keep (is_other inbound) rs),
      conns_of inbound rs,
      length (conns_of inbound rs),
    )
unfolding close_loop
close_loop-entries inbound [] = refl
close_loop-entries inbound (r ∷ rs) =
    let rest = close_loop-entries inbound rs in
    elim (Bool-cases r.is_packet) [
      | inl p ↦ elim (Bool-cases (r.inbound == inbound)) [
        | inl y ↦ rw (p, y, rest) refl
        | inr n ↦ rw (p, n, rest) refl
      ]
      | inr p ↦ elim (Bool-cases (r.inbound == inbound)) [
        | inl y ↦ rw (p, y, rest) refl
        | inr n ↦ rw (p, n, rest) refl
      ]
    ]

conns_of-keep :
    (inbound other : String) (rs : List Routing)
    → (inbound == other) ≡ false
    → conns_of other (keep (is_other inbound) rs) ≡ conns_of other rs
conns_of-keep inbound other [] h = refl
conns_of-keep inbound other (r ∷ rs) h =
    let rest = conns_of-keep inbound other rs h in
    elim (Bool-cases (r.inbound == inbound)) [
      | inl y ↦
          let same = (str_iff r.inbound inbound).0 y in
          let apart : (r.inbound == other) ≡ false = ap (λ i. i == other) same ∙ h in
          rw (y, apart) rest
      | inr n ↦ elim (Bool-cases (r.inbound == other)) [
        | inl z ↦ rw (n, z) (ap (◌∷◌ r.conn) rest)
        | inr z ↦ rw (n, z) rest
      ]
    ]

-- After connections of both kinds were routed, closing an inbound closes the connections that were
-- routed from it, each once, and no others, and returns how many they are; closing another inbound
-- after it closes exactly the connections that were routed from that one.
pub close_conn_by_inbound_lem :
    (inbound other : String) (rs : List Routing)
    → HasDistinctIds rs
    → (inbound == other) ≡ false
    → ((close_conn_by_inbound inbound (route_all rs new_conn_tracker)).0.closed
        ≡ conns_of inbound rs)
      × ((close_conn_by_inbound inbound (route_all rs new_conn_tracker)).1
          ≡ length (conns_of inbound rs))
      × ((close_conn_by_inbound other
            (close_conn_by_inbound inbound (route_all rs new_conn_tracker)).0).0.closed
          ≡ conns_of inbound rs ++ conns_of other rs)
unfolding close_conn_by_inbound
close_conn_by_inbound_lem inbound other rs d h =
    let t = route_all rs new_conn_tracker in
    let (routed, closed) = route_all-connections rs new_conn_tracker d (none_there rs) in
    let loop = ap (close_loop inbound) routed ∙ close_loop-entries inbound rs in
    let first : (close_conn_by_inbound inbound t).0.closed ≡ conns_of inbound rs =
      ap (◌++◌ t.closed) (ap (λ l. l.1) loop) ∙ ap (λ c. c ++ conns_of inbound rs) closed in
    let again =
      ap (λ l. close_loop other (l.0)) loop
      ∙ close_loop-entries other (keep (is_other inbound) rs) in
    (
      first,
      ap (λ l. l.2) loop,
      ap (λ l. (close_conn_by_inbound inbound t).0.closed ++ l.1) again
          ∙ ap (λ c. c ++ conns_of other (keep (is_other inbound) rs)) first
          ∙ ap (◌++◌ (conns_of inbound rs)) (conns_of-keep inbound other rs h),
    )
