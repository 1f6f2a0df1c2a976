-- ===== src/ConnTracker/Lifecycle.antt =====
-- A wrapped connection of core/tracker_conn.go from its routing to its end.
use s_ui_next.ConnTracker.{
  ConnectionInfo, ConnTracker, Wrapped, IoError, is_error, eof, net_error, other, track_connection,
  untrack_connection, routed_connection, routed_packet_connection, should_untrack_io_err,
  do_untrack, read, write, close,
}
use s_ui_next.GoMap.Laws.{lookup-insert, lookup-delete, has_key-insert, has_key-delete}
use s_ui_next.GoMap.{lookup, has_key}
use s_ui_next.Prelude.{
  none, some, ◌&&◌, ℕ, String, str_iff, comparable_string, ◌==◌, Bool, true, false, not, ◌||◌, List,
  [], ◌∷◌, Option, ◌≡◌, ◌∙◌, refl, arith, any,
}

-- What the owner of a wrapped connection does with it, and how the inner connection answers.
pub data Use : Type 0 where
  reads : Option IoError → Use
  writes : Option IoError → Use
  closes : Use

unfoldable pub apply : Use → ConnTracker × Wrapped → ConnTracker × Wrapped
apply (reads error) (t, w) = read error w t
apply (writes error) (t, w) = write error w t
apply closes (t, w) = close w t

unfoldable pub apply_all : List Use → ConnTracker × Wrapped → ConnTracker × Wrapped
apply_all [] s = s
apply_all (u ∷ us) s = apply_all us (apply u s)

-- An error other than a temporary one of the network.
abbrev pub is_final : Option IoError → Bool
is_final none = false
is_final (some (net_error true)) = false
is_final (some (net_error false)) = true
is_final (some eof) = true
is_final (some other) = true

-- The uses that end a connection.
unfoldable pub is_last : Use → Bool
is_last (reads error) = is_final error
is_last (writes error) = is_final error
is_last closes = true

should_untrack_io_err-is_final :
    (error : Option IoError) → should_untrack_io_err error ≡ is_final error
unfolding should_untrack_io_err
should_untrack_io_err-is_final none = refl
should_untrack_io_err-is_final (some (net_error true)) = refl
should_untrack_io_err-is_final (some (net_error false)) = refl
should_untrack_io_err-is_final (some eof) = refl
should_untrack_io_err-is_final (some other) = refl

is_error-is_final : (error : Option IoError) → (is_error error && is_final error) ≡ is_final error
is_error-is_final none = refl
is_error-is_final (some error) = refl

-- The wrapper and the table agree: the connection is in the table until the wrapper has untracked.
abbrev Agrees : ConnTracker × Wrapped → Type 0
Agrees s = has_key s.1.conn_id s.0.connections ≡ not s.1.untracked

apply_step :
    (u : Use) (s : ConnTracker × Wrapped)
    → Agrees s
    → Agrees (apply u s)
      × ((apply u s).1.untracked ≡ (s.1.untracked || is_last u))
      × ((apply u s).1.conn_id ≡ s.1.conn_id)
unfolding apply is_last read write close do_untrack untrack_connection
apply_step (reads error) (t, w) h = ground (
  arith,
  has_key-delete w.conn_id w.conn_id t.connections,
  should_untrack_io_err-is_final error,
  str_iff w.conn_id w.conn_id,
)
apply_step (writes error) (t, w) h = ground (
  arith,
  has_key-delete w.conn_id w.conn_id t.connections,
  should_untrack_io_err-is_final error,
  is_error-is_final error,
  str_iff w.conn_id w.conn_id,
)
apply_step closes (t, w) h =
    ground (arith, has_key-delete w.conn_id w.conn_id t.connections, str_iff w.conn_id w.conn_id)

apply-lookup_ne :
    (k : String) (u : Use) (s : ConnTracker × Wrapped)
    → (s.1.conn_id == k) ≡ false
    → lookup k (apply u s).0.connections ≡ lookup k s.0.connections
unfolding apply read write close do_untrack should_untrack_io_err untrack_connection
apply-lookup_ne k (reads error) (t, w) h = ground (arith, lookup-delete w.conn_id k t.connections)
apply-lookup_ne k (writes error) (t, w) h = ground (arith, lookup-delete w.conn_id k t.connections)
apply-lookup_ne k closes (t, w) h = ground (arith, lookup-delete w.conn_id k t.connections)

apply_all-tracked :
    (us : List Use) (s : ConnTracker × Wrapped)
    → Agrees s
    → has_key s.1.conn_id (apply_all us s).0.connections ≡ not (s.1.untracked || any is_last us)
unfolding apply_all has_key apply
apply_all-tracked [] s h = ground arith
apply_all-tracked (u ∷ us) s h =
    let step = apply_step u s h in
    let later = rw step.2 at (apply_all-tracked us (apply u s) step.0) in
    later ∙ ground (arith, step.1)

apply_all-lookup_ne :
    (k : String) (us : List Use) (s : ConnTracker × Wrapped)
    → Agrees s
    → (s.1.conn_id == k) ≡ false
    → lookup k (apply_all us s).0.connections ≡ lookup k s.0.connections
unfolding apply_all
apply_all-lookup_ne k [] s h n = refl
apply_all-lookup_ne k (u ∷ us) s h n =
    let step = apply_step u s h in
    apply_all-lookup_ne k us (apply u s) step.0 (rw step.2 n) ∙ apply-lookup_ne k u s n

-- What holds of a wrapped connection that was just put into the table, whatever is then done, and
-- of another identifier `k`.
abbrev pub TrackedUntilEnd :
    String → String → ConnTracker → List Use → ConnTracker × Wrapped → Type 0
TrackedUntilEnd id k t us s =
    (has_key id (apply_all us s).0.connections ≡ not (any is_last us))
    × (lookup k (apply_all us s).0.connections ≡ lookup k t.connections)

tracked_until_end :
    (id k : String) (info : ConnectionInfo) (inner : ℕ) (t : ConnTracker) (us : List Use)
    → (id == k) ≡ false
    → TrackedUntilEnd id k t us
        (track_connection id info t, record { inner = inner; conn_id = id; untracked = false })
unfolding track_connection
tracked_until_end id k info inner t us n =
    let s : ConnTracker × Wrapped =
      (track_connection id info t, record { inner = inner; conn_id = id; untracked = false }) in
    let agrees : Agrees s =
      ground (arith, has_key-insert id id info t.connections, str_iff id id) in
    (
      apply_all-tracked us s agrees,
      apply_all-lookup_ne k us s agrees n ∙ rw (lookup-insert id k info t.connections, n) refl,
    )

-- A routed connection of either kind is in the table exactly until it is closed or an operation on
-- it fails for good (a temporary network error does not count), whatever is done with it; and the
-- entry under any other identifier does not change.
pub routed_connection-tracked :
    (id k : String) (conn : ℕ) (inbound : String) (t : ConnTracker) (us : List Use)
    → (id == k) ≡ false
    → TrackedUntilEnd id k t us (routed_connection id conn inbound t)
      × TrackedUntilEnd id k t us (routed_packet_connection id conn inbound t)
unfolding routed_connection routed_packet_connection
routed_connection-tracked id k conn inbound t us n =
    (tracked_until_end id k _ conn t us n, tracked_until_end id k _ conn t us n)
