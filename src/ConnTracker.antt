-- ===== src/ConnTracker.antt =====
-- core/tracker_conn.go: the table of open connections and the wrappers that leave it. A connection
-- is a handle; closing one appends its handle to `closed`. The identifier that the uuid library
-- makes is an argument.
pub mod Closing
pub mod Lifecycle
pub mod Tests
use s_ui_next.GoMap.{GoMap, insert, delete}
use s_ui_next.Prelude.{
  ℕ, suc, String, comparable_string, ◌==◌, Bool, true, false, not, ◌&&◌, List, [], ◌∷◌, ◌++◌,
  Option, none, some, if◌then◌else◌,
}

pub record ConnectionInfo : Type 0 where
  pub id : String
  pub conn : Option ℕ
  pub packet_conn : Option ℕ
  pub inbound : String
  pub kind : String

pub record ConnTracker : Type 0 where
  pub connections : GoMap String ConnectionInfo
  pub closed : List ℕ

abbrev pub new_conn_tracker : ConnTracker
new_conn_tracker = record { connections = []; closed = [] }

abbrev pub handle : Option ℕ → List ℕ
handle none = []
handle (some conn) = conn ∷ []

-- What is closed for one entry.
abbrev pub handles : ConnectionInfo → List ℕ
handles info = handle info.conn ++ handle info.packet_conn

abbrev close_all : GoMap String ConnectionInfo → List ℕ
close_all [] = []
close_all ((id, info) ∷ rest) = handles info ++ close_all rest

unfoldable pub reset : ConnTracker → ConnTracker
reset t = record { connections = []; closed = t.closed ++ close_all t.connections }

unfoldable pub track_connection : String → ConnectionInfo → ConnTracker → ConnTracker
track_connection id info t = record t { connections = insert id info t.connections }

unfoldable pub untrack_connection : String → ConnTracker → ConnTracker
untrack_connection id t = record t { connections = delete id t.connections }

-- A wrapped connection of either kind, with the state of its `sync.Once`.
pub record Wrapped : Type 0 where
  pub inner : ℕ
  pub conn_id : String
  pub untracked : Bool

unfoldable pub routed_connection : String → ℕ → String → ConnTracker → ConnTracker × Wrapped
routed_connection id conn inbound t = (
  track_connection id
      (record { id = id; conn = some conn; packet_conn = none; inbound = inbound; kind = "tcp" }) t,
  record { inner = conn; conn_id = id; untracked = false },
)

unfoldable pub routed_packet_connection : String → ℕ → String → ConnTracker → ConnTracker × Wrapped
routed_packet_connection id conn inbound t = (
  track_connection id
      (record { id = id; conn = none; packet_conn = some conn; inbound = inbound; kind = "udp" }) t,
  record { inner = conn; conn_id = id; untracked = false },
)

-- The loop of `CloseConnByInbound`: what stays, what is closed, and how many entries went.
unfoldable pub close_loop :
    String → GoMap String ConnectionInfo → GoMap String ConnectionInfo × List ℕ × ℕ
close_loop inbound [] = ([], [], 0)
close_loop inbound ((id, info) ∷ rest) =
    let later = close_loop inbound rest in
    if info.inbound == inbound
    then (later.0, handles info ++ later.1, suc later.2)
    else ((id, info) ∷ later.0, later.1, later.2)

unfoldable pub close_conn_by_inbound : String → ConnTracker → ConnTracker × ℕ
close_conn_by_inbound inbound t =
    let (left, closed, closed_count) = close_loop inbound t.connections in
    (record { connections = left; closed = t.closed ++ closed }, closed_count)

-- The errors that `shouldUntrackIOErr` tells apart.
pub data IoError : Type 0 where
  eof : IoError
  net_error : Bool → IoError
  other : IoError

-- The flag of a network error is its `Temporary()`.
unfoldable pub should_untrack_io_err : Option IoError → Bool
should_untrack_io_err none = false
should_untrack_io_err (some eof) = true
should_untrack_io_err (some (net_error temporary)) = not temporary
should_untrack_io_err (some other) = true

unfoldable pub do_untrack : Wrapped → ConnTracker → ConnTracker × Wrapped
do_untrack w t =
    if w.untracked then (t, w) else (untrack_connection w.conn_id t, record w { untracked = true })

-- `Read` and `ReadPacket`, given the error of the inner connection.
unfoldable pub read : Option IoError → Wrapped → ConnTracker → ConnTracker × Wrapped
read error w t = if should_untrack_io_err error then do_untrack w t else (t, w)

abbrev pub is_error : Option IoError → Bool
is_error none = false
is_error (some error) = true

-- `Write` and `WritePacket`.
unfoldable pub write : Option IoError → Wrapped → ConnTracker → ConnTracker × Wrapped
write error w t = if is_error error && should_untrack_io_err error then do_untrack w t else (t, w)

unfoldable pub close : Wrapped → ConnTracker → ConnTracker × Wrapped
close w t = let (t', w') = do_untrack w t in (record t' { closed = t'.closed ++ w.inner ∷ [] }, w')
