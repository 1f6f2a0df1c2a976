-- ===== src/AutoHttps.antt =====
-- network/auto_https_conn.go: a connection that answers a plain HTTP request with a redirect to HTTPS
-- and passes everything else on. `is_request` is whether `http.ReadRequest` accepts the first bytes;
-- the inner connection is its bytes to come, and what it gives to one read is an argument.
pub mod Stream
pub mod Tests
use Prim.Native.Nat.{min}
use s_ui_next.Prelude.{
  ℕ, ◌+◌, Bool, true, false, List, [], ◌∷◌, ◌++◌, Option, none, some, take, drop, length, leb,
  if◌then◌else◌,
}

pub record AutoHttpsConn : Type 0 where
  pub first_buf : Option (List ℕ)
  pub buf_start : ℕ
  pub read_request_once : Bool
  pub pending : List ℕ
  pub closed : Bool
  -- The requests that were answered with a redirect.
  pub redirected : List (List ℕ)

abbrev pub new_auto_https_conn : List ℕ → AutoHttpsConn
new_auto_https_conn pending = record {
  first_buf = none;
  buf_start = 0;
  read_request_once = false;
  pending = pending;
  closed = false;
  redirected = [];
}

-- How the inner connection answers a read: with an error, or with up to so many bytes.
abbrev pub Answer : Type 0
Answer = Option ℕ

-- `c.Conn.Read`: what is read, and what is left. A closed connection answers with an error.
unfoldable pub inner_read : ℕ → Answer → AutoHttpsConn → Option (List ℕ) × AutoHttpsConn
inner_read size none c = (none, c)
inner_read size (some chunk) c = if c.closed then (none, c) else (
  some (take (min size chunk) c.pending),
  record c { pending = drop (min size chunk) c.pending },
)

module _ (is_request : List ℕ → Bool) where
  -- `readRequest` once the first bytes are read.
  unfoldable pub answer_request : Option (List ℕ) × AutoHttpsConn → AutoHttpsConn
  answer_request (none, c) = record c { first_buf = some [] }
  answer_request (some bytes, c) =
      if is_request bytes
      then record c { first_buf = none; closed = true; redirected = bytes ∷ c.redirected }
      else record c { first_buf = some bytes }

  unfoldable pub read_request : Answer → AutoHttpsConn → AutoHttpsConn
  read_request answer c = answer_request (inner_read 2048 answer c)

  -- The part of `Read` behind the `Once`.
  unfoldable pub read_buffered :
      ℕ → Answer → Option (List ℕ) → AutoHttpsConn → Option (List ℕ) × AutoHttpsConn
  read_buffered size answer none c = inner_read size answer c
  read_buffered size answer (some buf) c =
      let bytes = take size (drop c.buf_start buf) in
      let start = c.buf_start + length bytes in
      (
        some bytes,
        record c {
          buf_start = start;
          first_buf = if leb (length buf) start then none else some buf;
        },
      )

  abbrev pub once : Answer → AutoHttpsConn → AutoHttpsConn
  once first c =
      if c.read_request_once then c else read_request first (record c { read_request_once = true })

  -- `Read` into a buffer of a size; `first` answers the read of `readRequest`, where it is made.
  unfoldable pub read : ℕ → Answer → Answer → AutoHttpsConn → Option (List ℕ) × AutoHttpsConn
  read size first answer c =
      let ready = once first c in read_buffered size answer ready.first_buf ready
