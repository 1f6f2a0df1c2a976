-- ===== src/AutoHttps/Stream.antt =====
-- Everything but a plain HTTP request goes through network/auto_https_conn.go unchanged.
use Prim.Native.Nat.{min}
use s_ui_next.AutoHttps.{
  AutoHttpsConn, new_auto_https_conn, Answer, inner_read, answer_request, read_request,
  read_buffered, read,
}
use s_ui_next.Prelude.{
  ℕ, zero, suc, ◌+◌, ◌≤◌, ◌≡◌, ◌∙◌, refl, sym, ap, arith, Bool, true, false, List, [], ◌∷◌, ◌++◌,
  Option, none, some, take, drop, length, take-append-drop, leb, leb→le, if◌then◌else◌, Bool-cases,
  inl, inr,
}

abbrev bytes_of : Option (List ℕ) → List ℕ
bytes_of none = []
bytes_of (some bytes) = bytes

abbrev buffered : Option (List ℕ) → ℕ → List ℕ
buffered none start = []
buffered (some buf) start = drop start buf

-- The bytes that a reader of the connection has not had yet.
abbrev pub unread : AutoHttpsConn → List ℕ
unread c = buffered c.first_buf c.buf_start ++ c.pending

append_assoc : (xs ys zs : List ℕ) → (xs ++ ys) ++ zs ≡ xs ++ (ys ++ zs)
append_assoc [] ys zs = refl
append_assoc (x ∷ xs) ys zs = ap (◌∷◌ x) (append_assoc xs ys zs)

drop_nil : (n : ℕ) → drop {A = ℕ} n [] ≡ []
drop_nil zero = refl
drop_nil (suc n) = refl

drop-drop_add : (m n : ℕ) (xs : List ℕ) → drop n (drop m xs) ≡ drop (m + n) xs
drop-drop_add zero n xs = let e : n ≡ 0 + n = omega arith in ap (λ k. drop k xs) e
drop-drop_add (suc m) n [] = drop_nil n ∙ sym (drop_nil (suc m + n))
drop-drop_add (suc m) n (x ∷ xs) =
    let e : suc (m + n) ≡ suc m + n = omega arith in
    drop-drop_add m n xs ∙ ap (λ k. drop k (x ∷ xs)) e

drop_past : (n : ℕ) (xs : List ℕ) → length xs ≤ n → drop n xs ≡ []
drop_past zero [] h = refl
drop_past zero (x ∷ xs) h = absurd (omega (arith, h))
drop_past (suc n) [] h = refl
drop_past (suc n) (x ∷ xs) h = drop_past n xs (omega (arith, h))

drop-length-take : (n : ℕ) (xs : List ℕ) → drop (length (take n xs)) xs ≡ drop n xs
drop-length-take zero xs = refl
drop-length-take (suc n) [] = refl
drop-length-take (suc n) (x ∷ xs) = drop-length-take n xs

-- A stream that no prefix of is taken for a request.
abbrev pub IsPassed : (List ℕ → Bool) → List ℕ → Type 0
IsPassed is_request bytes = (n : ℕ) → is_request (take n bytes) ≡ false

inner_read-unread :
    (size : ℕ) (answer : Answer) (c : AutoHttpsConn)
    → bytes_of (inner_read size answer c).0 ++ (inner_read size answer c).1.pending ≡ c.pending
unfolding inner_read
inner_read-unread size none c = refl
inner_read-unread size (some chunk) c = elim (Bool-cases c.closed) [
  | inl y ↦ rw y refl
  | inr n ↦ rw n (take-append-drop (min size chunk) c.pending)
]

inner_read-first_buf :
    (size : ℕ) (answer : Answer) (c : AutoHttpsConn)
    → (inner_read size answer c).1.first_buf ≡ c.first_buf
unfolding inner_read
inner_read-first_buf size none c = refl
inner_read-first_buf size (some chunk) c = elim (Bool-cases c.closed) [
  | inl y ↦ rw y refl
  | inr n ↦ rw n refl
]

unread-none : (c : AutoHttpsConn) → c.first_buf ≡ none → unread c ≡ c.pending
unread-none c e = ap (λ b. buffered b c.buf_start ++ c.pending) e

-- What is left of a buffer, whether or not it is dropped at its end.
buffered_rest :
    (buf : List ℕ) (start : ℕ)
    → buffered (if leb (length buf) start then none else some buf) start ≡ drop start buf
buffered_rest buf start = elim (Bool-cases (leb (length buf) start)) [
  | inl y ↦ rw y (sym (drop_past start buf (leb→le (length buf) start y)))
  | inr n ↦ rw n refl
]

module _ (is_request : List ℕ → Bool) where
  read_request-unread :
      (answer : Answer) (c : AutoHttpsConn)
      → c.buf_start ≡ 0
      → c.closed ≡ false
      → IsPassed is_request c.pending
      → unread (read_request is_request answer c) ≡ c.pending
  unfolding read_request answer_request inner_read
  read_request-unread none c start open_ passed = ap (λ l. l ++ c.pending) (drop_nil c.buf_start)
  read_request-unread (some chunk) c start open_ passed =
      rw (open_, passed (min 2048 chunk), start) (take-append-drop (min 2048 chunk) c.pending)

  read_buffered-unread :
      (size : ℕ) (answer : Answer) (buf : Option (List ℕ)) (c : AutoHttpsConn)
      → c.first_buf ≡ buf
      → bytes_of (read_buffered is_request size answer buf c).0
          ++ unread (read_buffered is_request size answer buf c).1
        ≡ unread c
  unfolding read_buffered
  read_buffered-unread size answer none c e =
      ap (λ l. bytes_of (inner_read size answer c).0 ++ l)
        (unread-none (inner_read size answer c).1 (inner_read-first_buf size answer c ∙ e))
      ∙ inner_read-unread size answer c
      ∙ sym (unread-none c e)
  read_buffered-unread size answer (some buf) c e =
      let here = drop c.buf_start buf in
      let start = c.buf_start + length (take size here) in
      let rest : drop start buf ≡ drop size here =
        sym (drop-drop_add c.buf_start (length (take size here)) buf)
        ∙ drop-length-take size here in
      ap (λ l. take size here ++ (l ++ c.pending)) (buffered_rest buf start ∙ rest)
      ∙ sym (append_assoc (take size here) (drop size here) c.pending)
      ∙ ap (λ l. l ++ c.pending) (take-append-drop size here)
      ∙ ap (λ b. buffered b c.buf_start ++ c.pending) (sym e)

  -- One use of `Read`: the buffer's size, and the answers of the inner connection.
  abbrev pub Use : Type 0
  Use = ℕ × Answer × Answer

  -- What a sequence of reads gives, and the connection after it.
  abbrev pub read_all : List Use → AutoHttpsConn → List ℕ × AutoHttpsConn
  read_all [] c = ([], c)
  read_all (u ∷ uses) c =
      let one = read is_request u.0 u.1 u.2 c in
      let rest = read_all uses one.1 in (bytes_of one.0 ++ rest.0, rest.1)

  -- After the first read the request is behind.
  read_buffered-once :
      (size : ℕ) (answer : Answer) (buf : Option (List ℕ)) (c : AutoHttpsConn)
      → c.read_request_once ≡ true
      → (read_buffered is_request size answer buf c).1.read_request_once ≡ true
  unfolding read_buffered inner_read
  read_buffered-once size none none c e = e
  read_buffered-once size (some chunk) none c e = elim (Bool-cases c.closed) [
    | inl y ↦ rw y e
    | inr n ↦ rw n e
  ]
  read_buffered-once size answer (some buf) c e = e

  chain :
      (one : Option (List ℕ) × AutoHttpsConn) (uses : List Use) (total : List ℕ)
      → bytes_of one.0 ++ unread one.1 ≡ total
      → (read_all uses one.1).0 ++ unread (read_all uses one.1).1 ≡ unread one.1
      → (bytes_of one.0 ++ (read_all uses one.1).0) ++ unread (read_all uses one.1).1 ≡ total
  chain one uses total first rest =
      append_assoc (bytes_of one.0) (read_all uses one.1).0 (unread (read_all uses one.1).1)
      ∙ ap (◌++◌ (bytes_of one.0)) rest
      ∙ first

  read_later :
      (u : Use) (c : AutoHttpsConn)
      → c.read_request_once ≡ true
      → read is_request u.0 u.1 u.2 c ≡ read_buffered is_request u.0 u.2 c.first_buf c
  unfolding read
  read_later u c e =
      ap
        (λ b.
          let ready =
            if b then c else read_request is_request u.1 (record c { read_request_once = true }) in
          read_buffered is_request u.0 u.2 ready.first_buf ready)
        e

  read_all-later :
      (uses : List Use) (c : AutoHttpsConn)
      → c.read_request_once ≡ true
      → (read_all uses c).0 ++ unread (read_all uses c).1 ≡ unread c
  read_all-later [] c e = refl
  read_all-later (u ∷ uses) c e =
      let one = read_buffered is_request u.0 u.2 c.first_buf c in
      rw (read_later u c e) (
        chain one uses (unread c) (read_buffered-unread u.0 u.2 c.first_buf c refl)
          (read_all-later uses one.1 (read_buffered-once u.0 u.2 c.first_buf c e)))

  read_request-once :
      (answer : Answer) (c : AutoHttpsConn)
      → c.read_request_once ≡ true
      → (read_request is_request answer c).read_request_once ≡ true
  unfolding read_request answer_request inner_read
  read_request-once none c e = e
  read_request-once (some chunk) c e = elim (Bool-cases c.closed) [
    | inl y ↦ rw y e
    | inr n ↦ rw n (elim (Bool-cases (is_request (take (min 2048 chunk) c.pending))) [
      | inl r ↦ rw r e
      | inr p ↦ rw p e
    ])
  ]

  -- A connection that sends anything but a plain HTTP request (no prefix of its bytes is taken for
  -- one) is read as it is: whatever buffers its reader brings and however the bytes arrive, errors
  -- included, what was read so far and what is still to come are together the bytes sent, in order.
  pub read_all-unread :
      (uses : List Use) (bytes : List ℕ)
      → IsPassed is_request bytes
      → (read_all uses (new_auto_https_conn bytes)).0
          ++ unread (read_all uses (new_auto_https_conn bytes)).1
        ≡ bytes
  unfolding read
  read_all-unread [] bytes passed = refl
  read_all-unread (u ∷ uses) bytes passed =
      let fresh = record (new_auto_https_conn bytes) { read_request_once = true } in
      let ready = read_request is_request u.1 fresh in
      let one = read_buffered is_request u.0 u.2 ready.first_buf ready in
      chain one uses bytes
        (read_buffered-unread u.0 u.2 ready.first_buf ready refl
          ∙ read_request-unread u.1 fresh refl refl passed)
        (read_all-later uses one.1
          (read_buffered-once u.0 u.2 ready.first_buf ready (read_request-once u.1 fresh refl)))
