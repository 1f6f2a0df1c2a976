-- ===== src/AutoHttps/Tests.antt =====
-- Reads of network/auto_https_conn.go from a stream of TLS, and of a plain request (one that starts
-- with a G).
use s_ui_next.AutoHttps.{
  new_auto_https_conn, inner_read, answer_request, read_request, read_buffered, read,
}
use s_ui_next.AutoHttps.Stream.{IsPassed, read_all, unread, read_all-unread}
use s_ui_next.Prelude.{
  ℕ, zero, suc, nat_eq, ◌≡◌, refl, Bool, false, List, [], ◌∷◌, ◌++◌, some, none, Option,
}

program : Unit {0}
unfolding inner_read answer_request read_request read_buffered read
program = tt

abbrev starts_with_g : List ℕ → Bool
starts_with_g [] = false
starts_with_g (x ∷ xs) = nat_eq x 71

abbrev hello : List ℕ
hello = 22 ∷ 3 ∷ 1 ∷ 9 ∷ []

hello-IsPassed : IsPassed starts_with_g hello
hello-IsPassed zero = refl
hello-IsPassed (suc n) = refl

-- Three bytes arrive first; the reader takes two, then one, then the rest.
abbrev uses : List (ℕ × Option ℕ × Option ℕ)
uses = (2, some 3, none) ∷ (2, none, none) ∷ (9, none, some 9) ∷ []

reads : (read_all starts_with_g uses (new_auto_https_conn hello)).0 ≡ hello
unfolding program
reads = refl

read_all-unread_example :
    (read_all starts_with_g uses (new_auto_https_conn hello)).0
      ++ unread (read_all starts_with_g uses (new_auto_https_conn hello)).1
    ≡ hello
read_all-unread_example = read_all-unread starts_with_g uses hello hello-IsPassed
