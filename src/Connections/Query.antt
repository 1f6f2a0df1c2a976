-- ===== src/Connections/Query.antt =====
-- `QueryConnections` of service/connections.go, from the parsed log lines to the page. The owners
-- of the addresses, which the page is enriched with, are looked up on the network and left out.
use s_ui_next.Connections.{
  ConnectionEntry, ConnectionFilter, connection_matches, attach_connection_sources,
}
use s_ui_next.GoText.{Unicode}
use s_ui_next.Logger.{normalize_page}
use s_ui_next.Paging.{page}
use s_ui_next.Paging.Laws.{page-take-drop}
use s_ui_next.Prelude.{
  ℕ, zero, suc, ◌≡◌, refl, arith, String, true, List, [], ◌∷◌, Option, keep, take, drop, length,
  leb, All, All-keep, if◌then◌else◌, Bool-cases, inl, inr,
}

-- `sort.SliceStable`, newest first.
unfoldable pub insert_stable : ConnectionEntry → List ConnectionEntry → List ConnectionEntry
insert_stable item [] = item ∷ []
insert_stable item (other ∷ items) =
    if leb other.timestamp item.timestamp
    then item ∷ other ∷ items
    else other ∷ insert_stable item items

unfoldable pub sort_stable : List ConnectionEntry → List ConnectionEntry
unfolding insert_stable
sort_stable [] = []
sort_stable (item ∷ items) = insert_stable item (sort_stable items)

module _ (split_host url_host : String → Option String) (unicode : Unicode) where
  unfoldable pub found_connections : ConnectionFilter → List ConnectionEntry → List ConnectionEntry
  found_connections filter parsed = sort_stable (
      keep (connection_matches split_host url_host unicode filter)
        (attach_connection_sources parsed))

  -- The page and the total.
  unfoldable pub query_connections :
      ConnectionFilter → List ConnectionEntry → List ConnectionEntry × ℕ
  query_connections filter parsed =
      let (offset, limit) = normalize_page filter.offset filter.limit 2000 in
      let items = found_connections filter parsed in (page offset limit items, length items)

module _ {κ} (P : ConnectionEntry → Type κ) where
  insert_stable-All :
      (item : ConnectionEntry) (items : List ConnectionEntry)
      → P item
      → All P items
      → All P (insert_stable item items)
  unfolding insert_stable
  insert_stable-All item [] h k = (h, tt)
  insert_stable-All item (other ∷ items) h (l, k) =
      elim (Bool-cases (leb other.timestamp item.timestamp)) [
        | inl y ↦ rw y (h, (l, k))
        | inr n ↦ rw n (l, insert_stable-All item items h k)
      ]

  sort_stable-All : (items : List ConnectionEntry) → All P items → All P (sort_stable items)
  unfolding sort_stable
  sort_stable-All [] h = tt
  sort_stable-All (item ∷ items) (h, k) =
      insert_stable-All item (sort_stable items) h (sort_stable-All items k)

  All-take : (n : ℕ) (items : List ConnectionEntry) → All P items → All P (take n items)
  All-take zero items h = tt
  All-take (suc n) [] h = tt
  All-take (suc n) (item ∷ items) (h, k) = (h, All-take n items k)

  All-drop : (n : ℕ) (items : List ConnectionEntry) → All P items → All P (drop n items)
  All-drop zero items h = h
  All-drop (suc n) [] h = tt
  All-drop (suc n) (item ∷ items) (h, k) = All-drop n items k

length-insert_stable :
    (item : ConnectionEntry) (items : List ConnectionEntry)
    → length (insert_stable item items) ≡ suc (length items)
unfolding insert_stable
length-insert_stable item [] = refl
length-insert_stable item (other ∷ items) = ground (arith, length-insert_stable item items)

length-sort_stable : (items : List ConnectionEntry) → length (sort_stable items) ≡ length items
unfolding sort_stable
length-sort_stable [] = refl
length-sort_stable (item ∷ items) =
    omega (arith, length-insert_stable item (sort_stable items), length-sort_stable items)

-- A query of the connections gives a page of connections that all match its filter, and as the total
-- the number of the connections that do, each with the source that was attached to it.
pub query_connections-matches :
    (split_host url_host : String → Option String) (unicode : Unicode) (filter : ConnectionFilter)
    (parsed : List ConnectionEntry)
    → All
        (λ item. connection_matches split_host url_host unicode filter item ≡ true)
        (query_connections split_host url_host unicode filter parsed).0
      × ((query_connections split_host url_host unicode filter parsed).1
          ≡ length (
              keep
                (connection_matches split_host url_host unicode filter)
                (attach_connection_sources parsed)))
unfolding query_connections found_connections
query_connections-matches split_host url_host unicode filter parsed =
    let matches = connection_matches split_host url_host unicode filter in
    let P = λ (item : ConnectionEntry). matches item ≡ true in
    let items = keep matches (attach_connection_sources parsed) in
    let (offset, limit) = normalize_page filter.offset filter.limit 2000 in
    (
      rw (page-take-drop offset limit (sort_stable items)) (
          All-take P limit _ (
            All-drop P offset _
              (sort_stable-All P items (All-keep matches (attach_connection_sources parsed))))),
      length-sort_stable items,
    )
