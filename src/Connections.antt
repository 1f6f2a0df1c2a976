-- ===== src/Connections.antt =====
-- service/connections.go: the connections that the log tells of, the sources that are attached to
-- them, and the filter and page of a query. What `net` and `net/url` make of an address is an
-- argument. A parsed log line is given; times are seconds.
pub mod Sources
pub mod Summaries
pub mod Counts
pub mod SummaryKeys
pub mod Seen
pub mod Query
pub mod Tests
use s_ui_next.GoMap.{GoMap, lookup, insert}
use s_ui_next.GoText.{Unicode, trim_space, to_lower, equal_fold, contains, join}
use s_ui_next.Prelude.Int.{ℤ}
use s_ui_next.Prelude.{
  ℕ, ◌+◌, ◌-◌, String, comparable_string, ◌==◌, Bool, true, false, not, ◌&&◌, ◌||◌, List, [], ◌∷◌,
  ◌++◌, map, Option, none, some, keep, ltb, leb, if◌then◌else◌,
}

pub record ConnectionIpInfo : Type 0 where
  pub address : String
  pub host : String
  pub port : String
  pub ip : String
  pub scope : String
  pub attribution : String
  pub isp : String
  pub asn : String
  pub country : String
  pub region : String
  pub city : String
  pub network : String

pub record ConnectionEntry : Type 0 where
  pub timestamp : ℕ
  pub time : String
  pub resource : String
  pub protocol : String
  pub tag : String
  pub user : String
  pub event : String
  pub remote : String
  pub remote_info : Option ConnectionIpInfo
  pub destination : String
  pub destination_info : Option ConnectionIpInfo
  pub source : String
  pub source_info : Option ConnectionIpInfo
  pub message : String

pub record ConnectionFilter : Type 0 where
  pub resource : String
  pub tag : String
  pub user : String
  pub search : String
  pub start : ℤ
  pub stop : ℤ
  pub offset : ℤ
  pub limit : ℤ

abbrev pub connection_source_attach_window : ℕ
connection_source_attach_window = 10

unfoldable pub connection_source_key : ConnectionEntry → String
connection_source_key item =
    if item.resource == "" || (item.protocol == "" || item.tag == "")
    then ""
    else join "\0" (item.resource ∷ item.protocol ∷ item.tag ∷ [])

-- `index[key]`: nothing for a missing key.
unfoldable pub candidates_at : String → GoMap String (List ConnectionEntry) → List ConnectionEntry
candidates_at key index = elim (lookup key index) [ none ↦ [] | some items ↦ items ]

-- Whether `buildConnectionSourceIndex` takes the item in.
abbrev pub is_source : ConnectionEntry → Bool
is_source item = not (item.source == "" || connection_source_key item == "")

unfoldable pub add_to_index :
    ConnectionEntry → GoMap String (List ConnectionEntry) → GoMap String (List ConnectionEntry)
add_to_index item index =
    let key = connection_source_key item in
    if is_source item then insert key (candidates_at key index ++ item ∷ []) index else index

-- The loop over the items, from the index so far.
unfoldable pub index_all :
    List ConnectionEntry → GoMap String (List ConnectionEntry) → GoMap String (List ConnectionEntry)
index_all [] index = index
index_all (item ∷ items) index = index_all items (add_to_index item index)

abbrev pub build_connection_source_index :
    List ConnectionEntry → GoMap String (List ConnectionEntry)
build_connection_source_index items = index_all items []

-- `absInt64` of a difference.
abbrev pub delta : ℕ → ConnectionEntry → ℕ
delta timestamp candidate =
    if ltb timestamp candidate.timestamp
    then candidate.timestamp - timestamp
    else timestamp - candidate.timestamp

-- The candidates that are passed over: too far away, or no nearer than the best so far.
abbrev pub is_no_better : ℕ → ℕ → Bool
is_no_better best_delta d = ltb connection_source_attach_window d || leb best_delta d

-- The loop over the candidates, with the best of those before and its distance.
unfoldable pub best_candidate :
    ℕ → List ConnectionEntry → Option ConnectionEntry → ℕ → Option ConnectionEntry
best_candidate timestamp [] best best_delta = best
best_candidate timestamp (candidate ∷ candidates) best best_delta =
    elim (is_no_better best_delta (delta timestamp candidate)) [
      | true ↦ best_candidate timestamp candidates best best_delta
      | false ↦ best_candidate timestamp candidates (some candidate) (delta timestamp candidate)
    ]

abbrev pub with_source : ConnectionEntry → Option ConnectionEntry → ConnectionEntry
with_source item none = item
with_source item (some candidate) = record item {
  source = candidate.source;
  source_info = candidate.source_info;
}

-- The items that a source is sought for.
abbrev pub lacks_source : ConnectionEntry → Bool
lacks_source item =
    not (not (item.source == "") || (item.destination == "" || not (item.resource == "inbound")))

unfoldable pub attach_connection_source :
    GoMap String (List ConnectionEntry) → ConnectionEntry → ConnectionEntry
attach_connection_source index item =
    if lacks_source item
    then with_source item (
        best_candidate item.timestamp (candidates_at (connection_source_key item) index) none
          (connection_source_attach_window + 1))
    else item

-- The index holds copies, so that the items can be changed one by one.
unfoldable pub attach_connection_sources : List ConnectionEntry → List ConnectionEntry
attach_connection_sources items =
    map (attach_connection_source (build_connection_source_index items)) items

unfoldable pub connection_ip_info_text : Option ConnectionIpInfo → String
connection_ip_info_text none = ""
connection_ip_info_text (some info) = join " " (
    info.address ∷ info.host ∷ info.port ∷ info.ip ∷ info.scope ∷ info.attribution ∷ info.isp
    ∷ info.asn ∷ info.country ∷ info.region ∷ info.city ∷ info.network ∷ [])

-- `split_host` is the host of `net.SplitHostPort` where that succeeds, and `url_host` the host name
-- of `url.Parse` of the text behind two slashes, where that succeeds and there is one.
module _ (split_host url_host : String → Option String) where
  unfoldable pub normalize_remote : String → String
  normalize_remote value =
      let cleaned = trim_space value in
      if cleaned == "" then cleaned else elim (split_host cleaned) [
        | some host ↦ host
        | none ↦ elim (url_host cleaned) [ some host ↦ host | none ↦ cleaned ]
      ]

  -- The switch of `connectionMatches`, with the cleaned texts of the filter.
  unfoldable pub resource_matches : Unicode → String → String → ConnectionEntry → Bool
  resource_matches unicode resource tag item =
      if resource == "" || resource == "all"
      then true
      else if resource == "user"
      then tag == "" || equal_fold unicode item.user tag
      else if resource == "inbound"
          || (resource == "outbound" || (resource == "endpoint" || resource == "node"))
      then item.resource == (if resource == "node" then "endpoint" else resource)
        && (tag == "" || item.tag == tag)
      else if resource == "destination" || resource == "remote"
      then tag == ""
        || (normalize_remote item.remote == tag
            || (normalize_remote item.destination == tag || normalize_remote item.source == tag))
      else tag == "" || item.tag == tag

  unfoldable pub haystack : Unicode → ConnectionEntry → String
  haystack unicode item = to_lower unicode (
      join " " (
        item.resource
        ∷ item.protocol
        ∷ item.tag
        ∷ item.user
        ∷ item.event
        ∷ item.remote
        ∷ item.destination
        ∷ item.source
        ∷ item.message
        ∷ connection_ip_info_text item.remote_info
        ∷ connection_ip_info_text item.destination_info
        ∷ connection_ip_info_text item.source_info
        ∷ []))

  unfoldable pub connection_matches : Unicode → ConnectionFilter → ConnectionEntry → Bool
  connection_matches unicode filter item =
      let resource = to_lower unicode (trim_space filter.resource) in
      let tag = trim_space filter.tag in
      let user = trim_space filter.user in
      let search = to_lower unicode (trim_space filter.search) in
      (user == ""
        || (equal_fold unicode item.user user
            || contains (to_lower unicode item.message) (to_lower unicode user)))
      && (resource_matches unicode resource tag item
          && (search == "" || contains (haystack unicode item) search))
