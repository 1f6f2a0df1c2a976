-- ===== src/Connections/Summaries.antt =====
-- `summarizeConnections` of service/connections.go: how often each user, inbound, outbound, endpoint
-- and destination is seen.
use Prim.Native.String.{◌++◌ as concat, compare}
use Prim.Native.Nat.{Ordering}
use s_ui_next.Connections.{ConnectionEntry, normalize_remote}
use s_ui_next.GoMap.{GoMap, lookup, insert}
use s_ui_next.GoText.{trim_space}
use s_ui_next.Prelude.{
  ℕ, ◌+◌, String, comparable_string, ◌==◌, Bool, true, false, List, [], ◌∷◌, ◌++◌, map, Option,
  none, some, any, take, ltb, nat_eq, if◌then◌else◌,
}

pub record ConnectionSummary : Type 0 where
  pub resource : String
  pub tag : String
  pub count : ℕ
  pub last_seen : ℕ
  pub users : List String

-- The kinds of summary, each a map from keys to summaries. The users of a summary are a set here.
abbrev pub Summaries : Type 0
Summaries = GoMap String (GoMap String ConnectionSummary)

abbrev pub no_summaries : Summaries
no_summaries =
    ("users", [])
    ∷ ("inbounds", [])
    ∷ ("outbounds", [])
    ∷ ("endpoints", [])
    ∷ ("destinations", [])
    ∷ []

-- One call of `add`.
pub record Sighting : Type 0 where
  pub kind : String
  pub resource : String
  pub tag : String
  pub user : String
  pub timestamp : ℕ

abbrev pub sighting_key : Sighting → String
sighting_key s = concat s.resource (concat "\0" (trim_space s.tag))

abbrev pub add_user : String → List String → List String
add_user user users =
    if user == "" then users else if any (λ u. u == user) users then users else users ++ user ∷ []

abbrev pub first_of : Sighting → Option ConnectionSummary → ConnectionSummary
first_of s (some item) = item
first_of s none = record {
  resource = s.resource;
  tag = trim_space s.tag;
  count = 0;
  last_seen = 0;
  users = [];
}

abbrev pub counted : Sighting → ConnectionSummary → ConnectionSummary
counted s item = record item {
  count = item.count + 1;
  last_seen = if ltb item.last_seen s.timestamp then s.timestamp else item.last_seen;
  users = add_user s.user item.users;
}

-- `none` where the map of the kind is nil, as writing to it panics.
unfoldable pub add_sighting : Sighting → Summaries → Option Summaries
add_sighting s maps = if trim_space s.tag == "" then some maps else elim (lookup s.kind maps) [
  | none ↦ none
  | some source ↦ some (
      insert s.kind
        (insert (sighting_key s) (counted s (first_of s (lookup (sighting_key s) source))) source)
        maps)
]

unfoldable pub add_sightings : List Sighting → Summaries → Option Summaries
add_sightings [] maps = some maps
add_sightings (s ∷ sightings) maps = elim (add_sighting s maps) [
  | none ↦ none
  | some next ↦ add_sightings sightings next
]

module _ (split_host url_host : String → Option String) where
  -- The calls of `add` for one connection, in order.
  unfoldable pub sightings_of : ConnectionEntry → List Sighting
  sightings_of item =
      record {
        kind = concat item.resource "s";
        resource = item.resource;
        tag = item.tag;
        user = item.user;
        timestamp = item.timestamp;
      }
        ∷ (if item.user == ""
            then []
            else record {
              kind = "users";
              resource = "user";
              tag = item.user;
              user = item.user;
              timestamp = item.timestamp;
            }
              ∷ [])
      ++ (if item.destination == ""
          then []
          else record {
            kind = "destinations";
            resource = "destination";
            tag = normalize_remote split_host url_host item.destination;
            user = item.user;
            timestamp = item.timestamp;
          }
            ∷ [])

  unfoldable pub all_sightings : List ConnectionEntry → List Sighting
  unfolding sightings_of
  all_sightings [] = []
  all_sightings (item ∷ items) = sightings_of item ++ all_sightings items

  -- The first half of `summarizeConnections`: its maps.
  unfoldable pub summarize_maps : List ConnectionEntry → Option Summaries
  unfolding all_sightings add_sightings
  summarize_maps items = add_sightings (all_sightings items) no_summaries

-- Seen more often first, and by name where equally often.
abbrev comes_before : ConnectionSummary → ConnectionSummary → Bool
comes_before x y =
    if nat_eq x.count y.count
    then elim (compare x.tag y.tag) [
      | Ordering.lt ↦ true
      | Ordering.eq ↦ true
      | Ordering.gt ↦ false
    ]
    else ltb y.count x.count

unfoldable pub insert_summary : ConnectionSummary → List ConnectionSummary → List ConnectionSummary
insert_summary item [] = item ∷ []
insert_summary item (other ∷ items) =
    if comes_before item other then item ∷ other ∷ items else other ∷ insert_summary item items

unfoldable pub sort_summaries : List ConnectionSummary → List ConnectionSummary
unfolding insert_summary
sort_summaries [] = []
sort_summaries (item ∷ items) = insert_summary item (sort_summaries items)

-- The list of one kind: at most a hundred.
unfoldable pub summary_list : GoMap String ConnectionSummary → List ConnectionSummary
unfolding sort_summaries
summary_list source = take 100 (sort_summaries (map (λ e. e.1) source))
