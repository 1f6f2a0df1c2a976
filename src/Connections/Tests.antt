-- ===== src/Connections/Tests.antt =====
-- Runs of service/connections.go on a few connections, and its theorems there.
use s_ui_next.Connections.{
  ConnectionEntry, ConnectionFilter, connection_source_key, candidates_at, add_to_index, index_all,
  build_connection_source_index, best_candidate, with_source, lacks_source,
  attach_connection_source, attach_connection_sources, connection_ip_info_text, normalize_remote,
  resource_matches, haystack, connection_matches,
}
use s_ui_next.Connections.SummaryKeys.{key_of}
use s_ui_next.Connections.Seen.{destination_of, summarize_maps-seen_at}
use Prim.Native.String.{◌++◌ as concat}
use s_ui_next.Connections.Counts.{is_logged_resource, seen_at}
use s_ui_next.Connections.Query.{insert_stable, sort_stable, found_connections, query_connections}
use s_ui_next.Connections.Sources.{IsNearest, candidates, attach_connection_source-IsNearest}
use s_ui_next.Connections.Summaries.{
  Summaries, add_sighting, add_sightings, sightings_of, all_sightings, summarize_maps,
}
use s_ui_next.GoMap.{lookup, insert}
use s_ui_next.GoText.{trim_space, Unicode, trim_left, trim_right, map_chars, contains, join}
use s_ui_next.Logger.{normalize_page}
use s_ui_next.Paging.{page}
use s_ui_next.Prelude.Int.{pos}
use s_ui_next.Prelude.{
  comparable_string, ◌==◌, not, ◌&&◌, String, true, ℕ, ◌≡◌, refl, List, [], ◌∷◌, Option, none, some,
  keep, length, if◌then◌else◌,
}

program : Unit {0}
unfolding connection_source_key candidates_at add_to_index index_all best_candidate
    attach_connection_source attach_connection_sources connection_ip_info_text normalize_remote
    resource_matches haystack connection_matches insert_stable sort_stable found_connections
    query_connections add_sighting add_sightings sightings_of all_sightings summarize_maps lookup
    insert trim_left trim_right map_chars contains join normalize_page page
program = tt

abbrev ascii : Unicode
ascii = record { lower = λ c. c; upper = λ c. c; fold = λ c. c }

abbrev no_host : String → Option String
no_host text = none

abbrev outgoing : ConnectionEntry
outgoing = record {
  timestamp = 100;
  time = "t";
  resource = "inbound";
  protocol = "vless";
  tag = "in";
  user = "amy";
  event = "connection to a.example";
  remote = "a.example";
  remote_info = none;
  destination = "a.example";
  destination_info = none;
  source = "";
  source_info = none;
  message = "connection to a.example";
}

abbrev incoming : ℕ → String → ConnectionEntry
incoming timestamp source = record outgoing {
  timestamp = timestamp;
  destination = "";
  remote = "";
  source = source;
  user = "";
}

abbrev seen : List ConnectionEntry
seen = incoming 80 "old" ∷ incoming 97 "near" ∷ outgoing ∷ incoming 103 "equal" ∷ []

attached :
    attach_connection_source (build_connection_source_index seen) outgoing
    ≡ record outgoing { source = "near" }
unfolding program
attached = refl

abbrev amys : ConnectionFilter
amys = record {
  resource = "user";
  tag = "amy";
  user = "";
  search = "near";
  start = pos 0;
  stop = pos 0;
  offset = pos 0;
  limit = pos 0;
}

queried :
    query_connections no_host no_host ascii amys seen
    ≡ (record outgoing { source = "near" } ∷ [], 1)
unfolding program
queried = refl

attach_connection_source-IsNearest_example :
    (found : Option ConnectionEntry) × (attach_connection_source
        (build_connection_source_index seen)
        outgoing
      ≡ (if lacks_source outgoing then with_source outgoing found else outgoing))
    × IsNearest 100 (candidates (connection_source_key outgoing) seen) found
attach_connection_source-IsNearest_example = attach_connection_source-IsNearest seen outgoing

summarize_maps-seen_at_example :
    (maps : Summaries) × (summarize_maps no_host no_host seen ≡ some maps)
    × ((resource : String)
        → is_logged_resource resource ≡ true
        → seen_at (concat resource "s") (key_of resource "amy") maps
          ≡ length (keep (λ item. item.resource == resource && trim_space item.tag == "amy") seen))
    × (seen_at "users" (key_of "user" "amy") maps
        ≡ length (keep (λ item. trim_space item.user == "amy") seen))
    × (seen_at "destinations" (key_of "destination" "amy") maps
        ≡ length (
            keep
              (λ item. not (item.destination == "") && destination_of no_host no_host item == "amy")
              seen))
summarize_maps-seen_at_example =
    summarize_maps-seen_at no_host no_host "amy" refl seen (refl, (refl, (refl, (refl, tt))))
