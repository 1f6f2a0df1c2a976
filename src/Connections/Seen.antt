-- ===== src/Connections/Seen.antt =====
-- How often the summaries of service/connections.go have seen an inbound, an outbound, an endpoint, a
-- user and a destination.
use Prim.Native.String.{◌++◌ as concat}
use s_ui_next.Connections.{ConnectionEntry, normalize_remote}
use s_ui_next.Connections.Counts.{
  seen_at, is_sighting_of, is_logged_resource, summarize_maps-sightings,
}
use s_ui_next.Connections.Summaries.{
  Summaries, Sighting, sightings_of, all_sightings, summarize_maps,
}
use s_ui_next.GoText.{trim_space}
use s_ui_next.Prelude.{
  ℕ, ◌+◌, ◌≡◌, ◌∙◌, refl, ap, arith, String, str_iff, comparable_string, ◌==◌, Bool, true, false,
  not, ◌&&◌, List, [], ◌∷◌, ◌++◌, Option, some, keep, length, All, if◌then◌else◌, Bool-cases, inl,
  inr,
}
use s_ui_next.Connections.SummaryKeys.{
  key_of, key_of-same, kind-same, kind_apart, equal_sym, named_name, given_name,
}

abbrev one : Bool → ℕ
one b = if b then 1 else 0

module _ (split_host url_host : String → Option String) where
  -- The destination of a connection, as its summary names it.
  abbrev pub destination_of : ConnectionEntry → String
  destination_of item = trim_space (normalize_remote split_host url_host item.destination)

  abbrev own : ConnectionEntry → Sighting
  own item = record {
    kind = concat item.resource "s";
    resource = item.resource;
    tag = item.tag;
    user = item.user;
    timestamp = item.timestamp;
  }

  abbrev of_user : ConnectionEntry → Sighting
  of_user item = record {
    kind = "users";
    resource = "user";
    tag = item.user;
    user = item.user;
    timestamp = item.timestamp;
  }

  abbrev of_destination : ConnectionEntry → Sighting
  of_destination item = record {
    kind = "destinations";
    resource = "destination";
    tag = normalize_remote split_host url_host item.destination;
    user = item.user;
    timestamp = item.timestamp;
  }

  length-keep-append :
      (p : Sighting → Bool) (xs ys : List Sighting)
      → length (keep p (xs ++ ys)) ≡ length (keep p xs) + length (keep p ys)
  length-keep-append p [] ys = omega arith
  length-keep-append p (x ∷ xs) ys = ground (arith, length-keep-append p xs ys)

  length-calls :
      (p : Sighting → Bool) (item : ConnectionEntry)
      → length (keep p (sightings_of split_host url_host item))
        ≡ one (p (own item))
          + (one (not (item.user == "") && p (of_user item))
              + one (not (item.destination == "") && p (of_destination item)))
  unfolding sightings_of
  length-calls p item = elim (Bool-cases (item.user == "")) [
    | inl u ↦ elim (Bool-cases (item.destination == "")) [
      | inl d ↦ rw (u, d) (ground arith)
      | inr d ↦ rw (u, d) (ground arith)
    ]
    | inr u ↦ elim (Bool-cases (item.destination == "")) [
      | inl d ↦ rw (u, d) (ground arith)
      | inr d ↦ rw (u, d) (ground arith)
    ]
  ]

  -- Where each connection has as many calls of a kind and key as it passes a test, so have all.
  calls-all_sightings :
      (kind key : String) (test : ConnectionEntry → Bool) (items : List ConnectionEntry)
      → ((item : ConnectionEntry)
          → is_logged_resource item.resource ≡ true
          → length (keep (is_sighting_of kind key) (sightings_of split_host url_host item))
            ≡ one (test item))
      → All (λ item. is_logged_resource item.resource ≡ true) items
      → length (keep (is_sighting_of kind key) (all_sightings split_host url_host items))
        ≡ length (keep test items)
  unfolding all_sightings
  calls-all_sightings kind key test [] f h = refl
  calls-all_sightings kind key test (item ∷ items) f (k, ks) =
      let rest = calls-all_sightings kind key test items f ks in
      length-keep-append (is_sighting_of kind key) (sightings_of split_host url_host item) _
      ∙ ground (arith, f item k, rest)

  module _ (name : String) (named : (name == "") ≡ false) where
    calls-user :
        (item : ConnectionEntry)
        → is_logged_resource item.resource ≡ true
        → length (
            keep
              (is_sighting_of "users" (key_of "user" name))
              (sightings_of split_host url_host item))
          ≡ one (trim_space item.user == name)
    calls-user item h =
        let apart = kind_apart item.resource "users" h refl refl refl in
        let mine : not (trim_space item.user == "")
              && key_of "user" (trim_space item.user) == key_of "user" name
            ≡ (trim_space item.user == name) =
          ap (λ b. not (trim_space item.user == "") && b)
            (key_of-same "user" (trim_space item.user) name)
          ∙ named_name (trim_space item.user) name named in
        length-calls (is_sighting_of "users" (key_of "user" name)) item
        ∙ rw (apart, mine, given_name item.user name named) (ground arith)

    calls-destination :
        (item : ConnectionEntry)
        → is_logged_resource item.resource ≡ true
        → length (
            keep
              (is_sighting_of "destinations" (key_of "destination" name))
              (sightings_of split_host url_host item))
          ≡ one (not (item.destination == "") && destination_of item == name)
    calls-destination item h =
        let apart = kind_apart item.resource "destinations" h refl refl refl in
        let mine : not (destination_of item == "")
              && key_of "destination" (destination_of item) == key_of "destination" name
            ≡ (destination_of item == name) =
          ap (λ b. not (destination_of item == "") && b)
            (key_of-same "destination" (destination_of item) name)
          ∙ named_name (destination_of item) name named in
        length-calls (is_sighting_of "destinations" (key_of "destination" name)) item
        ∙ rw (apart, mine) (ground arith)

    calls-resource :
        (resource : String)
        → is_logged_resource resource ≡ true
        → (item : ConnectionEntry) → is_logged_resource item.resource ≡ true
        → length (
            keep
              (is_sighting_of (concat resource "s") (key_of resource name))
              (sightings_of split_host url_host item))
          ≡ one (item.resource == resource && trim_space item.tag == name)
    calls-resource resource g item h =
        let users =
          equal_sym "users" (concat resource "s") ∙ kind_apart resource "users" g refl refl refl in
        let destinations =
          equal_sym "destinations" (concat resource "s")
          ∙ kind_apart resource "destinations" g refl refl refl in
        let mine : not (trim_space item.tag == "")
              && (concat item.resource "s" == concat resource "s"
                  && key_of item.resource (trim_space item.tag) == key_of resource name)
            ≡ (item.resource == resource && trim_space item.tag == name) =
          elim (Bool-cases (item.resource == resource)) [
            | inl y ↦
                let same = (str_iff item.resource resource).0 y in
                rw (kind-same item.resource resource, y)
                  (ap
                      (λ r.
                        not (trim_space item.tag == "")
                        && key_of r (trim_space item.tag) == key_of resource name)
                      same
                    ∙ ap (λ b. not (trim_space item.tag == "") && b)
                        (key_of-same resource (trim_space item.tag) name)
                    ∙ named_name (trim_space item.tag) name named)
            | inr n ↦ rw (kind-same item.resource resource, n) (ground arith)
          ] in
        length-calls (is_sighting_of (concat resource "s") (key_of resource name)) item
        ∙ rw (users, destinations, mine) (ground arith)

    -- Summarizing connections of inbounds, outbounds and endpoints never panics. For each name that is
    -- not empty, the count under an inbound, outbound or endpoint is the number of connections of that
    -- resource with that trimmed tag, the count under a user the number of connections with that
    -- trimmed user, and the count under a destination the number of those with that destination.
    pub summarize_maps-seen_at :
        (items : List ConnectionEntry)
        → All (λ item. is_logged_resource item.resource ≡ true) items
        → (maps : Summaries) × (summarize_maps split_host url_host items ≡ some maps)
          × ((resource : String)
              → is_logged_resource resource ≡ true
              → seen_at (concat resource "s") (key_of resource name) maps
                ≡ length
                    (keep (λ item. item.resource == resource && trim_space item.tag == name) items))
          × (seen_at "users" (key_of "user" name) maps
              ≡ length (keep (λ item. trim_space item.user == name) items))
          × (seen_at "destinations" (key_of "destination" name) maps
              ≡ length (
                  keep (λ item. not (item.destination == "") && destination_of item == name) items))
    summarize_maps-seen_at items h =
        let (maps, e, seen) = summarize_maps-sightings split_host url_host items h in
        (
          maps,
          e,
          (λ resource g.
              seen (concat resource "s") (key_of resource name)
              ∙ calls-all_sightings (concat resource "s") (key_of resource name) _ items
                  (calls-resource resource g) h),
          seen "users" (key_of "user" name)
              ∙ calls-all_sightings "users" (key_of "user" name) _ items calls-user h,
          seen "destinations" (key_of "destination" name)
              ∙ calls-all_sightings "destinations" (key_of "destination" name) _ items
                  calls-destination h,
        )
