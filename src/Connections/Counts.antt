-- ===== src/Connections/Counts.antt =====
-- What the summaries of service/connections.go count.
use Prim.Native.String.{◌++◌ as concat}
use s_ui_next.Connections.{ConnectionEntry}
use s_ui_next.Connections.Summaries.{
  ConnectionSummary, Summaries, no_summaries, Sighting, sighting_key, first_of, counted,
  add_sighting, add_sightings, sightings_of, all_sightings, summarize_maps,
}
use s_ui_next.GoMap.Laws.{lookup-insert, has_key-insert, has_key-lookup}
use s_ui_next.GoMap.{GoMap, lookup, insert, has_key}
use s_ui_next.GoText.{trim_space}
use s_ui_next.Prelude.{
  ℕ, suc, ◌+◌, ◌≡◌, ◌∙◌, refl, sym, ap, arith, String, str_iff, comparable_string, ◌==◌, Bool, true,
  false, not, ◌&&◌, ◌||◌, List, [], ◌∷◌, Option, none, some, keep, length, All, All-append,
  All-mono, if◌then◌else◌, Bool-cases, Option-cases, inl, inr,
}

abbrev count_of : Option ConnectionSummary → ℕ
count_of none = 0
count_of (some item) = item.count

abbrev source_of : Option (GoMap String ConnectionSummary) → GoMap String ConnectionSummary
source_of none = []
source_of (some source) = source

-- The count of a kind and key, 0 where there is no summary.
abbrev pub seen_at : String → String → Summaries → ℕ
seen_at kind key maps = count_of (lookup key (source_of (lookup kind maps)))

-- Whether a call of `add` counts for a kind and key.
abbrev pub is_sighting_of : String → String → Sighting → Bool
is_sighting_of kind key s =
    not (trim_space s.tag == "") && (s.kind == kind && sighting_key s == key)

abbrev IsKnown : Summaries → Sighting → Type 0
IsKnown maps s = has_key s.kind maps ≡ true

count_of-counted :
    (s : Sighting) (o : Option ConnectionSummary)
    → count_of (some (counted s (first_of s o))) ≡ suc (count_of o)
count_of-counted s none = omega arith
count_of-counted s (some item) = omega arith

-- What one call leaves: the count of its kind and key grows by one, and no kind goes.
abbrev Added : Sighting → Summaries → Summaries → Type 0
Added s maps next =
    ((kind key : String)
      → seen_at kind key next
        ≡ seen_at kind key maps + length (keep (is_sighting_of kind key) (s ∷ [])))
    × ((kind : String) → has_key kind next ≡ has_key kind maps)

seen_at-insert :
    (s : Sighting) (kind key : String) (source : GoMap String ConnectionSummary) (maps : Summaries)
    → lookup s.kind maps ≡ some source
    → (trim_space s.tag == "") ≡ false
    → seen_at kind key (
        insert s.kind
          (insert (sighting_key s) (counted s (first_of s (lookup (sighting_key s) source))) source)
          maps)
      ≡ seen_at kind key maps + length (keep (is_sighting_of kind key) (s ∷ []))
seen_at-insert s kind key source maps e named =
    let item = counted s (first_of s (lookup (sighting_key s) source)) in
    rw (lookup-insert s.kind kind (insert (sighting_key s) item source) maps, named)
      (elim (Bool-cases (s.kind == kind)) [
        | inl y ↦
            let same = (str_iff s.kind kind).0 y in
            let here : lookup kind maps ≡ some source = ap (λ k. lookup k maps) (sym same) ∙ e in
            rw (y, here, lookup-insert (sighting_key s) key item source)
              (elim (Bool-cases (sighting_key s == key)) [
                | inl z ↦ rw z (
                    count_of-counted s (lookup (sighting_key s) source)
                    ∙ ap (λ k. suc (count_of (lookup k source)))
                        ((str_iff (sighting_key s) key).0 z)
                    ∙ omega arith)
                | inr n ↦ rw n (omega arith)
              ])
        | inr n ↦ rw n (omega arith)
      ])

kinds_stay :
    (s : Sighting) (kind : String) (written : GoMap String ConnectionSummary) (maps : Summaries)
    → IsKnown maps s
    → has_key kind (insert s.kind written maps) ≡ has_key kind maps
kinds_stay s kind written maps known =
    rw (has_key-insert s.kind kind written maps) (elim (Bool-cases (s.kind == kind)) [
      | inl y ↦ rw y (sym known ∙ ap (λ k. has_key k maps) ((str_iff s.kind kind).0 y))
      | inr n ↦ rw n refl
    ])

sum_keep :
    (p : Sighting → Bool) (s : Sighting) (sightings : List Sighting) (n : ℕ)
    → n + length (keep p (s ∷ [])) + length (keep p sightings) ≡ n + length (keep p (s ∷ sightings))
sum_keep p s sightings n = ground arith

-- A call for a kind whose map is there.
add_sighting-Added :
    (s : Sighting) (maps : Summaries)
    → IsKnown maps s
    → (next : Summaries) × (add_sighting s maps ≡ some next) × Added s maps next
unfolding add_sighting
add_sighting-Added s maps known = elim (Bool-cases (trim_space s.tag == "")) [
  | inl y ↦ (maps, rw y refl, ((λ kind key. rw y (omega arith)), (λ kind. refl)))
  | inr named ↦ elim (Option-cases (lookup s.kind maps)) [
    | inl none_there ↦ absurd (ground (arith, has_key-lookup s.kind maps none_there))
    | inr (source, e) ↦
        let written =
          insert (sighting_key s) (counted s (first_of s (lookup (sighting_key s) source)))
            source in
        (
          insert s.kind written maps,
          rw (named, e) refl,
          (
            (λ kind key. seen_at-insert s kind key source maps e named),
            (λ kind. kinds_stay s kind written maps known),
          ),
        )
  ]
]

add_sightings-seen_at :
    (sightings : List Sighting) (maps : Summaries)
    → All (IsKnown maps) sightings
    → (final : Summaries) × (add_sightings sightings maps ≡ some final)
      × ((kind key : String)
          → seen_at kind key final
            ≡ seen_at kind key maps + length (keep (is_sighting_of kind key) sightings))
unfolding add_sightings
add_sightings-seen_at [] maps h = (maps, refl, λ kind key. omega arith)
add_sightings-seen_at (s ∷ sightings) maps (known, h) =
    let (next, e, (grown, kinds)) = add_sighting-Added s maps known in
    let still = All-mono (IsKnown maps) (IsKnown next) (λ t k. kinds t.kind ∙ k) sightings h in
    let (final, f, total) = add_sightings-seen_at sightings next still in
    (
      final,
      rw (add_sightings, e) f,
      (λ kind key.
          total kind key
          ∙ ap (λ n. n + length (keep (is_sighting_of kind key) sightings)) (grown kind key)
          ∙ sum_keep (is_sighting_of kind key) s sightings (seen_at kind key maps)),
    )

-- The resources of the log's pattern.
abbrev pub is_logged_resource : String → Bool
is_logged_resource resource =
    resource == "inbound" || (resource == "outbound" || resource == "endpoint")

has_key-resource :
    (resource : String)
    → is_logged_resource resource ≡ true
    → has_key (concat resource "s") no_summaries ≡ true
unfolding has_key
has_key-resource resource h = elim (Bool-cases (resource == "inbound")) [
  | inl a ↦ ap (λ r. has_key (concat r "s") no_summaries) ((str_iff resource "inbound").0 a)
  | inr na ↦ elim (Bool-cases (resource == "outbound")) [
    | inl b ↦ ap (λ r. has_key (concat r "s") no_summaries) ((str_iff resource "outbound").0 b)
    | inr nb ↦
        let e : (resource == "endpoint") ≡ true = ground arith in
        ap (λ r. has_key (concat r "s") no_summaries) ((str_iff resource "endpoint").0 e)
  ]
]

All-optional :
    (b : Bool) (s : Sighting)
    → has_key s.kind no_summaries ≡ true
    → All (IsKnown no_summaries) (if b then [] else s ∷ [])
All-optional true s h = tt
All-optional false s h = (h, tt)

seen_at-no_summaries : (kind key : String) → seen_at kind key no_summaries ≡ 0
unfolding lookup
seen_at-no_summaries kind key = ground arith

module _ (split_host url_host : String → Option String) where
  sightings_of-IsKnown :
      (item : ConnectionEntry)
      → is_logged_resource item.resource ≡ true
      → All (IsKnown no_summaries) (sightings_of split_host url_host item)
  unfolding sightings_of has_key
  sightings_of-IsKnown item h = (
    has_key-resource item.resource h,
    All-append (IsKnown no_summaries) _ _ (All-optional (item.user == "") _ refl)
        (All-optional (item.destination == "") _ refl),
  )

  all_sightings-IsKnown :
      (items : List ConnectionEntry)
      → All (λ item. is_logged_resource item.resource ≡ true) items
      → All (IsKnown no_summaries) (all_sightings split_host url_host items)
  unfolding all_sightings
  all_sightings-IsKnown [] h = tt
  all_sightings-IsKnown (item ∷ items) (k, h) =
      All-append (IsKnown no_summaries) (sightings_of split_host url_host item)
        (all_sightings split_host url_host items) (sightings_of-IsKnown item k)
        (all_sightings-IsKnown items h)

  -- What the maps count of all the calls of `add`.
  pub summarize_maps-sightings :
      (items : List ConnectionEntry)
      → All (λ item. is_logged_resource item.resource ≡ true) items
      → (maps : Summaries) × (summarize_maps split_host url_host items ≡ some maps)
        × ((kind key : String)
            → seen_at kind key maps
              ≡ length (keep (is_sighting_of kind key) (all_sightings split_host url_host items)))
  unfolding summarize_maps
  summarize_maps-sightings items h =
      let sightings = all_sightings split_host url_host items in
      let (maps, e, total) =
        add_sightings-seen_at sightings no_summaries (all_sightings-IsKnown items h) in
      (
        maps,
        e,
        (λ kind key.
            total kind key
            ∙ ap (λ n. n + length (keep (is_sighting_of kind key) sightings))
                (seen_at-no_summaries kind key)
            ∙ omega arith),
      )
