-- ===== src/Clients/LinkLaws.antt =====
-- What the link updates of service/client.go keep, drop and undo.
use s_ui_next.Clients.{Client, Inbound, marshal, Link}
use s_ui_next.Clients.Links.{
  field, local_link, local_links, all_local_links, update_links_with_fixed_inbounds,
  update_client_on_inbound_add, update_links_by_inbound_change, update_client_on_inbound_delete,
}
use mathlib.Core.Path.{subst}
use mathlib.Core.List.{append-nil}
use s_ui_next.GoMap.{lookup}
use s_ui_next.Prelude.{
  ℕ, String, str_iff, nat_eq, comparable_string, comparable_nat, ◌==◌, Bool, true, false, not, ◌&&◌,
  ◌||◌, List, [], ◌∷◌, ◌++◌, some, keep, ◌≡◌, ◌∙◌, refl, ap, arith, All, All-map, All-append,
  keep_of_All, keep_of_none, keep_idem, keep-append, Bool-cases, inl, inr,
}

abbrev pub is_local : Link → Bool
is_local link = field "type" link == "local"

abbrev pub is_external : Link → Bool
is_external link = not (is_local link)

-- The links that were not generated by the panel.
abbrev pub external_links : Client → List Link
external_links client = keep is_external client.links.decoded

type-local_link : (inbound : Inbound) (uri : String) → is_external (local_link inbound uri) ≡ false
unfolding field lookup
type-local_link inbound uri = refl

remark-local_link :
    (inbound : Inbound) (uri : String)
    → (field "remark" (local_link inbound uri) == inbound.tag) ≡ true
unfolding field lookup
remark-local_link inbound uri = ground (arith, str_iff inbound.tag inbound.tag)

-- Links that are kept for another reason too leave the external ones as they are.
keep_external :
    (xs : List Link) (other : Link → Bool)
    → keep is_external (keep (λ link. is_external link || other link) xs) ≡ keep is_external xs
keep_external [] other = refl
keep_external (x ∷ xs) other = ground (arith, keep_external xs other)

-- A list that starts with links that fail a test, and goes on with links that were kept by it.
keep_new-old :
    (p : Link → Bool) (new old : List Link)
    → All (λ link. p link ≡ false) new
    → keep p (new ++ keep p old) ≡ keep p old
keep_new-old p new old h =
    rw (keep-append p new (keep p old), keep_of_none p new h) (keep_idem p old)

nat_eq_self : (n : ℕ) → nat_eq n n ≡ true
nat_eq_self n = ground arith

module _ (link_generator : String → Inbound → List String) where
  local_links_not_external :
      (config : String) (inbound : Inbound)
      → All (λ link. is_external link ≡ false) (local_links link_generator config inbound)
  unfolding local_links
  local_links_not_external config inbound =
      All-map (λ link. is_external link ≡ false) (local_link inbound) (type-local_link inbound) _

  all_local_links_not_external :
      (config : String) (inbounds : List Inbound)
      → All (λ link. is_external link ≡ false) (all_local_links link_generator config inbounds)
  unfolding all_local_links
  all_local_links_not_external config [] = tt
  all_local_links_not_external config (inbound ∷ inbounds) =
      All-append (λ link. is_external link ≡ false) _ _ (local_links_not_external config inbound)
        (all_local_links_not_external config inbounds)

  abbrev relinked : List Inbound → Client → Client
  relinked inbounds client = record client {
    links =
        marshal (all_local_links link_generator client.config inbounds ++ external_links client);
  }

  external_links-relinked :
      (inbounds : List Inbound) (client : Client)
      → external_links (relinked inbounds client) ≡ external_links client
  external_links-relinked inbounds client =
      keep_new-old is_external _ client.links.decoded
        (all_local_links_not_external client.config inbounds)

  -- Regenerating a client's links keeps every link that is not local, in order, and doing it again
  -- changes nothing.
  pub update_links_with_fixed_inbounds_idem :
      (inbounds : List Inbound) (client : Client) {updated : Client}
      → update_links_with_fixed_inbounds link_generator inbounds client ≡ some updated
      → (external_links updated ≡ external_links client)
        × (update_links_with_fixed_inbounds link_generator inbounds updated ≡ some updated)
  unfolding update_links_with_fixed_inbounds
  update_links_with_fixed_inbounds_idem inbounds client {updated} h =
      elim (Bool-cases client.links.well_formed) [
        | inl y ↦
            let q : some (relinked inbounds client) ≡ some updated = rw y at h in
            let e : relinked inbounds client ≡ updated = cc in
            subst
              (λ (u : Client).
                (external_links u ≡ external_links client)
                × (update_links_with_fixed_inbounds link_generator inbounds u ≡ some u))
              e
              (
                external_links-relinked inbounds client,
                ap
                    (λ (l : List Link). some (record client {
                      links = marshal (all_local_links link_generator client.config inbounds ++ l);
                    }))
                    (external_links-relinked inbounds client),
              )
        | inr n ↦ absurd (ground arith)
      ]

  -- Following a change of an inbound keeps every link that is not local, in order.
  pub external_links-update_links_by_inbound_change :
      (inbound : Inbound) (old_tag : String) (client : Client)
      → external_links (update_links_by_inbound_change link_generator inbound old_tag client)
        ≡ external_links client
  unfolding update_links_by_inbound_change
  external_links-update_links_by_inbound_change inbound old_tag client =
      keep-append is_external (local_links link_generator client.config inbound) _
      ∙ rw (keep_of_none is_external _ (local_links_not_external client.config inbound)) (
          keep_external client.links.decoded (λ link.
            not (field "remark" link == inbound.tag) && not (field "remark" link == old_tag)))

  local_links_tagged :
      (config : String) (inbound : Inbound)
      → All
          (λ link. not (field "remark" link == inbound.tag) ≡ false)
          (local_links link_generator config inbound)
  unfolding local_links
  local_links_tagged config inbound =
      All-map (λ link. not (field "remark" link == inbound.tag) ≡ false) (local_link inbound)
        (λ uri. rw (remark-local_link inbound uri)) _

  -- Deleting an inbound right after it was added gives the client back, where it did not have the
  -- inbound, nor a link with the inbound's tag as its remark.
  pub delete-add :
      (inbound : Inbound) (client : Client)
      → client.inbounds.well_formed ≡ true
      → client.links.well_formed ≡ true
      → All (λ i. not (i == inbound.id) ≡ true) client.inbounds.decoded
      → All (λ link. not (field "remark" link == inbound.tag) ≡ true) client.links.decoded
      → update_client_on_inbound_delete inbound.id inbound.tag
          (update_client_on_inbound_add link_generator inbound client)
        ≡ client
  unfolding update_client_on_inbound_delete update_client_on_inbound_add
  delete-add inbound client wi wl no_id no_tag =
      let ids : keep (λ (i : ℕ). not (i == inbound.id)) (client.inbounds.decoded ++ inbound.id ∷ [])
          ≡ client.inbounds.decoded =
        rw
          (keep-append (λ (i : ℕ). not (i == inbound.id)) client.inbounds.decoded (inbound.id ∷ []))
          (rw (keep_of_All _ client.inbounds.decoded no_id, nat_eq_self inbound.id)
            (append-nil _)) in
      let links =
        keep_new-old (λ link. not (field "remark" link == inbound.tag)) _ client.links.decoded
          (local_links_tagged client.config inbound)
        ∙ keep_of_All _ client.links.decoded no_tag in
      ground (arith, ids, links)

-- Two filters in either order.
keep_comm : (p q : Link → Bool) (xs : List Link) → keep p (keep q xs) ≡ keep q (keep p xs)
keep_comm p q [] = refl
keep_comm p q (x ∷ xs) = ground (arith, keep_comm p q xs)

-- Whether a link does not have a tag as its remark.
abbrev pub is_untagged : String → Link → Bool
is_untagged tag link = not (field "remark" link == tag)

-- The links that are not local stay, all and in order, when an inbound changes, whatever its new and
-- old tags. When an inbound is added or deleted, exactly those of them go that have its tag as their
-- remark.
pub external_links-update_client_on_inbound_delete :
    (link_generator : String → Inbound → List String) (inbound : Inbound) (old_tag : String)
    (client : Client)
    → (external_links (update_links_by_inbound_change link_generator inbound old_tag client)
        ≡ external_links client)
      × (external_links (update_client_on_inbound_add link_generator inbound client)
          ≡ keep (is_untagged inbound.tag) (external_links client))
      × (external_links (update_client_on_inbound_delete inbound.id inbound.tag client)
          ≡ keep (is_untagged inbound.tag) (external_links client))
unfolding update_client_on_inbound_add update_client_on_inbound_delete
external_links-update_client_on_inbound_delete link_generator inbound old_tag client = (
  external_links-update_links_by_inbound_change link_generator inbound old_tag client,
  keep-append is_external (local_links link_generator client.config inbound) _
      ∙ rw
          (keep_of_none is_external _
            (local_links_not_external link_generator client.config inbound))
          (keep_comm is_external (is_untagged inbound.tag) client.links.decoded),
  keep_comm is_external (is_untagged inbound.tag) client.links.decoded,
)
