-- ===== src/Clients/Links.antt =====
-- service/client.go: how the stored links of a client follow its inbounds. `link_generator` is
-- `util.LinkGenerator` at the client's configuration and the panel's host name.
use s_ui_next.Clients.{Client, Inbound, marshal, Link}
use s_ui_next.GoMap.{lookup}
use s_ui_next.Prelude.{
  ℕ, String, comparable_string, comparable_nat, ◌==◌, not, ◌&&◌, ◌||◌, List, [], ◌∷◌, ◌++◌, Option,
  none, some, map, keep, if◌then◌else◌,
}

-- `clientLink[key]`: the empty text where the key is missing.
unfoldable pub field : String → Link → String
field key link = elim (lookup key link) [ none ↦ "" | some value ↦ value ]

abbrev pub local_link : Inbound → String → Link
local_link inbound uri = ("remark", inbound.tag) ∷ ("type", "local") ∷ ("uri", uri) ∷ []

module _ (link_generator : String → Inbound → List String) where
  -- The links that the generator gives for one inbound.
  unfoldable pub local_links : String → Inbound → List Link
  local_links config inbound = map (local_link inbound) (link_generator config inbound)

  -- The same for several inbounds, in order.
  unfoldable pub all_local_links : String → List Inbound → List Link
  all_local_links config [] = []
  all_local_links config (inbound ∷ inbounds) =
      local_links config inbound ++ all_local_links config inbounds

  -- The loop body of `updateLinksWithFixedInbounds`: new local links, then all that are not local.
  -- An unreadable column is an error.
  unfoldable pub update_links_with_fixed_inbounds : List Inbound → Client → Option Client
  update_links_with_fixed_inbounds inbounds client =
      if client.links.well_formed
      then some (record client {
        links = marshal (
            all_local_links client.config inbounds
            ++ keep (λ link. not (field "type" link == "local")) client.links.decoded);
      })
      else none

  -- The loop body of `UpdateClientsOnInboundAdd`.
  unfoldable pub update_client_on_inbound_add : Inbound → Client → Client
  update_client_on_inbound_add inbound client = record client {
    inbounds = marshal (client.inbounds.decoded ++ inbound.id ∷ []);
    links = marshal (
        local_links client.config inbound
        ++ keep (λ link. not (field "remark" link == inbound.tag)) client.links.decoded);
  }

  -- The loop body of `UpdateLinksByInboundChange`.
  unfoldable pub update_links_by_inbound_change : Inbound → String → Client → Client
  update_links_by_inbound_change inbound old_tag client = record client {
    links = marshal (
        local_links client.config inbound
        ++ keep
            (λ link.
              not (field "type" link == "local")
              || (not (field "remark" link == inbound.tag) && not (field "remark" link == old_tag)))
            client.links.decoded);
  }

-- The loop body of `UpdateClientsOnInboundDelete`.
unfoldable pub update_client_on_inbound_delete : ℕ → String → Client → Client
update_client_on_inbound_delete id tag client = record client {
  inbounds = marshal (keep (λ inbound. not (inbound == id)) client.inbounds.decoded);
  links = marshal (keep (λ link. not (field "remark" link == tag)) client.links.decoded);
}
