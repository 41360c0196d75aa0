-- ===== src/Mgmt/Undo.antt =====
-- Removals against the commands that set the routes.
use Prim.Native.String.{◌++◌}
use mathlib.Core.Bool.{false≢true}
use text.Mathlib.TextLemmas.{append_cancel_left, append-nil, append_assoc}
use nxos_dhcp6_exporter.Prelude.{ℕ, String, ◌≡◌, ◌≢◌, refl, sym, ◌∙◌, Option, some, [], ◌∷◌, eq_iff}
use nxos_dhcp6_exporter.Prelude.Int.{pos}
use nxos_dhcp6_exporter.Outcome.{ok}
use nxos_dhcp6_exporter.Json.{JsonApi}
use nxos_dhcp6_exporter.Kea.{IoAddress, Duid, Kea, Lease, LeaseMgr, find_ia_na_lease}
use nxos_dhcp6_exporter.Route.{
  RouteInfo, RouteExport, ia_na_info, ia_pd_info, ia_pd_info_fuzzy_remove,
}
use nxos_dhcp6_exporter.Nxos.{RouteLookupResponse}
use nxos_dhcp6_exporter.Run.{Run, done, posts, try_outcome}
use nxos_dhcp6_exporter.Mgmt.Commands.{
  apply_route_command, remove_route_command, remove_nd_cache_command, host_text, subnet_text,
}
use nxos_dhcp6_exporter.Mgmt.Lookup.{relay_interface}
use nxos_dhcp6_exporter.Mgmt.Send.{
  request, handle_route_apply, handle_route_remove, async_lookup_address, send_routes_to_switch,
  post_apply, mapping_failed,
}
use nxos_dhcp6_exporter.Mgmt.Remove.{remove_routes_from_switch, post_remove_and_clear}

-- The text that removes a route is "no " and the text that sets it.
pub remove-apply :
    (src dst : String) → remove_route_command src dst ≡ "no " ++ apply_route_command src dst
unfolding remove_route_command apply_route_command
remove-apply src dst = append_assoc "no " "ipv6 route " (src ++ (" " ++ dst))

apply-cancel : (src a b : String) → apply_route_command src a ≡ apply_route_command src b → a ≡ b
unfolding apply_route_command
apply-cancel src a b h =
    append_cancel_left " " a b
      (append_cancel_left src (" " ++ a) (" " ++ b) (append_cancel_left "ipv6 route " _ _ h))

-- A text with a suffix is another text.
suffix-ne : (a : String) → a ++ "/128" ≢ a
suffix-ne a h =
    false≢true ((eq_iff "/128" "").1 (append_cancel_left a "/128" "" (h ∙ sym (append-nil a))))

-- Removals with different next hops are different.
pub remove-ne :
    (src a b : String) → a ≢ b → remove_route_command src a ≢ "no " ++ apply_route_command src b
remove-ne src a b ne h =
    ne (apply-cancel src a b (append_cancel_left "no " _ _ (sym (remove-apply src a) ∙ h)))

module _ (api : JsonApi) (kea : Kea) (db : LeaseMgr kea.HwAddr) (tid iaid : ℕ)
    (duid : Option Duid) where
  open api use {Json}
  open kea use {HwAddr, address_text}

  -- A route export with the section's transaction and client.
  abbrev export_of : RouteInfo → RouteExport
  export_of info = record { tid = tid; iaid = iaid; duid = duid; route_info = info }

  -- The removal of a delegated prefix posts one command, "no " and the command that the export of the
  -- same route posts.
  pub pd_remove_undoes :
      (dst prefix : IoAddress) (length : ℕ)
      → let info = ia_pd_info dst prefix length in
        let src = subnet_text kea prefix length in
        let via = address_text dst in
        let command = apply_route_command src via in
        (send_routes_to_switch api kea info
          ≡ posts (request api ((pos 1, command) ∷ [])) (handle_route_apply api src via) done)
        × (remove_routes_from_switch api kea db (export_of info)
            ≡ posts
                (request api ((pos 1, "no " ++ command) ∷ []))
                (handle_route_remove api src via)
                done)
  unfolding send_routes_to_switch remove_routes_from_switch
  pd_remove_undoes dst prefix length =
      (refl, rw (← remove-apply (subnet_text kea prefix length) (address_text dst)))

  -- The export of an IA_NA route and its removal ask the switch for the same interface. Where its answer
  -- names one, the removal posts "no " and the command of the export, and the command that clears the
  -- neighbour cache of that interface.
  pub na_remove_undoes :
      (vlan addr : IoAddress) (lookup : RouteLookupResponse) (name : String)
      → relay_interface lookup ≡ ok name
      → let info = ia_na_info vlan addr in
        let src = host_text kea addr in
        let command = apply_route_command src name in
        (set clear : RouteLookupResponse → Run Json) × (send_routes_to_switch api kea info
          ≡ async_lookup_address api (host_text kea vlan) set)
        × (remove_routes_from_switch api kea db (export_of info)
            ≡ async_lookup_address api (host_text kea vlan) clear)
        × (set lookup
            ≡ posts (request api ((pos 1, command) ∷ [])) (handle_route_apply api src name) done)
        × (clear lookup
            ≡ posts
                (request api
                  ((pos 1, "no " ++ command) ∷ (pos 2, remove_nd_cache_command name) ∷ []))
                (handle_route_remove api src name)
                done)
  unfolding send_routes_to_switch remove_routes_from_switch
  na_remove_undoes vlan addr lookup name h = (
    (λ l.
        try_outcome (relay_interface l) (mapping_failed api) (post_apply api (host_text kea addr))),
    (λ l.
        try_outcome (relay_interface l) (mapping_failed api)
          (post_remove_and_clear api (host_text kea addr))),
    refl,
    refl,
    rw h,
    rw (h, ← remove-apply (host_text kea addr) name),
  )

  -- The fuzzy removal of a delegated prefix, where the client has an IA_NA lease, posts a command that
  -- differs from "no " and the command of the export: its next hop ends in "/128".
  pub pd_fuzzy_remove_differs :
      (prefix : IoAddress) (length : ℕ) (lease : Lease HwAddr)
      → find_ia_na_lease db duid iaid ≡ some lease
      → let src = subnet_text kea prefix length in
        let via = host_text kea lease.addr in
        let command = apply_route_command src (address_text lease.addr) in
        (other : String) × (send_routes_to_switch api kea (ia_pd_info lease.addr prefix length)
          ≡ posts
              (request api ((pos 1, command) ∷ []))
              (handle_route_apply api src (address_text lease.addr))
              done)
        × (remove_routes_from_switch api kea db (export_of (ia_pd_info_fuzzy_remove prefix length))
            ≡ posts (request api ((pos 1, other) ∷ [])) (handle_route_remove api src via) done)
        × (other ≢ "no " ++ command)
  unfolding send_routes_to_switch remove_routes_from_switch
  pd_fuzzy_remove_differs prefix length lease h = (
    remove_route_command (subnet_text kea prefix length) (host_text kea lease.addr),
    refl,
    rw h,
    remove-ne (subnet_text kea prefix length) (host_text kea lease.addr) (address_text lease.addr)
        (unfold host_text in suffix-ne (address_text lease.addr)),
  )
