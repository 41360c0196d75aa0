-- ===== src/Mgmt/Send.antt =====
-- sendRoutesToSwitch of src/nxos_management_client.cpp, with what it posts and the callbacks.
use nxos_dhcp6_exporter.Prelude.{String, Option, none, some, List, [], ◌∷◌, if◌then◌else◌}
use nxos_dhcp6_exporter.Prelude.Int.{ℤ, pos, eqb_ℤ}
use nxos_dhcp6_exporter.Outcome.{
  Outcome, ok, raised, Exn, bad_value, unexpected, not_implemented, ◌>>=◌, ◌>>◌,
}
use nxos_dhcp6_exporter.Json.{JsonApi}
use nxos_dhcp6_exporter.JsonRpc.{create_request_from_commands}
use nxos_dhcp6_exporter.Kea.{Kea}
use nxos_dhcp6_exporter.Route.{RouteInfo, ia_na_info, ia_pd_info, ia_na_fast}
use nxos_dhcp6_exporter.Nxos.{RouteLookupResponse}
use nxos_dhcp6_exporter.Run.{
  ResponseError, success, Reply, Request, vlan_addr_mapping_error, response_parse_error,
  route_apply_unknown_error, route_apply_failed, route_apply_success, route_remove_failed,
  route_remove_success, Run, done, throws, logs, posts, catching, try_outcome,
}
use nxos_dhcp6_exporter.Mgmt.Commands.{
  apply_route_command, lookup_address_command, endpoint_name, default_timeout, host_text,
  subnet_text,
}
use nxos_dhcp6_exporter.Mgmt.Lookup.{front_response, read_route_lookup, relay_interface}

-- `if (jsonRpcException) throw *jsonRpcException`
abbrev pub rethrow : Option Exn → Outcome (Unit {0})
rethrow none = ok tt
rethrow (some e) = raised e

-- `throw *jsonRpcException`, or an exception of its own
abbrev pub rethrow_or : Exn → Option Exn → Outcome (Unit {0})
rethrow_or e none = raised e
rethrow_or e (some x) = raised x

module _ (api : JsonApi) where
  open api use {Json}

  -- A request of commands with the default timeout.
  unfoldable pub request : List (ℤ × String) → Request Json
  request commands = record {
    uri = endpoint_name;
    body = create_request_from_commands api commands;
    timeout = default_timeout;
  }

  unfoldable pub check_transport : ResponseError → Outcome (Unit {0})
  check_transport success = ok tt
  check_transport _ = raised (unexpected "error while sending response to the switch")

  -- The switch on the status code: 200 passes, 401 throws, 500 falls through to the default.
  unfoldable pub check_status : ℤ → Option Exn → Outcome (Unit {0})
  check_status code exception =
      if eqb_ℤ code (pos 200)
      then ok tt
      else if eqb_ℤ code (pos 401)
      then rethrow_or (unexpected "unauthorized request") exception
      else rethrow exception

  -- The try block that handleRouteApply and handleRouteRemove have in common.
  unfoldable pub check_reply : Reply Json → Outcome (Unit {0})
  check_reply reply = do
    check_transport reply.response_error
    check_status reply.status_code reply.json_rpc_exception
    front ← front_response api "response must be not empty" reply
    ok tt

  unfoldable pub handle_route_apply : String → String → Reply Json → Run Json
  handle_route_apply src dst reply =
      try_outcome (check_reply reply) (λ _. logs (route_apply_failed src dst) done)
        (λ _. logs (route_apply_success src dst) done)

  unfoldable pub handle_route_remove : String → String → Reply Json → Run Json
  handle_route_remove src dst reply =
      try_outcome (check_reply reply) (λ _. logs (route_remove_failed src dst) done)
        (λ _. logs (route_remove_success src dst) done)

  -- asyncLookupAddressInternal
  unfoldable pub async_lookup_address : String → (RouteLookupResponse → Run Json) → Run Json
  unfolding request
  async_lookup_address lookup_addr handler =
      posts (request ((pos 1, lookup_address_command lookup_addr) ∷ []))
        (λ reply.
          try_outcome (read_route_lookup api reply) (λ _. logs response_parse_error done) handler)
        done

  -- The two catch clauses around the choice of the interface.
  abbrev pub mapping_failed : Exn → Run Json
  mapping_failed (bad_value _) = logs vlan_addr_mapping_error done
  mapping_failed _ = logs response_parse_error done

  -- The request that sets a route, and its callback.
  unfoldable pub post_apply : String → String → Run Json
  unfolding request handle_route_apply
  post_apply src dst =
      posts (request ((pos 1, apply_route_command src dst) ∷ [])) (handle_route_apply src dst) done

  module _ (kea : Kea) where
    open kea use {address_text}

    -- The body of the try block of sendRoutesToSwitch.
    unfoldable pub send_by_type : RouteInfo → Run Json
    unfolding async_lookup_address post_apply
    send_by_type (ia_na_info src_vlan_addr ia_na_addr) =
        async_lookup_address (host_text kea src_vlan_addr) λ lookup.
          try_outcome (relay_interface lookup) mapping_failed
            λ vlan_if_name. post_apply (host_text kea ia_na_addr) vlan_if_name
    send_by_type (ia_na_fast vlan_if_name ia_na_addr) =
        post_apply (host_text kea ia_na_addr) vlan_if_name
    send_by_type (ia_pd_info dst_ia_na_addr ia_pd_prefix ia_pd_length) =
        post_apply (subnet_text kea ia_pd_prefix ia_pd_length) (address_text dst_ia_na_addr)
    send_by_type _ = throws (not_implemented "not implemented IA route info")

    unfoldable pub send_routes_to_switch : RouteInfo → Run Json
    unfolding send_by_type
    send_routes_to_switch route =
        catching (λ _. logs route_apply_unknown_error done) (send_by_type route)
