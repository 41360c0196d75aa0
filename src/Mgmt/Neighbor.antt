-- ===== src/Mgmt/Neighbor.antt =====
-- asyncGetHWAddrToInterfaceNameMapping of src/nxos_management_client.cpp: from hardware addresses to
-- the VLAN interfaces behind which the switch has seen them.
use nxos_dhcp6_exporter.Prelude.{
  String, Bool, true, false, ◌&&◌, Option, none, some, List, [], ◌∷◌, ◌++◌, if◌then◌else◌,
}
use nxos_dhcp6_exporter.Prelude.Int.{pos, eqb_ℤ}
use nxos_dhcp6_exporter.Outcome.{
  Outcome, ok, raised, fault, null_pointer, out_of_bounds, ◌>>=◌, ◌>>◌,
}
use nxos_dhcp6_exporter.Json.{JsonApi}
use nxos_dhcp6_exporter.JsonRpc.{JsonRpcResponse}
use nxos_dhcp6_exporter.Kea.{Kea}
use nxos_dhcp6_exporter.Nxos.{
  AdjObject, RowAdj, RowAfi, RowVrfNeighborLookup, NeighborLookupResponse,
}
use nxos_dhcp6_exporter.Nxos.Parse.{neighbor_lookup_from_json}
use nxos_dhcp6_exporter.Run.{
  ResponseError, success, Reply, response_parse_error, Run, done, logs, posts, bind_outcome,
}
use nxos_dhcp6_exporter.Mgmt.Commands.{show_neighbour_command}
use nxos_dhcp6_exporter.Mgmt.Names.{is_valid_vlan_name, from_raw_cisco_string}
use nxos_dhcp6_exporter.Mgmt.Send.{request, rethrow}

-- ManagementClient::HWAddrMap, as an association list with one entry for a key
abbrev pub HwAddrMap : Kea → Type 0
HwAddrMap kea = List (kea.HwAddr × String)

module _ (kea : Kea) where
  open kea use {HwAddr, same_hwaddr}

  -- mapping->find(key)
  unfoldable pub find_hwaddr : HwAddr → HwAddrMap kea → Option String
  find_hwaddr key [] = none
  find_hwaddr key ((k, v) ∷ m) = if same_hwaddr k key then some v else find_hwaddr key m

  -- map[key] = value
  unfoldable pub set_hwaddr : HwAddr → String → HwAddrMap kea → HwAddrMap kea
  set_hwaddr key value [] = (key, value) ∷ []
  set_hwaddr key value ((k, v) ∷ m) =
      let rest = set_hwaddr key value m in
      if same_hwaddr k key then (k, value) ∷ m else (k, v) ∷ rest

  -- The body of the innermost loop.
  unfoldable pub add_object : AdjObject → HwAddrMap kea → Outcome (HwAddrMap kea)
  add_object object m =
      if is_valid_vlan_name object.intf_out
      then (do key ← from_raw_cisco_string kea object.mac; ok (set_hwaddr key object.intf_out m))
      else ok m

  unfoldable pub add_objects : List AdjObject → HwAddrMap kea → Outcome (HwAddrMap kea)
  add_objects [] m = ok m
  add_objects (object ∷ rest) m = do m' ← add_object object m; add_objects rest m'

  -- The four nested loops visit these objects, in this order.
  unfoldable pub adj_objects : List RowAdj → List AdjObject
  adj_objects [] = []
  adj_objects (adj ∷ rest) = adj.table_object ++ adj_objects rest

  unfoldable pub afi_objects : List RowAfi → List AdjObject
  unfolding adj_objects
  afi_objects [] = []
  afi_objects (afi ∷ rest) = adj_objects afi.table_adj ++ afi_objects rest

  unfoldable pub vrf_objects : List RowVrfNeighborLookup → List AdjObject
  unfolding afi_objects
  vrf_objects [] = []
  vrf_objects (vrf ∷ rest) = afi_objects vrf.table_afi ++ vrf_objects rest

  module _ (api : JsonApi) where
    open api use {Json, key_or_insert}

    -- `response->front()` with no test before it
    unfoldable pub front_unchecked :
        Option (List (JsonRpcResponse Json)) → Outcome (JsonRpcResponse Json)
    front_unchecked none = fault null_pointer
    front_unchecked (some []) = fault out_of_bounds
    front_unchecked (some (r ∷ _)) = ok r

    -- The try block of the callback.
    unfoldable pub read_neighbors : Reply Json → Outcome NeighborLookupResponse
    unfolding front_unchecked
    read_neighbors reply = do
      rethrow reply.json_rpc_exception
      r ← front_unchecked reply.response
      body ← key_or_insert r.result "body"
      neighbor_lookup_from_json api body

    abbrev pub is_success : ResponseError → Bool
    is_success success = true
    is_success _ = false

    -- The loops, and the call of the handler with the map and the flag.
    unfoldable pub deliver : (HwAddrMap kea → Bool → Run Json) → List AdjObject → Bool → Run Json
    unfolding add_objects
    deliver handler objects failed = bind_outcome (add_objects objects []) λ m. handler m failed

    -- After the try block: a failed reading leaves the response empty.
    abbrev pub after_reading :
        (HwAddrMap kea → Bool → Run Json) → Outcome NeighborLookupResponse → Run Json
    after_reading handler (ok lookup) = deliver handler (vrf_objects lookup.table_vrf) false
    after_reading handler (raised e) = logs response_parse_error (deliver handler [] true)
    after_reading handler (fault u) = Run.faults u

    unfoldable pub neighbor_callback : (HwAddrMap kea → Bool → Run Json) → Reply Json → Run Json
    unfolding read_neighbors deliver vrf_objects
    neighbor_callback handler reply =
        if is_success reply.response_error && eqb_ℤ reply.status_code (pos 200)
        then after_reading handler (read_neighbors reply)
        else handler [] true

    unfoldable pub async_get_mapping : (HwAddrMap kea → Bool → Run Json) → Run Json
    unfolding neighbor_callback request
    async_get_mapping handler =
        posts (request api ((pos 1, show_neighbour_command) ∷ [])) (neighbor_callback handler) done
