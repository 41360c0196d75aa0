-- ===== src/Nxos/Parse.antt =====
-- The `from_json` functions of include/nxos/nxos_structs.hpp. Each fills a struct that the program
-- has just made, so the model returns the struct.
use mathlib.Core.Option
use nxos_dhcp6_exporter.Prelude.{
  String, not, ◌||◌, Option, none, some, List, [], ◌∷◌, str_eq, if◌then◌else◌,
}
use nxos_dhcp6_exporter.Outcome.{Outcome, ok, ◌>>=◌, traverse}
use nxos_dhcp6_exporter.Json.{JsonApi, is_object, is_array, is_null}
use nxos_dhcp6_exporter.Nxos.{
  RowPath, RowPrefix, RowAddr, RowVrf, RowInterface, RouteLookupResponse, InterfacesResponse,
  UptimeResponse, AdjObject, RowAdj, RowAfi, RowVrfNeighborLookup, NeighborLookupResponse,
}

module _ (api : JsonApi) where
  open api use {Json, contains, at_key, elements, get_string, get_int, get_array, brace, moved_from}

  -- j.at(key).get_to(s) at a string s
  unfoldable pub string_at : Json → String → Outcome String
  string_at j k = do v ← at_key j k; get_string v

  -- adl_serializer<optional<string>>::from_json
  unfoldable pub optional_from_json : Json → Outcome (Option String)
  unfolding is_null
  optional_from_json j = if is_null api j then ok none else do s ← get_string j; ok (some s)

  -- What `tmp` holds after `std::move(tmp)` was pushed: it stays engaged, with a moved-from text.
  unfoldable pub moved_optional : Option String → Option String
  moved_optional = Option.map moved_from

  -- One round of the loop over an array of paths: the two values pushed, ifname first.
  unfoldable pub path_from_json : Json → Outcome (Option String × Option String)
  unfolding string_at moved_optional
  path_from_json path = do
    ifname ←
        if contains path "ifname" then (do s ← string_at path "ifname"; ok (some s)) else ok none
    ipnexthop ←
        if contains path "ipnexthop"
        then (do s ← string_at path "ipnexthop"; ok (some s))
        else ok (moved_optional ifname)
    ok (ifname, ipnexthop)

  unfoldable pub paths_from_json : List Json → Outcome RowPath
  unfolding path_from_json
  paths_from_json [] = ok (record { ipnexthop = []; ifname = [] })
  paths_from_json (path ∷ rest) = do
    values ← path_from_json path
    row ← paths_from_json rest
    ok (record { ipnexthop = values.1 ∷ row.ipnexthop; ifname = values.0 ∷ row.ifname })

  -- A key of the single path: absent, null, or a string.
  unfoldable pub optional_at : Json → String → Outcome (Option String)
  unfolding optional_from_json
  optional_at inner k =
      if contains inner k then (do v ← at_key inner k; optional_from_json v) else ok none

  unfoldable pub row_path_from_json : Json → Outcome RowPath
  unfolding paths_from_json optional_at is_object is_array
  row_path_from_json j = do
    inner ← at_key j "ROW_path"
    if is_array api inner
        then paths_from_json (elements inner)
        else if is_object api inner
        then (do
          ipnexthop ← optional_at inner "ipnexthop"
          ifname ← optional_at inner "ifname"
          ok (record { ipnexthop = ipnexthop ∷ []; ifname = ifname ∷ [] }))
        else ok (record { ipnexthop = []; ifname = [] })

  unfoldable pub row_prefix_from_json : Json → Outcome RowPrefix
  unfolding string_at is_object
  row_prefix_from_json j = do
    inner ← at_key j "ROW_prefix"
    ipprefix ← string_at inner "ipprefix"
    tmp ← string_at inner "attached"
    let attached = not (str_eq tmp "false" || str_eq tmp "FALSE")
    path ← at_key inner "TABLE_path"
    table_path ←
        if is_object api path
        then (do row ← row_path_from_json path; ok (row ∷ []))
        else (do l ← get_array path; traverse row_path_from_json l)
    ok (record { ipprefix = ipprefix; attached = attached; table_path = table_path })

  -- The rows under a key: the code that the from_json functions below repeat. `none` is a key that is
  -- absent, or of a type that is passed over.
  unfoldable pub table_at {ℓ} :
      {A : Type ℓ} → (Json → Outcome A) → Json → String → Outcome (Option (List A))
  unfolding is_object is_array
  table_at f inner k =
      if contains inner k
      then (do
        v ← at_key inner k
        let table = brace v
        if is_object api table
            then (do row ← f table; ok (some (row ∷ [])))
            else if is_array api table
            then (do l ← get_array table; rows ← traverse f l; ok (some rows))
            else ok none)
      else ok none

  -- A vector that is left empty where no table was read.
  abbrev pub or_empty {ℓ} : {A : Type ℓ} → Option (List A) → List A
  or_empty none = []
  or_empty (some l) = l

  unfoldable pub row_addr_from_json : Json → Outcome RowAddr
  unfolding string_at table_at
  row_addr_from_json j = do
    inner ← at_key j "ROW_addrf"
    addrf ← string_at inner "addrf"
    table_prefix ← table_at row_prefix_from_json inner "TABLE_prefix"
    ok (record { addrf = addrf; table_prefix = table_prefix })

  unfoldable pub row_vrf_from_json : Json → Outcome RowVrf
  unfolding string_at table_at
  row_vrf_from_json j = do
    inner ← at_key j "ROW_vrf"
    vrf_name_out ← string_at inner "vrf-name-out"
    table_addrf ← table_at row_addr_from_json inner "TABLE_addrf"
    ok (record { vrf_name_out = vrf_name_out; table_addrf = or_empty table_addrf })

  unfoldable pub row_interface_from_json : Json → Outcome RowInterface
  unfolding string_at
  row_interface_from_json j = do
    intf_name ← string_at j "intf-name"
    proto_state ← string_at j "proto-state"
    link_state_first ← string_at j "link-state"
    link_state ← string_at j "link-state"
    admin_state ← string_at j "admin-state"
    prefix ← string_at j "prefix"
    linklocal_addr ← string_at j "linklocal-addr"
    ok (record {
      intf_name = intf_name;
      proto_state = proto_state;
      link_state = link_state;
      admin_state = admin_state;
      prefix = prefix;
      linklocal_addr = linklocal_addr;
    })

  unfoldable pub route_lookup_from_json : Json → Outcome RouteLookupResponse
  unfolding table_at
  route_lookup_from_json j = do
    table_vrf ← table_at row_vrf_from_json j "TABLE_vrf"
    ok (record { table_vrf = or_empty table_vrf })

  unfoldable pub interfaces_from_json : Json → Outcome InterfacesResponse
  interfaces_from_json j = do
    vrfs ← at_key j "TABLE_vrf"
    vrf_list ← get_array vrfs
    table_vrf ← traverse row_vrf_from_json vrf_list
    intfs ← at_key j "TABLE_intf"
    intf_list ← get_array intfs
    table_intf ← traverse row_interface_from_json intf_list
    ok (record { table_vrf = table_vrf; table_intf = table_intf })

  unfoldable pub uptime_from_json : Json → Outcome UptimeResponse
  uptime_from_json j = do
    days ← at_key j "kern_uptm_days"
    kern_uptm_days ← get_int days
    hrs ← at_key j "kern_uptm_hrs"
    kern_uptm_hrs ← get_int hrs
    mins ← at_key j "kern_uptm_mins"
    kern_uptm_mins ← get_int mins
    secs ← at_key j "kern_uptm_secs"
    kern_uptm_secs ← get_int secs
    ok (record {
      kern_uptm_days = kern_uptm_days;
      kern_uptm_hrs = kern_uptm_hrs;
      kern_uptm_mins = kern_uptm_mins;
      kern_uptm_secs = kern_uptm_secs;
    })

  unfoldable pub adj_object_from_json : Json → Outcome AdjObject
  unfolding string_at
  adj_object_from_json j = do
    intf_out ← string_at j "intf-out"
    ipv6_addr ← string_at j "ipv6-addr"
    mac ← string_at j "mac"
    ok (record { intf_out = intf_out; ipv6_addr = ipv6_addr; mac = mac })

  unfoldable pub row_adj_from_json : Json → Outcome RowAdj
  unfolding table_at
  row_adj_from_json j = do
    inner ← at_key j "ROW_adj"
    table_object ← table_at adj_object_from_json inner "ROW_adj"
    ok (record { table_object = or_empty table_object })

  unfoldable pub row_afi_from_json : Json → Outcome RowAfi
  unfolding string_at table_at
  row_afi_from_json j = do
    inner ← at_key j "ROW_afi"
    afi ← string_at inner "afi"
    table_adj ← table_at row_adj_from_json inner "TABLE_adj"
    ok (record { afi = afi; table_adj = or_empty table_adj })

  unfoldable pub row_vrf_neighbor_from_json : Json → Outcome RowVrfNeighborLookup
  unfolding string_at table_at
  row_vrf_neighbor_from_json j = do
    inner ← at_key j "ROW_vrf"
    vrf_name_out ← string_at inner "vrf-name-out"
    table_afi ← table_at row_afi_from_json inner "TABLE_afi"
    ok (record { vrf_name_out = vrf_name_out; table_afi = or_empty table_afi })

  unfoldable pub neighbor_lookup_from_json : Json → Outcome NeighborLookupResponse
  unfolding is_object is_array
  neighbor_lookup_from_json j = do
    table ← at_key j "TABLE_vrf"
    table_vrf ←
        if is_array api table
        then (do l ← get_array table; traverse row_vrf_neighbor_from_json l)
        else if is_object api table
        then (do row ← row_vrf_neighbor_from_json table; ok (row ∷ []))
        else ok []
    ok (record { table_vrf = table_vrf })
