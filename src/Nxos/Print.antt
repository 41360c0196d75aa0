-- ===== src/Nxos/Print.antt =====
-- The `to_json` functions of include/nxos/nxos_structs.hpp. They can fault: the serializer of a
-- `std::optional` dereferences an empty one.
use nxos_dhcp6_exporter.Prelude.{
  String, Option, none, some, List, [], ◌∷◌, ◌++◌, map, length, ◌==◌, if◌then◌else◌,
}
use nxos_dhcp6_exporter.Outcome.{Outcome, ok, fault, empty_optional, ◌>>=◌, traverse}
use nxos_dhcp6_exporter.Json.{JsonApi}
use nxos_dhcp6_exporter.Nxos.{
  RowPath, RowPrefix, RowAddr, RowVrf, RowInterface, RouteLookupResponse, InterfacesResponse,
  UptimeResponse, AdjObject, RowAdj, RowAfi, RowVrfNeighborLookup, NeighborLookupResponse,
}

-- The value under a key, by the size of a vector: none, the one row, or all rows.
abbrev by_size {ℓ κ} : {A : Type ℓ} {B : Type κ} → List A → B → (A → B) → (List A → B) → B
by_size [] none_case one_case rest_case = none_case
by_size (x ∷ []) none_case one_case rest_case = one_case x
by_size (x ∷ y ∷ l) none_case one_case rest_case = rest_case (x ∷ y ∷ l)

module _ (api : JsonApi) where
  open api use {Json, null_value, string_value, int_value, array_of, object_of}

  -- adl_serializer<optional<T>>::to_json, whose test is the wrong way round
  unfoldable pub optional_to_json {ℓ} : {A : Type ℓ} → (A → Outcome Json) → Option A → Outcome Json
  optional_to_json f (some a) = ok null_value
  optional_to_json f none = fault empty_optional

  abbrev text_to_json : String → Outcome Json
  text_to_json s = ok (string_value s)

  -- A key of the std::map of one path: inserted where the optional has a value.
  abbrev path_key : String → Option String → Outcome (List (String × Json))
  path_key k none = ok []
  path_key k (some s) = do v ← optional_to_json text_to_json (some s); ok ((k, v) ∷ [])

  path_values : List (Option String) → List (Option String) → Outcome (List Json)
  unfolding optional_to_json
  path_values (i ∷ ifname) (n ∷ ipnexthop) = do
    a ← path_key "ifname" i
    b ← path_key "ipnexthop" n
    rest ← path_values ifname ipnexthop
    ok (object_of (a ++ b) ∷ rest)
  path_values _ _ = ok []

  -- The two vectors of one length: `json{innerRowPathes}` is an array that holds the array of paths.
  abbrev path_rows : List (Option String) → List (Option String) → Outcome Json
  path_rows (i ∷ []) (n ∷ []) = do
    a ← optional_to_json text_to_json n
    b ← optional_to_json text_to_json i
    ok (object_of (("ipnexthop", a) ∷ ("ifname", b) ∷ []))
  path_rows (i ∷ ifname) ipnexthop = do
    l ← path_values (i ∷ ifname) ipnexthop
    ok (array_of (array_of l ∷ []))
  path_rows [] ipnexthop = ok null_value

  unfoldable pub row_path_to_json : RowPath → Outcome Json
  unfolding path_values optional_to_json
  row_path_to_json row = do
    inner ←
        if length row.ifname == length row.ipnexthop
        then path_rows row.ifname row.ipnexthop
        else ok null_value
    ok (object_of (("ROW_path", inner) ∷ []))

  -- The rows as one array.
  abbrev rows_to_json {ℓ} : {A : Type ℓ} → (A → Outcome Json) → List A → Outcome Json
  rows_to_json f l = do vs ← traverse f l; ok (array_of vs)

  unfoldable pub row_prefix_to_json : RowPrefix → Outcome Json
  row_prefix_to_json row = do
    table ←
        by_size row.table_path (ok (array_of [])) row_path_to_json (rows_to_json row_path_to_json)
    let inner = object_of (
        ("ipprefix", string_value row.ipprefix)
        ∷ ("attached", string_value (if row.attached then "true" else "false"))
        ∷ ("TABLE_path", table)
        ∷ [])
    ok (object_of (("ROW_prefix", inner) ∷ []))

  -- An object with the first field, and a table of rows by `switch (size)`.
  abbrev row_with_table {ℓ} :
      {A : Type ℓ}
      → List (String × Json)
      → List A
      → (A → Outcome (List (String × Json)))
      → (List A → Outcome (List (String × Json)))
      → Outcome Json
  row_with_table head l one_case rest_case = do
    table ← by_size l (ok []) one_case rest_case
    ok (object_of (head ++ table))

  abbrev under {ℓ} : {A : Type ℓ} → String → (A → Outcome Json) → A → Outcome (List (String × Json))
  under k f a = do v ← f a; ok ((k, v) ∷ [])

  -- The switch on the size of `*row.table_prefix`; from two rows on it writes the optional itself.
  unfoldable pub prefix_table : Option (List RowPrefix) → Outcome (List (String × Json))
  unfolding optional_to_json
  prefix_table none = ok []
  prefix_table (some l) = by_size l (ok []) (under "TABLE_prefix" row_prefix_to_json) (λ rows.
      under "TABLE_prefix" (optional_to_json (rows_to_json row_prefix_to_json)) (some rows))

  unfoldable pub row_addr_to_json : RowAddr → Outcome Json
  unfolding prefix_table
  row_addr_to_json row = do
    table ← prefix_table row.table_prefix
    let inner = object_of (("addrf", string_value row.addrf) ∷ table)
    ok (object_of (("ROW_addrf", inner) ∷ []))

  -- The key of two rows or more is spelled "TABLE_addf".
  unfoldable pub row_vrf_to_json : RowVrf → Outcome Json
  row_vrf_to_json row = do
    inner ←
        row_with_table (("vrf-name-out", string_value row.vrf_name_out) ∷ []) row.table_addrf
          (under "TABLE_addrf" row_addr_to_json)
          (under "TABLE_addf" (rows_to_json row_addr_to_json))
    ok (object_of (("ROW_vrf", inner) ∷ []))

  unfoldable pub row_interface_to_json : RowInterface → Json
  row_interface_to_json row = object_of (
      ("intf-name", string_value row.intf_name)
      ∷ ("proto-state", string_value row.proto_state)
      ∷ ("link-state", string_value row.link_state)
      ∷ ("admin-state", string_value row.admin_state)
      ∷ ("prefix", string_value row.prefix)
      ∷ ("linklocal_addr", string_value row.linklocal_addr)
      ∷ [])

  -- An empty table leaves `json{}`, which is null.
  unfoldable pub route_lookup_to_json : RouteLookupResponse → Outcome Json
  route_lookup_to_json row =
      by_size row.table_vrf (ok null_value)
        (λ vrf. do v ← row_vrf_to_json vrf; ok (object_of (("TABLE_vrf", v) ∷ [])))
        (λ vrfs. do v ← rows_to_json row_vrf_to_json vrfs; ok (object_of (("TABLE_vrf", v) ∷ [])))

  unfoldable pub interfaces_to_json : InterfacesResponse → Outcome Json
  unfolding row_interface_to_json
  interfaces_to_json row = do
    vrfs ← rows_to_json row_vrf_to_json row.table_vrf
    let intfs = array_of (map row_interface_to_json row.table_intf)
    ok (object_of (("TABLE_vrf", vrfs) ∷ ("TABLE_intf", intfs) ∷ []))

  unfoldable pub uptime_to_json : UptimeResponse → Json
  uptime_to_json row = object_of (
      ("kern_uptm_days", int_value row.kern_uptm_days)
      ∷ ("kern_uptm_hrs", int_value row.kern_uptm_hrs)
      ∷ ("kern_uptm_mins", int_value row.kern_uptm_mins)
      ∷ ("kern_uptm_secs", int_value row.kern_uptm_secs)
      ∷ [])

  unfoldable pub adj_object_to_json : AdjObject → Json
  adj_object_to_json row = object_of (
      ("intf-out", string_value row.intf_out)
      ∷ ("ipv6-addr", string_value row.ipv6_addr)
      ∷ ("mac", string_value row.mac)
      ∷ [])

  -- No rows leave `inner` null.
  unfoldable pub row_adj_to_json : RowAdj → Json
  row_adj_to_json row =
      by_size row.table_object null_value
        (λ object. object_of (("ROW_adj", adj_object_to_json object) ∷ []))
        (λ rows. object_of (("ROW_adj", array_of (map adj_object_to_json rows)) ∷ []))

  unfoldable pub row_afi_to_json : RowAfi → Json
  row_afi_to_json row =
      let head : String × Json = ("afi", string_value row.afi) in
      let inner = object_of (
        by_size row.table_adj (head ∷ []) (λ adj. head ∷ ("TABLE_adj", row_adj_to_json adj) ∷ [])
          (λ rows. head ∷ ("TABLE_adj", array_of (map row_adj_to_json rows)) ∷ [])) in
      object_of (("ROW_afi", inner) ∷ [])

  unfoldable pub row_vrf_neighbor_to_json : RowVrfNeighborLookup → Json
  row_vrf_neighbor_to_json row =
      let head : String × Json = ("vrf-name-out", string_value row.vrf_name_out) in
      let inner = object_of (
        by_size row.table_afi (head ∷ []) (λ afi. head ∷ ("TABLE_afi", row_afi_to_json afi) ∷ [])
          (λ rows. head ∷ ("TABLE_afi", array_of (map row_afi_to_json rows)) ∷ [])) in
      object_of (("ROW_vrf", inner) ∷ [])

  unfoldable pub neighbor_lookup_to_json : NeighborLookupResponse → Json
  neighbor_lookup_to_json row =
      let inner =
        by_size row.table_vrf null_value row_vrf_neighbor_to_json
          (λ rows. array_of (map row_vrf_neighbor_to_json rows)) in
      object_of (("TABLE_vrf", inner) ∷ [])
