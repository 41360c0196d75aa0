-- ===== src/Nxos/RoundTrip.antt =====
-- Structs of include/nxos/nxos_structs.hpp that are written and read again.
use nxos_dhcp6_exporter.Prelude.{◌≡◌}
use nxos_dhcp6_exporter.Outcome.{ok, raised, json_out_of_range}
use nxos_dhcp6_exporter.Json.{JsonApi, JsonLaws, FitsInt}
use nxos_dhcp6_exporter.Nxos.{UptimeResponse, AdjObject, RowInterface}
use nxos_dhcp6_exporter.Nxos.Parse.{uptime_from_json, adj_object_from_json, row_interface_from_json}
use nxos_dhcp6_exporter.Nxos.Print.{uptime_to_json, adj_object_to_json, row_interface_to_json}

module _ (api : JsonApi) (laws : JsonLaws api) where
  open laws use {
    type_array, type_object, contains_object, contains_other, at_object, at_other, string_string,
    int_int,
  }

  -- Every uptime of four ints is read back as it was written.
  pub uptime_round_trip :
      (u : UptimeResponse)
      → FitsInt u.kern_uptm_days
      → FitsInt u.kern_uptm_hrs
      → FitsInt u.kern_uptm_mins
      → FitsInt u.kern_uptm_secs
      → uptime_from_json api (uptime_to_json api u) ≡ ok u
  unfolding uptime_from_json uptime_to_json
  uptime_round_trip u d h m s = simp (
    at_object,
    int_int u.kern_uptm_days d,
    int_int u.kern_uptm_hrs h,
    int_int u.kern_uptm_mins m,
    int_int u.kern_uptm_secs s,
  )

  -- An adjacency is read back as it was written.
  pub adj_object_round_trip :
      (o : AdjObject) → adj_object_from_json api (adj_object_to_json api o) ≡ ok o
  unfolding adj_object_from_json adj_object_to_json
  adj_object_round_trip o = simp (at_object, string_string)

  -- An interface that was written cannot be read: one side names the key of its link-local address
  -- otherwise than the other.
  pub interface_round_trip_fails :
      (row : RowInterface)
      → row_interface_from_json api (row_interface_to_json api row) ≡ raised json_out_of_range
  unfolding row_interface_from_json row_interface_to_json
  interface_round_trip_fails row = simp (at_object, string_string)
