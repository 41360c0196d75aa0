-- ===== src/Mgmt/Unseen.antt =====
-- The neighbour table in the shape in which the structs of the program are written: no neighbour of it is
-- read back (include/nxos/nxos_structs.hpp, src/nxos_management_client.cpp).
use nxos_dhcp6_exporter.Prelude.{String, ◌≡◌, refl, List, [], ◌∷◌}
use nxos_dhcp6_exporter.Outcome.{ok}
use nxos_dhcp6_exporter.Json.{JsonApi, JsonLaws}
use nxos_dhcp6_exporter.Json.Facts.{KnownBrace, is_object-object_of, is_array-object_of}
use nxos_dhcp6_exporter.Nxos.{
  AdjObject, RowAdj, RowAfi, RowVrfNeighborLookup, NeighborLookupResponse,
}
use nxos_dhcp6_exporter.Nxos.Parse.{
  row_adj_from_json, row_afi_from_json, row_vrf_neighbor_from_json, neighbor_lookup_from_json,
}
use nxos_dhcp6_exporter.Nxos.Print.{
  row_adj_to_json, row_afi_to_json, row_vrf_neighbor_to_json, neighbor_lookup_to_json,
}
use nxos_dhcp6_exporter.Nxos.Tables.{table_at-object, adjacencies_lost}

-- One VRF, one address family, and one table of neighbours.
abbrev pub one_table : (vrf afi : String) → List AdjObject → NeighborLookupResponse
one_table vrf afi objects = record {
  table_vrf =
      record {
        vrf_name_out = vrf;
        table_afi = record { afi = afi; table_adj = record { table_object = objects } ∷ [] } ∷ [];
      }
      ∷ [];
}

module _ (api : JsonApi) (laws : JsonLaws api) (known : KnownBrace api) where
  open api use {Json, object_of, string_value}
  open laws use {contains_object, at_object, string_string}

  -- A row with one row inside it.
  afi_read :
      (afi : String) (m : List (String × Json)) (adj : RowAdj)
      → row_adj_from_json api (object_of m) ≡ ok adj
      → row_afi_from_json api (
          object_of (
            ("ROW_afi", object_of (("afi", string_value afi) ∷ ("TABLE_adj", object_of m) ∷ []))
            ∷ []))
        ≡ ok (record { afi = afi; table_adj = adj ∷ [] })
  unfolding row_afi_from_json
  afi_read afi m adj read =
      let inner : List (String × Json) =
        ("afi", string_value afi) ∷ ("TABLE_adj", object_of m) ∷ [] in
      let row = table_at-object api laws (row_adj_from_json api) inner "TABLE_adj" m refl known in
      rw
        (
          at_object (("ROW_afi", object_of inner) ∷ []) "ROW_afi",
          row,
          read,
          at_object inner "afi",
          string_string afi,
        )
        refl

  vrf_read :
      (vrf : String) (m : List (String × Json)) (afi : RowAfi)
      → row_afi_from_json api (object_of m) ≡ ok afi
      → row_vrf_neighbor_from_json api (
          object_of (
            (
              "ROW_vrf",
              object_of (("vrf-name-out", string_value vrf) ∷ ("TABLE_afi", object_of m) ∷ []),
            )
            ∷ []))
        ≡ ok (record { vrf_name_out = vrf; table_afi = afi ∷ [] })
  unfolding row_vrf_neighbor_from_json
  vrf_read vrf m afi read =
      let inner : List (String × Json) =
        ("vrf-name-out", string_value vrf) ∷ ("TABLE_afi", object_of m) ∷ [] in
      let row = table_at-object api laws (row_afi_from_json api) inner "TABLE_afi" m refl known in
      rw
        (
          at_object (("ROW_vrf", object_of inner) ∷ []) "ROW_vrf",
          row,
          read,
          at_object inner "vrf-name-out",
          string_string vrf,
        )
        refl

  lookup_read :
      (m : List (String × Json)) (vrf : RowVrfNeighborLookup)
      → row_vrf_neighbor_from_json api (object_of m) ≡ ok vrf
      → neighbor_lookup_from_json api (object_of (("TABLE_vrf", object_of m) ∷ []))
        ≡ ok (record { table_vrf = vrf ∷ [] })
  unfolding neighbor_lookup_from_json
  lookup_read m vrf read =
      simp (at_object, is_array-object_of api laws m, is_object-object_of api laws m, read)

  -- A table of neighbours as the structs write it is read back with none of them.
  pub neighbors_unseen :
      (vrf afi : String) (o : AdjObject) (l : List AdjObject)
      → neighbor_lookup_from_json api (neighbor_lookup_to_json api (one_table vrf afi (o ∷ l)))
        ≡ ok (one_table vrf afi [])
  unfolding neighbor_lookup_to_json row_vrf_neighbor_to_json row_afi_to_json row_adj_to_json
  neighbors_unseen vrf afi o [] =
      lookup_read _ _ (vrf_read vrf _ _ (afi_read afi _ _ (adjacencies_lost api laws o [])))
  neighbors_unseen vrf afi o (p ∷ l) =
      lookup_read _ _ (vrf_read vrf _ _ (afi_read afi _ _ (adjacencies_lost api laws o (p ∷ l))))
