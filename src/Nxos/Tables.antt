-- ===== src/Nxos/Tables.antt =====
-- The tables of include/nxos/nxos_structs.hpp: one row as an object, several as an array. What reading
-- them gives depends on brace initialisation, since the table is copied by `auto table{...}`.
use nxos_dhcp6_exporter.Prelude.{
  ◌⊎◌, String, ◌≡◌, refl, inl, inr, none, some, List, [], ◌∷◌, lookup, arith,
}
use nxos_dhcp6_exporter.Outcome.{Outcome, ok, raised, fault, json_type_error, ◌>>=◌, traverse}
use nxos_dhcp6_exporter.Json.{JsonApi, JsonLaws, IsMember, BraceWraps, BraceCopies}
use nxos_dhcp6_exporter.Json.Facts.{
  KnownBrace, is_object-object_of, is_object-array_of, is_array-array_of, contains-array_of,
  at_key-array_of, object_of-not_IsMember,
}
use nxos_dhcp6_exporter.Nxos.{AdjObject, RowAddr}
use nxos_dhcp6_exporter.Nxos.Parse.{
  table_at, row_adj_from_json, row_vrf_from_json, route_lookup_from_json,
}
use nxos_dhcp6_exporter.Nxos.Print.{
  row_adj_to_json, adj_object_to_json, row_vrf_to_json, row_addr_to_json,
}

module _ (api : JsonApi) (laws : JsonLaws api) where
  open api use {Json, object_of, array_of, string_value}
  open laws use {contains_object, at_object, array_array, string_string, type_null}

  module _ {ℓ} {A : Type ℓ} (f : Json → Outcome A) (l : List (String × Json)) (k : String) where
    pub table_at-missing : lookup k l ≡ none → table_at api f (object_of l) k ≡ ok none
    unfolding table_at
    table_at-missing h = rw (contains_object l k, h)

    wrapped :
        (v : Json)
        → lookup k l ≡ some v
        → BraceWraps api
        → ¬ IsMember api v
        → table_at api f (object_of l) k ≡ (do row ← f v; ok (some (row ∷ [])))
    unfolding table_at traverse
    wrapped v h wraps not_member =
        rw
          (
            contains_object l k,
            at_object l k,
            h,
            wraps v not_member,
            is_object-array_of api laws (v ∷ []),
            is_array-array_of api laws (v ∷ []),
            array_array (v ∷ []),
          )
          (ground arith)

    -- One row as an object is read as one row, with either behaviour of brace initialisation.
    pub table_at-object :
        (m : List (String × Json))
        → lookup k l ≡ some (object_of m)
        → KnownBrace api
        → table_at api f (object_of l) k ≡ (do row ← f (object_of m); ok (some (row ∷ [])))
    unfolding table_at
    table_at-object m h (inl wraps) =
        wrapped (object_of m) h wraps (object_of-not_IsMember api laws m)
    table_at-object m h (inr copies) = rw (
      contains_object l k,
      at_object l k,
      h,
      copies (object_of m),
      is_object-object_of api laws m,
    )

    pub table_at-array_copies :
        (vs : List Json)
        → lookup k l ≡ some (array_of vs)
        → BraceCopies api
        → table_at api f (object_of l) k ≡ (do rows ← traverse f vs; ok (some rows))
    unfolding table_at
    table_at-array_copies vs h copies = rw (
      contains_object l k,
      at_object l k,
      h,
      copies (array_of vs),
      is_object-array_of api laws vs,
      is_array-array_of api laws vs,
      array_array vs,
    )

    -- Several rows: a copy reads each of them; a wrapped array is taken for one row, which fails as
    -- soon as the reading of a row looks up a key.
    pub table_at-array_wraps :
        (vs : List Json)
        → lookup k l ≡ some (array_of vs)
        → BraceWraps api
        → ¬ IsMember api (array_of vs)
        → f (array_of vs) ≡ raised json_type_error
        → table_at api f (object_of l) k ≡ raised json_type_error
    table_at-array_wraps vs h wraps not_member bad =
        rw (wrapped (array_of vs) h wraps not_member, bad)

  row_vrf-array_of : (vs : List Json) → row_vrf_from_json api (array_of vs) ≡ raised json_type_error
  unfolding row_vrf_from_json
  row_vrf-array_of vs = rw (at_key-array_of api laws vs "ROW_vrf")

  -- A route lookup with several rows under "TABLE_vrf", which are not two of which the first is a string: where `auto table{...}` copies, each row is
  -- read; where it wraps, the reading throws a type error, whatever the rows are.
  pub several_vrfs :
      (vs : List Json)
      → KnownBrace api
      → ¬ IsMember api (array_of vs)
      → let read = route_lookup_from_json api (object_of (("TABLE_vrf", array_of vs) ∷ [])) in
        (BraceCopies api
          × (read
              ≡ (do rows ← traverse (row_vrf_from_json api) vs; ok (record { table_vrf = rows }))))
        ⊎ (BraceWraps api × (read ≡ raised json_type_error))
  unfolding route_lookup_from_json
  several_vrfs vs (inr copies) not_member = inl (
    copies,
    rw
        (table_at-array_copies (row_vrf_from_json api) (("TABLE_vrf", array_of vs) ∷ []) "TABLE_vrf"
          vs refl copies)
        (ground arith),
  )
  several_vrfs vs (inl wraps) not_member = inr (
    wraps,
    rw (
        table_at-array_wraps (row_vrf_from_json api) (("TABLE_vrf", array_of vs) ∷ []) "TABLE_vrf"
          vs refl wraps not_member (row_vrf-array_of vs)),
  )

  -- An adjacency table as `to_json` writes it, under one "ROW_adj", is read back as empty: `from_json`
  -- looks for a second "ROW_adj" inside the first.
  pub adjacencies_lost :
      (o : AdjObject) (l : List AdjObject)
      → row_adj_from_json api (row_adj_to_json api (record { table_object = o ∷ l }))
        ≡ ok (record { table_object = [] })
  unfolding row_adj_from_json row_adj_to_json adj_object_to_json table_at
  adjacencies_lost o [] = simp (at_object, contains_object)
  adjacencies_lost o (p ∷ l) = simp (at_object, contains-array_of api laws)

  abbrev misspelt : String → Json → Json
  misspelt name v =
      object_of
        (("ROW_vrf", object_of (("vrf-name-out", string_value name) ∷ ("TABLE_addf", v) ∷ [])) ∷ [])

  read-misspelt :
      (name : String) (v : Json)
      → row_vrf_from_json api (misspelt name v)
        ≡ ok (record { vrf_name_out = name; table_addrf = [] })
  unfolding row_vrf_from_json
  read-misspelt name v = simp (at_object, contains_object, string_string)

  misspelt_cases :
      (name : String) (r : Outcome Json) (j : Json)
      → (do v ← r; ok (misspelt name v)) ≡ ok j
      → row_vrf_from_json api j ≡ ok (record { vrf_name_out = name; table_addrf = [] })
  misspelt_cases name (ok v) j h =
      let e : misspelt name v ≡ j = cc in rw (← e) (read-misspelt name v)
  misspelt_cases name (raised e) j h = cc
  misspelt_cases name (fault u) j h = cc

  -- A VRF of two addresses or more that was written is read back with no address: the rows stand under
  -- "TABLE_addf", and "TABLE_addrf" is looked up.
  pub addresses_lost :
      (name : String) (a b : RowAddr) (l : List RowAddr) (j : Json)
      → row_vrf_to_json api (record { vrf_name_out = name; table_addrf = a ∷ b ∷ l }) ≡ ok j
      → row_vrf_from_json api j ≡ ok (record { vrf_name_out = name; table_addrf = [] })
  unfolding row_vrf_to_json row_vrf_from_json
  addresses_lost name a b l j h =
      misspelt_cases name (do vs ← traverse (row_addr_to_json api) (a ∷ b ∷ l); ok (array_of vs)) j
        (ground arith)
