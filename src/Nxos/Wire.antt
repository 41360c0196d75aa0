-- ===== src/Nxos/Wire.antt =====
-- Answers of the switch in the form that it sends them, and what the program makes of them.
use nxos_dhcp6_exporter.Prelude.{String, ◌≡◌, refl, Option, none, some, List, [], ◌∷◌, ◌++◌, map}
use nxos_dhcp6_exporter.Outcome.{ok}
use nxos_dhcp6_exporter.Json.{JsonApi, JsonLaws}
use nxos_dhcp6_exporter.Json.Facts.{is_array-array_of}
use nxos_dhcp6_exporter.Nxos.Parse.{
  path_from_json, paths_from_json, row_path_from_json, moved_optional,
}

-- One path of a route: its interface and its next hop, each of which may be absent.
pub record Hop : Type 0 where
  pub interface : Option String
  pub nexthop : Option String

module _ (api : JsonApi) where
  open api use {Json, object_of, array_of, string_value}

  abbrev pub text_key : String → Option String → List (String × Json)
  text_key k none = []
  text_key k (some s) = (k, string_value s) ∷ []

  -- The object of a path: a key for each value that is there.
  abbrev pub hop_to_json : Hop → Json
  hop_to_json h = object_of (text_key "ifname" h.interface ++ text_key "ipnexthop" h.nexthop)

  abbrev pub hops_to_json : List Hop → Json
  hops_to_json hops = object_of (("ROW_path", array_of (map hop_to_json hops)) ∷ [])

  -- The next hop that the loop pushes: where it is absent, what is left of the interface.
  abbrev pub pushed_nexthop : Hop → Option String
  pushed_nexthop h = elim h.nexthop [ none ↦ moved_optional api h.interface | some s ↦ some s ]

  module _ (laws : JsonLaws api) where
    open laws use {contains_object, at_object, string_string, elements_array}

    path-hop :
        (i n : Option String)
        → path_from_json api (hop_to_json (record { interface = i; nexthop = n }))
          ≡ ok (i, pushed_nexthop (record { interface = i; nexthop = n }))
    unfolding path_from_json
    path-hop none none = simp contains_object
    path-hop none (some n) = simp (contains_object, at_object, string_string)
    path-hop (some i) none = simp (contains_object, at_object, string_string)
    path-hop (some i) (some n) = simp (contains_object, at_object, string_string)

    paths-hops :
        (hops : List Hop)
        → paths_from_json api (map hop_to_json hops)
          ≡ ok (record {
            ipnexthop = map pushed_nexthop hops;
            ifname = map (λ (h : Hop). h.interface) hops;
          })
    unfolding paths_from_json
    paths-hops [] = refl
    paths-hops (h ∷ hops) = simp (path-hop h.interface h.nexthop, paths-hops hops)

    -- A list of paths is read with all its interfaces in order. The next hop of a path that names an
    -- interface and no next hop is not read as absent: it is the text that the interface was moved from.
    pub row_path_of_hops :
        (hops : List Hop)
        → row_path_from_json api (hops_to_json hops)
          ≡ ok (record {
            ipnexthop = map pushed_nexthop hops;
            ifname = map (λ (h : Hop). h.interface) hops;
          })
    unfolding row_path_from_json
    row_path_of_hops hops =
        simp (at_object, is_array-array_of api laws, elements_array, paths-hops hops)
