-- ===== src/Route.antt =====
-- include/route_export.hpp and src/route_export.cpp: what the program asks of the switch.
use Prim.Native.String.{◌++◌}
use nxos_dhcp6_exporter.Prelude.{ℕ, zero, suc, ◌/◌, ◌%◌, String, Option, ◌==◌, ltb, if◌then◌else◌}
use nxos_dhcp6_exporter.Kea.{IoAddress, Duid, Kea}

-- The alternatives of `routeInfo`.
pub data RouteInfo : Type 0 where
  ia_na_info : (src_vlan_addr ia_na_addr : IoAddress) → RouteInfo
  ia_pd_info : (dst_ia_na_addr ia_pd_prefix : IoAddress) → (ia_pd_length : ℕ) → RouteInfo
  ia_na_info_fuzzy_remove : (ia_na_addr : IoAddress) → RouteInfo
  ia_pd_info_fuzzy_remove : (ia_pd_prefix : IoAddress) → (ia_pd_length : ℕ) → RouteInfo
  ia_na_fast : (src_vlan_if_name : String) → (ia_na_addr : IoAddress) → RouteInfo

pub record RouteExport : Type 0 where
  pub tid : ℕ
  pub iaid : ℕ
  pub duid : Option Duid
  pub route_info : RouteInfo

-- RouteExport::toDHCPv6IATypeString
unfoldable pub ia_type_string : RouteInfo → String
ia_type_string (ia_na_info _ _) = "IA_NA"
ia_type_string (ia_na_info_fuzzy_remove _) = "IA_NA"
ia_type_string (ia_na_fast _ _) = "IA_NA"
ia_type_string (ia_pd_info _ _ _) = "IA_PD"
ia_type_string (ia_pd_info_fuzzy_remove _ _) = "IA_PD"

-- The decimal digits that std::to_string writes; the fuel bounds their number.
abbrev digit : ℕ → String
digit d =
    if d == 0
    then "0"
    else if d == 1
    then "1"
    else if d == 2
    then "2"
    else if d == 3
    then "3"
    else if d == 4
    then "4"
    else if d == 5
    then "5"
    else if d == 6
    then "6"
    else if d == 7
    then "7"
    else if d == 8
    then "8"
    else "9"

decimal : ℕ → ℕ → String
decimal zero n = ""
decimal (suc f) n =
    let rest = decimal f (n / 10) in if ltb n 10 then digit n else rest ++ digit (n % 10)

-- std::to_string of an unsigned number
unfoldable pub to_string : ℕ → String
unfolding decimal
to_string n = decimal (suc n) n

module _ (kea : Kea) where
  open kea use {address_text}

  -- RouteExport::toString
  unfoldable pub info_to_string : RouteInfo → String
  unfolding to_string
  info_to_string (ia_na_info src addr) =
      "srcVlanAddr=" ++ (address_text src ++ (", ia_naAddr=" ++ address_text addr))
  info_to_string (ia_pd_info dst prefix length) =
      "dstIa_naAddr="
      ++ (address_text dst
          ++ (", ia_pdPrefix=" ++ (address_text prefix ++ (", ia_pdLength=" ++ to_string length))))
  info_to_string (ia_na_info_fuzzy_remove addr) = "ia_naAddr=" ++ address_text addr
  info_to_string (ia_pd_info_fuzzy_remove prefix length) =
      "ia_pdPrefix=" ++ (address_text prefix ++ (", ia_pdLength=" ++ to_string length))
  info_to_string (ia_na_fast name addr) =
      "srcVlanIfName=" ++ (name ++ (", ia_naAddr=" ++ address_text addr))

  unfoldable pub route_to_string : RouteExport → String
  unfolding info_to_string
  route_to_string r =
      "transid="
      ++ (to_string r.tid
          ++ (", iaid=" ++ (to_string r.iaid ++ (", " ++ info_to_string r.route_info))))
