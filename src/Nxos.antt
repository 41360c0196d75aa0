-- ===== src/Nxos.antt =====
-- include/nxos/nxos_structs.hpp: the answers of the switch as structs. A `std::optional` is an
-- `Option`, a `std::vector` a list. Reading them is in Nxos/Parse, writing them in Nxos/Print.
pub mod Parse
pub mod Print
pub mod RoundTrip
pub mod Tables
pub mod Wire
use nxos_dhcp6_exporter.Prelude.{String, Bool, Option, List}
use nxos_dhcp6_exporter.Prelude.Int.{ℤ}

pub record RowPath : Type 0 where
  pub ipnexthop : List (Option String)
  pub ifname : List (Option String)

pub record RowPrefix : Type 0 where
  pub ipprefix : String
  pub attached : Bool
  pub table_path : List RowPath

pub record RowAddr : Type 0 where
  pub addrf : String
  pub table_prefix : Option (List RowPrefix)

pub record RowVrf : Type 0 where
  pub vrf_name_out : String
  pub table_addrf : List RowAddr

pub record RowInterface : Type 0 where
  pub intf_name : String
  pub proto_state : String
  pub link_state : String
  pub admin_state : String
  pub prefix : String
  pub linklocal_addr : String

pub record RouteLookupResponse : Type 0 where
  pub table_vrf : List RowVrf

pub record InterfacesResponse : Type 0 where
  pub table_vrf : List RowVrf
  pub table_intf : List RowInterface

pub record UptimeResponse : Type 0 where
  pub kern_uptm_days : ℤ
  pub kern_uptm_hrs : ℤ
  pub kern_uptm_mins : ℤ
  pub kern_uptm_secs : ℤ

pub record AdjObject : Type 0 where
  pub intf_out : String
  pub ipv6_addr : String
  pub mac : String

pub record RowAdj : Type 0 where
  pub table_object : List AdjObject

pub record RowAfi : Type 0 where
  pub afi : String
  pub table_adj : List RowAdj

pub record RowVrfNeighborLookup : Type 0 where
  pub vrf_name_out : String
  pub table_afi : List RowAfi

pub record NeighborLookupResponse : Type 0 where
  pub table_vrf : List RowVrfNeighborLookup
