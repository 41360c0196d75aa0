-- ===== src/Mgmt/Commands.antt =====
-- The commands that src/nxos_management_client.cpp and src/nxos_heartbeat_service.cpp write.
use Prim.Native.String.{◌++◌}
use nxos_dhcp6_exporter.Prelude.{ℕ, String}
use nxos_dhcp6_exporter.Kea.{IoAddress, Kea}
use nxos_dhcp6_exporter.Route.{to_string}

unfoldable pub apply_route_command : String → String → String
apply_route_command src dst = "ipv6 route " ++ (src ++ (" " ++ dst))

unfoldable pub lookup_address_command : String → String
lookup_address_command vlan_addr = "show ipv6 route " ++ vlan_addr

unfoldable pub show_neighbour_command : String
show_neighbour_command = "show ipv6 neighbor"

unfoldable pub remove_route_command : String → String → String
remove_route_command src dst = "no ipv6 route " ++ (src ++ (" " ++ dst))

unfoldable pub remove_nd_cache_command : String → String
remove_nd_cache_command vlan_if_name = "clear ipv6 neighbor " ++ (vlan_if_name ++ " force-delete")

abbrev pub endpoint_name : String
endpoint_name = "/ins"

-- The default of `timeout` in NXOSHttpClient::sendRequest.
abbrev pub default_timeout : ℕ
default_timeout = 10000

module _ (kea : Kea) where
  open kea use {address_text}

  -- `addr.toText() + "/128"`
  unfoldable pub host_text : IoAddress → String
  host_text addr = address_text addr ++ "/128"

  -- `prefix.toText() + "/" + std::to_string(length)`
  unfoldable pub subnet_text : IoAddress → ℕ → String
  subnet_text prefix length = address_text prefix ++ ("/" ++ to_string length)
