-- ===== src/Tests/Data.antt =====
-- Inputs for the tests: a concrete Kea, a lease database, and a configuration.
use nxos_dhcp6_exporter.Prelude.{
  ℕ, ◌+◌, ◌*◌, String, ◌≡◌, ◌↔◌, true, false, Option, none, some, List, [], ◌∷◌, ◌==◌, arith, not,
  str_eq, if◌then◌else◌,
}
use nxos_dhcp6_exporter.Prelude.Int.{ℤ, pos}
use nxos_dhcp6_exporter.Outcome.{Outcome, ok, raised, type_error}
use nxos_dhcp6_exporter.Json.{JsonApi}
use nxos_dhcp6_exporter.Json.Model.{value_api}
use nxos_dhcp6_exporter.Kea.{IoAddress, Duid, Kea, Lease, LeaseMgr, type_na, type_pd}
use nxos_dhcp6_exporter.Nxos.{RowPath, RowPrefix, RowAddr, RowVrf, RouteLookupResponse}
use nxos_dhcp6_exporter.Params.{
  ElementType, integer, string_element, map_element, http, https, ConfigApi,
}

abbrev hwaddr_value : List ℕ → ℕ
hwaddr_value [] = 0
hwaddr_value (c ∷ l) = c + 128 * hwaddr_value l

pub same_iff : (a b : ℕ) → ((a == b) ≡ true) ↔ (a ≡ b)
same_iff a b = (ground arith, ground arith)

-- Hardware addresses as numbers; a few addresses with their texts.
abbrev pub sample_kea : Kea
sample_kea = record {
  HwAddr = ℕ;
  same_hwaddr = λ a b. a == b;
  same_hwaddr_iff = same_iff;
  hwaddr_from_text = λ l. ok (hwaddr_value l);
  address_text =
      λ a. if a == 1 then "fe80::1" else if a == 2 then "2001:db8::2" else "2001:db8:1::";
}

abbrev pub relay : IoAddress
relay = 1

abbrev pub client_addr : IoAddress
client_addr = 2

abbrev pub prefix_addr : IoAddress
prefix_addr = 3

abbrev pub client_duid : Duid
client_duid = 0 ∷ 1 ∷ []

abbrev pub na_lease : Lease ℕ
na_lease = record {
  lease_type = type_na;
  addr = client_addr;
  prefixlen = 128;
  iaid = 7;
  duid = some client_duid;
  hwaddr = some 5;
  expired_reclaimed = false;
  declined = false;
}

abbrev pub pd_lease : Lease ℕ
pd_lease = record na_lease { lease_type = type_pd; addr = prefix_addr; prefixlen = 48 }

abbrev pub sample_db : LeaseMgr ℕ
sample_db = record {
  by_client = λ type duid iaid. na_lease ∷ [];
  by_subnet = λ subnet. na_lease ∷ pd_lease ∷ [];
}

abbrev pub api : JsonApi
api = value_api true

abbrev pub sample_path : RowPath
sample_path = record { ipnexthop = none ∷ []; ifname = none ∷ some "Vlan10" ∷ [] }

abbrev pub sample_prefix : RowPrefix
sample_prefix = record { ipprefix = "fe80::/64"; attached = true; table_path = sample_path ∷ [] }

abbrev pub sample_addr : RowAddr
sample_addr = record { addrf = "ipv6"; table_prefix = some (sample_prefix ∷ []) }

abbrev pub sample_vrf : RowVrf
sample_vrf = record { vrf_name_out = "default"; table_addrf = sample_addr ∷ [] }

abbrev pub sample_lookup : RouteLookupResponse
sample_lookup = record { table_vrf = sample_vrf ∷ [] }

-- A configuration, with a key for each entry.
mutual
  pub data Setting : Type 0 where
    text : String → Setting
    number : ℤ → Setting
    table : Settings → Setting

  pub data Settings : Type 0 where
    nothing : Settings
    entry : String → Setting → Settings → Settings

abbrev find_entry : String → Settings → Option Setting
find_entry k nothing = none
find_entry k (entry j v l) = if str_eq j k then some v else find_entry k l

abbrev find_setting : Setting → String → Option Setting
find_setting (table l) k = find_entry k l
find_setting _ k = none

abbrev setting_type : Setting → ElementType
setting_type (text s) = string_element
setting_type (number n) = integer
setting_type (table l) = map_element

abbrev setting_text : Setting → Outcome String
setting_text (text s) = ok s
setting_text _ = raised type_error

abbrev setting_number : Setting → Outcome ℤ
setting_number (number n) = ok n
setting_number _ = raised type_error

-- URLs as texts, of which one is an HTTPS URL and the empty one is not valid.
abbrev pub sample_config : ConfigApi
sample_config = record {
  Element = Setting;
  get_type = setting_type;
  string_value = setting_text;
  int_value = setting_number;
  find = find_setting;
  Url = String;
  parse_url = λ s. s;
  is_valid = λ s. not (str_eq s "");
  scheme = λ s. if str_eq s "https://switch" then https else http;
}

abbrev credentials : Setting
credentials = table (
    entry "login" (text "admin") (
      entry "password" (text "pw")
        (entry "certificate" (text "c") (entry "keyfile" (number (pos 1)) nothing))))

abbrev pub http_params : Setting
http_params = table (
    entry "host" (text "http://switch")
      (entry "heartbeat-interval" (number (pos 30)) (entry "credentials" credentials nothing)))

abbrev pub https_params : Setting
https_params = table (
    entry "host" (text "https://switch")
      (entry "heartbeat-interval" (number (pos 30)) (entry "credentials" credentials nothing)))
