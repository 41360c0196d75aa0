-- ===== src/Tests/Switch.antt =====
-- A switch for the tests: three answers, a lease, and two states of the whole.
use nxos_dhcp6_exporter.Prelude.{
  ℕ, String, true, false, none, some, List, [], ◌∷◌, str_eq, if◌then◌else◌,
}
use nxos_dhcp6_exporter.Prelude.Int.{pos}
use nxos_dhcp6_exporter.Outcome.{ok, raised, json_parse_error}
use nxos_dhcp6_exporter.Json.{JsonApi}
use nxos_dhcp6_exporter.Json.Model.{Value, str, num, value_api}
use nxos_dhcp6_exporter.Kea.{Lease, LeaseMgr}
use nxos_dhcp6_exporter.Nxos.Print.{uptime_to_json}
use nxos_dhcp6_exporter.Nxos.{UptimeResponse}
use nxos_dhcp6_exporter.Service.{Config}
use nxos_dhcp6_exporter.Heartbeat.{Heartbeat, heartbeat_request}
use nxos_dhcp6_exporter.System.{check, System}
use nxos_dhcp6_exporter.System.Losses.{lookup_neighbors}
use nxos_dhcp6_exporter.Tests.Data.{sample_kea, na_lease}

abbrev pub plain : JsonApi
plain = value_api true

abbrev pub object : List (String × Value) → Value
object l = plain.object_of l

-- A batch of one response, with this body in its result.
abbrev pub answer_with : Value → Value
answer_with body =
    plain.array_of
      (object (("id", num (pos 1)) ∷ ("result", object (("body", body) ∷ [])) ∷ []) ∷ [])

abbrev pub uptime : UptimeResponse
uptime = record {
  kern_uptm_days = pos 3;
  kern_uptm_hrs = pos 2;
  kern_uptm_mins = pos 1;
  kern_uptm_secs = pos 59;
}

-- One client, seen behind Vlan10.
abbrev pub neighbors : Value
neighbors =
    let client =
      object (
        ("intf-out", str "Vlan10") ∷ ("ipv6-addr", str "2001:db8::2") ∷ ("mac", str "00.1") ∷ []) in
    let adj = object (("ROW_adj", object (("ROW_adj", client) ∷ [])) ∷ []) in
    let afi = object (("ROW_afi", object (("afi", str "ipv6") ∷ ("TABLE_adj", adj) ∷ [])) ∷ []) in
    let vrf =
      object
        (("ROW_vrf", object (("vrf-name-out", str "default") ∷ ("TABLE_afi", afi) ∷ [])) ∷ []) in
    object (("TABLE_vrf", vrf) ∷ [])

-- The relay is reached through Vlan10.
abbrev pub relay_route : Value
relay_route =
    let path = object (("ROW_path", object (("ifname", str "Vlan10") ∷ [])) ∷ []) in
    let prefix = object (
      (
        "ROW_prefix",
        object (
            ("ipprefix", str "fe80::1/128") ∷ ("attached", str "true") ∷ ("TABLE_path", path) ∷ []),
      )
      ∷ []) in
    let addrf =
      object (("ROW_addrf", object (("addrf", str "ipv6") ∷ ("TABLE_prefix", prefix) ∷ [])) ∷ []) in
    let vrf =
      object (
        ("ROW_vrf", object (("vrf-name-out", str "default") ∷ ("TABLE_addrf", addrf) ∷ [])) ∷ []) in
    object (("TABLE_vrf", vrf) ∷ [])

-- The texts of the three answers.
abbrev pub api : JsonApi
api = record plain {
  parse = λ s.
      if str_eq s "uptime"
      then ok (answer_with (uptime_to_json plain uptime))
      else if str_eq s "neighbors"
      then ok (answer_with neighbors)
      else if str_eq s "route"
      then ok (answer_with relay_route)
      else raised json_parse_error;
}

-- The lease of this client.
abbrev pub seen_lease : Lease ℕ
seen_lease = record na_lease { hwaddr = some 103716912 }

abbrev pub db : LeaseMgr ℕ
db = record { by_client = λ type duid iaid. seen_lease ∷ []; by_subnet = λ subnet. seen_lease ∷ [] }

abbrev pub config : Config
config = record { current_cfg = some (some (some (1 ∷ []))) }

abbrev pub lost : Heartbeat
lost = record {
  has_failed_handler = false;
  has_restored_handler = true;
  heartbeat_interval_secs = 30;
  prev_uptime_secs = 100;
  prev_lost_connection = true;
}

-- A lost connection, with a check under way.
abbrev pub checking : System Value
checking = record {
  heartbeat = lost;
  waiting = check (heartbeat_request api lost) ∷ [];
  written = [];
  undefined = none;
}

-- A restoration under way.
abbrev pub restoring : System Value
restoring = record {
  heartbeat = record lost { prev_uptime_secs = 0; prev_lost_connection = false };
  waiting = lookup_neighbors api sample_kea db config ∷ [];
  written = [];
  undefined = none;
}
