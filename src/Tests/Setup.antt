-- ===== src/Tests/Setup.antt =====
-- The theorems on the configuration and on the callouts, at concrete inputs.
use nxos_dhcp6_exporter.Prelude.{◌≡◌, refl, true, false, none, some}
use nxos_dhcp6_exporter.Outcome.{ok}
use nxos_dhcp6_exporter.Run.{load as load_message}
use nxos_dhcp6_exporter.Params.{ConnectionParams, parse_config}
use nxos_dhcp6_exporter.Params.Checks.{IsUsable, parse_config-IsUsable}
use nxos_dhcp6_exporter.Callout.{
  af_inet6, Service, configure_and_init_client, load, dhcp6_srv_configured, aborts,
}
use nxos_dhcp6_exporter.Callout.Life.{https_aborts}
use nxos_dhcp6_exporter.Tests.Data.{text, sample_config, http_params, https_params}

abbrev pub http_connection : ConnectionParams sample_config
http_connection = record {
  url = "http://switch";
  login = "admin";
  password = "pw";
  cert_file = none;
  key_file = none;
  heartbeat_interval_secs = 30;
}

abbrev https_connection : ConnectionParams sample_config
https_connection = record http_connection { url = "https://switch" }

parse_config-IsUsable_example : IsUsable sample_config http_connection
unfolding parse_config
parse_config-IsUsable_example =
    parse_config-IsUsable sample_config (some http_params) http_connection refl

abbrev https_service : Service sample_config
https_service = record { client = https_connection; heartbeat = https_connection; started = false }

https_aborts_example :
    (load sample_config none af_inet6 (some (text "nxos")) (some https_params)
      ≡ ok (record { impl = some (some https_service); result = 0; message = load_message }))
    × (dhcp6_srv_configured sample_config (some (some https_service)) true ≡ aborts)
unfolding configure_and_init_client parse_config
https_aborts_example =
    https_aborts sample_config none (some (text "nxos")) (some https_params) https_service refl refl
