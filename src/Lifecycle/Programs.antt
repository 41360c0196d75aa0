-- ===== src/Lifecycle/Programs.antt =====
-- The calls that startService, stopService and the destructors make: NXOSManagementClient,
-- NXOSHeartbeatService, DHCP6ExporterService and DHCP6ExporterImpl.
use nxos_dhcp6_exporter.Prelude.{ℕ, ◌*◌, ◌%◌, ◌^◌, Option, some, List, [], ◌∷◌, ◌++◌}
use nxos_dhcp6_exporter.Outcome.{not_implemented}
use nxos_dhcp6_exporter.Params.{ConfigApi, ConnectionParams, Scheme, http, https}
use nxos_dhcp6_exporter.Callout.{Service}
use nxos_dhcp6_exporter.Http.Client.{BasicAuth}
use nxos_dhcp6_exporter.Lifecycle.{
  management, heartbeat, Call, makes_client, adds_basic_auth, starts_client, stops_client,
  drops_client, makes_timer, cancels_timer, drops_timer, sets_timer, sets_restored_handler,
  drops_handlers, raises,
}

-- NXOSManagementClient::startClient, by the scheme of its URL
unfoldable pub start_client_calls : Scheme → Option BasicAuth → List Call
start_client_calls https auth =
    raises (not_implemented "https tls context init not implemented") ∷ []
start_client_calls http auth =
    makes_client management ∷ adds_basic_auth management auth ∷ starts_client management ∷ []

-- NXOSHeartbeatService::startService, by the interval in seconds; the fields that it sets stand in
-- start_service of Heartbeat
unfoldable pub start_heartbeat_calls : Option BasicAuth → ℕ → List Call
start_heartbeat_calls auth interval =
    makes_client heartbeat
    ∷ adds_basic_auth heartbeat auth
    ∷ starts_client heartbeat
    ∷ makes_timer
    ∷ sets_timer (interval * 1000 % 2 ^ 64)
    ∷ []

-- DHCP6ExporterService::startService, by what the two have read from the configuration
unfoldable pub start_service_calls :
    Scheme → Option BasicAuth → Option BasicAuth → (interval : ℕ) → List Call
unfolding start_client_calls start_heartbeat_calls
start_service_calls scheme auth heartbeat_auth interval =
    start_client_calls scheme auth
    ++ sets_restored_handler ∷ start_heartbeat_calls heartbeat_auth interval

-- ~DHCP6ExporterService: its members go in the reverse order of their declaration, the heartbeat service
-- with its timer, its client and its handlers, and then the management client.
unfoldable pub destroy_service_calls : List Call
destroy_service_calls =
    drops_timer ∷ drops_client heartbeat ∷ drops_handlers ∷ drops_client management ∷ []

-- DHCP6ExporterService::stopService: stopClient and NXOSHeartbeatService::stopService
unfoldable pub stop_both_calls : List Call
stop_both_calls = stops_client management ∷ stops_client heartbeat ∷ cancels_timer ∷ []

-- DHCP6ExporterImpl::stopService, which drops the service after it
unfoldable pub stop_service_calls : List Call
unfolding stop_both_calls destroy_service_calls
stop_service_calls = stop_both_calls ++ destroy_service_calls

module _ (c : ConfigApi) where
  open c use {scheme}

  -- The BasicHttpAuth that parseConfig makes
  abbrev pub auth_of : ConnectionParams c → BasicAuth
  auth_of params = record { login = params.login; password = params.password }

  -- DHCP6ExporterImpl::startService, which has a service; the message after the start is left out
  unfoldable pub calls_of : Service c → List Call
  unfolding start_service_calls
  calls_of s =
      start_service_calls (scheme s.client.url) (some (auth_of s.client))
        (some (auth_of s.heartbeat)) s.heartbeat.heartbeat_interval_secs
