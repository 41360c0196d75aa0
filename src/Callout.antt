-- ===== src/Callout.antt =====
-- src/callout.cpp, the functions that Kea calls, with the configuration and the life of the service:
-- configureAndInitClient and startService of src/dhcp6_exporter_impl.cpp, the constructor and startService
-- of src/dhcp6_exporter_service.cpp, and the two factories. stopService is a program of Lifecycle.
pub mod Life
use nxos_dhcp6_exporter.Prelude.{
  ℕ, String, Bool, true, false, Option, none, some, str_eq, ◌==◌, if◌then◌else◌,
}
use nxos_dhcp6_exporter.Outcome.{
  Outcome, ok, raised, fault, Fault, bad_value, unexpected, invalid_parameter, not_implemented,
  type_error, null_pointer, ◌>>=◌, ◌>>◌,
}
use nxos_dhcp6_exporter.Params.{
  ConfigApi, ConnectionParams, parse_config, is_string_type, is_map_type, Scheme, http, https,
}
use nxos_dhcp6_exporter.Run.{
  Log, init_failed, load as load_message, Run, done, catching, bind_outcome,
}

-- The try block of the lease callouts, which return 0 in every case.
unfoldable pub lease_callout : {J : Type 0} → Run J → Run J
lease_callout r = catching (λ _. done) r

-- subnet6_select, by what reading its two arguments gives; its messages are at the level DEBUG.
unfoldable pub subnet6_select : {J : Type 0} {P Q : Type 0} → Outcome P → Outcome Q → Run J
unfolding lease_callout
subnet6_select query subnet = lease_callout (bind_outcome query λ _. bind_outcome subnet λ _. done)

-- `if (!test) isc_throw(BadValue, ...)`
abbrev require : Bool → String → Outcome (Unit {0})
require true message = ok tt
require false message = raised (bad_value message)

abbrev require_some {ℓ} : {A : Type ℓ} → Option A → String → Outcome A
require_some none message = raised (bad_value message)
require_some (some a) message = ok a

-- AF_INET6
abbrev pub af_inet6 : ℕ
af_inet6 = 10

module _ (c : ConfigApi) where
  open c use {Element, get_type, string_value, scheme}

  -- DHCP6ExporterService: the parameters of its client and of its heartbeat service, and whether both
  -- have been started.
  pub record Service : Type 0 where
    pub client : ConnectionParams c
    pub heartbeat : ConnectionParams c
    pub started : Bool

  -- `impl`: null, or an object whose m_service may be null
  abbrev pub Exporter : Type 0
  Exporter = Option (Option Service)

  -- ManagementClient::init and HeartbeatService::init: the one name that both know
  unfoldable pub init_by_name : String → String → Element → Outcome (ConnectionParams c)
  init_by_name message name params =
      if str_eq name "nxos"
      then parse_config c (some params)
      else raised (invalid_parameter message)

  -- stringValue() in the constructor's try block
  abbrev catch_type_error : Outcome String → Outcome String
  catch_type_error (raised type_error) = raised (unexpected "No value for connection type")
  catch_type_error r = r

  -- DHCP6ExporterService::DHCP6ExporterService
  unfoldable pub new_service : Element → Element → Outcome Service
  unfolding init_by_name
  new_service mgmt_conn_type mgmt_conn_params = do
    name ← catch_type_error (string_value mgmt_conn_type)
    client ← init_by_name "Failed to find management client" name mgmt_conn_params
    heartbeat ← init_by_name "Failed to find heartbeat service" name mgmt_conn_params
    ok (record { client = client; heartbeat = heartbeat; started = false })

  -- DHCP6ExporterImpl::configureAndInitClient, by the two parameters of the hook library
  unfoldable pub configure_and_init_client : Option Element → Option Element → Outcome Service
  unfolding new_service
  configure_and_init_client conn_type conn_params = do
    type ← require_some conn_type "No parameter \"connection-type\" in config"
    require (is_string_type (get_type type)) "parameter \"connection-type\" must be a string"
    params ← require_some conn_params "No parameter \"connection-params\" in config"
    require (is_map_type (get_type params)) "parameter \"connection-params\" must be a map"
    new_service type params

  -- What `load` leaves in `impl`, its result and its message.
  pub record Loaded : Type 0 where
    pub impl : Exporter
    pub result : ℕ
    pub message : Log

  abbrev loaded : Outcome Service → Outcome Loaded
  loaded (ok service) =
      ok (record { impl = some (some service); result = 0; message = load_message })
  loaded (raised e) = ok (record { impl = some none; result = 1; message = init_failed })
  loaded (fault u) = fault u

  -- load
  unfoldable pub load : Exporter → ℕ → Option Element → Option Element → Outcome Loaded
  unfolding configure_and_init_client
  load impl family conn_type conn_params =
      if family == af_inet6
      then loaded (configure_and_init_client conn_type conn_params)
      else ok (record { impl = impl; result = 1; message = init_failed })

  -- startClient of the management client, as far as it can throw
  abbrev start_client : Scheme → Outcome (Unit {0})
  start_client https = raised (not_implemented "https tls context init not implemented")
  start_client http = ok tt

  -- DHCP6ExporterService::startService
  unfoldable pub start_both : Service → Outcome Service
  start_both service = do
    start_client (scheme service.client.url)
    ok (record service { started = true })

  -- DHCP6ExporterImpl::startService
  unfoldable pub start_service_of : Option Service → Outcome (Option Service)
  unfolding start_both
  start_service_of none = ok none
  start_service_of (some service) = do s ← start_both service; ok (some s)

  -- How dhcp6_srv_configured ends: it returns, or calls std::abort.
  pub data Configured : Type 0 where
    returns : Exporter → ℕ → Configured
    drops : Exporter → Configured  -- NEXT_STEP_DROP, the argument "error", and 1
    aborts : Configured
    undefined : Fault → Configured

  abbrev configured : Outcome (Option Service) → Configured
  configured (ok service) = returns (some service) 0
  configured (raised e) = aborts
  configured (fault u) = undefined u

  -- dhcp6_srv_configured
  unfoldable pub dhcp6_srv_configured : Exporter → (has_io_context : Bool) → Configured
  unfolding start_service_of
  dhcp6_srv_configured impl false = drops impl
  dhcp6_srv_configured none true = undefined null_pointer
  dhcp6_srv_configured (some service) true = configured (start_service_of service)

  -- unload
  unfoldable pub unload : Exporter → Exporter × ℕ
  unload impl = (none, 0)
