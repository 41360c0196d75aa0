-- ===== src/Heartbeat.antt =====
-- src/nxos_heartbeat_service.cpp: the switch is asked for its uptime at intervals; a connection that
-- was lost, or an uptime that fell, has the routes sent again. The service is a state machine whose
-- steps hold its mutex; a step returns the new state and what it did, in order.
pub mod Rules
use nxos_dhcp6_exporter.Prelude.{
  ℕ, ◌+◌, ◌*◌, ◌%◌, ◌^◌, Bool, true, false, ◌||◌, Option, none, some, List, [], ◌∷◌, ◌++◌, ltb,
  if◌then◌else◌,
}
use nxos_dhcp6_exporter.Prelude.Int.{pos, eqb_ℤ, to_size_t}
use nxos_dhcp6_exporter.Outcome.{Outcome, ok, raised, fault, ◌>>=◌, ◌>>◌}
use nxos_dhcp6_exporter.Json.{JsonApi}
use nxos_dhcp6_exporter.JsonRpc.{create_request_from_commands}
use nxos_dhcp6_exporter.Nxos.{UptimeResponse}
use nxos_dhcp6_exporter.Nxos.Parse.{uptime_from_json}
use nxos_dhcp6_exporter.Run.{
  ResponseError, success, Reply, Request, Log, heartbeat_failed, heartbeat_restored_connection,
}
use nxos_dhcp6_exporter.Mgmt.Commands.{endpoint_name}
use nxos_dhcp6_exporter.Mgmt.Lookup.{front_of, front_response}
use nxos_dhcp6_exporter.Mgmt.Send.{rethrow}

-- The handlers that are set, the interval, and the fields of NXOSHeartbeatService.
pub record Heartbeat : Type 0 where
  pub has_failed_handler : Bool
  pub has_restored_handler : Bool
  pub heartbeat_interval_secs : ℕ
  pub prev_uptime_secs : ℕ
  pub prev_lost_connection : Bool

-- What a step does besides changing the fields.
pub data Action : Type 0 where
  writes : Log → Action
  calls_failed_handler calls_restored_handler : Action
  cancels_timer : Action
  sets_timer : (milliseconds : ℕ) → Action

abbrev set_timer : Heartbeat → Action
set_timer h = sets_timer (h.heartbeat_interval_secs * 1000 % 2 ^ 64)

-- startService, after the HTTP client is started
unfoldable pub start_service : Heartbeat → Heartbeat × List Action
start_service h = (record h { prev_lost_connection = true; prev_uptime_secs = 0 }, set_timer h ∷ [])

-- handlerFailedCallback
unfoldable pub handler_failed_callback : Heartbeat → Heartbeat
handler_failed_callback h = record h { prev_lost_connection = true }

-- getUptimeSecondsFromResponse, in 64-bit unsigned arithmetic
unfoldable pub uptime_seconds : UptimeResponse → ℕ
uptime_seconds response =
    (to_size_t response.kern_uptm_secs
      + to_size_t response.kern_uptm_mins * 60
      + to_size_t response.kern_uptm_hrs * 3600
      + to_size_t response.kern_uptm_days * 86400)
    % 2 ^ 64

abbrev when : Bool → Action → List Action
when true a = a ∷ []
when false a = []

-- The callback after a failed check.
unfoldable pub on_failure : Heartbeat → Heartbeat × List Action
on_failure h = (
  record h { prev_lost_connection = true },
  writes heartbeat_failed ∷ when h.has_failed_handler calls_failed_handler,
)

-- The handler of a restored connection, with the message before it.
abbrev restored_actions : Bool → List Action
restored_actions true = writes heartbeat_restored_connection ∷ calls_restored_handler ∷ []
restored_actions false = []

-- The callback after a check that passed, with the new uptime.
unfoldable pub on_uptime : Heartbeat → ℕ → Heartbeat × List Action
on_uptime h uptime =
    if h.prev_lost_connection || ltb uptime h.prev_uptime_secs
    then (
      record h { prev_uptime_secs = 0; prev_lost_connection = false },
      cancels_timer ∷ restored_actions h.has_restored_handler ++ set_timer h ∷ [],
    )
    else (record h { prev_uptime_secs = uptime; prev_lost_connection = false }, [])

module _ (api : JsonApi) where
  open api use {Json, key_or_insert}

  -- The try block of checkForFailedConnectionOrRPCResponse.
  unfoldable pub read_uptime : Reply Json → Outcome UptimeResponse
  unfolding front_of
  read_uptime reply = do
    rethrow reply.json_rpc_exception
    r ← front_response api "response must be not empty" reply
    body ← key_or_insert r.result "body"
    uptime_from_json api body

  abbrev catch_all : Outcome UptimeResponse → Outcome (Option UptimeResponse)
  catch_all (ok uptime) = ok (some uptime)
  catch_all (raised e) = ok none
  catch_all (fault u) = fault u

  -- The transport and the status are tested before the body is read.
  abbrev check_transport :
      ResponseError → Bool → Outcome (Option UptimeResponse) → Outcome (Option UptimeResponse)
  check_transport success true rest = rest
  check_transport _ _ rest = ok none

  -- checkForFailedConnectionOrRPCResponse: `none` is its result true
  unfoldable pub check_reply : Reply Json → Outcome (Option UptimeResponse)
  unfolding read_uptime
  check_reply reply =
      check_transport reply.response_error (eqb_ℤ reply.status_code (pos 200))
        (catch_all (read_uptime reply))

  abbrev pub on_checked : Heartbeat → Option UptimeResponse → Heartbeat × List Action
  on_checked h none = on_failure h
  on_checked h (some uptime) = on_uptime h (uptime_seconds uptime)

  -- The callback of heartbeatLoop.
  unfoldable pub on_reply : Heartbeat → Reply Json → Outcome (Heartbeat × List Action)
  unfolding check_reply on_failure on_uptime
  on_reply h reply = do checked ← check_reply reply; ok (on_checked h checked)

  -- The request of heartbeatLoop: the interval in seconds is its timeout.
  unfoldable pub heartbeat_request : Heartbeat → Request Json
  heartbeat_request h = record {
    uri = endpoint_name;
    body = create_request_from_commands api ((pos 1, "show version") ∷ []);
    timeout = h.heartbeat_interval_secs;
  }
