-- ===== src/Run.antt =====
-- What a handler does: it writes log messages and posts requests, each with the callback that gets
-- the reply, and it returns, throws, or has undefined behaviour. A posted callback runs later, on a
-- thread of the HTTP client, and is another handler.
use nxos_dhcp6_exporter.Prelude.{ℕ, String, Option, List}
use nxos_dhcp6_exporter.Prelude.Int.{ℤ}
use nxos_dhcp6_exporter.Outcome.{Outcome, ok, raised, fault, Exn, Fault}
use nxos_dhcp6_exporter.JsonRpc.{JsonRpcResponse}

-- NXOSHttpClient::ResponseError
pub data ResponseError : Type 0 where
  success unknown connection bind_ip_address read write exceed_redirect_count : ResponseError
  canceled ssl_connection ssl_loading_certs ssl_server_verification : ResponseError
  unsupported_multipart_boundary_chars compression connection_timeout : ResponseError
  proxy_connection : ResponseError

-- The arguments of NXOSHttpClient::ResponseHandlerCallback.
pub record Reply (J : Type 0) : Type 0 where
  pub response : Option (List (JsonRpcResponse J))
  pub response_error : ResponseError
  pub status_code : ℤ
  pub json_rpc_exception : Option Exn

-- The arguments of NXOSHttpClient::sendRequest that vary: the path, the body and the timeout.
pub record Request (J : Type 0) : Type 0 where
  pub uri : String
  pub body : J
  pub timeout : ℕ

-- The messages of src/messages.mes that the program writes at the levels ERROR and INFO, with the
-- route that some of them name.
pub data Log : Type 0 where
  init_failed load unload start_service : Log
  update_info_on_device remove_info_on_device : Log
  lease6_select_insert lease6_select_no_ia_na_failed : Log
  route_remove_find_ia_na_lease_failed : Log
  route_reinit_no_hwaddr_failed route_reinit_ia_na_lease_failed : Log
  vlan_addr_mapping_error response_parse_error route_apply_unknown_error : Log
  route_apply_failed route_apply_success : (src dst : String) → Log
  route_remove_failed route_remove_success : (src dst : String) → Log
  update_info_communication_failed json_rpc_validate_error : Log
  heartbeat_failed heartbeat_restored_connection : Log

pub data Run (J : Type 0) : Type 0 where
  done : Run J
  throws : Exn → Run J
  faults : Fault → Run J
  logs : Log → Run J → Run J
  posts : Request J → (Reply J → Run J) → Run J → Run J
  -- The call of a HeartbeatService::HandlerFailedCallback.
  reports_failure : Run J → Run J
  -- handle.setStatus(CalloutHandle::NEXT_STEP_SKIP)
  skips : Run J → Run J

module _ {J : Type 0} where
  -- One statement after another.
  infixr 6 ◌▷◌
  abbrev pub ◌▷◌ : Run J → Run J → Run J
  done ▷ k = k
  throws e ▷ k = throws e
  faults u ▷ k = faults u
  logs m r ▷ k = logs m (r ▷ k)
  posts q f r ▷ k = posts q f (r ▷ k)
  reports_failure r ▷ k = reports_failure (r ▷ k)
  skips r ▷ k = skips (r ▷ k)

  -- A try block and its handler of std::exception; callbacks that it posts are outside of it.
  abbrev pub catching : (Exn → Run J) → Run J → Run J
  catching h done = done
  catching h (throws e) = h e
  catching h (faults u) = faults u
  catching h (logs m r) = logs m (catching h r)
  catching h (posts q f r) = posts q f (catching h r)
  catching h (reports_failure r) = reports_failure (catching h r)
  catching h (skips r) = skips (catching h r)

  -- A computation that may throw, and the statements after it.
  abbrev pub bind_outcome {ℓ} : {A : Type ℓ} → Outcome A → (A → Run J) → Run J
  bind_outcome (ok a) k = k a
  bind_outcome (raised e) k = throws e
  bind_outcome (fault u) k = faults u

  -- The same where the computation stands in a try block and the rest does not.
  abbrev pub try_outcome {ℓ} : {A : Type ℓ} → Outcome A → (Exn → Run J) → (A → Run J) → Run J
  try_outcome (ok a) h k = k a
  try_outcome (raised e) h k = h e
  try_outcome (fault u) h k = faults u
