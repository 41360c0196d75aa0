-- ===== src/Mgmt/Status.antt =====
-- When a route counts as applied or removed (handleRouteApply and handleRouteRemove).
use nxos_dhcp6_exporter.Prelude.{
  String, ◌≡◌, ◌≢◌, ◌↔◌, ◌⊎◌, inl, inr, refl, Option, none, some, List, [], ◌∷◌, arith,
}
use nxos_dhcp6_exporter.Prelude.Int.{ℤ, pos, negsuc}
use nxos_dhcp6_exporter.Outcome.{ok, raised, Exn, unexpected, NoFault, NoFault-cases}
use nxos_dhcp6_exporter.Json.{JsonApi}
use nxos_dhcp6_exporter.JsonRpc.{JsonRpcResponse}
use nxos_dhcp6_exporter.Run.{
  ResponseError, success, Reply, logs, done, route_apply_failed, route_apply_success,
  route_remove_failed, route_remove_success,
}
use nxos_dhcp6_exporter.Mgmt.Lookup.{front_of}
use nxos_dhcp6_exporter.Mgmt.Send.{
  check_transport, check_status, check_reply, handle_route_apply, handle_route_remove,
}

module _ (api : JsonApi) where
  open api use {Json}

  -- The reply that counts as a success: the transport did not fail, there is a response, the status is
  -- 200, or it is another one but 401 and no JSON-RPC exception came with it. The status 500 is none of its
  -- own: the case of the source falls through to that of every other status.
  pub record IsSuccess (reply : Reply Json) : Type 0 where
    pub transport : reply.response_error ≡ success
    pub some_response : (reply.response ≢ none) × (reply.response ≢ some [])
    pub status :
        (reply.status_code ≡ pos 200)
        ⊎ ((reply.status_code ≢ pos 401) × (reply.json_rpc_exception ≡ none))

  transport_iff : (e : ResponseError) → (check_transport api e ≡ ok tt) ↔ (e ≡ success)
  unfolding check_transport
  transport_iff e = (ground arith, ground arith)

  status_iff :
      (code : ℤ) (x : Option Exn)
      → (check_status api code x ≡ ok tt) ↔ ((code ≡ pos 200) ⊎ ((code ≢ pos 401) × (x ≡ none)))
  unfolding check_status
  status_iff (pos n) none = (ground arith, ground arith)
  status_iff (pos n) (some e) = (ground arith, ground arith)
  status_iff (negsuc n) none = (ground arith, ground arith)
  status_iff (negsuc n) (some e) = (ground arith, ground arith)

  front_cases :
      (message : String) (o : Option (List (JsonRpcResponse Json)))
      → ((r : JsonRpcResponse Json) × (front_of api message o ≡ ok r) × (o ≢ none) × (o ≢ some []))
        ⊎ ((front_of api message o ≡ raised (unexpected message)) × ((o ≡ none) ⊎ (o ≡ some [])))
  unfolding front_of
  front_cases message none = inr (refl, inl refl)
  front_cases message (some []) = inr (refl, inr refl)
  front_cases message (some (r ∷ l)) = inl (r, refl, λ h. cc, λ h. cc)

  check_reply_iff : (reply : Reply Json) → (check_reply api reply ≡ ok tt) ↔ IsSuccess reply
  unfolding check_reply
  check_reply_iff reply =
      let (t_there, t_back) = transport_iff reply.response_error in
      let (s_there, s_back) = status_iff reply.status_code reply.json_rpc_exception in
      let cases = front_cases "response must be not empty" reply.response in
      (λ h. ground (arith, t_there, s_there, cases), λ h. ground (arith, t_back, s_back, cases))

  transport-NoFault : (e : ResponseError) → NoFault (check_transport api e)
  unfolding check_transport
  transport-NoFault success u h = cc
  transport-NoFault _ u h = cc

  status-NoFault : (code : ℤ) (x : Option Exn) → NoFault (check_status api code x)
  unfolding check_status
  status-NoFault code none u h = ground arith
  status-NoFault code (some x) u h = ground arith

  front-NoFault :
      (message : String) (o : Option (List (JsonRpcResponse Json)))
      → NoFault (front_of api message o)
  unfolding front_of
  front-NoFault message none u h = cc
  front-NoFault message (some []) u h = cc
  front-NoFault message (some (r ∷ l)) u h = cc

  check_reply-NoFault : (reply : Reply Json) → NoFault (check_reply api reply)
  unfolding check_reply
  check_reply-NoFault reply u h = ground (
    arith,
    transport-NoFault reply.response_error u,
    status-NoFault reply.status_code reply.json_rpc_exception u,
    front-NoFault "response must be not empty" reply.response u,
  )

  -- The message that each of the two handlers writes, and no other effect: success for the replies of
  -- `IsSuccess`, failure for every other one. So a reply with the status 500 and a JSON-RPC exception is a
  -- failure, like one with any other status but 200.
  pub route_result :
      (src dst : String) (reply : Reply Json)
      → (IsSuccess reply
          × (handle_route_apply api src dst reply ≡ logs (route_apply_success src dst) done)
          × (handle_route_remove api src dst reply ≡ logs (route_remove_success src dst) done))
        ⊎ ((¬ IsSuccess reply)
            × (handle_route_apply api src dst reply ≡ logs (route_apply_failed src dst) done)
            × (handle_route_remove api src dst reply ≡ logs (route_remove_failed src dst) done))
  unfolding handle_route_apply handle_route_remove
  route_result src dst reply =
      elim (NoFault-cases (check_reply api reply) (check_reply-NoFault reply)) [
        | inl (_, e) ↦ inl ((check_reply_iff reply).0 e, rw e, rw e)
        | inr (x, e) ↦ inr (λ s. cc (e, (check_reply_iff reply).1 s), rw e, rw e)
      ]
