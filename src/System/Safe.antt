-- ===== src/System/Safe.antt =====
-- Operations whose behaviour is defined, as long as no answer to what they post brings a result.
use nxos_dhcp6_exporter.Prelude.{
  arith, String, ◌≡◌, ◌≢◌, ◌⊎◌, refl, Option, none, some, List, [], ◌∷◌,
}
use nxos_dhcp6_exporter.Prelude.Int.{ℤ}
use nxos_dhcp6_exporter.Outcome.{Outcome, ok, raised, fault, Exn, NoFault, NoFault-bind}
use nxos_dhcp6_exporter.Json.{JsonApi}
use nxos_dhcp6_exporter.Kea.{Kea, Lease, LeaseMgr, find_ia_na_lease}
use nxos_dhcp6_exporter.Nxos.{RouteLookupResponse}
use nxos_dhcp6_exporter.JsonRpc.{JsonRpcResponse}
use nxos_dhcp6_exporter.Route.{
  RouteInfo, RouteExport, ia_na_info, ia_pd_info, ia_na_info_fuzzy_remove, ia_pd_info_fuzzy_remove,
  ia_na_fast,
}
use nxos_dhcp6_exporter.Run.{
  ResponseError, success, Reply, Run, done, throws, faults, logs, posts, reports_failure, skips,
  ◌▷◌, catching, bind_outcome, try_outcome,
}
use nxos_dhcp6_exporter.Mgmt.Commands.{host_text}
use nxos_dhcp6_exporter.Mgmt.Lookup.{front_of, read_route_lookup}
use nxos_dhcp6_exporter.Mgmt.Send.{
  check_transport, check_status, check_reply, handle_route_apply, handle_route_remove,
  async_lookup_address, post_apply, send_by_type, send_routes_to_switch,
}
use nxos_dhcp6_exporter.Mgmt.Remove.{post_remove, remove_by_lease, remove_routes_from_switch}
use nxos_dhcp6_exporter.Service.{export_route, remove_route}

module _ (api : JsonApi) where
  open api use {Json}

  -- A reply without a response: of a transport that failed, or of a JSON-RPC error.
  abbrev pub IsEmptyReply : Reply Json → Type 0
  IsEmptyReply reply =
      (reply.response ≡ some [])
      × ((reply.response_error ≢ success) ⊎ (reply.json_rpc_exception ≢ none))

  -- The behaviour is defined, and so is that of the callbacks for such replies.
  abbrev pub IsSafe : Run Json → Type 0
  IsSafe done = Unit
  IsSafe (throws e) = Unit
  IsSafe (faults u) = ⊥
  IsSafe (logs m r) = IsSafe r
  IsSafe (posts q f r) = ((reply : Reply Json) → IsEmptyReply reply → IsSafe (f reply)) × IsSafe r
  IsSafe (reports_failure r) = IsSafe r
  IsSafe (skips r) = IsSafe r

  pub IsSafe-▷ : (r k : Run Json) → IsSafe r → IsSafe k → IsSafe (r ▷ k)
  IsSafe-▷ done k h hk = hk
  IsSafe-▷ (throws e) k h hk = tt
  IsSafe-▷ (faults u) k h hk = h
  IsSafe-▷ (logs m r) k h hk = IsSafe-▷ r k h hk
  IsSafe-▷ (posts q f r) k (hf, h) hk = (hf, IsSafe-▷ r k h hk)
  IsSafe-▷ (reports_failure r) k h hk = IsSafe-▷ r k h hk
  IsSafe-▷ (skips r) k h hk = IsSafe-▷ r k h hk

  pub IsSafe-catching :
      (g : Exn → Run Json) (r : Run Json)
      → ((e : Exn) → IsSafe (g e))
      → IsSafe r
      → IsSafe (catching g r)
  IsSafe-catching g done hg h = tt
  IsSafe-catching g (throws e) hg h = hg e
  IsSafe-catching g (faults u) hg h = h
  IsSafe-catching g (logs m r) hg h = IsSafe-catching g r hg h
  IsSafe-catching g (posts q f r) hg (hf, h) = (hf, IsSafe-catching g r hg h)
  IsSafe-catching g (reports_failure r) hg h = IsSafe-catching g r hg h
  IsSafe-catching g (skips r) hg h = IsSafe-catching g r hg h

  pub IsSafe-bind_outcome {ℓ} :
      {A : Type ℓ} (o : Outcome A) (k : A → Run Json)
      → NoFault o
      → ((a : A) → o ≡ ok a → IsSafe (k a))
      → IsSafe (bind_outcome o k)
  IsSafe-bind_outcome (ok a) k defined h = h a refl
  IsSafe-bind_outcome (raised e) k defined h = tt
  IsSafe-bind_outcome (fault u) k defined h = absurd (defined u refl)

  IsSafe-try_outcome {ℓ} :
      {A : Type ℓ} (o : Outcome A) (g : Exn → Run Json) (k : A → Run Json)
      → NoFault o
      → ((e : Exn) → IsSafe (g e))
      → ((a : A) → IsSafe (k a))
      → IsSafe (try_outcome o g k)
  IsSafe-try_outcome (ok a) g k defined hg h = h a
  IsSafe-try_outcome (raised e) g k defined hg h = hg e
  IsSafe-try_outcome (fault u) g k defined hg h = absurd (defined u refl)

  -- The check of the answers to routes never has undefined behaviour.
  NoFault-transport : (e : ResponseError) → NoFault (check_transport api e)
  unfolding check_transport
  NoFault-transport e u h = ground arith

  NoFault-status : (code : ℤ) (x : Option Exn) → NoFault (check_status api code x)
  unfolding check_status
  NoFault-status code x u h = ground arith

  NoFault-front :
      (message : String) (o : Option (List (JsonRpcResponse Json)))
      → NoFault (front_of api message o)
  unfolding front_of
  NoFault-front message none u h = cc
  NoFault-front message (some []) u h = cc
  NoFault-front message (some (r ∷ l)) u h = cc

  NoFault-check_reply : (reply : Reply Json) → NoFault (check_reply api reply)
  unfolding check_reply
  NoFault-check_reply reply =
      NoFault-bind (check_transport api reply.response_error) _
        (NoFault-transport reply.response_error)
        (λ _.
          NoFault-bind (check_status api reply.status_code reply.json_rpc_exception) _
            (NoFault-status reply.status_code reply.json_rpc_exception)
            (λ _.
              NoFault-bind (front_of api "response must be not empty" reply.response) _
                (NoFault-front "response must be not empty" reply.response) (λ a u h. cc)))

  pub IsSafe-post_apply : (src dst : String) → IsSafe (post_apply api src dst)
  unfolding post_apply handle_route_apply
  IsSafe-post_apply src dst = (
    (λ reply empty.
        IsSafe-try_outcome (check_reply api reply) _ _ (NoFault-check_reply reply) (λ e. tt)
          (λ a. tt)),
    tt,
  )

  IsSafe-post_remove : (src dst : String) → IsSafe (post_remove api src dst)
  unfolding post_remove handle_route_remove
  IsSafe-post_remove src dst = (
    (λ reply empty.
        IsSafe-try_outcome (check_reply api reply) _ _ (NoFault-check_reply reply) (λ e. tt)
          (λ a. tt)),
    tt,
  )

  -- The answer to a lookup is read as none, whatever is to follow.
  IsSafe-async_lookup_address :
      (c : String) (k : RouteLookupResponse → Run Json) → IsSafe (async_lookup_address api c k)
  unfolding async_lookup_address read_route_lookup front_of
  IsSafe-async_lookup_address c k = ((λ reply (e, bad). rw e tt), tt)

  module _ (kea : Kea) (db : LeaseMgr kea.HwAddr) where
    open kea use {HwAddr}

    IsSafe-send_by_type : (route : RouteInfo) → IsSafe (send_by_type api kea route)
    unfolding send_by_type
    IsSafe-send_by_type (ia_na_info vlan addr) = IsSafe-async_lookup_address (host_text kea vlan) _
    IsSafe-send_by_type (ia_na_fast name addr) = IsSafe-post_apply _ _
    IsSafe-send_by_type (ia_pd_info dst prefix length) = IsSafe-post_apply _ _
    IsSafe-send_by_type _ = tt

    pub IsSafe-export_route : (r : RouteExport) → IsSafe (export_route api kea r)
    unfolding export_route send_routes_to_switch
    IsSafe-export_route r =
        IsSafe-catching _ (send_by_type api kea r.route_info) (λ e. tt)
          (IsSafe-send_by_type r.route_info)

    IsSafe-remove_by_lease :
        (src : String) (o : Option (Lease HwAddr)) → IsSafe (remove_by_lease api kea src o)
    unfolding remove_by_lease
    IsSafe-remove_by_lease src (some lease) = IsSafe-post_remove _ _
    IsSafe-remove_by_lease src none = IsSafe-async_lookup_address src _

    IsSafe-remove_by_route :
        (route : RouteInfo) (r : RouteExport)
        → r.route_info ≡ route
        → IsSafe (remove_routes_from_switch api kea db r)
    unfolding remove_routes_from_switch
    IsSafe-remove_by_route (ia_na_info vlan addr) r e =
        rw e (IsSafe-async_lookup_address (host_text kea vlan) _)
    IsSafe-remove_by_route (ia_pd_info dst prefix length) r e = rw e (IsSafe-post_remove _ _)
    IsSafe-remove_by_route (ia_na_info_fuzzy_remove addr) r e =
        rw e (IsSafe-async_lookup_address (host_text kea addr) _)
    IsSafe-remove_by_route (ia_pd_info_fuzzy_remove prefix length) r e =
        rw e (IsSafe-remove_by_lease _ (find_ia_na_lease db r.duid r.iaid))
    IsSafe-remove_by_route (ia_na_fast name addr) r e = rw e tt

    pub IsSafe-remove_route : (r : RouteExport) → IsSafe (remove_route api kea db r)
    unfolding remove_route
    IsSafe-remove_route r = IsSafe-remove_by_route r.route_info r refl
