-- ===== src/System/Batches.antt =====
-- Requests that are batches of commands for the switch, and the operations that post only such ones.
use nxos_dhcp6_exporter.Prelude.{ℕ, suc, String, ◌≡◌, refl, Option, none, some, List, [], ◌∷◌}
use nxos_dhcp6_exporter.Prelude.Int.{ℤ, pos}
use nxos_dhcp6_exporter.Outcome.{Outcome, ok, raised, fault, Exn, bad_value}
use nxos_dhcp6_exporter.Json.{JsonApi}
use nxos_dhcp6_exporter.JsonRpc.{create_request_from_commands}
use nxos_dhcp6_exporter.Kea.{Kea, Lease, LeaseMgr, find_ia_na_lease}
use nxos_dhcp6_exporter.Nxos.{RouteLookupResponse}
use nxos_dhcp6_exporter.Route.{
  RouteInfo, RouteExport, ia_na_info, ia_pd_info, ia_na_info_fuzzy_remove, ia_pd_info_fuzzy_remove,
  ia_na_fast,
}
use nxos_dhcp6_exporter.Run.{
  Reply, Request, Run, done, throws, faults, logs, posts, reports_failure, skips, ◌▷◌, catching,
  bind_outcome, try_outcome,
}
use nxos_dhcp6_exporter.Mgmt.Lookup.{
  read_route_lookup, relay_interface, lease_interface, lease_nexthop,
}
use nxos_dhcp6_exporter.Mgmt.Send.{
  request, check_reply, handle_route_apply, handle_route_remove, mapping_failed,
  async_lookup_address, post_apply, send_by_type, send_routes_to_switch,
}
use nxos_dhcp6_exporter.Mgmt.Remove.{
  post_remove, post_remove_and_clear, remove_by_lease, remove_routes_from_switch,
}
use nxos_dhcp6_exporter.Service.{export_route, remove_route}

-- The ids count up from a number.
abbrev pub CountsFrom : ℕ → List (ℤ × String) → Type 0
CountsFrom n [] = Unit
CountsFrom n ((id, _) ∷ l) = (id ≡ pos n) × CountsFrom (suc n) l

module _ (api : JsonApi) where
  open api use {Json}

  -- A batch of one command or more, with ids from 1 on, for the endpoint of the switch.
  pub record IsBatch (q : Request Json) : Type 0 where
    pub endpoint : q.uri ≡ "/ins"
    pub first : ℤ × String
    pub others : List (ℤ × String)
    pub body : q.body ≡ create_request_from_commands api (first ∷ others)
    pub counted : CountsFrom 1 (first ∷ others)

  -- All that a handler posts, and all that the callbacks of its requests post, are batches, and no call
  -- of the failure handler is among what they do.
  abbrev pub Sends : Run Json → Type 0
  Sends done = Unit
  Sends (throws e) = Unit
  Sends (faults u) = Unit
  Sends (logs m r) = Sends r
  Sends (posts q f r) = IsBatch q × ((reply : Reply Json) → Sends (f reply)) × Sends r
  Sends (reports_failure r) = ⊥
  Sends (skips r) = Sends r

  pub Sends-▷ : (r k : Run Json) → Sends r → Sends k → Sends (r ▷ k)
  Sends-▷ done k h hk = hk
  Sends-▷ (throws e) k h hk = tt
  Sends-▷ (faults u) k h hk = tt
  Sends-▷ (logs m r) k h hk = Sends-▷ r k h hk
  Sends-▷ (posts q f r) k (hq, hf, h) hk = (hq, hf, Sends-▷ r k h hk)
  Sends-▷ (reports_failure r) k h hk = h
  Sends-▷ (skips r) k h hk = Sends-▷ r k h hk

  pub Sends-catching :
      (g : Exn → Run Json) (r : Run Json)
      → ((e : Exn) → Sends (g e))
      → Sends r
      → Sends (catching g r)
  Sends-catching g done hg h = tt
  Sends-catching g (throws e) hg h = hg e
  Sends-catching g (faults u) hg h = tt
  Sends-catching g (logs m r) hg h = Sends-catching g r hg h
  Sends-catching g (posts q f r) hg (hq, hf, h) = (hq, hf, Sends-catching g r hg h)
  Sends-catching g (reports_failure r) hg h = h
  Sends-catching g (skips r) hg h = Sends-catching g r hg h

  pub Sends-bind_outcome {ℓ} :
      {A : Type ℓ} (o : Outcome A) (k : A → Run Json)
      → ((a : A) → Sends (k a))
      → Sends (bind_outcome o k)
  Sends-bind_outcome (ok a) k h = h a
  Sends-bind_outcome (raised e) k h = tt
  Sends-bind_outcome (fault u) k h = tt

  Sends-try_outcome {ℓ} :
      {A : Type ℓ} (o : Outcome A) (g : Exn → Run Json) (k : A → Run Json)
      → ((e : Exn) → Sends (g e))
      → ((a : A) → Sends (k a))
      → Sends (try_outcome o g k)
  Sends-try_outcome (ok a) g k hg h = h a
  Sends-try_outcome (raised e) g k hg h = hg e
  Sends-try_outcome (fault u) g k hg h = tt

  pub request-IsBatch : (c : String) → IsBatch (request api ((pos 1, c) ∷ []))
  unfolding request
  request-IsBatch c = record {
    endpoint = refl;
    first = (pos 1, c);
    others = [];
    body = refl;
    counted = (refl, tt);
  }

  Sends-route_apply :
      (src dst : String) (reply : Reply Json) → Sends (handle_route_apply api src dst reply)
  unfolding handle_route_apply
  Sends-route_apply src dst reply =
      Sends-try_outcome (check_reply api reply) _ _ (λ e. tt) (λ a. tt)

  Sends-route_remove :
      (src dst : String) (reply : Reply Json) → Sends (handle_route_remove api src dst reply)
  unfolding handle_route_remove
  Sends-route_remove src dst reply =
      Sends-try_outcome (check_reply api reply) _ _ (λ e. tt) (λ a. tt)

  Sends-mapping_failed : (e : Exn) → Sends (mapping_failed api e)
  Sends-mapping_failed (bad_value s) = tt
  Sends-mapping_failed _ = tt

  Sends-async_lookup_address :
      (c : String) (k : RouteLookupResponse → Run Json)
      → ((l : RouteLookupResponse) → Sends (k l))
      → Sends (async_lookup_address api c k)
  unfolding async_lookup_address
  Sends-async_lookup_address c k h = (
    request-IsBatch _,
    (λ reply. Sends-try_outcome (read_route_lookup api reply) _ k (λ e. tt) h),
    tt,
  )

  Sends-post_apply : (src dst : String) → Sends (post_apply api src dst)
  unfolding post_apply
  Sends-post_apply src dst = (request-IsBatch _, Sends-route_apply src dst, tt)

  Sends-post_remove : (src dst : String) → Sends (post_remove api src dst)
  unfolding post_remove
  Sends-post_remove src dst = (request-IsBatch _, Sends-route_remove src dst, tt)

  Sends-post_remove_and_clear : (src dst : String) → Sends (post_remove_and_clear api src dst)
  unfolding post_remove_and_clear request
  Sends-post_remove_and_clear src dst = (
    record { endpoint = refl; first = _; others = _; body = refl; counted = (refl, (refl, tt)) },
    Sends-route_remove src dst,
    tt,
  )

  module _ (kea : Kea) (db : LeaseMgr kea.HwAddr) where
    open kea use {HwAddr}

    Sends-send_by_type : (route : RouteInfo) → Sends (send_by_type api kea route)
    unfolding send_by_type
    Sends-send_by_type (ia_na_info vlan addr) = Sends-async_lookup_address _ _ (λ l.
        Sends-try_outcome (relay_interface l) _ _ Sends-mapping_failed
          (λ name. Sends-post_apply _ _))
    Sends-send_by_type (ia_na_fast name addr) = Sends-post_apply _ _
    Sends-send_by_type (ia_pd_info dst prefix length) = Sends-post_apply _ _
    Sends-send_by_type _ = tt

    pub Sends-send_routes : (route : RouteInfo) → Sends (send_routes_to_switch api kea route)
    unfolding send_routes_to_switch
    Sends-send_routes route =
        Sends-catching _ (send_by_type api kea route) (λ e. tt) (Sends-send_by_type route)

    pub Sends-export_route : (r : RouteExport) → Sends (export_route api kea r)
    unfolding export_route
    Sends-export_route r = Sends-send_routes r.route_info

    Sends-remove_by_lease :
        (src : String) (o : Option (Lease HwAddr)) → Sends (remove_by_lease api kea src o)
    unfolding remove_by_lease
    Sends-remove_by_lease src (some lease) = Sends-post_remove _ _
    Sends-remove_by_lease src none =
        Sends-async_lookup_address _ _
          (λ l. Sends-bind_outcome (lease_nexthop l) _ (λ name. Sends-post_remove _ _))

    Sends-remove_by_route :
        (route : RouteInfo) (r : RouteExport)
        → r.route_info ≡ route
        → Sends (remove_routes_from_switch api kea db r)
    unfolding remove_routes_from_switch
    Sends-remove_by_route (ia_na_info vlan addr) r e = rw e (
        Sends-async_lookup_address _ _ (λ l.
          Sends-try_outcome (relay_interface l) _ _ Sends-mapping_failed
            (λ name. Sends-post_remove_and_clear _ _)))
    Sends-remove_by_route (ia_pd_info dst prefix length) r e = rw e (Sends-post_remove _ _)
    Sends-remove_by_route (ia_na_info_fuzzy_remove addr) r e = rw e (
        Sends-async_lookup_address _ _
          (λ l. Sends-bind_outcome (lease_interface l) _ (λ name. Sends-post_remove_and_clear _ _)))
    Sends-remove_by_route (ia_pd_info_fuzzy_remove prefix length) r e =
        rw e (Sends-remove_by_lease _ (find_ia_na_lease db r.duid r.iaid))
    Sends-remove_by_route (ia_na_fast name addr) r e = rw e tt

    pub Sends-remove_route : (r : RouteExport) → Sends (remove_route api kea db r)
    unfolding remove_route
    Sends-remove_route r = Sends-remove_by_route r.route_info r refl
