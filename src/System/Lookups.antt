-- ===== src/System/Lookups.antt =====
-- Lookups of the relay's interface among the requests that wait, and what follows their answers.
use Prim.Native.String.{◌++◌ as ◌+++◌}
use nxos_dhcp6_exporter.Prelude.{ℕ, List, some, String, ◌≡◌, refl, [], ◌∷◌, ◌++◌, ap}
use nxos_dhcp6_exporter.Prelude.Int.{pos}
use nxos_dhcp6_exporter.Outcome.{ok}
use nxos_dhcp6_exporter.Json.{JsonApi}
use nxos_dhcp6_exporter.Kea.{Kea, IoAddress, LeaseMgr}
use nxos_dhcp6_exporter.Nxos.{RouteLookupResponse}
use nxos_dhcp6_exporter.Run.{
  Reply, Request, Run, done, logs, posts, try_outcome, response_parse_error,
}
use nxos_dhcp6_exporter.Mgmt.Commands.{
  apply_route_command, remove_nd_cache_command, lookup_address_command, host_text,
}
use nxos_dhcp6_exporter.Mgmt.Lookup.{read_route_lookup, relay_interface}
use nxos_dhcp6_exporter.Mgmt.Send.{
  mapping_failed, request, handle_route_apply, handle_route_remove, post_apply,
}
use nxos_dhcp6_exporter.Mgmt.Remove.{post_remove_and_clear}
use nxos_dhcp6_exporter.Mgmt.Undo.{remove-apply}
use nxos_dhcp6_exporter.Service.{Config}
use nxos_dhcp6_exporter.Http.{HttpResult, Delivered, on_result}
use nxos_dhcp6_exporter.System.{Pending, call, System, take_out, perform, answers, call_back, step}
use nxos_dhcp6_exporter.System.Recovery.{write_some-keeps}

module _ (api : JsonApi) (kea : Kea) (db : LeaseMgr kea.HwAddr) (cfg : Config) where
  open api use {Json}
  open kea use {HwAddr}

  -- The answer to the lookup of the relay's address that names this interface.
  pub record IsNamed (result : HttpResult) (name : String) : Type 0 where
    pub delivered : Delivered api
    pub got : on_result api result ≡ ok delivered
    pub lookup : RouteLookupResponse
    pub readable : read_route_lookup api delivered.reply ≡ ok lookup
    pub named : relay_interface lookup ≡ ok name

  -- The request that sets the route of an address, and the one that removes it.
  abbrev pub set_call : (src name : String) → Pending Json
  set_call src name =
      call (request api ((pos 1, apply_route_command src name) ∷ []))
        (handle_route_apply api src name)

  abbrev pub remove_call : (src name : String) → Pending Json
  remove_call src name =
      call
        (request api (
          (pos 1, "no " +++ apply_route_command src name)
          ∷ (pos 2, remove_nd_cache_command name)
          ∷ []))
        (handle_route_remove api src name)

  -- The request of a lookup, with what follows a readable answer.
  abbrev lookup_call : String → (RouteLookupResponse → Run Json) → Pending Json
  lookup_call address next =
      call (request api ((pos 1, lookup_address_command address) ∷ [])) (λ reply.
        try_outcome (read_route_lookup api reply) (λ _. logs response_parse_error done) next)

  -- The lookup before an address is set behind a relay, and the one before it is removed.
  abbrev pub lookup_set : (relay addr : IoAddress) → Pending Json
  lookup_set relay addr = lookup_call (host_text kea relay) (λ l.
      try_outcome (relay_interface l) (mapping_failed api) (post_apply api (host_text kea addr)))

  abbrev pub lookup_remove : (relay addr : IoAddress) → Pending Json
  lookup_remove relay addr = lookup_call (host_text kea relay) (λ l.
      try_outcome (relay_interface l) (mapping_failed api)
        (post_remove_and_clear api (host_text kea addr)))

  -- A lookup that is answered, where what follows posts one request.
  looked_up :
      (t : System Json) (n : ℕ) (rest : List (Pending Json)) (address name : String)
      (next : RouteLookupResponse → Run Json) (q : Request Json) (f : Reply Json → Run Json)
      (result : HttpResult) (h : IsNamed result name)
      → take_out n t.waiting ≡ some (lookup_call address next, rest)
      → next h.lookup ≡ posts q f done
      → let end = step api kea db cfg (answers n result) t in
        (end.waiting ≡ rest ++ call q f ∷ []) × (end.heartbeat ≡ t.heartbeat)
  unfolding step call_back perform
  looked_up t n rest address name next q f result h at_n posts_one =
      let (kh, kw) =
        write_some-keeps api kea db cfg h.delivered.log (record t { waiting = rest }) in
      rw (at_n, h.got, h.readable, posts_one) (ap (λ l. l ++ call q f ∷ []) kw, kh)

  -- The answer to such a lookup that names an interface leaves the request of that interface.
  pub set_follows :
      (t : System Json) (n : ℕ) (rest : List (Pending Json)) (relay addr : IoAddress)
      (name : String) (result : HttpResult)
      → IsNamed result name
      → take_out n t.waiting ≡ some (lookup_set relay addr, rest)
      → let end = step api kea db cfg (answers n result) t in
        (end.waiting ≡ rest ++ set_call (host_text kea addr) name ∷ [])
        × (end.heartbeat ≡ t.heartbeat)
  unfolding post_apply
  set_follows t n rest relay addr name result h at_n =
      looked_up t n rest (host_text kea relay) name _ _ _ result h at_n (rw h.named refl)

  pub remove_follows :
      (t : System Json) (n : ℕ) (rest : List (Pending Json)) (relay addr : IoAddress)
      (name : String) (result : HttpResult)
      → IsNamed result name
      → take_out n t.waiting ≡ some (lookup_remove relay addr, rest)
      → let end = step api kea db cfg (answers n result) t in
        (end.waiting ≡ rest ++ remove_call (host_text kea addr) name ∷ [])
        × (end.heartbeat ≡ t.heartbeat)
  unfolding post_remove_and_clear
  remove_follows t n rest relay addr name result h at_n =
      looked_up t n rest (host_text kea relay) name _ _ _ result h at_n
        (rw (h.named, ← remove-apply (host_text kea addr) name) refl)
