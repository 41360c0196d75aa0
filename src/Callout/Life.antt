-- ===== src/Callout/Life.antt =====
-- How loading, configuring and the lease callouts end (src/callout.cpp).
use nxos_dhcp6_exporter.Prelude.{ℕ, ◌≡◌, ◌≢◌, refl, true, Option, none, some, List, [], ◌∷◌, arith}
use nxos_dhcp6_exporter.Outcome.{ok, raised, Exn}
use nxos_dhcp6_exporter.Params.{ConfigApi, https}
use nxos_dhcp6_exporter.Run.{
  Run, done, throws, faults, logs, posts, reports_failure, skips, Request, init_failed,
  load as load_message,
}
use nxos_dhcp6_exporter.Callout.{
  lease_callout, af_inet6, Service, Exporter, configure_and_init_client, load, dhcp6_srv_configured,
  aborts,
}

-- The exception that a handler ends with; the callbacks that it posts run later.
abbrev pub escapes : {J : Type 0} → Run J → Option Exn
escapes done = none
escapes (throws e) = some e
escapes (faults u) = none
escapes (logs m r) = escapes r
escapes (posts q f r) = escapes r
escapes (reports_failure r) = escapes r
escapes (skips r) = escapes r

-- The requests that a handler posts, in order.
abbrev pub posted : {J : Type 0} → Run J → List (Request J)
posted done = []
posted (throws e) = []
posted (faults u) = []
posted (logs m r) = posted r
posted (posts q f r) = q ∷ posted r
posted (reports_failure r) = posted r
posted (skips r) = posted r

-- A lease callout lets no exception of its handler out to Kea, and posts what the handler posts.
pub callout_contains :
    {J : Type 0} (r : Run J)
    → (escapes (lease_callout r) ≡ none) × (posted (lease_callout r) ≡ posted r)
unfolding lease_callout
callout_contains done = (refl, refl)
callout_contains (throws e) = (refl, refl)
callout_contains (faults u) = (refl, refl)
callout_contains (logs m r) = callout_contains r
callout_contains (posts q f r) = let h = callout_contains r in (h.0, rw h.1)
callout_contains (reports_failure r) = callout_contains r
callout_contains (skips r) = callout_contains r

module _ (c : ConfigApi) where
  open c use {Element, scheme}

  -- A configuration that is complete and valid, with an HTTPS host, loads with the result 0. The callout
  -- after it then aborts the server.
  pub https_aborts :
      (impl : Exporter c) (type params : Option Element) (s : Service c)
      → configure_and_init_client c type params ≡ ok s
      → scheme s.client.url ≡ https
      → (load c impl af_inet6 type params
          ≡ ok (record { impl = some (some s); result = 0; message = load_message }))
        × (dhcp6_srv_configured c (some (some s)) true ≡ aborts)
  unfolding load dhcp6_srv_configured
  https_aborts impl type params s h e = (rw h, rw e)

  -- In another family than AF_INET6, `load` returns 1 and leaves `impl` alone; with a configuration
  -- that throws, it returns 1 with an implementation that has no service.
  pub load_refuses :
      (impl : Exporter c) (family : ℕ) (type params : Option Element) (x : Exn)
      → (family ≢ af_inet6
          → load c impl family type params
            ≡ ok (record { impl = impl; result = 1; message = init_failed }))
        × (configure_and_init_client c type params ≡ raised x
            → load c impl af_inet6 type params
              ≡ ok (record { impl = some none; result = 1; message = init_failed }))
  unfolding load
  load_refuses impl family type params x = (λ h. ground arith, λ h. rw h)
