-- ===== src/Tests/Outage.antt =====
-- The theorem on a switch that gives no result, at a concrete input.
use nxos_dhcp6_exporter.Prelude.{ℕ, ◌≡◌, refl, none, List, [], ◌∷◌}
use nxos_dhcp6_exporter.Http.{failed, map_error}
use nxos_dhcp6_exporter.Http.Errors.{HttplibError}
use nxos_dhcp6_exporter.Service.{restore_leases_from_database}
use nxos_dhcp6_exporter.Mgmt.Neighbor.{async_get_mapping}
use nxos_dhcp6_exporter.System.{Stimulus, ticks, happens, answers, expires, run}
use nxos_dhcp6_exporter.System.Defined.{
  GivesNothing, failed-GivesNothing, lookup-IsSafe, unreachable_switch_defined,
}
use nxos_dhcp6_exporter.Tests.Data.{sample_kea}
use nxos_dhcp6_exporter.Tests.Switch.{api, seen_lease, db, config, restoring}

-- The lookup of a restoration fails, then a lease expires, and its request and a check fail.
abbrev outage : List (Stimulus ℕ)
outage =
    answers 0 (failed HttplibError.connection)
    ∷ happens (expires seen_lease)
    ∷ ticks
    ∷ answers 1 (failed HttplibError.read)
    ∷ answers 0 (failed HttplibError.canceled)
    ∷ []

no_connection : GivesNothing api sample_kea db config (failed HttplibError.connection)
unfolding map_error
no_connection = failed-GivesNothing api sample_kea db config HttplibError.connection (λ e. cc)

no_read : GivesNothing api sample_kea db config (failed HttplibError.read)
unfolding map_error
no_read = failed-GivesNothing api sample_kea db config HttplibError.read (λ e. cc)

no_longer : GivesNothing api sample_kea db config (failed HttplibError.canceled)
unfolding map_error
no_longer = failed-GivesNothing api sample_kea db config HttplibError.canceled (λ e. cc)

unreachable_switch_defined_example :
    (run api sample_kea db config outage restoring).undefined ≡ none
unfolding restore_leases_from_database async_get_mapping
unreachable_switch_defined_example =
    unreachable_switch_defined api sample_kea db config outage restoring
      (no_connection, (tt, (tt, (no_read, (no_longer, tt))))) refl
      (lookup-IsSafe api sample_kea db config, tt)
