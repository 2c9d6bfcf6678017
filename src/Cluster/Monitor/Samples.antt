-- ===== src/Cluster/Monitor/Samples.antt =====
-- A group of two services, one of which lacks a replica.
use provider.Base.{◌≡◌, refl, true, false, some, List, [], ◌∷◌, arith, ℕ-eq, Bytes, Bytes-eq, codes}
use provider.Base.Map.{Map, get}
use provider.Base.Int.{pos, ℤ}
use provider.Cluster.Monitor.{
  close_lease, schedule_retry, pending, publish_status, run_check, uint32, report, service_ok,
  on_check_result, bad_services, ServiceSpec, do_check, Config, handle, run, start, Fits,
}
use provider.Cluster.Monitor.Retries.{retries_lem, closes, fails}

abbrev specs : List ServiceSpec
specs =
    record { name = codes "web"; replicas = 2 } ∷ record { name = codes "db"; replicas = 1 } ∷ []

abbrev reported : Map Bytes ℤ
reported = (codes "db", pos 1) ∷ (codes "web", pos 1) ∷ []

web_lacks : do_check specs (some reported) ≡ false
unfolding do_check bad_services service_ok uint32 get
web_lacks = refl

abbrev config : Config
config = record { max_retries = 2; has_healthcheck = true }

retries_effects :
    (run config start (fails 3)).effects
    ≡ run_check
      ∷ publish_status pending
      ∷ schedule_retry
      ∷ run_check
      ∷ schedule_retry
      ∷ run_check
      ∷ close_lease
      ∷ []
unfolding run handle on_check_result report start
retries_effects = refl

start-fresh : (start.attempts ≡ 0) × (start.tickch ≡ true)
unfolding start
start-fresh = (refl, refl)

retries_lem_example :
    (closes (run config start (fails 1)).effects ≡ 0)
    × (closes (run config start (fails 3)).effects ≡ 1)
    × Fits config start (fails 3)
retries_lem_example =
    retries_lem config start 1 (omega arith) start-fresh.0 start-fresh.1 (omega arith)
