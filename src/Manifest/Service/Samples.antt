-- ===== src/Manifest/Service/Samples.antt =====
-- A deployment with a lease, then a manifest, then a second lease.
use provider.Base.{ℕ, ◌+◌, ◌≡◌, refl, true, none, List, [], ◌∷◌, ℕ-eq, Bytes-eq, codes}
use provider.Base.Map.{get, put, delete}
use provider.Ids.{LeaseId, OrderId-eq, LeaseId-eq}
use provider.Manifest.Service.{
  try_signal, manager_manifest, stop_watchdog, manager_lease, start_manager, start_watchdog,
  maybe_remove_watchdog, Fits, on_submit, handle_lease, watchdog_done, ensure_manager, submit,
  watch, enabled, lease_won, DeploymentId, DeploymentId-eq, deployment_of, Config, State, Event,
  handle, start, run,
}
use provider.Manifest.Service.Starts.{
  starts_manager, starts_watchdog, total, has_manager, has_watchdog,
}
use provider.Manifest.Service.Lifetimes.{one_at_a_time, all_ends, ends_manager, ends_watchdog}

abbrev config : Config
config = record { provider_address = codes "me"; has_timeout = true }

abbrev lease : ℕ → LeaseId
lease gseq = record {
  owner = codes "tenant";
  dseq = 5;
  gseq = gseq;
  oseq = 1;
  provider = codes "me";
}

abbrev did : DeploymentId
did = record { owner = codes "tenant"; dseq = 5 }

abbrev history : List Event
history = lease_won (lease 1) ∷ submit did 7 ∷ watchdog_done did ∷ lease_won (lease 2) ∷ []

history-Fits : Fits config start history
unfolding start handle enabled get put delete watch ensure_manager handle_lease on_submit
history-Fits = (refl, (refl, (refl, (refl, tt))))

-- The second lease is watched although the manifest has arrived.
history_effects :
    (run config start history).effects
    ≡ start_watchdog (lease 1)
      ∷ start_manager did
      ∷ manager_lease (lease 1)
      ∷ stop_watchdog did
      ∷ manager_manifest did 7
      ∷ try_signal
      ∷ start_watchdog (lease 2)
      ∷ manager_lease (lease 2)
      ∷ []
unfolding run start handle get put delete watch ensure_manager handle_lease on_submit
    maybe_remove_watchdog
history_effects = refl

one_at_a_time_example :
    let n = run config start history in
    (total (starts_manager did) n.effects
      ≡ all_ends (ends_manager did) history + has_manager did n.after)
    × (total (starts_watchdog did) n.effects
        ≡ all_ends (ends_watchdog did) history + has_watchdog did n.after)
one_at_a_time_example =
    one_at_a_time did config history history-Fits (refl, (refl, (refl, (refl, tt))))

abbrev served : State
served = record { managers = (did, tt) ∷ []; watchdogs = [] }

served-unwatched : get (deployment_of (lease 2)) served.watchdogs ≡ none
unfolding get
served-unwatched = refl
