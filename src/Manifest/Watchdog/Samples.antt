-- ===== src/Manifest/Watchdog/Samples.antt =====
-- A timer that runs out in front of a shutdown, whose broadcast fails.
use provider.Base.{◌+◌, ◌≤◌, ◌≡◌, refl, some, List, [], ◌∷◌, ℕ-eq, Bytes-eq, codes, Each}
use provider.Ids.{OrderId-eq, LeaseId-eq}
use provider.Base.Int.{pos}
use provider.Manifest.Watchdog.{
  Config, waiting, ended, timeout, shutdown, broadcast_done, Event, handle, enabled, run,
}
use provider.Manifest.Watchdog.Closing.{
  closed_once, count, is_close, is_timeout, is_result, is_done, under_way, unfinished, IsOwn,
  Allowed,
}

abbrev config : Config
config = record {
  provider = codes "me";
  lease = record { owner = codes "you"; dseq = 7; gseq = 1; oseq = 1; provider = codes "me" };
  broadcast_timeout = pos 0;
}

abbrev history : List Event
history = timeout ∷ shutdown ∷ broadcast_done (some (codes "timeout")) ∷ []

history-Allowed : Allowed config waiting history
unfolding handle enabled
history-Allowed = (refl, (refl, (refl, tt)))

history-ended : (run config waiting history).after ≡ ended
unfolding run
history-ended = refl

closed_once_example :
    let n = run config waiting history in
    (count is_close n.effects ≡ count is_timeout history)
    × (count is_timeout history ≤ 1)
    × (count is_timeout history ≡ under_way n.after + count is_result history)
    × (unfinished n.after + count is_done n.effects ≡ 1)
    × Each (IsOwn config) n.effects
closed_once_example = closed_once config history history-Allowed
