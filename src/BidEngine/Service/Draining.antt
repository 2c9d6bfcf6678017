-- ===== src/BidEngine/Service/Draining.antt =====
-- bidengine/service.go: the end of the service behind its shutdown.
use provider.Base.{◌≡◌, Bool, true, false, [], ℕ-eq, Bytes-eq, length}
use provider.Ids.{OrderId-eq, LeaseId-eq}
use provider.BidEngine.Service.{attributes_done, running, Phase, handle, ended, Next}
use provider.BidEngine.Service.Monitors.{begun}

abbrev pub is_running : Phase → Bool
is_running running = true
is_running _ = false

-- What is left once a drained state has had as many monitors done as it had.
abbrev IsDone : Next → Type 0
IsDone n =
    (length n.after.orders ≡ 0)
    × ((handle n.after attributes_done).after.phase ≡ ended)
    × (begun n.effects ≡ [])
