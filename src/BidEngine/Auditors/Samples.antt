-- ===== src/BidEngine/Auditors/Samples.antt =====
-- Two requests for one auditor before its answer, and one behind it.
use provider.Base.{
  ℕ, ◌+◌, ◌<◌, ◌≡◌, refl, true, some, List, [], ◌∷◌, ℕ-eq, Bytes-eq, codes, contains,
}
use provider.Base.Map.{get, put, delete}
use provider.Ids.{OrderId-eq, LeaseId-eq}
use provider.BidEngine.Auditors.{
  succeed, start_fetch, auditor_event, start, fetched, run, request, Event, Config, Request,
  AuditedProvider,
}
use provider.BidEngine.Auditors.Answers.{waiting, answered}
use provider.BidEngine.Auditors.Queries.{asked, requests_answered}

abbrev config : Config
config = record { provider_address = codes "me"; ttl = 64800 }

abbrev asks_for : ℕ → Request
asks_for channel = record { auditor = codes "auditor"; channel = channel }

abbrev signed : List AuditedProvider
signed =
    record {
      owner = codes "me";
      auditor = codes "auditor";
      attributes = (codes "region", codes "eu") ∷ [];
    }
    ∷ []

abbrev history : List Event
history =
    request (asks_for 1) 0
    ∷ request (asks_for 2) 1
    ∷ fetched (codes "auditor") (some signed) 2
    ∷ request (asks_for 3) 100
    ∷ auditor_event (codes "me") (codes "auditor")
    ∷ request (asks_for 4) 101
    ∷ []

-- The second request starts a second query, and the third is answered from the cache.
history_effects :
    (run config start history).effects
    ≡ start_fetch (codes "auditor")
      ∷ start_fetch (codes "auditor")
      ∷ succeed (asks_for 1) signed
      ∷ succeed (asks_for 2) signed
      ∷ succeed (asks_for 3) signed
      ∷ start_fetch (codes "auditor")
      ∷ []
unfolding run start get put delete
history_effects = refl

requests_answered_example :
    let n = run config start history in
    (waiting (asks_for 4) n.after + answered (asks_for 4) n.effects ≡ asked (asks_for 4) history)
    × (0 < waiting (asks_for 4) n.after → contains n.after.fetching (codes "auditor") ≡ true)
requests_answered_example = requests_answered (asks_for 4) config history
