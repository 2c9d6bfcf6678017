-- ===== src/Manifest/Manager/Samples.antt =====
-- A deployment whose manifest arrives before the chain reports its new version. A manifest is its
-- version here, and has one group with one service.
use provider.Base.{
  ℕ, ◌+◌, ◌≡◌, refl, true, false, none, some, List, [], ◌∷◌, ◌++◌, ℕ-eq, Bytes, Bytes-eq, codes,
}
use provider.Ids.{OrderId-eq, LeaseId-eq}
use provider.Manifest.Checks.{Group, Library}
use provider.Manifest.Manager.{
  fetch_done, shutdown, is_empty, lease_won, manifest_received, Env, Lease, Event, FetchResult,
  handle, start, run,
}
use provider.Manifest.Manager.Once.{answered_once, all_brings, run-waits, Attends}
use provider.Manifest.Manager.Answers.{answered, waiting}
use provider.Manifest.Manager.Latest.{run-latest, Latest, reads}
use provider.Manifest.Manager.Rereads.{two_reads}

abbrev web : Group
web = record {
  name = codes "web";
  services =
      record {
        name = codes "api";
        expose =
            record {
              hosts = codes "example.org" ∷ [];
              is_ingress = true;
              proxy = some (record {
                buffer_size = 131_072;
                buffers_number = 4;
                buffers_size = 65_536;
                busy_buffers_size = 65_536;
              });
            }
            ∷ [];
      }
      ∷ [];
}

abbrev plain : Library
plain = record {
  Manifest = Bytes;
  Groups = ℕ;
  no_groups = 0;
  groups_of = λ m. web ∷ [];
  validate = λ m. none;
  version = λ m. some m;
  check_against = λ m groups. true;
}

abbrev quiet : Env
quiet = record {
  cancelled = λ k. false;
  cancelled_later = λ k. false;
  cache_fresh = true;
  can_reserve = λ hosts owner. true;
}

abbrev lease : Lease
lease = record {
  id = record { owner = codes "tenant"; dseq = 5; gseq = 1; oseq = 1; provider = codes "me" };
  group_name = codes "web";
}

abbrev at : Bytes → ℕ → FetchResult plain
at hash height = record {
  deployment = record { groups = 1; hash = hash; owner = some (codes "tenant") };
  leases = lease ∷ [];
  height = height;
}

abbrev submit : ℕ → Bytes → Event plain
submit channel version =
    manifest_received (record { channel = channel; value = version; reread = false })

abbrev v1 : Bytes
v1 = codes "v1"

abbrev v2 : Bytes
v2 = codes "v2"

abbrev history : List (Env × Event plain)
history =
    (quiet, lease_won)
    ∷ (quiet, submit 7 v2)
    ∷ (quiet, fetch_done (at v1 10))
    ∷ (quiet, fetch_done (at v2 11))
    ∷ []

history-Attends : Attends plain 7 history
history-Attends = ((refl, refl), ((refl, refl), ((refl, refl), ((refl, refl), tt))))

run-waits_example :
    let n = run plain (start plain true) history in
    (answered plain 7 n.effects + waiting plain 7 n.after.requests ≡ all_brings plain 7 history)
    × (n.after.pending_requests ≡ [])
    × (is_empty plain n.after.requests ≡ false → n.after.runch ≡ true)
run-waits_example = run-waits plain 7 true history history-Attends

answered_once_example :
    answered plain 7 (run plain (start plain true) (history ++ (quiet, shutdown) ∷ [])).effects
    ≡ all_brings plain 7 history
answered_once_example = answered_once plain 7 true history quiet history-Attends

run-latest_example :
    Latest plain
      (start plain true).expected
      (reads plain history)
      (run plain (start plain true) history).after.expected
run-latest_example = run-latest plain true history (refl, (refl, (refl, (refl, tt))))

two_reads_example :
    (handle plain quiet
      (handle plain quiet
        (run plain (start plain true) ((quiet, submit 7 v2) ∷ [])).after
        (fetch_done (at v1 10))).after
      (fetch_done (at v1 11))).after.requests
    ≡ []
two_reads_example =
    two_reads plain quiet quiet (run plain (start plain true) ((quiet, submit 7 v2) ∷ [])).after
      (at v1 10) (at v1 11)
