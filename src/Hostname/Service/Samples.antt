-- ===== src/Hostname/Service/Samples.antt =====
-- Host names of two owners, and the theorems at them.
use provider.Base.{
  ◌≡◌, refl, ap, ◌≢◌, Option, some, List, [], ◌∷◌, ℕ-eq, Bytes, bytes_eq, Bytes-eq, codes,
}
use provider.Base.Map.{get, IsMap}
use provider.Ids.{LeaseId}
use provider.Hostname.{can_reserve, HostnameId, Store, ok, id_equals, prepare, reserve}
use provider.Hostname.Entries.{can_reserve-reserve, is_ok, Reserves, reserve-Reserves}
use provider.Hostname.Preparation.{Prepares, prepare-Prepares}
use provider.Hostname.Service.{
  Service, Request, reserve_request, release_request, prepare_request, serve_all,
}
use provider.Hostname.Service.Ownership.{serve_all-isolated}

abbrev web : Bytes
web = codes "web.example.com"

abbrev api : Bytes
api = codes "api.example.com"

abbrev blog : Bytes
blog = codes "blog.example.com"

abbrev alice_1 : HostnameId
alice_1 = record { owner = codes "alice"; dseq = 1; gseq = 1 }

abbrev alice_2 : HostnameId
alice_2 = record { owner = codes "alice"; dseq = 2; gseq = 1 }

abbrev bob : HostnameId
bob = record { owner = codes "bob"; dseq = 7; gseq = 1 }

abbrev held : Store
held = (web, alice_1) ∷ (api, alice_2) ∷ (blog, bob) ∷ []

held-IsMap : IsMap held
unfolding get
held-IsMap = (refl, (refl, (refl, tt)))

reserve_withholds : (reserve held (web ∷ api ∷ []) alice_2).1 ≡ ok (web ∷ [])
unfolding reserve get id_equals
reserve_withholds = refl

reserve-Reserves_example : Reserves held (web ∷ []) alice_2 web (reserve held (web ∷ []) alice_2)
reserve-Reserves_example = reserve-Reserves held (web ∷ []) alice_2 web held-IsMap

prepare-Prepares_example : Prepares held (web ∷ []) alice_2 web (prepare held (web ∷ []) alice_2)
prepare-Prepares_example = prepare-Prepares held (web ∷ []) alice_2 web

bob-ne-alice : codes "bob" ≢ codes "alice"
bob-ne-alice e = cc (ap (bytes_eq (codes "bob")) e)

abbrev alices : List Request
alices =
    reserve_request (web ∷ blog ∷ []) alice_1
    ∷ prepare_request (blog ∷ []) alice_2
    ∷ release_request alice_1
    ∷ []

serve_all-isolated_example : get blog (serve_all held alices) ≡ some bob
unfolding get
serve_all-isolated_example =
    serve_all-isolated held alices blog bob held-IsMap refl
      (bob-ne-alice, (bob-ne-alice, (bob-ne-alice, tt)))

abbrev config : List Bytes
config = codes ".example.com" ∷ codes "localhost" ∷ []

abbrev service : Service
service = record {
  in_use = held;
  blocked_hostnames = codes "example.com" ∷ codes "localhost" ∷ [];
  blocked_domains = codes ".example.com" ∷ [];
}

abbrev lease : LeaseId
lease = record { owner = codes "bob"; dseq = 7; gseq = 1; oseq = 1; provider = codes "me" }

-- Every name with a non-empty owner text decodes to it.
abbrev decode : Bytes → Option Bytes
decode owner = some owner

can_reserve-reserve_example :
    is_ok (can_reserve held (web ∷ blog ∷ []) (codes "alice"))
    ≡ is_ok (reserve held (web ∷ blog ∷ []) alice_2).1
can_reserve-reserve_example = can_reserve-reserve held (web ∷ blog ∷ []) alice_2
