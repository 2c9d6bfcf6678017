-- ===== src/Hostname/Service/Blocking.antt =====
-- The provider's blocked host names and domains.
use provider.Base.{
  ◌≡◌, refl, ap, ◌∙◌, ◌≢◌, inl, inr, Bool, true, false, Option, none, some, List, [], ◌∷◌, ◌++◌,
  map, arith, Bool-cases, Option-cases, ◌==◌, ℕ-eq, Bytes, bytes_eq, bytes_eq_iff, Bytes-eq,
  contains,
}
use provider.Ids.{LeaseId}
use provider.Hostname.{domain_blocked}
use provider.Hostname.Entries.{is_ok}
use provider.Hostname.Service.{
  Service, separator, to_lower, has_suffix, parse_blocked, suffix_blocked, is_hostname_blocked,
  first_blocked, reserve_hostnames, Choice, can_reserve_hostnames,
}

-- The service has the lists that the configuration's blocked names give.
abbrev pub IsConfigured : List Bytes → Service → Type 0
IsConfigured blocked s =
    (s.blocked_hostnames ≡ (parse_blocked blocked).0)
    × (s.blocked_domains ≡ (parse_blocked blocked).1)

bytes_eq_refl : (s : Bytes) → bytes_eq s s ≡ true
bytes_eq_refl s = (bytes_eq_iff s s).1 refl

has_suffix_self : (suffix : Bytes) → has_suffix suffix suffix ≡ true
has_suffix_self [] = refl
has_suffix_self (c ∷ s) = rw (bytes_eq_refl (c ∷ s)) refl

pub has_suffix-append : (pre suffix : Bytes) → has_suffix (pre ++ suffix) suffix ≡ true
has_suffix-append [] suffix = has_suffix_self suffix
has_suffix-append (c ∷ pre) suffix = ground (arith, has_suffix-append pre suffix)

contains-parse_domain :
    (blocked : List Bytes) (d : Bytes)
    → contains blocked (separator ∷ d) ≡ true
    → (contains (parse_blocked blocked).0 d ≡ true)
      × (contains (parse_blocked blocked).1 (separator ∷ d) ≡ true)
unfolding parse_blocked
contains-parse_domain [] d h = absurd (cc h)
contains-parse_domain ([] ∷ names) d h = ground (arith, contains-parse_domain names d)
contains-parse_domain ((c ∷ rest) ∷ names) d h =
    ground (arith, contains-parse_domain names d, bytes_eq_iff rest d, bytes_eq_refl d)

suffix_blocked_lem :
    (domains : List Bytes) (host domain : Bytes)
    → contains domains domain ≡ true
    → has_suffix host domain ≡ true
    → suffix_blocked domains host ≡ some (domain_blocked host)
unfolding suffix_blocked
suffix_blocked_lem [] host domain h t = absurd (cc h)
suffix_blocked_lem (d ∷ domains) host domain h t = elim (Bool-cases (d == domain)) [
  | inl e ↦ let same : d ≡ domain = (bytes_eq_iff d domain).0 e in rw same (rw t refl)
  | inr ne ↦ ground (arith, suffix_blocked_lem domains host domain)
]

-- A blocked name with a leading dot blocks the domain and every name below it.
pub blocked_domain :
    (blocked : List Bytes) (s : Service) (d pre : Bytes)
    → IsConfigured blocked s
    → contains blocked (separator ∷ d) ≡ true
    → (is_hostname_blocked s d ≢ none) × (is_hostname_blocked s (pre ++ separator ∷ d) ≢ none)
unfolding is_hostname_blocked
blocked_domain blocked s d pre c h =
    let parts = contains-parse_domain blocked d h in
    let named : contains s.blocked_hostnames d ≡ true = ap (λ l. contains l d) c.0 ∙ parts.0 in
    let below =
      suffix_blocked_lem s.blocked_domains (pre ++ separator ∷ d) (separator ∷ d)
        (ap (λ l. contains l (separator ∷ d)) c.1 ∙ parts.1)
        (has_suffix-append pre (separator ∷ d)) in
    (λ e. ground arith, λ e. ground (arith, below))

first_blocked-member :
    (s : Service) (hs : List Bytes) (h : Bytes)
    → first_blocked s hs ≡ none
    → contains hs h ≡ true
    → is_hostname_blocked s h ≡ none
unfolding first_blocked
first_blocked-member s [] h f c = absurd (cc c)
first_blocked-member s (g ∷ hs) h f c = elim (Bool-cases (g == h)) [
  | inl e ↦ let same : g ≡ h = (bytes_eq_iff g h).0 e in rw (← same) (ground arith)
  | inr ne ↦ first_blocked-member s hs h (ground arith) (ground arith)
]

module _ (owner_address : Bytes → Option Bytes) where
  -- A reservation or check that names a blocked host fails and leaves the store as it was.
  pub blocked_refused :
      (s : Service) (names : List Bytes) (lid : LeaseId) (owner h : Bytes) (sent wait : Choice)
      (asked : Bool)
      → contains (map to_lower names) h ≡ true
      → is_hostname_blocked s h ≢ none
      → (is_ok (reserve_hostnames owner_address s names lid sent wait).1 ≡ false)
        × ((reserve_hostnames owner_address s names lid sent wait).0 ≡ s)
        × (is_ok (can_reserve_hostnames owner_address s names owner asked) ≡ false)
  unfolding reserve_hostnames can_reserve_hostnames
  blocked_refused s names lid owner h sent wait asked c b =
      elim (Option-cases (first_blocked s (map to_lower names))) [
        | inl e ↦ absurd (b (first_blocked-member s (map to_lower names) h e c))
        | inr (x, e) ↦ rw (e, reserve_hostnames, can_reserve_hostnames) (refl, refl, refl)
      ]
