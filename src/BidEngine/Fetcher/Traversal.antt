-- ===== src/BidEngine/Fetcher/Traversal.antt =====
-- bidengine/service.go: the pages that the orders fetcher sends, against the node's listing.
use provider.Base.{
  ℕ, suc, ◌≤◌, ◌<◌, ◌≡◌, refl, ap, ◌∙◌, inl, inr, Bool, true, false, not, ◌&&◌, some, List, [], ◌∷◌,
  map, arith, Bool-cases, if_intro, if_split, ◌==◌, ℕ-eq, Bytes, Bytes-eq, length,
}
use provider.Ids.{OrderId, OrderId-eq, LeaseId-eq}
use provider.BidEngine.Fetcher.{
  page_next_key, Reply, on_answer, on_failure, next_page, on_reply, fetch_round, Turn, Fetched,
  start_fetcher, finished, failed, Fetcher, answered, fetch, Round, is_empty, Page,
}

-- A node that answers: the orders of the page at a key, and the key of the next page.
abbrev pub Listing : Type 0
Listing = Bytes → List OrderId × Bytes

-- The pages from a key to the page without a next key, in order.
pub data Pages (node : Listing) : Bytes → List Page → Type 0 where
  final_page :
      {key : Bytes}
      → (node key).1 ≡ []
      → Pages node key (record { orders = (node key).0; key = key; last = true } ∷ [])
  middle_page :
      {key : Bytes} {pages : List Page}
      → is_empty (node key).1 ≡ false
      → ((node key).1 == key) ≡ false
      → Pages node (node key).1 pages
      → Pages node key (record { orders = (node key).0; key = key; last = false } ∷ pages)

-- A query reaches the node, fails, or is rejected as `InvalidArgument`; it is not canceled.
pub data Try : Type 0 where
  reaches fails rejects : Try

abbrev pub reply_to : Listing → Try → Bytes → Reply
reply_to node reaches key = answered (node key).0 (some (node key).1)
reply_to node fails key = failed false
reply_to node rejects key = failed true

abbrev pub attempt : Listing → Try → Round
attempt node try = record {
  canceled_before = false;
  node = reply_to node try;
  canceled_after = false;
  canceled_waiting = false;
}

abbrev pub attempts : Listing → List Try → List Round
attempts node = map (attempt node)

-- Queries that reach the node.
abbrev pub reached : List Try → ℕ
reached [] = 0
reached (reaches ∷ rest) = suc (reached rest)
reached (fails ∷ tries) = reached tries
reached (rejects ∷ tries) = reached tries

-- The key that a fetcher resumes from is not rejected before the first answer.
abbrev pub KeepsKey : Bool → List Try → Type 0
KeepsKey false tries = Unit
KeepsKey true [] = Unit
KeepsKey true (reaches ∷ tries) = Unit
KeepsKey true (fails ∷ tries) = KeepsKey true tries
KeepsKey true (rejects ∷ tries) = ⊥

Pages-pos :
    {node : Listing} {key : Bytes} {pages : List Page} → Pages node key pages → 0 < length pages
Pages-pos (final_page e) = omega arith
Pages-pos (middle_page ne fresh rest) = omega arith

fetch-lost :
    (node : Listing) (f : Fetcher) (rounds : List Round)
    → fetch f (attempt node fails ∷ rounds) ≡ fetch f rounds
unfolding fetch
fetch-lost node f rounds = elim (Bool-cases f.resuming) [ inl e ↦ rw e refl | inr e ↦ rw e refl ]

fetch-refused :
    (node : Listing) (f : Fetcher) (rounds : List Round)
    → f.resuming ≡ false
    → fetch f (attempt node rejects ∷ rounds) ≡ fetch f rounds
unfolding fetch
fetch-refused node f rounds e = rw e refl

KeepsKey-lost :
    (resuming : Bool) (tries : List Try)
    → KeepsKey resuming (fails ∷ tries)
    → KeepsKey resuming tries
KeepsKey-lost true tries k = k
KeepsKey-lost false tries k = tt

KeepsKey-refused :
    (resuming : Bool) (tries : List Try)
    → KeepsKey resuming (rejects ∷ tries)
    → (resuming ≡ false) × KeepsKey resuming tries
KeepsKey-refused true tries k = absurd k
KeepsKey-refused false tries k = (refl, tt)

abbrev before : Page → Fetched → Fetched
before page rest = record { pages = page ∷ rest.pages; ending = rest.ending }

fetch-middle_page :
    (node : Listing) (f : Fetcher) (rounds : List Round)
    → is_empty (node f.next_key).1 ≡ false
    → ((node f.next_key).1 == f.next_key) ≡ false
    → fetch f (attempt node reaches ∷ rounds)
      ≡ before
          (record { orders = (node f.next_key).0; key = f.next_key; last = false })
          (fetch (record { next_key = (node f.next_key).1; resuming = false }) rounds)
unfolding fetch
fetch-middle_page node f rounds ne fresh = rw (fetch, ne, fresh) refl

-- Where the node's listing ends from the fetcher's key, the fetcher ends once as many queries
-- have reached the node as the listing has pages, however many fail or are rejected between them,
-- and has sent exactly those pages, if no query is canceled and a key that it resumes from is not
-- rejected before the first answer.
pub fetch_lem :
    (node : Listing) (f : Fetcher) (pages : List Page) (tries : List Try)
    → Pages node f.next_key pages
    → KeepsKey f.resuming tries
    → length pages ≤ reached tries
    → fetch f (attempts node tries) ≡ record { pages = pages; ending = finished }
unfolding fetch
fetch_lem node f pages [] p k h = absurd (ground (arith, Pages-pos p))
fetch_lem node f pages (fails ∷ tries) p k h =
    fetch-lost node f (attempts node tries)
    ∙ fetch_lem node f pages tries p (KeepsKey-lost f.resuming tries k) h
fetch_lem node f pages (rejects ∷ tries) p k h =
    let r = KeepsKey-refused f.resuming tries k in
    fetch-refused node f (attempts node tries) r.0 ∙ fetch_lem node f pages tries p r.1 h
fetch_lem node f pages (reaches ∷ tries) (final_page e) k h = rw (fetch, e) refl
fetch_lem node f pages (reaches ∷ tries) (middle_page ne fresh rest) k h =
    let induct =
      fetch_lem node (record { next_key = (node f.next_key).1; resuming = false }) _ tries rest tt
        (omega (arith, h)) in
    fetch-middle_page node f (attempts node tries) ne fresh ∙ ap (before _) induct

-- The same from the start, whatever the stored key, when the node rejects it: the traversal is
-- the one from the beginning.
pub rejected_lem :
    (node : Listing) (stored : Bytes) (pages : List Page) (tries : List Try)
    → is_empty stored ≡ false
    → Pages node [] pages
    → length pages ≤ reached tries
    → fetch (start_fetcher (some stored)) (attempts node (rejects ∷ tries))
      ≡ record { pages = pages; ending = finished }
unfolding fetch start_fetcher
rejected_lem node stored pages tries e p h =
    rw e (fetch_lem node (record { next_key = []; resuming = false }) pages tries p tt h)

-- A page with a page behind it is not marked as the last one.
abbrev pub IsMarked : Turn → Type 0
IsMarked (next_page page f) = page.last ≡ false
IsMarked _ = Unit

on_failure-IsMarked : (f : Fetcher) (r : Round) (invalid : Bool) → IsMarked (on_failure f r invalid)
unfolding on_failure
on_failure-IsMarked f r invalid = if_intro IsMarked r.canceled_after _ _ tt (
    if_intro IsMarked (f.resuming && invalid) _ _ tt
      (if_intro IsMarked r.canceled_waiting _ _ tt tt))

on_answer-IsMarked :
    (f : Fetcher) (r : Round) (orders : List OrderId) (next : Bytes)
    → IsMarked (on_answer f r orders next)
unfolding on_answer
on_answer-IsMarked f r orders next = if_intro IsMarked r.canceled_after _ _ tt (
    if_intro IsMarked (not (is_empty next) && next == f.next_key) _ _ tt (
      if_intro IsMarked r.canceled_waiting _ _ tt
        (if_split IsMarked (is_empty next) _ _ (λ p. tt) (λ p. p))))

on_reply-IsMarked : (f : Fetcher) (r : Round) (reply : Reply) → IsMarked (on_reply f r reply)
unfolding on_reply
on_reply-IsMarked f r (failed invalid) = on_failure-IsMarked f r invalid
on_reply-IsMarked f r (answered orders pagination) =
    on_answer-IsMarked f r orders (page_next_key pagination)

pub fetch_round-IsMarked : (f : Fetcher) (r : Round) → IsMarked (fetch_round f r)
unfolding fetch_round
fetch_round-IsMarked f r =
    if_intro IsMarked r.canceled_before _ _ tt (on_reply-IsMarked f r (r.node f.next_key))
