-- ===== src/BidEngine/Order/Stale.antt =====
-- `isStaleBid` and the event of a closed bid.
use provider.Base.{ℕ, ◌≤◌, ◌≡◌, ◌≢◌, false, [], arith, ℕ-eq, bytes_eq_iff, Bytes-eq}
use provider.Base.Int.{pos, sub_int64, sub_int64_le, scale_int64_neg}
use provider.Ids.{LeaseId}
use provider.BidEngine.Order.{
  Order, State, Bid, bid_closed, go, handle, is_stale_bid, bid_timeout_enabled, min_time_per_block,
}

-- Block heights at which no 64-bit product of the check wraps.
abbrev pub height_limit : ℕ
height_limit = 1_800_000_000

-- isStaleBid is false for each bid created at or before the height at which the session began, at
-- heights that are not negative and at most the limit below which the product with the block time
-- fits an int64.
pub old_bid_kept :
    (o : Order) (bid : Bid) (created session : ℕ)
    → bid.created_at ≡ pos created
    → o.created_at_height ≡ pos session
    → created ≤ session
    → session ≤ height_limit
    → is_stale_bid o bid ≡ false
unfolding is_stale_bid bid_timeout_enabled
old_bid_kept o bid created session c h le lim =
    let age = sub_int64_le created session le (omega arith) in
    let young =
      scale_int64_neg min_time_per_block (sub_int64 (pos created) (pos session)) age.0
        (omega (arith, age.1)) in
    rw (c, h) (ground (arith, young))

-- The event that this provider's bid was closed changes nothing where the provider's text form
-- differs from its address.
pub closed_bid_ignored :
    (o : Order) (s : State) (bid : LeaseId)
    → o.provider_text ≢ o.provider_address
    → bid.provider ≡ o.provider_address
    → handle o s (bid_closed bid) ≡ go s []
unfolding handle
closed_bid_ignored o s bid ne own = ground (arith, bytes_eq_iff bid.provider o.provider_text)
