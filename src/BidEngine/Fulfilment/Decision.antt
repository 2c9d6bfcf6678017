-- ===== src/BidEngine/Fulfilment/Decision.antt =====
-- bidengine/order.go: when `shouldBid` accepts a group, and whom it asks.
use provider.Base.{
  ℕ, ◌+◌, ◌≤◌, ◌≡◌, refl, sym, ap, ◌∙◌, ◌≢◌, ◌↔◌, inl, inr, Bool, true, false, not, Option, none,
  some, List, [], ◌∷◌, ◌++◌, arith, nat_eq, if◌then◌else◌, nat_eq_iff, Bool-cases, if_split, ◌==◌,
  ==_iff, ℕ-eq, Bytes, Bytes-eq, Each, contains,
}
use provider.Ids.{OrderId-eq, LeaseId-eq}
use provider.BidEngine.Fulfilment.Gathering.{distinct, signatures_of, gather_lem}
use provider.BidEngine.Fulfilment.{
  and_signed, asked_more, Verdict, with_attributes, own_entry, declined, auditors_of, should_bid,
  of_signatures, with_signed, accepted, few_volumes, gather, Library, Session,
}

module _ (l : Library) where
  open l use {
    Group, Attributes, Audited, match_attributes, subset_of, required_attributes, match_resources,
    storage_counts, signed_by_size, all_of, any_of, audited, match_requirements, validate_basic,
  }

  -- Where the group asks for signatures, each auditor that it names answers, and what they signed,
  -- behind the provider's own attributes, meets the group's requirements.
  abbrev pub SignaturesMatch : Session l → Group → Type 0
  SignaturesMatch s g =
      signed_by_size g ≢ 0
      → (signed : List Audited) × (signatures_of l s.signed (distinct (all_of g ++ any_of g))
          ≡ some signed)
        × (match_requirements g (audited s.owner [] s.attributes ∷ signed) ≡ true)

  gathered :
      (s : Session l) (g : Group)
      → (gather l s.signed [] (auditors_of l g)).0
        ≡ signatures_of l s.signed (distinct (all_of g ++ any_of g))
  unfolding auditors_of
  gathered s g = gather_lem l s.signed (all_of g ++ any_of g)

  -- What a provider needs to bid on a group.
  pub record Fulfils (s : Session l) (g : Group) : Type 0 where
    pub provider_fits : match_attributes g s.attributes ≡ true
    pub order_fits : subset_of s.config_attributes (required_attributes g) ≡ true
    pub own : Attributes
    pub known : s.own ≡ some own
    pub capable : match_resources g own ≡ true
    pub few : Each (λ n. n ≤ s.max_group_volumes) (storage_counts g)
    pub signatures : SignaturesMatch s g
    pub valid : validate_basic g ≡ true

  few_volumes-Each : (max : ℕ) (ns : List ℕ) → few_volumes l max ns ≡ true → Each (λ n. n ≤ max) ns
  unfolding few_volumes
  few_volumes-Each max [] h = tt
  few_volumes-Each max (n ∷ ns) h = ground (arith, few_volumes-Each max ns)

  Each-few_volumes : (max : ℕ) (ns : List ℕ) → Each (λ n. n ≤ max) ns → few_volumes l max ns ≡ true
  unfolding few_volumes
  Each-few_volumes max [] h = refl
  Each-few_volumes max (n ∷ ns) h = ground (arith, h.0, Each-few_volumes max ns h.1)

  -- A test that must pass.
  reject_unless :
      (b : Bool) (d : Verdict)
      → (if not b then declined else d) ≡ accepted
      → (b ≡ true) × (d ≡ accepted)
  reject_unless true d h = (refl, h)
  reject_unless false d h = absurd (ground (arith, h))

  accept_if : (b : Bool) → (if b then accepted else declined) ≡ accepted → b ≡ true
  accept_if true h = refl
  accept_if false h = absurd (ground (arith, h))

  with_signed-accepted :
      (s : Session l) (g : Group) (o : Option (List Audited))
      → with_signed l s g o ≡ accepted
      → ((signed : List Audited) × (o ≡ some signed)
          × (match_requirements g (own_entry l s ∷ signed) ≡ true))
        × (validate_basic g ≡ true)
  unfolding with_signed
  with_signed-accepted s g none h = absurd (ground (arith, h))
  with_signed-accepted s g (some signed) h =
      let one = reject_unless (match_requirements g (own_entry l s ∷ signed)) _ h in
      ((signed, refl, one.0), accept_if (validate_basic g) one.1)

  of_signatures-accepted :
      (s : Session l) (g : Group)
      → of_signatures l s g ≡ accepted
      → SignaturesMatch s g × (validate_basic g ≡ true)
  unfolding of_signatures
  of_signatures-accepted s g =
      if_split (λ d. d ≡ accepted → SignaturesMatch s g × (validate_basic g ≡ true))
        (nat_eq (signed_by_size g) 0) (if validate_basic g then accepted else declined)
        (with_signed l s g (gather l s.signed [] (auditors_of l g)).0)
        (λ e h. (
          (λ ne. absurd (ne ((nat_eq_iff (signed_by_size g) 0).0 e))),
          accept_if (validate_basic g) h,
        ))
        (λ e h.
          let w = with_signed-accepted s g (gather l s.signed [] (auditors_of l g)).0 h in
          ((λ ne. (w.0.0, sym (gathered s g) ∙ w.0.1, w.0.2)), w.1))

  -- What is needed beside the attributes of the provider and of the order.
  abbrev pub IsAble : Session l → Group → Option Attributes → Type 0
  IsAble s g o =
      (own : Attributes) × (o ≡ some own)
      × (match_resources g own ≡ true)
      × Each (λ n. n ≤ s.max_group_volumes) (storage_counts g)
      × SignaturesMatch s g
      × (validate_basic g ≡ true)

  with_attributes-accepted :
      (s : Session l) (g : Group) (o : Option Attributes)
      → with_attributes l s g o ≡ accepted
      → IsAble s g o
  unfolding with_attributes
  with_attributes-accepted s g none h = absurd (ground (arith, h))
  with_attributes-accepted s g (some own) h =
      let one = reject_unless (match_resources g own) _ h in
      if_split (λ d. d ≡ accepted → IsAble s g (some own))
        (few_volumes l s.max_group_volumes (storage_counts g)) (of_signatures l s g) declined
        (λ f k.
          let m = of_signatures-accepted s g k in
          (own, refl, one.0, few_volumes-Each s.max_group_volumes (storage_counts g) f, m.0, m.1))
        (λ f k. absurd (ground (arith, k))) one.1

  -- The other direction, from the end.
  accepted-with_signed :
      (s : Session l) (g : Group) (signed : List Audited)
      → match_requirements g (own_entry l s ∷ signed) ≡ true
      → validate_basic g ≡ true
      → with_signed l s g (some signed) ≡ accepted
  unfolding with_signed
  accepted-with_signed s g signed m v = rw (m, v) refl

  accepted-of_signatures :
      (s : Session l) (g : Group)
      → SignaturesMatch s g
      → validate_basic g ≡ true
      → of_signatures l s g ≡ accepted
  unfolding of_signatures
  accepted-of_signatures s g signatures v =
      if_split (λ d. d ≡ accepted) (nat_eq (signed_by_size g) 0)
        (if validate_basic g then accepted else declined)
        (with_signed l s g (gather l s.signed [] (auditors_of l g)).0) (λ e. rw v refl)
        (λ e.
          let m = signatures (λ same. absurd (ground (arith, e, same))) in
          rw (gathered s g ∙ m.1) (accepted-with_signed s g m.0 m.2 v))

  accepted-with_attributes :
      (s : Session l) (g : Group) (own : Attributes)
      → match_resources g own ≡ true
      → Each (λ n. n ≤ s.max_group_volumes) (storage_counts g)
      → SignaturesMatch s g
      → validate_basic g ≡ true
      → with_attributes l s g (some own) ≡ accepted
  unfolding with_attributes
  accepted-with_attributes s g own capable few signatures v =
      rw (capable, Each-few_volumes s.max_group_volumes (storage_counts g) few)
        (accepted-of_signatures s g signatures v)

  -- shouldBid accepts exactly the groups of which each check holds: the provider's attributes fit
  -- those of the group and of the order match, the provider's attributes are known and make it
  -- capable, no resource has more volumes than the configuration allows, the group is valid, and
  -- where it asks for signatures, each auditor that it names, asked once, answers, and what they
  -- signed meets its requirements together with the provider's own attributes.
  pub should_bid_lem : (s : Session l) (g : Group) → (should_bid l s g ≡ accepted) ↔ Fulfils s g
  unfolding should_bid with_attributes
  should_bid_lem s g = (
    λ h.
        let one = reject_unless (match_attributes g s.attributes) _ h in
        let two = reject_unless (subset_of s.config_attributes (required_attributes g)) _ one.1 in
        let able = with_attributes-accepted s g s.own two.1 in
        record {
          provider_fits = one.0;
          order_fits = two.0;
          own = able.0;
          known = able.1;
          capable = able.2;
          few = able.3;
          signatures = able.4;
          valid = able.5;
        },
    λ f.
        rw (f.provider_fits, f.order_fits, f.known)
          (accepted-with_attributes s g f.own f.capable f.few f.signatures f.valid),
  )

  -- No auditor is asked twice for a group.
  abbrev pub occurs : Bytes → List Bytes → ℕ
  occurs a [] = 0
  occurs a (b ∷ bs) = (if b == a then 1 else 0) + occurs a bs

  occurs-asked_more :
      (a : Bytes) (o : Option (List Audited)) (rest : List Bytes)
      → occurs a (asked_more l o rest) ≤ occurs a rest
  occurs-asked_more a none rest = omega arith
  occurs-asked_more a (some xs) rest = omega arith

  pub gather-once :
      (a : Bytes) (signed : Bytes → Option (List Audited)) (done auditors : List Bytes)
      → occurs a (gather l signed done auditors).1 ≤ (if contains done a then 0 else 1)
  unfolding gather
  gather-once a signed done [] = ground arith
  gather-once a signed done (b ∷ auditors) =
      if_split
        (λ (r : Option (List Audited) × List Bytes).
          occurs a r.1 ≤ (if contains done a then 0 else 1))
        (contains done b) (gather l signed done auditors)
        (
          and_signed l (signed b) (gather l signed (b ∷ done) auditors).0,
          b ∷ asked_more l (signed b) (gather l signed (b ∷ done) auditors).1,
        )
        (λ known. gather-once a signed done auditors)
        (λ new.
          let rest = (gather l signed (b ∷ done) auditors).1 in
          let fewer = occurs-asked_more a (signed b) rest in
          let induct = gather-once a signed (b ∷ done) auditors in
          elim (Bool-cases (b == a)) [
            | inl e ↦
                let same : contains done b ≡ contains done a =
                  ap (contains done) ((==_iff b a).0 e) in
                rw (e, sym same ∙ new) (omega (arith, fewer, rw e at induct))
            | inr e ↦ rw e (omega (arith, fewer, rw e at induct))
          ])
