-- ===== src/BidEngine/Fulfilment/Gathering.antt =====
-- bidengine/order.go: the signatures that `shouldBid` gathers, against a description of them.
use provider.Base.{
  ◌≡◌, refl, sym, ap, ◌∙◌, inl, inr, true, not, Option, none, some, List, [], ◌∷◌, ◌++◌,
  if◌then◌else◌, Bool-cases, if_split, ◌==◌, ==_iff, ℕ-eq, Bytes, Bytes-eq, select, contains,
}
use provider.Ids.{OrderId-eq, LeaseId-eq}
use provider.BidEngine.Fulfilment.{and_signed, gather, Library}

-- Each entry once, where it stands first.
abbrev pub distinct : List Bytes → List Bytes
distinct [] = []
distinct (a ∷ names) = a ∷ select (λ x. not (a == x)) (distinct names)

abbrev pub fresh : List Bytes → List Bytes → List Bytes
fresh done = select (λ x. not (contains done x))

fresh-known :
    (done : List Bytes) (a : Bytes) (xs : List Bytes)
    → contains done a ≡ true
    → fresh done (select (λ x. not (a == x)) xs) ≡ fresh done xs
fresh-known done a [] h = refl
fresh-known done a (x ∷ xs) h = elim (Bool-cases (a == x)) [
  | inl e ↦
      let known : contains done x ≡ true = ap (contains done) (sym ((==_iff a x).0 e)) ∙ h in
      rw (e, known) (fresh-known done a xs h)
  | inr e ↦
      rw e (ap (λ rest. if not (contains done x) then x ∷ rest else rest) (fresh-known done a xs h))
]

fresh-new :
    (done : List Bytes) (a : Bytes) (xs : List Bytes)
    → fresh done (select (λ x. not (a == x)) xs) ≡ fresh (a ∷ done) xs
fresh-new done a [] = refl
fresh-new done a (x ∷ xs) = elim (Bool-cases (a == x)) [
  | inl e ↦ rw e (fresh-new done a xs)
  | inr e ↦
      rw e (ap (λ rest. if not (contains done x) then x ∷ rest else rest) (fresh-new done a xs))
]

fresh-all : (xs : List Bytes) → fresh [] xs ≡ xs
fresh-all [] = refl
fresh-all (x ∷ xs) = ap (λ rest. x ∷ rest) (fresh-all xs)

module _ (l : Library) where
  open l use {Audited}

  -- What these auditors signed, in order, where each of them answers.
  abbrev pub joined : Option (List Audited) → Option (List Audited) → Option (List Audited)
  joined none rest = none
  joined (some xs) none = none
  joined (some xs) (some rest) = some (xs ++ rest)

  abbrev pub signatures_of : (Bytes → Option (List Audited)) → List Bytes → Option (List Audited)
  signatures_of signed [] = some []
  signatures_of signed (a ∷ names) = joined (signed a) (signatures_of signed names)

  and_signed-joined : (xs ys : Option (List Audited)) → and_signed l xs ys ≡ joined xs ys
  and_signed-joined none ys = refl
  and_signed-joined (some xs) none = refl
  and_signed-joined (some xs) (some ys) = refl

  gather-fresh :
      (signed : Bytes → Option (List Audited)) (done auditors : List Bytes)
      → (gather l signed done auditors).0 ≡ signatures_of signed (fresh done (distinct auditors))
  unfolding gather
  gather-fresh signed done [] = refl
  gather-fresh signed done (a ∷ names) =
      if_split
        (λ (r : Option (List Audited) × List Bytes).
          r.0 ≡ signatures_of signed (fresh done (distinct (a ∷ names))))
        (contains done a) _ _
        (λ known. rw known (
          gather-fresh signed done names
          ∙ ap (signatures_of signed) (sym (fresh-known done a (distinct names) known))))
        (λ new. rw new (
          and_signed-joined (signed a) (gather l signed (a ∷ done) names).0
          ∙ ap (joined (signed a)) (
              gather-fresh signed (a ∷ done) names
              ∙ ap (signatures_of signed) (sym (fresh-new done a (distinct names))))))

  -- The loop asks each auditor once, in the order in which they are first named, and returns what
  -- they signed, one behind the other, unless one of them has no answer.
  pub gather_lem :
      (signed : Bytes → Option (List Audited)) (auditors : List Bytes)
      → (gather l signed [] auditors).0 ≡ signatures_of signed (distinct auditors)
  gather_lem signed auditors =
      gather-fresh signed [] auditors ∙ ap (signatures_of signed) (fresh-all (distinct auditors))
