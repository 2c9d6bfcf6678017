-- ===== src/Manifest/Fetch/Heights.antt =====
-- manifest/manager.go: what `readHeight` makes of a decimal number.
use provider.Base.{
  ℕ, ◌+◌, ◌-◌, ◌*◌, ◌^◌, ◌<◌, ◌≡◌, refl, ap, true, false, ◌&&◌, some, List, [], ◌∷◌, arith, leb,
  nat_eq, lt→ltb, ℕ-eq, Bytes, Bytes-eq, length, Each,
}
use provider.Ids.{OrderId-eq, LeaseId-eq}
use native.Mathlib.Nat.{pow-suc}
use provider.Manifest.Fetch.{parse_digits, parse_uint, signed, parse_int, height_of, read_height}

-- The number with these decimal digits, by the place of each, and its text.
abbrev pub value : List ℕ → ℕ
value [] = 0
value (d ∷ ds) = d * 10 ^ length ds + value ds

abbrev pub IsDigit : ℕ → Type 0
IsDigit d = d < 10

abbrev pub text : List ℕ → Bytes
text [] = []
text (d ∷ ds) = (48 + d) ∷ text ds

place_lem : (n d p q v : ℕ) → q ≡ p * 10 → (n * 10 + d) * p + v ≡ n * q + (d * p + v)
place_lem n d p q v e = rw e (omega arith)

parse_digits-text :
    (n : ℕ) (ds : List ℕ)
    → Each IsDigit ds
    → parse_digits n (text ds) ≡ some (n * 10 ^ length ds + value ds)
unfolding parse_digits
parse_digits-text n [] h = ap some (omega arith)
parse_digits-text n (d ∷ ds) h =
    let is_digit : (leb 48 (48 + d) && leb (48 + d) 57) ≡ true = ground (arith, h.0) in
    let shifted : n * 10 + (48 + d - 48) ≡ n * 10 + d = omega arith in
    rw (is_digit, shifted, parse_digits-text (n * 10 + d) ds h.1)
      (ap some
        (place_lem n d (10 ^ length ds) (10 ^ length (d ∷ ds)) (value ds) (pow-suc 10 (length ds))))

parse_int-text :
    (d : ℕ) (ds : List ℕ)
    → Each IsDigit (d ∷ ds)
    → parse_int (text (d ∷ ds)) ≡ signed false (some (value (d ∷ ds)))
unfolding parse_int parse_uint
parse_int-text d ds h =
    let no_plus : nat_eq (48 + d) 43 ≡ false = ground arith in
    let no_minus : nat_eq (48 + d) 45 ≡ false = ground arith in
    rw (no_plus, no_minus, parse_digits-text 0 (d ∷ ds) h)
      (ap (λ n. signed false (some n)) (omega arith))

-- A height that the node prints in decimal, at least one digit and below 2 ^ 63, is read back
-- from the first value of the header, whatever else the header has.
pub read_height-text :
    (d : ℕ) (ds : List ℕ) (values : List Bytes)
    → Each IsDigit (d ∷ ds)
    → value (d ∷ ds) < 2 ^ 63
    → read_height (text (d ∷ ds) ∷ values) ≡ value (d ∷ ds)
unfolding read_height signed height_of
read_height-text d ds values h small =
    rw (parse_int-text d ds h, lt→ltb (value (d ∷ ds)) (2 ^ 63) small) refl
