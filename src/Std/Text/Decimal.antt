-- ===== src/Std/Text/Decimal.antt =====
-- `u64` in decimal: printing, as `format!` does it, and parsing.
use nettverksprogrammering_p.Base.{
  ℕ, zero, suc, ◌+◌, ◌-◌, ◌*◌, ◌/◌, ◌%◌, ◌≤◌, ◌<◌, ◌≡◌, ap, Bool, true, false, ◌&&◌, List, [], ◌∷◌,
  ◌++◌, arith, leb, ltb, ◌==◌, if◌then◌else◌, Option, none, some, All, foldl, Bool-cases, inl, inr,
  ◌∙◌, sym, ◌≢◌,
}
use mathlib.Core.List.{foldl-append}

unfoldable pub is_ascii_digit : ℕ → Bool
is_ascii_digit c = leb b'0' c && leb c b'9'

-- The digits of `n`, by as many rounds at most as the fuel says; `n + 1` rounds are enough.
unfoldable pub digits : ℕ → ℕ → List ℕ
digits zero n = []
digits (suc f) n =
    let rest = digits f (n / 10) in
    if ltb n 10 then (b'0' + n) ∷ [] else rest ++ (b'0' + n % 10) ∷ []

unfoldable pub to_decimal : ℕ → List ℕ
unfolding digits
to_decimal n = digits (suc n) n

abbrev pub push_digit : ℕ → ℕ → ℕ
push_digit acc c = acc * 10 + (c - b'0')

-- the number that digits stand for
unfoldable pub number : List ℕ → ℕ
number = foldl push_digit 0

digits-number : (f n : ℕ) → n < f → number (digits f n) ≡ n
unfolding digits number
digits-number zero n h = elim h [ ]
digits-number (suc f) n h = elim (Bool-cases (ltb n 10)) [
  | inl small ↦ rw small (omega arith)
  | inr large ↦ rw (large, foldl-append) (ground (arith, digits-number f (n / 10)))
]

-- Printing loses nothing: the number that the digits stand for is the number printed.
pub number-to_decimal : (n : ℕ) → number (to_decimal n) ≡ n
unfolding to_decimal
number-to_decimal n = digits-number (suc n) n (omega arith)

pub to_decimal-injective : (n m : ℕ) → to_decimal n ≡ to_decimal m → n ≡ m
to_decimal-injective n m h = sym (number-to_decimal n) ∙ ap number h ∙ number-to_decimal m

All-append : (P : ℕ → Type 0) (xs ys : List ℕ) → All P xs → All P ys → All P (xs ++ ys)
All-append P [] ys hx hy = hy
All-append P (x ∷ xs) ys hx hy = (hx.0, All-append P xs ys hx.1 hy)

abbrev pub IsDigit : ℕ → Type 0
IsDigit c = (b'0' ≤ c) × (c ≤ b'9')

digits-IsDigit : (f n : ℕ) → All IsDigit (digits f n)
unfolding digits
digits-IsDigit zero n = tt
digits-IsDigit (suc f) n = elim (Bool-cases (ltb n 10)) [
  | inl small ↦ rw small ((omega arith, ground arith), tt)
  | inr large ↦
      rw large (All-append IsDigit (digits f (n / 10)) _ (digits-IsDigit f (n / 10)) (omega arith))
]

pub to_decimal-IsDigit : (n : ℕ) → All IsDigit (to_decimal n)
unfolding to_decimal
to_decimal-IsDigit n = digits-IsDigit (suc n) n

snoc≢nil : (xs : List ℕ) (x : ℕ) → xs ++ x ∷ [] ≢ []
snoc≢nil [] x h = cc
snoc≢nil (y ∷ xs) x h = cc

round≢nil :
    (small : Bool) (c : ℕ) (xs : List ℕ) (d : ℕ) → (if small then c ∷ [] else xs ++ d ∷ []) ≢ []
round≢nil true c xs d h = cc
round≢nil false c xs d h = snoc≢nil xs d h

pub to_decimal≢nil : (n : ℕ) → to_decimal n ≢ []
unfolding to_decimal digits
to_decimal≢nil n = round≢nil (ltb n 10) (b'0' + n) (digits n (n / 10)) (b'0' + n % 10)

unfoldable pub all_digits : List ℕ → Bool
all_digits [] = true
all_digits (c ∷ s) = is_ascii_digit c && all_digits s

unfoldable pub parse_digits : ℕ → List ℕ → Option ℕ
unfolding all_digits
parse_digits size [] = none
parse_digits size (c ∷ s) =
    let n = number (c ∷ s) in if all_digits (c ∷ s) && ltb n size then some n else none

-- `parse` to an unsigned integer below `size`: a sign `+` is allowed, and no digits, another
-- character and a number that does not fit are errors.
unfoldable pub parse : ℕ → List ℕ → Option ℕ
unfolding parse_digits
parse size [] = none
parse size (c ∷ s) = if c == b'+' then parse_digits size s else parse_digits size (c ∷ s)
