-- ===== src/TodoApp/State/Ids.antt =====
-- The ids of the todos: no two peers, and no peer twice, make the same id.
use nettverksprogrammering_p.Base.{ℕ, ◌≡◌, refl, [], ◌∷◌, ◌++◌, arith, All}
use nettverksprogrammering_p.Std.Text.{Text}
use nettverksprogrammering_p.Std.Text.Decimal.{
  to_decimal, to_decimal-injective, to_decimal-IsDigit, IsDigit,
}
use nettverksprogrammering_p.TodoApp.State.{format_id}

dash_no_digit : (xs ys : Text) → All IsDigit (xs ++ b'-' ∷ ys) → ⊥
dash_no_digit [] ys h = omega arith
dash_no_digit (x ∷ xs) ys h = dash_no_digit xs ys h.1

split_last_dash :
    (p q xs ys : Text)
    → All IsDigit xs
    → All IsDigit ys
    → p ++ b'-' ∷ xs ≡ q ++ b'-' ∷ ys
    → (p ≡ q) × (xs ≡ ys)
split_last_dash [] [] xs ys hx hy e = (refl, cc)
split_last_dash [] (c ∷ q) xs ys hx hy e =
    let tails : xs ≡ q ++ b'-' ∷ ys = cc in absurd (dash_no_digit q ys (rw tails at hx))
split_last_dash (c ∷ p) [] xs ys hx hy e =
    let tails : ys ≡ p ++ b'-' ∷ xs = cc in absurd (dash_no_digit p xs (rw tails at hy))
split_last_dash (c ∷ p) (d ∷ q) xs ys hx hy e =
    let (heads, tails) = split_last_dash p q xs ys hx hy (cc) in (cc, tails)

-- An id says which peer made it and which number it had there, whatever the peers are called.
pub format_id-injective : (p q : Text) (n m : ℕ) → format_id p n ≡ format_id q m → (p ≡ q) × (n ≡ m)
unfolding format_id
format_id-injective p q n m e =
    let (peers, numbers) =
      split_last_dash p q (to_decimal n) (to_decimal m) (to_decimal-IsDigit n)
        (to_decimal-IsDigit m) e in
    (peers, to_decimal-injective n m numbers)
