-- ===== src/Std/Word.antt =====
-- `u64` arithmetic. The workspace does not set `overflow-checks`, so `+` panics on overflow in a
-- build of the dev profile (`cargo run`, `cargo test`) and wraps in one of the release profile.
use native.Mathlib.Nat.{mod-eq_of_lt}
use nettverksprogrammering_p.Base.{
  ℕ, ◌+◌, ◌%◌, ◌^◌, ◌<◌, ◌≡◌, ap, Option, none, some, List, [], ◌∷◌, arith, ltb, if◌then◌else◌,
  ◌>>=◌, sum,
}

pub data Profile : Type 0 where
  dev release : Profile

abbrev pub u64_size : ℕ
u64_size = 2 ^ 64

-- `none` is a panic.
unfoldable pub add : ℕ → Profile → ℕ → ℕ → Option ℕ
add size dev a b = if ltb (a + b) size then some (a + b) else none
add size release a b = some ((a + b) % size)

-- `Iterator::sum` adds from the left, from 0.
unfoldable pub sum_from : Profile → ℕ → List ℕ → Option ℕ
sum_from p acc [] = some acc
sum_from p acc (x ∷ xs) = do acc' ← add u64_size p acc x; sum_from p acc' xs

-- In the dev profile an addition returns the sum, and returns at all exactly where the sum fits.
pub add_dev : (size a b : ℕ) → a + b < size → add size dev a b ≡ some (a + b)
unfolding add
add_dev size a b h = ground arith

pub add_fits : (p : Profile) (size a b : ℕ) → a + b < size → add size p a b ≡ some (a + b)
unfolding add
add_fits dev size a b h = ground arith
add_fits release size a b h = ap some (mod-eq_of_lt h)

-- In the dev profile a sum panics exactly where the true sum overflows, whatever the order.
pub sum_from_dev :
    (acc : ℕ) (xs : List ℕ)
    → acc < u64_size
    → sum_from dev acc xs ≡ (if ltb (acc + sum xs) u64_size then some (acc + sum xs) else none)
unfolding sum_from add
sum_from_dev acc [] h = ground arith
sum_from_dev acc (x ∷ xs) h = ground (arith, sum_from_dev (acc + x) xs)

pub sum_from_release :
    (acc : ℕ) (xs : List ℕ)
    → acc < u64_size
    → sum_from release acc xs ≡ some ((acc + sum xs) % u64_size)
unfolding sum_from add
sum_from_release acc [] h = ground arith
sum_from_release acc (x ∷ xs) h =
    ground (arith, sum_from_release ((acc + x) % u64_size) xs (omega arith))
