-- ===== src/Std/Text/Order.antt =====
-- The order of texts is total and strict.
use Prim.Native.Nat.Ordering.{lt, eq, gt}
use nettverksprogrammering_p.Base.{◌≡◌, refl, ◌≢◌, [], ◌∷◌, arith}
use nettverksprogrammering_p.Std.Text.{Text, cmp}

infix 50 ◌≺◌
abbrev pub ◌≺◌ : Text → Text → Type 0
s ≺ t = cmp s t ≡ lt

pub eq_of_cmp : (s t : Text) → cmp s t ≡ eq → s ≡ t
unfolding cmp
eq_of_cmp [] [] h = refl
eq_of_cmp [] (d ∷ t) h = cc
eq_of_cmp (c ∷ s) [] h = cc
eq_of_cmp (c ∷ s) (d ∷ t) h = ground (arith, eq_of_cmp s t)

pub lt_of_gt : (s t : Text) → cmp s t ≡ gt → t ≺ s
unfolding cmp
lt_of_gt [] [] h = cc
lt_of_gt [] (d ∷ t) h = cc
lt_of_gt (c ∷ s) [] h = refl
lt_of_gt (c ∷ s) (d ∷ t) h = ground (arith, lt_of_gt s t)

pub lt_irrefl : (s : Text) → cmp s s ≢ lt
unfolding cmp
lt_irrefl [] h = cc
lt_irrefl (c ∷ s) h = ground (arith, lt_irrefl s)

pub lt_trans : (s t u : Text) → s ≺ t → t ≺ u → s ≺ u
unfolding cmp
lt_trans [] [] u h k = cc
lt_trans (c ∷ s) [] u h k = cc
lt_trans [] (d ∷ t) [] h k = cc
lt_trans (c ∷ s) (d ∷ t) [] h k = cc
lt_trans [] (d ∷ t) (e ∷ u) h k = refl
lt_trans (c ∷ s) (d ∷ t) (e ∷ u) h k = ground (arith, lt_trans s t u)
