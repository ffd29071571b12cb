-- ===== src/Std/Text.antt =====
-- `String`, `str` and `char`: a text is the list of its code points. Its order, which compares the
-- UTF-8 bytes, is that of the code points.
pub mod Decimal
pub mod Order
use Prim.Native.Nat.{compare, Ordering}
use Prim.Native.Nat.Ordering.{lt, eq, gt}
use Prim.Native.Char.{code}
use Prim.Native.String.{String}
use mathlib.Core.List.{reverse}
use nettverksprogrammering_p.Base.{
  ℕ, ◌≡◌, refl, ap, Bool, true, false, ◌&&◌, ◌||◌, List, [], ◌∷◌, arith, leb, ◌==◌, if◌then◌else◌,
  ℕ_discrete, Option, some,
}
use nettverksprogrammering_p.Std.HashMap.{HashKey}

abbrev pub Text : Type 0
Text = List ℕ

-- the code points of a literal
abbrev pub codes : String → Text
codes String.[] = []
codes (String.◌∷◌ c s) = code c ∷ codes s

unfoldable pub text_discrete : Discrete Text
unfolding ℕ_discrete
text_discrete = hlevel ℕ_discrete

instance abbrev pub text_key : HashKey Text
text_key = record { dec_eq = text_discrete }

-- `char::is_whitespace`: the property White_Space of Unicode
unfoldable pub is_whitespace : ℕ → Bool
is_whitespace c =
    leb 0x9 c && leb c 0xd
    || c == 0x20
    || c == 0x85
    || c == 0xa0
    || c == 0x1680
    || leb 0x2000 c && leb c 0x200a
    || c == 0x2028
    || c == 0x2029
    || c == 0x202f
    || c == 0x205f
    || c == 0x3000

unfoldable pub trim_start : Text → Text
trim_start [] = []
trim_start (c ∷ s) = if is_whitespace c then trim_start s else c ∷ s

-- `str::trim`: from both ends
unfoldable pub trim : Text → Text
unfolding is_whitespace trim_start
trim s = reverse (trim_start (reverse (trim_start s)))

abbrev pub is_empty : Text → Bool
is_empty [] = true
is_empty (c ∷ s) = false

-- `Ord for str`
unfoldable pub cmp : Text → Text → Ordering
cmp [] [] = eq
cmp [] (d ∷ t) = lt
cmp (c ∷ s) [] = gt
cmp (c ∷ s) (d ∷ t) = elim (compare c d) [ lt ↦ lt | eq ↦ cmp s t | gt ↦ gt ]
