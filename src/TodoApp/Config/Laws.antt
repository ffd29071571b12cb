-- ===== src/TodoApp/Config/Laws.antt =====
-- When a peer's configuration is read, and which replica it becomes.
use nettverksprogrammering_p.Base.{
  ℕ, ◌+◌, ◌<◌, ◌≡◌, refl, ap, ◌∙◌, true, false, Option, some, [], ◌∷◌, ◌++◌, ltb, ◌≢◌, is_some,
  unwrap_or, arith, All, Bool-cases, inl, inr,
}
use nettverksprogrammering_p.Std.Text.{Text}
use nettverksprogrammering_p.Std.Text.Decimal.{
  parse, parse_digits, all_digits, is_ascii_digit, number, number-to_decimal, to_decimal, IsDigit,
  to_decimal-IsDigit, to_decimal≢nil,
}
use nettverksprogrammering_p.Std.Word.{dev, u64_size, add as add_word}
use nettverksprogrammering_p.TodoApp.Config.{
  Environment, u16_size, parse_env, keep, replica_id_of, from_env,
}

-- In a build of the dev profile the configuration is read exactly where the port leaves room for the
-- default of the sync port, whether or not `SYNC_PORT` is set; otherwise the program panics.
from_env_lem :
    {Addr : Type 0} (parse_addr : Text → Option Addr) (localhost : ℕ → Addr) (env : Environment)
    → is_some (from_env parse_addr localhost dev env)
      ≡ ltb (unwrap_or (parse_env env.port) 8080 + 1000) u16_size
unfolding from_env add_word
from_env_lem parse_addr localhost env =
    elim (Bool-cases (ltb (unwrap_or (parse_env env.port) 8080 + 1000) u16_size)) [
      | inl fits ↦ rw fits
      | inr big ↦ rw big
    ]

is_ascii_digit-IsDigit : (c : ℕ) → IsDigit c → is_ascii_digit c ≡ true
unfolding is_ascii_digit
is_ascii_digit-IsDigit c h = ground (arith, h.0, h.1)

keep-digits : (s : Text) → All IsDigit s → keep is_ascii_digit s ≡ s
keep-digits [] h = refl
keep-digits (c ∷ s) h = rw (is_ascii_digit-IsDigit c h.0, keep-digits s h.1)

keep-skip :
    (s t : Text)
    → All (λ c. is_ascii_digit c ≡ false) s
    → keep is_ascii_digit (s ++ t) ≡ keep is_ascii_digit t
keep-skip [] t h = refl
keep-skip (c ∷ s) t h = rw (h.0, keep-skip s t h.1)

all_digits_lem : (s : Text) → All IsDigit s → all_digits s ≡ true
unfolding all_digits
all_digits_lem [] h = refl
all_digits_lem (c ∷ s) h = rw (is_ascii_digit-IsDigit c h.0, all_digits_lem s h.1)

parse-digits :
    (s : Text) → All IsDigit s → number s < u64_size → s ≢ [] → parse u64_size s ≡ some (number s)
unfolding parse parse_digits
parse-digits [] h fits nonempty = elim (nonempty refl) [ ]
parse-digits (c ∷ s) h fits nonempty = rw (all_digits_lem (c ∷ s) h) (ground (arith, h.0))

-- A peer's id that ends in a number, with no other digits in it, gives that number as the replica's
-- id, if it fits into 64 bits: `peer-3` is replica 3.
pub replica_id_of_lem :
    (name : Text) (n : ℕ)
    → All (λ c. is_ascii_digit c ≡ false) name
    → n < u64_size
    → replica_id_of (name ++ to_decimal n) ≡ n
unfolding replica_id_of
replica_id_of_lem name n h fits =
    let read : parse u64_size (to_decimal n) ≡ some n =
      parse-digits (to_decimal n) (to_decimal-IsDigit n) (rw (number-to_decimal n) fits)
        (to_decimal≢nil n)
      ∙ ap some (number-to_decimal n) in
    rw (keep-skip name (to_decimal n) h, keep-digits (to_decimal n) (to_decimal-IsDigit n), read)
