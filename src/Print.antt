-- ===== src/Print.antt =====
-- The number formats that client/proto.c prints lines with: `%lu` and `%d` of a number that is not
-- negative, and `%08lX`. Of the C library.
pub mod RoundTrip
use win16sync.Prelude.{ℕ, zero, suc, ◌+◌, ◌/◌, ◌%◌, [], ◌∷◌, ◌==◌, if◌then◌else◌, get_or, Text}
use win16sync.Hex.{hex}

-- The digits of `n` in front of `behind`, at most as many as there are rounds.
unfoldable pub dec_loop : ℕ → ℕ → Text → Text
dec_loop zero n behind = behind
dec_loop (suc rounds) n behind =
    let digits = (b'0' + n % 10) ∷ behind in
    let rest = dec_loop rounds (n / 10) digits in if n / 10 == 0 then digits else rest

-- A 32-bit number has at most ten digits.
unfoldable pub print_dec : ℕ → Text
print_dec n = dec_loop 10 n []

unfoldable pub hex_loop : ℕ → ℕ → Text → Text
hex_loop zero n behind = behind
hex_loop (suc digits) n behind = hex_loop digits (n / 16) (get_or hex (n % 16) 0 ∷ behind)

unfoldable pub print_hex : ℕ → Text
print_hex n = hex_loop 8 n []
