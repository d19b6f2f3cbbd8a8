-- ===== src/Hex/Digits.antt =====
-- Single digits: what proto_hex_value reads of what proto_encode_hex writes.
use win16sync.Prelude.{
  ℕ, zero, suc, ◌<◌, ◌≡◌, refl, some, arith, ◌==◌, ==_iff, Bool-cases, inl, inr, get_or,
}
use mathlib.Core.Path.{subst, sym}
use win16sync.Hex.{hex, hex_value}

-- A digit stands at its own place of the table.
abbrev IsPlaced : ℕ → Type 0
IsPlaced d = hex_value (get_or hex d 0) ≡ some d

abbrev ArePlaced : ℕ → Type 0
ArePlaced zero = Unit
ArePlaced (suc n) = ArePlaced n × IsPlaced n

placed : (n d : ℕ) → ArePlaced n → d < n → IsPlaced d
placed zero d all below = absurd (omega arith)
placed (suc n) d (front, last) below = elim (Bool-cases (d == n)) [
  | inl e ↦ subst IsPlaced (sym ((==_iff d n).0 e)) last
  | inr e ↦ placed n d front (ground arith)
]

table : ArePlaced 16
unfolding hex_value
table = (
  (
    (
      (
        (
          (
            ((((((((((tt, refl), refl), refl), refl), refl), refl), refl), refl), refl), refl),
            refl,
          ),
          refl,
        ),
        refl,
      ),
      refl,
    ),
    refl,
  ),
  refl,
)

pub hex_value-hex : (d : ℕ) → d < 16 → hex_value (get_or hex d 0) ≡ some d
hex_value-hex d h = placed 16 d table h

pub hex_value-lt : (c v : ℕ) → hex_value c ≡ some v → v < 16
unfolding hex_value
hex_value-lt c v h = ground arith
