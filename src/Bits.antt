-- ===== src/Bits.antt =====
-- The laws of exclusive or that the checksum needs, at every width. The native operation has none
-- at variables; they come from one equation for the lowest bit.
use Prim.Native.Nat.{bit_xor, bit_xor-bitwise, digits, differ}
use native.Mathlib.Nat.{pow-suc}
use win16sync.Prelude.{
  ℕ, zero, suc, ◌+◌, ◌*◌, ◌/◌, ◌%◌, ◌^◌, ◌≤◌, ◌<◌, ◌≡◌, refl, ap, sym, ◌∙◌, arith,
}

abbrev xor_digits : ℕ → ℕ → ℕ → ℕ
xor_digits = digits (λ b. b) differ

zero-bit_xor : (b : ℕ) → bit_xor 0 b ≡ b
zero-bit_xor b = bit_xor-bitwise 0 b

-- Any number of rounds that reaches the highest bit of the left number gives the same.
xor_digits-bit_xor :
    (limit rounds left right : ℕ)
    → rounds ≤ limit
    → left ≤ rounds
    → xor_digits rounds left right ≡ bit_xor left right
xor_digits-bit_xor limit zero left right few reach =
    let none_left : left ≡ 0 = omega arith in rw none_left (sym (zero-bit_xor right))
xor_digits-bit_xor limit (suc rounds) zero right few reach = sym (zero-bit_xor right)
xor_digits-bit_xor zero (suc rounds) (suc left) right few reach = absurd (omega arith)
xor_digits-bit_xor (suc limit) (suc rounds) (suc left) right few reach =
    let rest =
      xor_digits-bit_xor limit rounds (suc left / 2) (right / 2) (omega arith) (omega arith) in
    let own =
      xor_digits-bit_xor limit left (suc left / 2) (right / 2) (omega arith) (omega arith) in
    omega (arith, bit_xor-bitwise (suc left) right, rest, own)

differ-mod : (x y : ℕ) → x < 2 → y < 2 → differ x y ≡ (x + y) % 2
differ-mod zero zero p q = refl
differ-mod zero (suc zero) p q = refl
differ-mod (suc zero) zero p q = refl
differ-mod (suc zero) (suc zero) p q = refl
differ-mod (suc (suc x)) y p q = absurd (omega arith)
differ-mod zero (suc (suc y)) p q = absurd (omega arith)
differ-mod (suc zero) (suc (suc y)) p q = absurd (omega arith)

pub bit_xor_step : (a b : ℕ) → bit_xor a b ≡ bit_xor (a / 2) (b / 2) * 2 + (a + b) % 2
bit_xor_step zero b = let high = zero-bit_xor (b / 2) in omega (arith, high, zero-bit_xor b)
bit_xor_step (suc a) b =
    let low = differ-mod (suc a % 2) (b % 2) (omega arith) (omega arith) in
    let high = xor_digits-bit_xor a a (suc a / 2) (b / 2) (omega arith) (omega arith) in
    omega (arith, high, low, bit_xor-bitwise (suc a) b)

pub bit_xor-div : (a b : ℕ) → bit_xor a b / 2 ≡ bit_xor (a / 2) (b / 2)
bit_xor-div a b = omega (arith, bit_xor_step a b)

pub bit_xor-mod : (a b : ℕ) → bit_xor a b % 2 ≡ (a + b) % 2
bit_xor-mod a b = omega (arith, bit_xor_step a b)

-- An equation holds of all numbers if it holds of the lowest bits and, by induction, of the rest.
bit_xor-zero_bound : (n a : ℕ) → a ≤ n → bit_xor a 0 ≡ a
bit_xor-zero_bound zero a h = let e : a ≡ 0 = omega arith in rw e
bit_xor-zero_bound (suc n) zero h = refl
bit_xor-zero_bound (suc n) (suc a) h =
    omega (arith, bit_xor_step (suc a) 0, bit_xor-zero_bound n (suc a / 2) (omega arith))

pub bit_xor-zero : (a : ℕ) → bit_xor a 0 ≡ a
bit_xor-zero a = bit_xor-zero_bound a a (omega arith)

bit_xor_comm_bound : (n a b : ℕ) → a + b ≤ n → bit_xor a b ≡ bit_xor b a
bit_xor_comm_bound zero a b h =
    let ea : a ≡ 0 = omega arith in let eb : b ≡ 0 = omega arith in rw (ea, eb)
bit_xor_comm_bound (suc n) zero b h = zero-bit_xor b ∙ sym (bit_xor-zero b)
bit_xor_comm_bound (suc n) (suc a) b h = omega (
  arith,
  bit_xor_step (suc a) b,
  bit_xor_step b (suc a),
  bit_xor_comm_bound n (suc a / 2) (b / 2) (omega arith),
)

pub bit_xor_comm : (a b : ℕ) → bit_xor a b ≡ bit_xor b a
bit_xor_comm a b = bit_xor_comm_bound (a + b) a b (omega arith)

bit_xor_assoc_bound : (n a b c : ℕ) → a ≤ n → bit_xor (bit_xor a b) c ≡ bit_xor a (bit_xor b c)
bit_xor_assoc_bound n zero b c h = rw (zero-bit_xor b, zero-bit_xor (bit_xor b c))
bit_xor_assoc_bound zero (suc a) b c h = absurd (omega arith)
bit_xor_assoc_bound (suc n) (suc a) b c h =
    let ih = bit_xor_assoc_bound n (suc a / 2) (b / 2) (c / 2) (omega arith) in
    let l = bit_xor_step (bit_xor (suc a) b) c in
    let r = bit_xor_step (suc a) (bit_xor b c) in
    let l' = ap (λ t. bit_xor t (c / 2)) (bit_xor-div (suc a) b) in
    let r' = ap (bit_xor (suc a / 2)) (bit_xor-div b c) in
    omega (arith, ih, l, r, l', r', bit_xor-mod (suc a) b, bit_xor-mod b c)

pub bit_xor_assoc : (a b c : ℕ) → bit_xor (bit_xor a b) c ≡ bit_xor a (bit_xor b c)
bit_xor_assoc a b c = bit_xor_assoc_bound a a b c (omega arith)

pub bit_xor_left_comm : (a b c : ℕ) → bit_xor a (bit_xor b c) ≡ bit_xor b (bit_xor a c)
bit_xor_left_comm a b c =
    sym (bit_xor_assoc a b c) ∙ ap (λ t. bit_xor t c) (bit_xor_comm a b) ∙ bit_xor_assoc b a c

-- Numbers below a power of two stay below it.
pub bit_xor-lt_pow : (k a b : ℕ) → a < 2 ^ k → b < 2 ^ k → bit_xor a b < 2 ^ k
bit_xor-lt_pow zero a b p q =
    let ea : a ≡ 0 = omega arith in let eb : b ≡ 0 = omega arith in rw (ea, eb) (omega arith)
bit_xor-lt_pow (suc k) a b p q = omega (
  arith,
  pow-suc 2 k,
  bit_xor_step a b,
  bit_xor-lt_pow k (a / 2) (b / 2) (omega (arith, pow-suc 2 k)) (omega (arith, pow-suc 2 k)),
)

-- High and low bits of a number are disjoint.
pub bit_xor_fields :
    (k high low : ℕ) → low < 2 ^ k → bit_xor (high * 2 ^ k) low ≡ high * 2 ^ k + low
bit_xor_fields zero high low h =
    let e : low ≡ 0 = omega arith in rw (e, bit_xor-zero (high * 1)) (omega arith)
bit_xor_fields (suc k) high low h = omega (
  arith,
  pow-suc 2 k,
  ap (λ t. high * t) (pow-suc 2 k),
  bit_xor_step (high * 2 ^ suc k) low,
  ap (λ t. bit_xor t (low / 2)) (half high k),
  bit_xor_fields k high (low / 2) (omega (arith, pow-suc 2 k)),
)
  where
    half : (high k : ℕ) → high * 2 ^ suc k / 2 ≡ high * 2 ^ k
    half high k = omega (arith, ap (λ t. high * t) (pow-suc 2 k))
