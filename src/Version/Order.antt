-- ===== src/Version/Order.antt =====
-- The loop of the comparison ends by its own tests.
use win16sync.Prelude.{
  ℕ, zero, suc, ◌+◌, ◌≤◌, ◌<◌, ◌≡◌, false, [], ◌∷◌, length, Text, arith, inl, inr,
}
use win16sync.Number.{strtoul}
use win16sync.Number.Laws.{strtoul_progress, strtoul_digits_lt}
use win16sync.Path.{is_empty}
use win16sync.Version.{skip_dot, stops, version_loop, compare_versions}

skip_dot_le : (s : Text) → length (skip_dot s) ≤ length s
skip_dot_le [] = omega arith
skip_dot_le (c ∷ s) = ground arith

-- What remains of a cursor when the loop goes on is shorter than it was, or was empty.
cursor_shrinks :
    (text : Text)
    → stops (skip_dot (strtoul 10 text).1) ≡ false
    → is_empty text ≡ false
    → length (skip_dot (strtoul 10 text).1) < length text
cursor_shrinks [] h e = cc
cursor_shrinks (c ∷ s) h e = elim (strtoul_progress 10 (c ∷ s)) [
  | inl stays ↦ rw stays (ground (arith, strtoul_digits_lt c s, rw stays at h))
  | inr shorter ↦ omega (arith, skip_dot_le (strtoul 10 (c ∷ s)).1)
]

cursor_le : (text : Text) → length (skip_dot (strtoul 10 text).1) ≤ length text
cursor_le text = elim (strtoul_progress 10 text) [
  | inl stays ↦ rw stays (skip_dot_le text)
  | inr shorter ↦ omega (arith, skip_dot_le (strtoul 10 text).1)
]

version_loop_rounds :
    (rounds rounds' : ℕ) (left right : Text)
    → length left + length right < rounds
    → length left + length right < rounds'
    → version_loop rounds left right ≡ version_loop rounds' left right
unfolding version_loop
version_loop_rounds zero rounds' left right h h' = absurd (omega arith)
version_loop_rounds (suc rounds) zero left right h h' = absurd (omega arith)
version_loop_rounds (suc rounds) (suc rounds') left right h h' = ground (
  arith,
  cursor_le left,
  cursor_le right,
  cursor_shrinks left,
  cursor_shrinks right,
  version_loop_rounds rounds rounds' (skip_dot (strtoul 10 left).1) (skip_dot (strtoul 10 right).1),
)

-- Any number of rounds above the lengths of both texts gives the same result: the loop of
-- proto_compare_versions ends by one of its own tests.
pub version_loop-compare_versions :
    (rounds : ℕ) (left right : Text)
    → length left + length right < rounds
    → version_loop rounds left right ≡ compare_versions left right
unfolding compare_versions
version_loop-compare_versions rounds left right h =
    version_loop_rounds rounds (suc (length left + length right)) left right h (omega arith)
