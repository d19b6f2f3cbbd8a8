-- ===== src/Text/Laws.antt =====
-- The copies against plain list operations.
use win16sync.Prelude.{
  ℕ, suc, ◌+◌, ◌-◌, ◌<◌, ◌≡◌, ap, none, some, [], ◌∷◌, ◌++◌, arith, ltb, leb, if◌then◌else◌,
  Bool-cases, length, take, take_nil, sym, Text, inl, inr,
}
use win16sync.Text.{copy_loop, copy_text, append_loop, append_text}

copy_loop-take :
    (source : Text) (index capacity : ℕ)
    → copy_loop source index capacity ≡ take (capacity - (index + 1)) source
unfolding copy_loop
copy_loop-take [] index capacity = sym (take_nil (capacity - (index + 1)))
copy_loop-take (c ∷ source) index capacity = elim (Bool-cases (ltb (index + 1) capacity)) [
  | inl more ↦
      let e : capacity - (index + 1) ≡ suc (capacity - (index + 1 + 1)) = ground arith in
      rw (more, e) (ap (◌∷◌ c) (copy_loop-take source (index + 1) capacity))
  | inr full ↦ let e : capacity - (index + 1) ≡ 0 = ground arith in rw (full, e)
]

-- proto_copy_text keeps the longest prefix that leaves room for the terminator.
pub copy_text-take :
    (target source : Text) (capacity : ℕ)
    → 0 < capacity
    → copy_text target source capacity ≡ take (capacity - 1) source
unfolding copy_text
copy_text-take target source capacity h = ground (arith, copy_loop-take source 0 capacity)

append_loop_lem :
    (source : Text) (n index capacity : ℕ)
    → n + index < capacity
    → append_loop source n index capacity
      ≡ (if ltb (n + index + length source) capacity then some source else none)
unfolding append_loop
append_loop_lem [] n index capacity h = ground arith
append_loop_lem (c ∷ source) n index capacity h = elim (Bool-cases (leb capacity (n + index + 1))) [
  | inl full ↦ rw full (ground arith)
  | inr more ↦
      rw more (rw (append_loop_lem source n (index + 1) capacity (ground arith)) (ground arith))
]

-- proto_append_text appends the whole source exactly when the result and its terminator fit.
pub append_text_lem :
    (target source : Text) (capacity : ℕ)
    → length target < capacity
    → append_text target source capacity
      ≡ (if ltb (length target + length source) capacity then some (target ++ source) else none)
unfolding append_text
append_text_lem target source capacity h =
    ground (arith, append_loop_lem source (length target) 0 capacity)
