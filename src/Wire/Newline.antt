-- ===== src/Wire/Newline.antt =====
-- The first newline of a text, and a text that ends before its first newline.
use win16sync.Prelude.{
  ℕ, suc, ◌+◌, ◌≤◌, ◌<◌, ◌≡◌, ◌≢◌, ap, sym, ◌∙◌, false, none, some, [], ◌∷◌, ◌++◌, ◌==◌, length,
  take, drop, Text, All, arith, Bool-cases, Option-cases, inl, inr,
}
use win16sync.Wire.{newline_index}

abbrev pub HasNoNewline : Text → Type 0
HasNoNewline = All (λ c. (c == b'\n') ≡ false)

pub newline_index-none : (buffer : Text) → newline_index buffer ≡ none → HasNoNewline buffer
unfolding newline_index
newline_index-none [] e = tt
newline_index-none (c ∷ buffer) e = elim (Option-cases (newline_index buffer)) [
  | inl none_behind ↦ (ground arith, newline_index-none buffer none_behind)
  | inr (i, found) ↦ absurd (ground arith)
]

-- The text around the first newline.
pub newline_index-some :
    (buffer : Text) (index : ℕ)
    → newline_index buffer ≡ some index
    → (buffer ≡ take index buffer ++ b'\n' ∷ drop (index + 1) buffer)
      × HasNoNewline (take index buffer)
      × (index < length buffer)
unfolding newline_index
newline_index-some [] index e = cc
newline_index-some (c ∷ buffer) index e = elim (Bool-cases (c == b'\n')) [
  | inl here ↦
      let e1 : index ≡ 0 = ground arith in
      let e2 : c ≡ b'\n' = ground arith in rw e1 (ap (λ d. d ∷ buffer) e2, tt, omega arith)
  | inr other ↦ elim (Option-cases (newline_index buffer)) [
    | inl missing ↦ absurd (ground arith)
    | inr (i, found) ↦
        let e1 : index ≡ suc i = ground arith in
        let (around, clean, inside) = newline_index-some buffer i found in
        rw e1 (
          ap (◌∷◌ c) around
              ∙ ap (λ k. c ∷ (take i buffer ++ b'\n' ∷ drop k (c ∷ buffer))) {x = suc (i + 1)}
                  {y = suc i + 1} (omega arith),
          (other, clean),
          omega arith,
        )
  ]
]

-- Two texts that begin alike up to their first newlines are the same up to there.
pub first_newline :
    (a b a' b' : Text)
    → HasNoNewline a
    → HasNoNewline a'
    → a ++ b'\n' ∷ b ≡ a' ++ b'\n' ∷ b'
    → (a ≡ a') × (b ≡ b')
first_newline [] b [] b' h h' e = ground arith
first_newline [] b (c ∷ a') b' h h' e = ground arith
first_newline (c ∷ a) b [] b' h h' e = ground arith
first_newline (c ∷ a) b (c' ∷ a') b' h h' e = ground (arith, first_newline a b a' b' h.1 h'.1)

append-ne_nil : (a : Text) (c : ℕ) (b : Text) → a ++ c ∷ b ≢ []
append-ne_nil [] c b e = cc
append-ne_nil (d ∷ a) c b e = cc

-- A text with no newline, in front of others, ends before the first newline of the whole.
pub no_newline_le :
    (buffer rest a b : Text)
    → HasNoNewline buffer
    → buffer ++ rest ≡ a ++ b'\n' ∷ b
    → (length buffer ≤ length a) × (rest ≢ [])
no_newline_le [] rest a b h e = (omega arith, λ r. append-ne_nil a b'\n' b (sym e ∙ r))
no_newline_le (c ∷ buffer) rest [] b h e = absurd (ground arith)
no_newline_le (c ∷ buffer) rest (d ∷ a) b h e = ground (arith, no_newline_le buffer rest a b h.1)
