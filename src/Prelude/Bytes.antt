-- ===== src/Prelude/Bytes.antt =====
-- C texts. A `char` array that holds a text is the list of the bytes before its NUL.
use Prim.Native.Char.{code}
use Prim.Native.Nat.{ℕ, ◌<◌}
use Prim.Native.String.{String}
use mathlib.Core.Path.{◌≡◌, refl}
use mathlib.Core.Logic.{◌↔◌, ◌≢◌}
use mathlib.Core.Bool.{Bool, true, false, ◌&&◌}
use mathlib.Core.List.{List, [], ◌∷◌}
use native.Mathlib.Omega.{arith}
use win16sync.Prelude.Tests.{◌==◌, if◌then◌else◌}
use win16sync.Prelude.Lists.{All}

abbrev pub Text : Type 0
Text = List ℕ

-- The bytes of an ASCII literal.
abbrev pub codes : String → Text
codes String.[] = []
codes (String.◌∷◌ c s) = code c ∷ codes s

-- What a C function reads of an array: the bytes before the first NUL.
unfoldable pub c_text : Text → Text
c_text [] = []
c_text (c ∷ cs) = if c == 0 then [] else c ∷ c_text cs

-- Bytes of a text: no NUL, and below 256.
abbrev pub IsText : Text → Type 0
IsText = All (λ c. (c ≢ 0) × (c < 256))

pub c_text_all : (s : Text) → IsText s → c_text s ≡ s
unfolding c_text
c_text_all [] h = refl
c_text_all (c ∷ cs) h = ground (arith, c_text_all cs h.1)

-- strcmp(a, b) == 0
unfoldable pub text_eq : Text → Text → Bool
text_eq [] [] = true
text_eq (x ∷ xs) (y ∷ ys) = (x == y) && text_eq xs ys
text_eq _ _ = false

pub text_eq_iff : (a b : Text) → (text_eq a b ≡ true) ↔ (a ≡ b)
unfolding text_eq
text_eq_iff (x ∷ a) (y ∷ b) = ground (arith, text_eq_iff a b)
text_eq_iff _ _ = ground arith
