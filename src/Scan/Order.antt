-- ===== src/Scan/Order.antt =====
-- The order of paths in which proto_scan_directory sorts, and that a list can be sorted by it in
-- one way only.
use mathlib.Core.List.Perm
use mathlib.Core.List.{Perm, Mem, forall_mem-cons, mem-cons_self, not-mem-nil}
use mathlib.Core.Path.{ap₂}
use win16sync.Prelude.{
  ◌<◌, ◌≡◌, refl, true, List, [], ◌∷◌, map, ltb, Text, arith, Bool-cases, inl, inr, ◌⊎◌,
}
use win16sync.Items.{FileItem}
use win16sync.Scan.{text_le}

-- The order of texts by their first difference: a text comes before another one that goes on
-- where it ends, and before one with a greater byte where they differ first.
abbrev pub Precedes : Text → Text → Type 0
Precedes [] right = Unit
Precedes (x ∷ left) [] = ⊥
Precedes (x ∷ left) (y ∷ right) = (x < y) ⊎ ((x ≡ y) × Precedes left right)

-- Each item's path comes before that of the next one.
abbrev pub IsSorted : List FileItem → Type 0
IsSorted [] = Unit
IsSorted (item ∷ []) = Unit
IsSorted (item ∷ next ∷ items) = Precedes item.path next.path × IsSorted (next ∷ items)

-- What strcmp is asked for is this order.
pub text_le-Precedes : (left right : Text) → text_le left right ≡ true → Precedes left right
unfolding text_le
text_le-Precedes [] right e = tt
text_le-Precedes (x ∷ left) [] e = cc e
text_le-Precedes (x ∷ left) (y ∷ right) e = elim (Bool-cases (ltb x y)) [
  | inl less ↦ inl (ground arith)
  | inr more ↦ inr (ground arith, text_le-Precedes left right (ground arith))
]

Precedes-refl : (a : Text) → Precedes a a
Precedes-refl [] = tt
Precedes-refl (x ∷ a) = inr (refl, Precedes-refl a)

Precedes-trans : (a b c : Text) → Precedes a b → Precedes b c → Precedes a c
Precedes-trans [] b c h k = tt
Precedes-trans (x ∷ a) [] c h k = absurd h
Precedes-trans (x ∷ a) (y ∷ b) [] h k = absurd k
Precedes-trans (x ∷ a) (y ∷ b) (z ∷ c) (inl less) (inl more) = inl (omega arith)
Precedes-trans (x ∷ a) (y ∷ b) (z ∷ c) (inl less) (inr (e, k)) = inl (omega (arith, e))
Precedes-trans (x ∷ a) (y ∷ b) (z ∷ c) (inr (e, h)) (inl more) = inl (omega (arith, e))
Precedes-trans (x ∷ a) (y ∷ b) (z ∷ c) (inr (e, h)) (inr (e', k)) =
    inr (omega (arith, e, e'), Precedes-trans a b c h k)

Precedes-antisym : (a b : Text) → Precedes a b → Precedes b a → a ≡ b
Precedes-antisym [] [] h k = refl
Precedes-antisym [] (y ∷ b) h k = absurd k
Precedes-antisym (x ∷ a) [] h k = absurd h
Precedes-antisym (x ∷ a) (y ∷ b) (inl less) (inl more) = absurd (omega arith)
Precedes-antisym (x ∷ a) (y ∷ b) (inl less) (inr (e, k)) = absurd (omega (arith, e))
Precedes-antisym (x ∷ a) (y ∷ b) (inr (e, h)) (inl more) = absurd (omega (arith, e))
Precedes-antisym (x ∷ a) (y ∷ b) (inr (e, h)) (inr (e', k)) = ap₂ ◌∷◌ e (Precedes-antisym a b h k)

abbrev pub paths : List FileItem → List Text
paths = map (λ item. item.path)

abbrev AreInOrder : List Text → Type 0
AreInOrder [] = Unit
AreInOrder (a ∷ []) = Unit
AreInOrder (a ∷ b ∷ l) = Precedes a b × AreInOrder (b ∷ l)

IsSorted-AreInOrder : (items : List FileItem) → IsSorted items → AreInOrder (paths items)
IsSorted-AreInOrder [] h = tt
IsSorted-AreInOrder (item ∷ []) h = tt
IsSorted-AreInOrder (item ∷ next ∷ items) h = (h.0, IsSorted-AreInOrder (next ∷ items) h.1)

AreInOrder-tail : (a : Text) (l : List Text) → AreInOrder (a ∷ l) → AreInOrder l
AreInOrder-tail a [] h = tt
AreInOrder-tail a (b ∷ l) h = h.1

Precedes-text_le : (left right : Text) → Precedes left right → text_le left right ≡ true
unfolding text_le
Precedes-text_le [] right h = refl
Precedes-text_le (x ∷ left) [] h = absurd h
Precedes-text_le (x ∷ left) (y ∷ right) (inl less) = ground arith
Precedes-text_le (x ∷ left) (y ∷ right) (inr (e, h)) = ground (arith, Precedes-text_le left right h)

-- What stands before all of a list, by the test, which is a mere proposition.
abbrev IsBelow : Text → List Text → Type 0
IsBelow a l = (x : Text) → Mem x l → text_le a x ≡ true

text_le_prop : (a x : Text) → IsProp (text_le a x ≡ true)
text_le_prop a x = hlevel

IsBelow-cons : (a b : Text) (l : List Text) → Precedes a b → IsBelow a l → IsBelow a (b ∷ l)
IsBelow-cons a b l h below = (forall_mem-cons (text_le_prop a)).1 (Precedes-text_le a b h, below)

AreInOrder-IsBelow :
    (a b : Text) (l : List Text) → Precedes a b → AreInOrder (b ∷ l) → IsBelow a (b ∷ l)
AreInOrder-IsBelow a b [] h k = IsBelow-cons a b [] h (λ x m. absurd (not-mem-nil m))
AreInOrder-IsBelow a b (c ∷ l) h k =
    IsBelow-cons a b (c ∷ l) h (AreInOrder-IsBelow a c l (Precedes-trans a b c h k.0) k.1)

-- The first of a list in order comes before the first of each permutation.
first-Precedes :
    (a b : Text) (l r : List Text) → AreInOrder (a ∷ l) → Perm (b ∷ r) (a ∷ l) → Precedes a b
first-Precedes a b l r h p =
    text_le-Precedes a b
      (AreInOrder-IsBelow a a l (Precedes-refl a) h b ((Perm.mem_iff p).0 mem-cons_self))

AreInOrder-unique : (l r : List Text) → AreInOrder l → AreInOrder r → Perm l r → l ≡ r
AreInOrder-unique [] r h k p = Perm.nil-eq p
AreInOrder-unique (a ∷ l) [] h k p = Perm.eq-nil p
AreInOrder-unique (a ∷ l) (b ∷ r) h k p =
    let heads =
      Precedes-antisym a b (first-Precedes a b l r h (Perm.symm p)) (first-Precedes b a r l k p) in
    let tails = Perm.cons_inv (Perm.trans p (Perm.symm (Perm.cons' heads Perm.rfl))) in
    ap₂ ◌∷◌ heads (AreInOrder-unique l r (AreInOrder-tail a l h) (AreInOrder-tail b r k) tails)

-- Two lists of the same items in this order have the same paths at each place.
pub IsSorted-unique :
    (left right : List FileItem)
    → Perm left right
    → IsSorted left
    → IsSorted right
    → paths left ≡ paths right
IsSorted-unique left right p h k =
    AreInOrder-unique (paths left) (paths right) (IsSorted-AreInOrder left h)
      (IsSorted-AreInOrder right k) (Perm.map (λ item. item.path) p)
