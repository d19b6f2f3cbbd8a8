-- ===== src/Name/Tested.antt =====
-- What the tests of proto_is_valid_component amount to, for a name with and without a dot.
use win16sync.Prelude.{
  ℕ, zero, suc, ◌+◌, ◌≤◌, ◌<◌, ◌≡◌, refl, ap, sym, ◌∙◌, Bool, false, not, ◌&&◌, ◌||◌, some, [], ◌∷◌,
  ◌++◌, map, ltb, ◌==◌, length, Text, All, arith, drop, get_or, inl, inr, Option-cases, c_text,
  length-map, map_append, take_front, drop_front, get_or_back, take_all, length-append,
  append_assoc,
}
use win16sync.Name.{contains, to_upper, upper_loop, first_dot, all_valid, component_tests}

abbrev pub HasNoDot : Text → Type 0
HasNoDot = All (λ c. (c == b'.') ≡ false)

abbrev pub HasNoNul : Text → Type 0
HasNoNul = All (λ c. (c == 0) ≡ false)

abbrev pub IsAscii : Text → Type 0
IsAscii = All (λ c. c < 128)

-- A base name or an extension of at most `most` characters.
abbrev pub is_part : ℕ → Text → Bool
is_part most p = not (length p == 0 || ltb most (length p)) && all_valid (map to_upper p)

pub upper_loop-map :
    (s : Text) {upper : Text} → upper_loop s ≡ some upper → IsAscii s × (upper ≡ map to_upper s)
unfolding upper_loop
upper_loop-map [] e = (tt, ground arith)
upper_loop-map (c ∷ s) {upper} e = elim (Option-cases (upper_loop s)) [
  | inl bad ↦ absurd (ground arith)
  | inr (rest, good) ↦
      let (ascii, shape) = upper_loop-map s good in ((ground arith, ascii), ground arith)
]

pub upper_loop_ascii : (s : Text) → IsAscii s → upper_loop s ≡ some (map to_upper s)
unfolding upper_loop
upper_loop_ascii [] h = refl
upper_loop_ascii (c ∷ s) h = rw (upper_loop_ascii s h.1) (ground arith)

first_dot_none : (s : Text) → HasNoDot s → first_dot (map to_upper s) ≡ length s
first_dot_none [] h = refl
first_dot_none (c ∷ s) h = ground (arith, first_dot_none s h.1)

first_dot_split :
    (b e : Text) → HasNoDot b → first_dot (map to_upper b ++ (b'.' ∷ map to_upper e)) ≡ length b
first_dot_split [] e h = refl
first_dot_split (c ∷ b) e h = ground (arith, first_dot_split b e h.1)

contains_dot-map : (s : Text) → contains b'.' (map to_upper s) ≡ contains b'.' s
contains_dot-map [] = refl
contains_dot-map (c ∷ s) = ground (arith, contains_dot-map s)

c_text-upper : (s stale : Text) → HasNoNul s → c_text (map to_upper s ++ 0 ∷ stale) ≡ map to_upper s
unfolding c_text
c_text-upper [] stale h = refl
c_text-upper (c ∷ s) stale h = ground (arith, c_text-upper s stale h.1)

drop_behind :
    (u : Text) (c : ℕ) (rest : Text) (n : ℕ) → n ≡ length u + 1 → drop n (u ++ c ∷ rest) ≡ rest
drop_behind u c rest n e =
    ap (drop n) (sym (append_assoc u (c ∷ []) rest))
    ∙ drop_front (u ++ c ∷ []) rest n (omega (arith, length-append u (c ∷ [])))

get_or_end : (u : Text) (n d : ℕ) → length u ≤ n → get_or u n d ≡ d
get_or_end [] n d h = refl
get_or_end (c ∷ u) zero d h = absurd (omega arith)
get_or_end (c ∷ u) (suc n) d h = get_or_end u n d (omega arith)

-- With no dot in the name.
pub component_tests_plain :
    (stale s : Text) (is_file : Bool)
    → HasNoDot s
    → component_tests stale (map to_upper s) is_file
      ≡ (not (is_file && contains b'.' (c_text stale)) && is_part 8 s)
unfolding component_tests
component_tests_plain stale s is_file h =
    let u = map to_upper s in
    let n = length-map to_upper s in
    rw
      (
        first_dot_none s h,
        drop_behind u 0 stale (length s + 1) (omega (arith, n)),
        take_all (length s) u (omega (arith, n)),
        get_or_end u (length s) 0 (omega (arith, n)),
        n,
      )
      (ground arith)

-- With a dot behind `b`.
pub component_tests_dotted :
    (stale b e : Text) (is_file : Bool)
    → HasNoDot b
    → HasNoNul e
    → component_tests stale (map to_upper (b ++ b'.' ∷ e)) is_file
      ≡ (is_file && not (contains b'.' e) && is_part 8 b && is_part 3 e)
unfolding component_tests
component_tests_dotted stale b e is_file h n =
    let ub = map to_upper b in
    let ue = map to_upper e in
    let nb = length-map to_upper b in
    rw
      (
        map_append to_upper b (b'.' ∷ e),
        first_dot_split b e h,
        append_assoc ub (b'.' ∷ ue) (0 ∷ stale),
        drop_behind ub b'.' (ue ++ 0 ∷ stale) (length b + 1) (omega (arith, nb)),
        drop_behind ub b'.' ue (length b + 1) (omega (arith, nb)),
        c_text-upper e stale n,
        contains_dot-map e,
        take_front ub (b'.' ∷ ue) (length b) (sym nb),
        get_or_back ub (b'.' ∷ ue) (length b) 0 0 (omega (arith, nb)),
        length-append ub (b'.' ∷ ue),
        length-map to_upper e,
        nb,
      )
      (ground arith)
