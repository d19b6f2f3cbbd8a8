-- ===== src/Text.antt =====
-- client/proto.c: proto_copy_text and proto_append_text, the bounded copies that all other code
-- goes through. A target is given by the text it holds and its capacity. After a failed append
-- the target has lost its terminator; no caller reads it then, so a failure is `none`.
pub mod Laws
mod Tests
use mathlib.Core.Option
use win16sync.Prelude.{
  ℕ, ◌+◌, Option, none, some, List, [], ◌∷◌, ◌++◌, ltb, leb, ◌==◌, if◌then◌else◌, length, Text,
}

-- The loop of proto_copy_text, from `index` on.
copy_loop : Text → ℕ → ℕ → Text
copy_loop [] index capacity = []
copy_loop (c ∷ source) index capacity =
    let rest = copy_loop source (index + 1) capacity in
    if ltb (index + 1) capacity then c ∷ rest else []

unfoldable pub copy_text : Text → Text → ℕ → Text
unfolding copy_loop
copy_text target source capacity = if capacity == 0 then target else copy_loop source 0 capacity

-- The loop of proto_append_text: the bytes that it puts behind `target_length`.
append_loop : Text → ℕ → ℕ → ℕ → Option Text
append_loop [] target_length index capacity = some []
append_loop (c ∷ source) target_length index capacity =
    let rest = append_loop source target_length (index + 1) capacity in
    if leb capacity (target_length + index + 1) then none else Option.map (◌∷◌ c) rest

unfoldable pub append_text : Text → Text → ℕ → Option Text
unfolding append_loop
append_text target source capacity =
    if capacity == 0
    then none
    else Option.map (◌++◌ target) (append_loop source (length target) 0 capacity)
