-- ===== src/Action.antt =====
-- How the routines of client/proto.c that do several things in turn are written: an action changes
-- the world, and gives a value or `none`, the `return 0` of the source. What is done before a
-- failure stays done.
pub mod Ends
use win16sync.Prelude.{Bool, true, false, Option, none, some}

abbrev pub Action : Type 0 → Type 0 → Type 0
Action World A = World → Option A × World

-- The result of a call that gives none.
abbrev pub Done : Type 0
Done = Unit

module _ {World : Type 0} where
  unfoldable pub pure : {A : Type 0} → A → Action World A
  pure a w = (some a, w)

  unfoldable pub failed : {A : Type 0} → Action World A
  failed w = (none, w)

  unfoldable pub gets : {A : Type 0} → (World → A) → Action World A
  gets f w = (some (f w), w)

  unfoldable pub changes : (World → World) → Action World Done
  changes f w = (some tt, f w)

  -- The rest of a block, after what went before gave a result.
  unfoldable pub continue :
      {A B : Type 0} → (A → Action World B) → Option A × World → Option B × World
  continue f (none, w) = (none, w)
  continue f (some a, w) = f a w

  infixl 5 ◌>>=◌ ◌>>◌
  unfoldable pub ◌>>=◌ : {A B : Type 0} → Action World A → (A → Action World B) → Action World B
  unfolding continue pure failed gets changes
  ◌>>=◌ m f w = continue f (m w)

  abbrev pub ◌>>◌ : {A B : Type 0} → Action World A → Action World B → Action World B
  m >> n = m >>= λ _. n

  -- What a failing block does before its `return 0`.
  unfoldable pub clean : {A : Type 0} → (World → World) → Option A × World → Option A × World
  clean cleanup (none, w) = (none, cleanup w)
  clean cleanup (some a, w) = (some a, w)

  unfoldable pub on_failure : {A : Type 0} → (World → World) → Action World A → Action World A
  unfolding clean
  on_failure cleanup m w = clean cleanup (m w)
