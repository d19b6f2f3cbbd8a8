-- ===== src/Action/Ends.antt =====
-- What an action ensures, with one rule for each way to build an action.
use win16sync.Prelude.{Option, none, some}
use win16sync.Action.{Action, pure, continue, ◌>>=◌, clean, on_failure}

module _ {World : Type 0} where
  abbrev pub Ended :
      {A : Type 0} → (A → World → Type 0) → (World → Type 0) → Option A × World → Type 0
  Ended Q E (some a, w) = Q a w
  Ended Q E (none, w) = E w

-- A result is as `Q` says, and a failure leaves a world as `E` says.
pub record Ends {World A : Type 0} (Q : A → World → Type 0) (E : World → Type 0)
    (r : Option A × World) : Type 0 where
  pub ended : Ended Q E r

module _ {World A : Type 0} {E : World → Type 0} where
  pub Ends-weaken :
      {P Q : A → World → Type 0} {F : World → Type 0} (r : Option A × World)
      → ((a : A) (w : World) → P a w → Q a w)
      → ((w : World) → F w → E w)
      → Ends P F r
      → Ends Q E r
  Ends-weaken (some a, w) f g h = record { ended = f a w h.ended }
  Ends-weaken (none, w) f g h = record { ended = g w h.ended }

  pub Ends-pure : {Q : A → World → Type 0} (a : A) (w : World) → Q a w → Ends Q E (pure a w)
  unfolding pure
  Ends-pure a w h = record { ended = h }

  clean-Ends :
      {Q : A → World → Type 0} {F : World → Type 0} (cleanup : World → World) (r : Option A × World)
      → Ends Q F r
      → ((w' : World) → F w' → E (cleanup w'))
      → Ends Q E (clean cleanup r)
  unfolding clean
  clean-Ends cleanup (some a, w') h g = record { ended = h.ended }
  clean-Ends cleanup (none, w') h g = record { ended = g w' h.ended }

  pub Ends-on_failure :
      {Q : A → World → Type 0} {F : World → Type 0} (cleanup : World → World) (m : Action World A)
      (w : World)
      → Ends Q F (m w)
      → ((w' : World) → F w' → E (cleanup w'))
      → Ends Q E (on_failure cleanup m w)
  unfolding on_failure
  Ends-on_failure cleanup m w h g = clean-Ends cleanup (m w) h g

module _ {World A B : Type 0} {P : A → World → Type 0} {Q : B → World → Type 0}
    {E : World → Type 0} where
  Ends-continue :
      (f : A → Action World B) (r : Option A × World)
      → Ends P E r
      → ((a : A) (w : World) → P a w → Ends Q E (f a w))
      → Ends Q E (continue f r)
  unfolding continue
  Ends-continue f (some a, w) h g = g a w h.ended
  Ends-continue f (none, w) h g = record { ended = h.ended }

  -- The rest of the block starts from what the first action ensures.
  pub Ends-bind :
      (m : Action World A) (f : A → Action World B) (w : World)
      → Ends P E (m w)
      → ((a : A) (w' : World) → P a w' → Ends Q E (f a w'))
      → Ends Q E ((m >>= f) w)
  unfolding ◌>>=◌
  Ends-bind m f w h g = Ends-continue f (m w) h g
