-- ===== src/Session/Frame.antt =====
-- A relation between the worlds before and after that all routines of a session keep, if it is kept
-- by each call that they are made of; one rule for each way to build an action.
use win16sync.Prelude.{ℕ, Bool, true, false, Option, none, some, Text, if◌then◌else◌}
use win16sync.Action.{Action, pure, failed, gets, ◌>>=◌, continue, clean, on_failure}
use win16sync.Action.Ends.{Ends}
use win16sync.Cache.{Cache}
use win16sync.Client.{set_notice}
use win16sync.Dos.{Dos}
use win16sync.Session.{
  World, change_cache, with_client, with_error, with_state, by_machine, refuse, check_with, demand,
  Session, hear, take_bytes, say, send_bytes,
}
use win16sync.Winsock.{Winsock}

-- An action relates each world to the one after it, whether it fails or not.
pub record Keeps {World A : Type 0} (R : World → World → Type 0) (m : Action World A) : Type 0 where
  pub at : (u : World) → R u (m u).1

pub record IsFrame (w : Winsock) (d : Dos)
    (R : World w.Socket d.State → World w.Socket d.State → Type 0) : Type 0 where
  pub same : (u : World w.Socket d.State) → R u u
  pub after : (u v x : World w.Socket d.State) → R u v → R v x → R u x
  pub state : (u : World w.Socket d.State) (s : d.State) → R u (with_state u s)
  pub error : (u : World w.Socket d.State) (message : Text) → R u (with_error message u)
  pub notice :
      (u : World w.Socket d.State) (message : Text)
      → R u (with_client u (set_notice u.net.client message))
  pub cache :
      (u : World w.Socket d.State) (cache : Cache)
      → R u (with_client u (record u.net.client { cache = cache }))
  pub says : (line : Text) → Keeps R (say w d line)
  pub hears : Keeps R (hear w d)
  pub takes : (n : ℕ) → Keeps R (take_bytes w d n)
  pub sends : (bytes : Text) → Keeps R (send_bytes w d bytes)

-- From what a call ensures.
pub Ends-Keeps :
    {World A : Type 0} {R : World → World → Type 0} {P : World → A → World → Type 0}
    {E : World → World → Type 0} (m : Action World A)
    → ((u : World) → Ends (P u) (E u) (m u))
    → ((u : World) (a : A) (v : World) → P u a v → R u v)
    → ((u v : World) → E u v → R u v)
    → Keeps R m
Ends-Keeps {World} {A} {R} {P} {E} m h p e = record { at = λ u. ended u (m u) (h u) }
  where
    ended : (u : World) (r : Option A × World) → Ends (P u) (E u) r → R u r.1
    ended u (some a, v) k = p u a v k.ended
    ended u (none, v) k = e u v k.ended

module _ {w : Winsock} {d : Dos} {R : World w.Socket d.State → World w.Socket d.State → Type 0}
    (f : IsFrame w d R) where
  pub Keeps-pure : {A : Type 0} (a : A) → Keeps R (pure a)
  unfolding pure
  Keeps-pure a = record { at = λ u. f.same u }

  pub Keeps-failed : {A : Type 0} → Keeps R (failed {A = A})
  unfolding failed
  Keeps-failed = record { at = λ u. f.same u }

  pub Keeps-gets : {A : Type 0} (g : World w.Socket d.State → A) → Keeps R (gets g)
  unfolding gets
  Keeps-gets g = record { at = λ u. f.same u }

  pub Keeps-by_machine : {A : Type 0} (g : d.State → A × d.State) → Keeps R (by_machine g)
  unfolding by_machine
  Keeps-by_machine g = record { at = λ u. f.state u (g u.state).1 }

  pub Keeps-change_cache : (g : Cache → Cache) → Keeps R (change_cache g)
  unfolding change_cache
  Keeps-change_cache g = record { at = λ u. f.cache u (g u.net.client.cache) }

  pub Keeps-refuse : {A : Type 0} (message : d.State → Text) → Keeps R (refuse {A = A} message)
  unfolding refuse
  Keeps-refuse message = record { at = λ u. f.error u (message u.state) }

  pub Keeps-check : (ok : Bool) (message : d.State → Text) → Keeps R (check_with ok message)
  unfolding check_with pure
  Keeps-check true message = record { at = λ u. f.same u }
  Keeps-check false message = Keeps-refuse message

  pub Keeps-demand : {A : Type 0} (o : Option A) (message : Text) → Keeps R (demand o message)
  unfolding demand pure
  Keeps-demand none message = Keeps-refuse (λ _. message)
  Keeps-demand (some a) message = record { at = λ u. f.same u }

  pub Keeps-if :
      {A : Type 0} (b : Bool) (m n : Session w d A)
      → Keeps R m
      → Keeps R n
      → Keeps R (if b then m else n)
  Keeps-if true m n h k = h
  Keeps-if false m n h k = k

  continue-Keeps :
      {A B : Type 0} (g : A → Session w d B) (u : World w.Socket d.State)
      (r : Option A × World w.Socket d.State)
      → R u r.1
      → ((a : A) → Keeps R (g a))
      → R u (continue g r).1
  unfolding continue
  continue-Keeps g u (none, v) h k = h
  continue-Keeps g u (some a, v) h k = f.after u v (g a v).1 h ((k a).at v)

  pub Keeps-bind :
      {A B : Type 0} (m : Session w d A) (g : A → Session w d B)
      → Keeps R m
      → ((a : A) → Keeps R (g a))
      → Keeps R (m >>= g)
  unfolding ◌>>=◌
  Keeps-bind m g h k = record { at = λ u. continue-Keeps g u (m u) (h.at u) k }

  -- As a statement on the result.
  pub Keeps-Ends :
      {A : Type 0} (m : Session w d A) (u : World w.Socket d.State)
      → Keeps R m
      → Ends (λ _ u'. R u u') (λ u'. R u u') (m u)
  Keeps-Ends {A} m u h = ended-Ends (m u) (h.at u)
    where
      ended-Ends :
          (r : Option A × World w.Socket d.State) → R u r.1 → Ends (λ _ u'. R u u') (λ u'. R u u') r
      ended-Ends (some a, v) k = record { ended = k }
      ended-Ends (none, v) k = record { ended = k }

  clean-Keeps :
      {A : Type 0} (cleanup : World w.Socket d.State → World w.Socket d.State)
      (u : World w.Socket d.State) (r : Option A × World w.Socket d.State)
      → R u r.1
      → ((v : World w.Socket d.State) → R v (cleanup v))
      → R u (clean cleanup r).1
  unfolding clean
  clean-Keeps cleanup u (none, v) h k = f.after u v (cleanup v) h (k v)
  clean-Keeps cleanup u (some a, v) h k = h

  pub Keeps-on_failure :
      {A : Type 0} (cleanup : World w.Socket d.State → World w.Socket d.State) (m : Session w d A)
      → ((v : World w.Socket d.State) → R v (cleanup v))
      → Keeps R m
      → Keeps R (on_failure cleanup m)
  unfolding on_failure
  Keeps-on_failure cleanup m k h = record { at = λ u. clean-Keeps cleanup u (m u) (h.at u) k }

pub ruleset keeps_rules = (
  Keeps-pure, Keeps-failed, Keeps-gets, Keeps-by_machine, Keeps-refuse, Keeps-change_cache,
  Keeps-check, Keeps-demand, Keeps-if, Keeps-bind,
)
