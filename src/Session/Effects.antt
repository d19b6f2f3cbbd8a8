-- ===== src/Session/Effects.antt =====
-- What each call of a session ensures, and the rules for a block that begins with one.
use mathlib.Core.Path.{subst, sym, ◌∙◌}
use win16sync.Cache.{Cache}
use win16sync.Prelude.{◌≡◌, refl, ◌∙◌, Bool, true, false, Option, none, some, Text}
use win16sync.Action.{Action, Done, pure, gets, changes, ◌>>=◌, continue}
use win16sync.Action.Ends.{Ended, Ends}
use win16sync.Client.{ProtoClient}
use win16sync.Session.{
  World, with_client, with_error, with_state, by_client, by_machine, refuse, check_with, demand,
}
use win16sync.Wire.Kept.{IsKept, IsKept-refl, IsKept-trans, set_error-IsKept}

-- The connection and the settings are as before, but for what is buffered and what is under way.
pub record IsOn {Socket State : Type 0} (u u' : World Socket State) : Type 0 where
  pub kept : IsKept u.net.client u'.net.client
  pub calls : u'.net.calls ≡ u.net.calls
  pub module_handle : u'.net.module_handle ≡ u.net.module_handle

module _ {Socket State : Type 0} where
  pub IsOn-refl : (u : World Socket State) → IsOn u u
  IsOn-refl u = record { kept = IsKept-refl u.net.client; calls = refl; module_handle = refl }

  pub IsOn-trans : {u v x : World Socket State} → IsOn u v → IsOn v x → IsOn u x
  IsOn-trans h k = record {
    kept = IsKept-trans h.kept k.kept;
    calls = k.calls ∙ h.calls;
    module_handle = k.module_handle ∙ h.module_handle;
  }

  pub with_client-IsOn :
      (u : World Socket State) (client : ProtoClient Socket)
      → IsKept u.net.client client
      → IsOn u (with_client u client)
  with_client-IsOn u client h = record { kept = h; calls = refl; module_handle = refl }

  pub with_state-IsOn : (u : World Socket State) (s : State) → IsOn u (with_state u s)
  with_state-IsOn u s = record {
    kept = IsKept-refl u.net.client;
    calls = refl;
    module_handle = refl;
  }

  -- The table of checksums, and the rest of the machine.
  pub cache-IsOn :
      (u : World Socket State) (cache : Cache)
      → IsOn u (with_client u (record u.net.client { cache = cache }))
  cache-IsOn u cache =
      with_client-IsOn u _
        (record { socket = refl; ready = refl; unchecked = refl; bounded = λ h. h })

  pub net-IsOn : (u v : World Socket State) → v.net ≡ u.net → IsOn u v
  net-IsOn u v e = subst (λ n. IsOn u (record v { net = n })) (sym e) (with_state-IsOn u v.state)

  pub with_error-IsOn : (u : World Socket State) (message : Text) → IsOn u (with_error message u)
  with_error-IsOn u message = with_client-IsOn u _ (set_error-IsKept u.net.client message)

  module _ {A B : Type 0} {Q : B → World Socket State → Type 0}
      {E : World Socket State → Type 0} where
    pub machine-bind :
        (f : State → A × State) (g : A → Action (World Socket State) B) (u : World Socket State)
        → Ends Q E (g (f u.state).0 (with_state u (f u.state).1))
        → Ends Q E ((by_machine f >>= g) u)
    unfolding ◌>>=◌ by_machine continue
    machine-bind f g u h = h

    pub gets-bind :
        (f : World Socket State → A) (g : A → Action (World Socket State) B)
        (u : World Socket State)
        → Ends Q E (g (f u) u)
        → Ends Q E ((gets f >>= g) u)
    unfolding ◌>>=◌ continue gets
    gets-bind f g u h = h

    pub demand-bind :
        (o : Option A) (message : Text) (g : A → Action (World Socket State) B)
        (u : World Socket State)
        → ((a : A) → o ≡ some a → Ends Q E (g a u))
        → (o ≡ none → E (with_error message u))
        → Ends Q E ((demand o message >>= g) u)
    unfolding ◌>>=◌ continue demand refuse pure
    demand-bind (some a) message g u h k = h a refl
    demand-bind none message g u h k = record { ended = k refl }

    pub demanded-bind :
        {o : Option A} {a : A} (message : Text) (g : A → Action (World Socket State) B)
        (u : World Socket State)
        → o ≡ some a
        → Ends Q E (g a u)
        → Ends Q E ((demand o message >>= g) u)
    demanded-bind {o} {a} message g u e h =
        demand-bind o message g u
          (λ a' e'. let same : a ≡ a' = cc (e, e') in subst (λ x. Ends Q E (g x u)) same h)
          (λ e'. absurd (cc (sym e ∙ e')))

  module _ {B : Type 0} {Q : B → World Socket State → Type 0}
      {E : World Socket State → Type 0} where
    pub changes-bind :
        (f : World Socket State → World Socket State) (g : Done → Action (World Socket State) B)
        (u : World Socket State)
        → Ends Q E (g tt (f u))
        → Ends Q E ((changes f >>= g) u)
    unfolding ◌>>=◌ continue changes
    changes-bind f g u h = h

    pub check-bind :
        (ok : Bool) (message : State → Text) (g : Done → Action (World Socket State) B)
        (u : World Socket State)
        → (ok ≡ true → Ends Q E (g tt u))
        → (ok ≡ false → E (with_error (message u.state) u))
        → Ends Q E ((check_with ok message >>= g) u)
    unfolding ◌>>=◌ continue check_with refuse pure
    check-bind true message g u h k = h refl
    check-bind false message g u h k = record { ended = k refl }

  module _ {A : Type 0} {Q : A → World Socket State → Type 0}
      {E : World Socket State → Type 0} where
    pub by_client-Ends :
        (f : ProtoClient Socket → Option A × ProtoClient Socket) (u : World Socket State)
        → Ended
            (λ a client. Q a (with_client u client))
            (λ client. E (with_client u client))
            (f u.net.client)
        → Ends Q E (by_client f u)
    unfolding by_client
    by_client-Ends f u h = at (f u.net.client) h
      where
        at :
            (r : Option A × ProtoClient Socket)
            → Ended (λ a client. Q a (with_client u client)) (λ client. E (with_client u client)) r
            → Ends Q E (r.0, with_client u r.1)
        at (some a, client) h' = record { ended = h' }
        at (none, client) h' = record { ended = h' }

  pub check-Ends :
      {Q : Done → World Socket State → Type 0} {E : World Socket State → Type 0} (ok : Bool)
      (message : State → Text) (u : World Socket State)
      → (ok ≡ true → Q tt u)
      → (ok ≡ false → E (with_error (message u.state) u))
      → Ends Q E (check_with ok message u)
  unfolding check_with refuse pure
  check-Ends true message u h k = record { ended = h refl }
  check-Ends false message u h k = record { ended = k refl }
