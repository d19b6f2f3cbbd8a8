-- ===== src/Setup/Install.antt =====
-- What an installation leaves of the files.
use win16sync.Prelude.{
  ◌%◌, ◌^◌, ◌≡◌, ◌≢◌, refl, ap, ◌∙◌, Bool, true, false, Option, none, some, List, [], ◌∷◌, length,
  take, Text, codes, Bool-cases, inl, inr,
}
use win16sync.Action.{Done, pure, failed, changes, continue, ◌>>=◌}
use win16sync.Action.Ends.{Ends, Ends-bind, Ends-weaken}
use win16sync.Dos.{Dos, IsDos, Same, Only}
use win16sync.Download.Local.{Others, Sets-cases, Appends-cases}
use win16sync.Path.{is_empty}
use win16sync.Setup.{
  setup_path_capacity, setup_join_path, ensure_dir, Desk, Site, write_client, extract_client, Setup,
  show, stop, progman_command, send_command, retry_simple, add_simple_item, add_full_item,
  replace_item, show_group, progman_item, make_item, report_item, run_client, report_client,
  extract, make_all, place_client, finish_install, create_dirs, install_to, install,
}

module _ (d : Dos) (laws : IsDos d) where
  -- What setup_extract_client has done with the client at `p`.
  abbrev Extracts : Option Text → Text → d.State → Bool × d.State → Type 0
  Extracts resource p s (true, s') =
      (client : Text) × (resource ≡ some client)
      × (is_empty client ≡ false)
      × Only laws.files p (some (take (length client % 2 ^ 16) client)) s s'
  Extracts resource p s (false, s') = Others laws.files p s s'

  write_client-Extracts :
      (client target : Text) (s : d.State)
      → Extracts (some client) (laws.place target) s (write_client d client target s)
  unfolding write_client
  write_client-Extracts client target s =
      let piece = take (length client % 2 ^ 16) client in
      let r1 = d.create s target in
      let r2 = d.write r1.1 target piece in
      elim (Bool-cases (is_empty client)) [
        | inl empty ↦ rw empty (λ q _. refl)
        | inr filled ↦ elim (Sets-cases laws.files r1 (laws.create_sets s target)) [
          | inr (stopped, same) ↦ rw (filled, stopped) (λ q _. same q)
          | inl (opened, (made, others)) ↦
              elim (Appends-cases laws.files [] piece r2
                (laws.write_appends r1.1 target [] piece made)) [
                  | inl (written, (whole, others')) ↦
                      rw (filled, opened, written)
                        (client, refl, filled, (whole, λ q m. others' q m ∙ others q m))
                  | inr (short, (n, (part, others'))) ↦
                      rw (filled, opened, short)
                        (λ q m. removed target r2.1 q m ∙ others' q m ∙ others q m)
                ]
        ]
      ]
    where
      removed :
          (p : Text) (x : d.State) (q : Text)
          → q ≢ laws.place p
          → laws.files (d.remove x p).1 q ≡ laws.files x q
      removed p x q m = elim (Sets-cases laws.files (d.remove x p) (laws.remove_sets x p)) [
        | inl (_, (gone, same)) ↦ same q m
        | inr (_, same) ↦ same q
      ]

  extract_client-Extracts :
      (resource : Option Text) (target : Text) (s : d.State)
      → Extracts resource (laws.place target) s (extract_client d resource target s)
  unfolding extract_client
  extract_client-Extracts none target s = λ q _. refl
  extract_client-Extracts (some client) target s = write_client-Extracts client target s

  -- Nothing is done with the files.
  abbrev Still : {A : Type 0} → Site d.State → Option A × Site d.State → Type 0
  Still u r = Ends (λ _ v. v.state ≡ u.state) (λ v. v.state ≡ u.state) r

  Still-bind :
      {A B : Type 0} (m : Setup d A) (g : A → Setup d B) (u : Site d.State)
      → Still u (m u)
      → ((a : A) (v : Site d.State) → Still v (g a v))
      → Still u ((m >>= g) u)
  Still-bind m g u h k =
      Ends-bind m g u h (λ a v e. Ends-weaken (g a v) (λ _ _ e'. e' ∙ e) (λ _ e'. e' ∙ e) (k a v))

  show-Still : (message : Text) (u : Site d.State) → Still u (show d message u)
  unfolding show changes
  show-Still message u = record { ended = refl }

  pure-Still : {A : Type 0} (a : A) (u : Site d.State) → Still u (pure a u)
  unfolding pure
  pure-Still a u = record { ended = refl }

  Still-changes :
      (f : Site d.State → Site d.State) (u : Site d.State)
      → (f u).state ≡ u.state
      → Still u (changes f u)
  unfolding changes
  Still-changes f u same = record { ended = same }

  progman_command-Still :
      (desk : Desk) (command : Text) (u : Site d.State) → Still u (progman_command d desk command u)
  unfolding progman_command
  progman_command-Still desk command u = record { ended = refl }

  send_command-Still :
      (desk : Desk) (o : Option Text) (u : Site d.State) → Still u (send_command d desk o u)
  unfolding send_command
  send_command-Still desk none u = pure-Still false u
  send_command-Still desk (some command) u = progman_command-Still desk command u

  retry_simple-Still :
      (desk : Desk) (exe_path : Text) (b : Bool) (u : Site d.State)
      → Still u (retry_simple d desk exe_path b u)
  unfolding retry_simple add_simple_item
  retry_simple-Still desk exe_path true u = pure-Still true u
  retry_simple-Still desk exe_path false u = send_command-Still desk _ u

  add_full_item-Still :
      (desk : Desk) (exe_path : Text) (o : Option Text) (u : Site d.State)
      → Still u (add_full_item d desk exe_path o u)
  unfolding add_full_item
  add_full_item-Still desk exe_path none u = pure-Still false u
  add_full_item-Still desk exe_path (some command) u =
      Still-bind _ _ u (progman_command-Still desk command u) (retry_simple-Still desk exe_path)

  replace_item-Still :
      (desk : Desk) (exe_path : Text) (b : Bool) (u : Site d.State)
      → Still u (replace_item d desk exe_path b u)
  unfolding replace_item
  replace_item-Still desk exe_path false u = pure-Still false u
  replace_item-Still desk exe_path true u =
      Still-bind _ _ u (progman_command-Still desk _ u)
        (λ _ v. add_full_item-Still desk exe_path _ v)

  show_group-Still :
      (desk : Desk) (exe_path : Text) (b : Bool) (u : Site d.State)
      → Still u (show_group d desk exe_path b u)
  unfolding show_group
  show_group-Still desk exe_path false u = pure-Still false u
  show_group-Still desk exe_path true u =
      Still-bind _ _ u (progman_command-Still desk _ u) (replace_item-Still desk exe_path)

  make_item-Still :
      (desk : Desk) (exe_path : Text) (b : Bool) (u : Site d.State)
      → Still u (make_item d desk exe_path b u)
  unfolding make_item progman_item
  make_item-Still desk exe_path false u = pure-Still true u
  make_item-Still desk exe_path true u =
      Still-bind _ _ u (show-Still _ u)
        (λ _ v. Still-bind _ _ v (progman_command-Still desk _ v) (show_group-Still desk exe_path))

  report_item-Still : (b : Bool) (u : Site d.State) → Still u (report_item d b u)
  unfolding report_item
  report_item-Still true u = pure-Still tt u
  report_item-Still false u = show-Still _ u

  run_client-Still :
      (exe_path : Text) (b : Bool) (u : Site d.State) → Still u (run_client d exe_path b u)
  unfolding run_client
  run_client-Still exe_path false u = pure-Still tt u
  run_client-Still exe_path true u = Still-changes _ u refl

  finish_install-Still :
      (desk : Desk) (exe_path : Text) (u : Site d.State)
      → Still u (finish_install d desk exe_path u)
  unfolding finish_install
  finish_install-Still desk exe_path u =
      Still-bind _ _ u (make_item-Still desk exe_path desk.create_group u) (λ grouped v.
        Still-bind _ _ v (report_item-Still grouped v) (λ _ w.
          Still-bind _ _ w (show-Still _ w) (λ _ x.
            Still-bind _ _ x (run_client-Still exe_path desk.run_after x) (λ _ y. show-Still _ y))))

  make_all-Same : (paths : List Text) (s : d.State) → Same laws.files s (make_all d paths s)
  make_all-Same [] s = λ q. refl
  make_all-Same (path ∷ paths) s =
      λ q. make_all-Same paths (d.make_dir s path) q ∙ laws.make_dir_same s path q

  -- The end of an installation into `p`, which began with the files of `s`: the client is there, as
  -- far as 16 bits count its bytes; or no other file has changed.
  abbrev pub Installed : Option Text → Text → d.State → Option Done × Site d.State → Type 0
  Installed resource p s r =
      Ends (λ _ v. Extracts resource p s (true, v.state)) (λ v. Others laws.files p s v.state) r

  extract-Ends :
      (desk : Desk) (exe_path : Text) (u : Site d.State)
      → Ends
          (λ extracted v. Extracts desk.resource (laws.place exe_path) u.state (extracted, v.state))
          (λ v. ⊥)
          (extract d desk exe_path u)
  unfolding extract
  extract-Ends desk exe_path u = record {
    ended = extract_client-Extracts desk.resource exe_path u.state;
  }

  report_client-Installed :
      (desk : Desk) (p : Text) (s : d.State) (extracted : Bool) (u : Site d.State)
      → Extracts desk.resource p s (extracted, u.state)
      → Installed desk.resource p s (report_client d extracted u)
  unfolding report_client stop pure failed show changes ◌>>=◌ continue
  report_client-Installed desk p s true u h = record { ended = h }
  report_client-Installed desk p s false u h = record { ended = h }

  from_Same :
      (resource : Option Text) (p : Text) {s s' : d.State} (extracted : Bool) (v : d.State)
      → Same laws.files s s'
      → Extracts resource p s' (extracted, v)
      → Extracts resource p s (extracted, v)
  from_Same resource p true v same (client, found, filled, (whole, others)) =
      (client, found, filled, (whole, λ q m. others q m ∙ same q))
  from_Same resource p false v same others = λ q m. others q m ∙ same q

  changes_dirs-Ends :
      (E : Site d.State → Type 0) (dirs : List Text) (u : Site d.State)
      → Ends
          (λ _ v. Same laws.files u.state v.state)
          E
          (changes (λ w. record w { state = make_all d dirs w.state }) u)
  unfolding changes
  changes_dirs-Ends E dirs u = record { ended = make_all-Same dirs u.state }

  place_client-Installed :
      (desk : Desk) (exe_path : Text) (dirs : List Text) (u : Site d.State)
      → Installed desk.resource (laws.place exe_path) u.state (place_client d desk exe_path dirs u)
  unfolding place_client
  place_client-Installed desk exe_path dirs u =
      Ends-bind _ _ u (changes_dirs-Ends _ dirs u) (λ _ v made_all.
        Ends-bind _ _ v (shown v made_all)
          (λ _ w same. Ends-bind _ _ w (extracted w same) (report_client-Installed desk p u.state)))
    where
      p : Text
      p = laws.place exe_path

      shown :
          (v : Site d.State)
          → Same laws.files u.state v.state
          → Ends
              (λ _ w. Same laws.files u.state w.state)
              (λ w. Others laws.files p u.state w.state)
              (show d (codes "Schreibe Win16Sync...") v)
      shown v same =
          Ends-weaken _ (λ _ _ e q. ap (λ s. laws.files s q) e ∙ same q)
            (λ _ e q _. ap (λ s. laws.files s q) e ∙ same q) (show-Still _ v)

      extracted :
          (w : Site d.State)
          → Same laws.files u.state w.state
          → Ends
              (λ b x. Extracts desk.resource p u.state (b, x.state))
              (λ x. Others laws.files p u.state x.state)
              (extract d desk exe_path w)
      extracted w same =
          Ends-weaken _ (λ b x h. from_Same desk.resource p b x.state same h) (λ _ h. absurd h)
            (extract-Ends desk exe_path w)

  -- A later change of what is shown leaves an installation what it is.
  keep_Installed :
      (resource : Option Text) (p : Text) (s : d.State) (u : Site d.State)
      (r : Option Done × Site d.State)
      → Extracts resource p s (true, u.state)
      → Still u r
      → Installed resource p s r
  keep_Installed resource p s u r h still =
      let (client, found, filled, (whole, others)) = h in
      Ends-weaken r
        (λ _ v e. (
          client,
          found,
          filled,
          (ap (λ x. laws.files x p) e ∙ whole, λ q m. ap (λ x. laws.files x q) e ∙ others q m),
        ))
        (λ v e q m. ap (λ x. laws.files x q) e ∙ others q m) still

  create_dirs-Installed :
      (desk : Desk) (exe_path : Text) (dirs : Option (List Text)) (u : Site d.State)
      → Installed desk.resource (laws.place exe_path) u.state (create_dirs d desk exe_path dirs u)
  unfolding create_dirs stop show changes failed ◌>>=◌ continue
  create_dirs-Installed desk exe_path none u = record { ended = λ q _. refl }
  create_dirs-Installed desk exe_path (some dirs) u =
      Ends-bind (place_client d desk exe_path dirs) _ u
        (place_client-Installed desk exe_path dirs u)
        (λ _ v h.
          keep_Installed desk.resource (laws.place exe_path) u.state v _ h
            (finish_install-Still desk exe_path v))

  show_create-Installed :
      (desk : Desk) (exe_path : Text) (u : Site d.State)
      → Installed desk.resource (laws.place exe_path) u.state (install_to d desk (some exe_path) u)
  unfolding install_to show changes ◌>>=◌ continue
  show_create-Installed desk exe_path u =
      create_dirs-Installed desk exe_path (ensure_dir desk.install_dir) _

  -- With a directory entered, and a path of the client in it that fits: an installation that does
  -- not fail has written to that path the client of the resources, which is not empty, but of its
  -- bytes only as many as the 16 bits of an `unsigned int` count. The installer itself has changed
  -- no other file, and after a failure also no file but the one at that path.
  pub install-Installed :
      (desk : Desk) (exe_path : Text) (u : Site d.State)
      → is_empty desk.install_dir ≡ false
      → setup_join_path setup_path_capacity desk.install_dir (codes "W16SYNC.EXE") ≡ some exe_path
      → Installed desk.resource (laws.place exe_path) u.state (install d desk u)
  unfolding install
  install-Installed desk exe_path u entered fits =
      rw (entered, fits) (show_create-Installed desk exe_path u)
