-- ===== src/Download/Replaces.antt =====
-- The end of a download on the machine: the check of the received file, and its move to its place.
use mathlib.Core.Path.{subst}
use win16sync.Prelude.{
  ℕ, ◌≡◌, ◌≢◌, refl, sym, ◌∙◌, ◌⊎◌, inl, inr, Bool, true, false, Option, none, some, take, Text,
  Bool-cases,
}
use win16sync.Action.{Done, pure}
use win16sync.Action.Ends.{Ends}
use win16sync.Crc.{file_crc32}
use win16sync.Dos.{Dos, IsDos}
use win16sync.Download.{
  Download, delete_local_file, copy_file, crc_of_file, is_crc, refuse_dropping, verify, copy_over,
  move_over, replace_file,
}
use win16sync.Download.Local.{
  Moves-cases, Deletes-cases, Copies, ReadsWell, delete_local_file-Deletes, copy_file-Copies,
}
use win16sync.Download.Outcome.{
  IsGood, IsElsewhere, IsStored, IsOld, IsFailed, IsOld-IsFailed, removed_temp, crc_of_file-Same,
  crc_of_file-is_crc,
}
use win16sync.Session.{World, with_state, with_error, check_with, refuse}
use win16sync.Session.Effects.{machine-bind, gets-bind, check-Ends}
use win16sync.Winsock.{Winsock}

module _ (w : Winsock) (d : Dos) where
  abbrev Here : Type 0
  Here = World w.Socket d.State

  pub refuse_dropping-Ends :
      {Q : Done → Here → Type 0} {E : Here → Type 0} (path : Text) (message : d.State → Text)
      (u : Here)
      → ((s : d.State)
          → s ≡ (d.remove u.state path).1
          → E (with_error (message s) (with_state u s)))
      → Ends Q E (refuse_dropping w d path message u)
  unfolding refuse_dropping check_with refuse
  refuse_dropping-Ends path message u h =
      machine-bind (λ s. (tt, (d.remove s path).1)) _ u
        (record { ended = h (d.remove u.state path).1 refl })

module _ (w : Winsock) (d : Dos) (laws : IsDos d) (well : ReadsWell d) where
  module _ (before : Text → Option Text) (temp local : Text) where
    -- The file with the received bytes, nothing else being changed, and the connection as it was.
    abbrev pub IsReceived : Text → Here w d → Here w d → Type 0
    IsReceived bytes u u' =
        (u'.net ≡ u.net)
        × IsOld d laws before temp local u'.state
        × (laws.files u'.state (laws.place temp) ≡ some bytes)

    removed-IsOld :
        (s : d.State)
        → IsOld d laws before temp local s
        → IsOld d laws before temp local (d.remove s temp).1
    removed-IsOld s old q m = removed_temp d laws before temp local s q m ∙ old q m

    pub verify-Ends :
        (unchecked : Bool) (message bytes : Text) (crc : ℕ) (u : Here w d)
        → IsOld d laws before temp local u.state
        → laws.files u.state (laws.place temp) ≡ some bytes
        → Ends {A = Done}
            (λ _ u'.
              IsReceived bytes u u' × ((unchecked ≡ true) ⊎ (file_crc32 (some bytes) ≡ some crc)))
            (λ u'. IsOld d laws before temp local u'.state)
            (verify w d unchecked temp message crc u)
    unfolding verify pure
    verify-Ends true message bytes crc u old there = record {
      ended = ((refl, old, there), inl refl);
    }
    verify-Ends false message bytes crc u old there =
        let r = crc_of_file d temp u.state in
        let same = crc_of_file-Same d laws temp u.state in
        let old' : IsOld d laws before temp local r.1 = λ q m. same q ∙ old q m in
        machine-bind _ _ u (elim (Bool-cases (is_crc r.0 crc)) [
          | inl right ↦ rw (right) (record {
            ended = (
              (refl, old', same (laws.place temp) ∙ there),
              inr (crc_of_file-is_crc d laws temp u.state bytes crc well there right),
            );
          })
          | inr wrong ↦ rw (wrong) (
              refuse_dropping-Ends w d temp (λ _. message) (with_state u r.1)
                (λ s e.
                  subst (λ x. IsOld d laws before temp local x) (sym e) (removed-IsOld r.1 old')))
        ])

    module _ (unchecked : Bool) (file : Download) (bytes : Text)
        (good : IsGood unchecked file bytes) (apart : laws.place temp ≢ laws.place local) where
      -- The new file is in its place, or the download has failed.
      abbrev pub Replaces : Here w d → Option Done × Here w d → Type 0
      Replaces u =
          Ends {A = Done}
            (λ _ u'. (u'.net ≡ u.net) × IsStored d laws before temp local bytes u'.state)
            (λ u'. IsFailed d laws before temp local unchecked file u'.state)

      -- The old file is there or gone.
      abbrev IsCleared : d.State → Type 0
      IsCleared s =
          IsElsewhere d laws before temp local s
          × ((laws.files s (laws.place local) ≡ before (laws.place local))
              ⊎ (laws.files s (laws.place local) ≡ none))

      -- Where only the temporary file changes, nothing is lost.
      abbrev Agrees : d.State → d.State → Type 0
      Agrees s s' = (q : Text) → q ≢ laws.place temp → laws.files s' q ≡ laws.files s q

      IsStored-Agrees :
          (s s' : d.State)
          → Agrees s s'
          → IsStored d laws before temp local bytes s
          → IsStored d laws before temp local bytes s'
      IsStored-Agrees s s' agrees (elsewhere, there) = (
        (λ q n m. agrees q n ∙ elsewhere q n m),
        agrees (laws.place local) (λ e. apart (sym e)) ∙ there,
      )

      IsFailed-Agrees :
          (s s' : d.State)
          → Agrees s s'
          → IsFailed d laws before temp local unchecked file s
          → IsFailed d laws before temp local unchecked file s'
      IsFailed-Agrees s s' agrees (elsewhere, left) = (
        (λ q n m. agrees q n ∙ elsewhere q n m),
        subst
            (λ o.
              (o ≡ before (laws.place local))
              ⊎ ((xs : Text) × IsGood unchecked file xs
                  × ((o ≡ none) ⊎ ((n : ℕ) × (o ≡ some (take n xs))))))
            (sym (agrees (laws.place local) (λ e. apart (sym e)))) left,
      )

      copied-outcome :
          (s : d.State) (r : Bool × d.State)
          → IsCleared s
          → Copies laws.files (laws.place local) bytes s r
          → ((r.0 ≡ true) × IsStored d laws before temp local bytes r.1)
            ⊎ ((r.0 ≡ false) × IsFailed d laws before temp local unchecked file r.1)
      copied-outcome s (true, s') (elsewhere, old) (there, others) =
          inl (refl, ((λ q n m. others q m ∙ elsewhere q n m), there))
      copied-outcome s (false, s') (elsewhere, old) (others, left) =
          let elsewhere' : IsElsewhere d laws before temp local s' =
            λ q n m. others q m ∙ elsewhere q n m in
          inr (
            refl,
            (
              elsewhere',
              elim left [
                | inl same ↦ elim old [
                  | inl kept ↦ inl (same ∙ kept)
                  | inr gone ↦ inr (bytes, good, inl (same ∙ gone))
                ]
                | inr part ↦ inr (bytes, good, part)
              ],
            ),
          )

      copy_over-Replaces :
          (rename_error : ℕ) (u : Here w d)
          → IsCleared u.state
          → laws.files u.state (laws.place temp) ≡ some bytes
          → Replaces u (copy_over w d temp local rename_error u)
      unfolding copy_over
      copy_over-Replaces rename_error u cleared there =
          let r = copy_file d temp local u.state in
          let s = (d.remove r.1 temp).1 in
          let agrees = removed_temp d laws before temp local r.1 in
          let done =
            copied-outcome u.state r cleared
              (copy_file-Copies d laws temp local bytes u.state well apart there) in
          machine-bind (copy_file d temp local) _ u (
            gets-bind (λ x. d.errno x.state) _ (with_state u r.1)
              (machine-bind (λ x. (tt, (d.remove x temp).1)) _ (with_state u r.1)
                (check-Ends r.0 _ (with_state u s)
                  (λ ok. elim done [
                    | inl (_, stored) ↦ (refl, IsStored-Agrees r.1 s agrees stored)
                    | inr (bad, _) ↦ absurd (cc (sym ok ∙ bad))
                  ])
                  (λ bad. elim done [
                    | inl (ok, _) ↦ absurd (cc (sym ok ∙ bad))
                    | inr (_, failed) ↦ IsFailed-Agrees r.1 s agrees failed
                  ]))))

      move_over-Replaces :
          (u : Here w d)
          → IsCleared u.state
          → laws.files u.state (laws.place temp) ≡ some bytes
          → Replaces u (move_over w d temp local u)
      unfolding move_over pure
      move_over-Replaces u (elsewhere, old) there =
          let r = d.rename u.state temp local in
          machine-bind (λ s. d.rename s temp local) _ u
            (gets-bind (λ x. d.errno x.state) _ (with_state u r.1)
              (elim (Moves-cases laws.files r
                (laws.rename_moves u.state temp local bytes apart there)) [
                  | inl (moved, (gone, (new, others))) ↦
                      rw (moved) (record {
                        ended = (refl, ((λ q n m. others q n m ∙ elsewhere q n m), new));
                      })
                  | inr (stopped, same) ↦ rw (stopped) (
                      copy_over-Replaces (d.errno r.1) (with_state u r.1)
                        (
                          (λ q n m. same q ∙ elsewhere q n m),
                          subst (λ o. (o ≡ before (laws.place local)) ⊎ (o ≡ none))
                              (sym (same (laws.place local))) old,
                        )
                        (same (laws.place temp) ∙ there))
                ]))

      pub replace_file-Replaces :
          (u : Here w d)
          → IsOld d laws before temp local u.state
          → laws.files u.state (laws.place temp) ≡ some bytes
          → Replaces u (replace_file w d temp local u)
      unfolding replace_file
      replace_file-Replaces u old there =
          let r = delete_local_file d local u.state in
          machine-bind (delete_local_file d local) _ u
            (elim (Deletes-cases laws.files r (delete_local_file-Deletes d laws local u.state)) [
              | inl (deleted, (others, left)) ↦ rw (deleted) (
                  move_over-Replaces (with_state u r.1)
                    (
                      (λ q n m. others q m ∙ old q n),
                      elim left [
                        | inl same ↦ inl (same ∙ old (laws.place local) (λ e. apart (sym e)))
                        | inr gone ↦ inr gone
                      ],
                    )
                    (others (laws.place temp) apart ∙ there))
              | inr (stopped, same) ↦ rw (stopped) (
                  refuse_dropping-Ends w d temp _ (with_state u r.1) (λ s e.
                    IsOld-IsFailed d laws before temp local apart unchecked file s (
                      subst (λ x. IsOld d laws before temp local x) (sym e)
                        (removed-IsOld r.1 (λ q m. same q ∙ old q m)))))
            ])
