-- ===== src/Download/Fetch.antt =====
-- The loop that writes to a file what the server sends.
use win16sync.Prelude.{
  ℕ, zero, suc, ◌-◌, ◌≤◌, ◌<◌, ◌≡◌, refl, sym, ap, ◌∙◌, inl, inr, some, [], ◌++◌, ltb, ◌==◌,
  if◌then◌else◌, length, Text, arith, Bool-cases, append_assoc, append-nil, length-append,
}
use win16sync.Action.{Done, pure}
use win16sync.Action.Ends.{Ends, Ends-bind, Ends-weaken, Ends-on_failure}
use win16sync.Dos.{Dos, IsDos, Only}
use win16sync.Download.{chunk_size, drop_file, fetch_loop, fetch_file}
use win16sync.Download.Local.{Others, Appends-cases, Sets-cases}
use win16sync.Session.{with_state, take_bytes}
use win16sync.Session.Effects.{
  IsOn, IsOn-refl, IsOn-trans, with_state-IsOn, with_error-IsOn, machine-bind, check-bind,
}
use win16sync.Session.Calls.{Place, ahead, said, IsHeard, take_bytes-Ends}
use win16sync.Winsock.{Winsock, IsStream}

module _ (w : Winsock) (d : Dos) (stream : IsStream w) (laws : IsDos d) where
  -- `n` bytes of the stream are behind what the file at `p` held.
  abbrev pub Fetched : Text → Text → ℕ → Place w d stream → Place w d stream → Type 0
  Fetched p done n u u' =
      (data_bytes : Text) × (length data_bytes ≡ n)
      × IsOn u u'
      × Only laws.files p (some (done ++ data_bytes)) u.state u'.state
      × (ahead w d stream u ≡ data_bytes ++ ahead w d stream u')
      × (said w d stream u' ≡ said w d stream u)

  -- No file but the one at `p` is changed.
  abbrev pub Spared : Text → Place w d stream → Place w d stream → Type 0
  Spared p u u' = IsOn u u' × Others laws.files p u.state u'.state

  -- After a piece of `k` bytes has been heard and written.
  Fetched-rest :
      (p done bytes : Text) (k n : ℕ) (u v u' : Place w d stream) (s : d.State)
      → IsHeard w d stream bytes u v
      → length bytes ≡ k
      → Only laws.files p (some (done ++ bytes)) v.state s
      → k ≤ n
      → Fetched p (done ++ bytes) (n - k) (with_state v s) u'
      → Fetched p done n u u'
  Fetched-rest p done bytes k n u v u' s heard long (there, others) within
        (more, length_more, on, (there', others'), next, quiet) =
      let start = ap (λ x. laws.files x) heard.state in
      (
        bytes ++ more,
        omega (arith, length-append bytes more),
        IsOn-trans (IsOn-trans heard.on (with_state-IsOn v s)) on,
        (
          there' ∙ ap some (append_assoc done bytes more),
          (λ q m. others' q m ∙ others q m ∙ ap (λ t. t q) start),
        ),
        heard.next ∙ ap (◌++◌ bytes) next ∙ sym (append_assoc bytes more (ahead w d stream u')),
        quiet ∙ heard.said_same,
      )

  fetch_loop-Fetched :
      (rounds : ℕ) (path message done : Text) (n : ℕ) (u : Place w d stream)
      → n < rounds
      → laws.files u.state (laws.place path) ≡ some done
      → Ends {A = Done}
          (λ _. Fetched (laws.place path) done n u)
          (Spared (laws.place path) u)
          (fetch_loop w d rounds path message n u)
  unfolding fetch_loop pure
  fetch_loop-Fetched zero path message done n u enough there = absurd (omega arith)
  fetch_loop-Fetched (suc rounds) path message done n u enough there =
      let p = laws.place path in
      let chunk = if ltb chunk_size n then chunk_size else n in
      elim (Bool-cases (n == 0)) [
        | inl whole ↦ rw (whole) (record {
          ended = (
            [],
            ground arith,
            IsOn-refl u,
            (there ∙ ap some (sym (append-nil done)), λ q _. refl),
            refl,
            refl,
          );
        })
        | inr left ↦ rw (left) (
            Ends-bind (take_bytes w d chunk) _ u
              (Ends-weaken _ (λ _ _ h. h) (λ v cut. (cut.0, λ q _. ap (λ s. laws.files s q) cut.1))
                (take_bytes-Ends w d stream u chunk))
              (λ bytes v (heard, long).
                let there' = ap (λ s. laws.files s p) heard.state ∙ there in
                let r = d.write v.state path bytes in
                let before : (q : Text) → laws.files v.state q ≡ laws.files u.state q =
                  λ q. ap (λ s. laws.files s q) heard.state in
                let appended =
                  Appends-cases laws.files done bytes r
                    (laws.write_appends v.state path done bytes there') in
                machine-bind _ _ v (
                  check-bind r.0 (λ _. message) _ (with_state v r.1)
                    (λ ok. elim appended [
                      | inr (stopped, _) ↦ absurd (cc (sym ok ∙ stopped))
                      | inl (_, only) ↦
                          let next = with_state v r.1 in
                          let on = IsOn-trans heard.on (with_state-IsOn v r.1) in
                          Ends-weaken _
                            (λ _ u' h.
                              Fetched-rest p done bytes chunk n u v u' r.1 heard long only
                                (ground arith) h)
                            (λ u' (later, others).
                              (IsOn-trans on later, λ q m. others q m ∙ only.1 q m ∙ before q))
                            (fetch_loop-Fetched rounds path message (done ++ bytes) (n - chunk) next
                              (ground arith) only.0)
                    ])
                    (λ bad. elim appended [
                      | inl (written, _) ↦ absurd (cc (sym bad ∙ written))
                      | inr (_, (k, only)) ↦ (
                        IsOn-trans (IsOn-trans heard.on (with_state-IsOn v r.1))
                            (with_error-IsOn _ _),
                        λ q m. only.1 q m ∙ before q,
                      )
                    ]))))
      ]

  drop_file-Spared :
      (path : Text) (u u' : Place w d stream)
      → Spared (laws.place path) u u'
      → Spared (laws.place path) u (drop_file w d path u')
  drop_file-Spared path u u' (on, others) = (
    IsOn-trans on (with_state-IsOn u' (d.remove u'.state path).1),
    elim (Sets-cases laws.files (d.remove u'.state path) (laws.remove_sets u'.state path)) [
      | inl (_, (gone, same)) ↦ λ q m. same q m ∙ others q m
      | inr (_, same) ↦ λ q m. same q ∙ others q m
    ],
  )

  pub fetch_file-Fetched :
      (path no_memory not_written done : Text) (n : ℕ) (u : Place w d stream)
      → laws.files u.state (laws.place path) ≡ some done
      → Ends {A = Done}
          (λ _. Fetched (laws.place path) done n u)
          (Spared (laws.place path) u)
          (fetch_file w d path no_memory not_written n u)
  unfolding fetch_file
  fetch_file-Fetched path no_memory not_written done n u there =
      let p = laws.place path in
      let s = (d.malloc u.state).1 in
      let same = laws.malloc_same u.state in
      machine-bind _ _ u (
        check-bind (d.malloc u.state).0 (λ _. no_memory) _ (with_state u s)
          (λ _.
            Ends-on_failure (drop_file w d path) (fetch_loop w d (suc n) path not_written n)
              (with_state u s)
              (Ends-weaken _
                (λ _ u' (bytes, long, on, (there', others), next, quiet). (
                  bytes,
                  long,
                  IsOn-trans (with_state-IsOn u s) on,
                  (there', λ q m. others q m ∙ same q),
                  next,
                  quiet,
                ))
                (λ u' (on, others).
                  (IsOn-trans (with_state-IsOn u s) on, λ q m. others q m ∙ same q))
                (fetch_loop-Fetched (suc n) path not_written done n (with_state u s) (omega arith)
                  (same p ∙ there)))
              (λ u' spared. drop_file-Spared path u u' spared))
          (λ _. (IsOn-trans (with_state-IsOn u s) (with_error-IsOn _ _), λ q m. same q)))
