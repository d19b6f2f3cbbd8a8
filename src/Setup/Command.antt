-- ===== src/Setup/Command.antt =====
-- The texts that client/setup.c builds: the command for the program manager, and the path of the
-- client.
use win16sync.Prelude.{
  ℕ, ◌<◌, ◌≡◌, ap, ◌∙◌, Option, none, some, [], ◌∷◌, ◌++◌, ltb, ◌==◌, if◌then◌else◌, length, Text,
  codes, arith, Bool-cases, Option-cases, inl, inr, false, not, ◌&&◌, length-append, append_assoc,
}
use win16sync.Path.{local_join, is_empty, ends_in_separator}
use win16sync.Setup.{
  quote, then_append, append_quoted_text, then_quoted, setup_join_path, build_progman_add_item,
}
use win16sync.Text.{append_text}
use win16sync.Text.Laws.{append_text_lem}

-- The text, if it fits with its terminator.
abbrev pub fitting : ℕ → Text → Option Text
fitting capacity text = if ltb (length text) capacity then some text else none

then_append-fitting :
    (capacity : ℕ) (o : Option Text) (target source : Text)
    → o ≡ fitting capacity target
    → then_append o source capacity ≡ fitting capacity (target ++ source)
then_append-fitting capacity o target source e =
    rw e (elim (Bool-cases (ltb (length target) capacity)) [
      | inl fits ↦ rw (fits) (
          ground (
            arith,
            append_text_lem target source capacity (ground arith),
            length-append target source,
          ))
      | inr long ↦ rw (long) (ground (arith, length-append target source))
    ])

abbrev quoted : Text → Text → Text
quoted target source = ((target ++ quote) ++ source) ++ quote

then_quoted-fitting :
    (capacity : ℕ) (o : Option Text) (target source : Text)
    → o ≡ fitting capacity target
    → then_quoted o source capacity ≡ fitting capacity (quoted target source)
unfolding append_quoted_text
then_quoted-fitting capacity none target source e =
    then_append-fitting capacity none ((target ++ quote) ++ source) quote (
      then_append-fitting capacity none (target ++ quote) source
        (then_append-fitting capacity none target quote e))
then_quoted-fitting capacity (some t) target source e =
    then_append-fitting capacity _ ((target ++ quote) ++ source) quote (
      then_append-fitting capacity _ (target ++ quote) source
        (then_append-fitting capacity (some t) target quote e))

abbrev pub add_item_command : Text → Text → Text
add_item_command exe_path working_dir =
    codes "[AddItem(\""
    ++ (exe_path
        ++ (codes "\",\"Win16Sync\",\""
            ++ (exe_path ++ (codes "\",0,-1,-1,\"" ++ (working_dir ++ codes "\")]")))))

-- setup_build_progman_add_item gives the command that adds the client to the program manager, just
-- when it fits into the target with its terminator.
pub build_progman_add_item-fitting :
    (capacity : ℕ) (exe_path working_dir : Text)
    → 0 < capacity
    → build_progman_add_item capacity exe_path working_dir
      ≡ fitting capacity (add_item_command exe_path working_dir)
unfolding build_progman_add_item
build_progman_add_item-fitting capacity exe_path working_dir room =
    let some_room : capacity == 0 ≡ false = ground arith in
    let t0 = codes "[AddItem(" in
    let t1 = quoted t0 exe_path in
    let t2 = quoted (t1 ++ codes ",") (codes "Win16Sync") in
    let t3 = quoted (t2 ++ codes ",") exe_path in
    let t4 = quoted (t3 ++ codes ",0,-1,-1,") working_dir in
    rw some_room (
      then_append-fitting capacity _ t4 (codes ")]") (
        then_quoted-fitting capacity _ (t3 ++ codes ",0,-1,-1,") working_dir (
          then_append-fitting capacity _ t3 (codes ",0,-1,-1,") (
            then_quoted-fitting capacity _ (t2 ++ codes ",") exe_path (
              then_append-fitting capacity _ t2 (codes ",") (
                then_quoted-fitting capacity _ (t1 ++ codes ",") (codes "Win16Sync") (
                  then_append-fitting capacity _ t1 (codes ",") (
                    then_quoted-fitting capacity _ t0 exe_path
                      (append_text_lem [] t0 capacity room))))))))
      ∙ ap (fitting capacity) {x = t4 ++ codes ")]"} {y = add_item_command exe_path working_dir}
          (simp append_assoc))

-- setup_join_path of the installer and proto_local_join of the client join a directory and a name
-- to the same path, and refuse the same.
pub setup_join_path-local_join :
    (capacity : ℕ) (directory name : Text)
    → setup_join_path capacity directory name ≡ local_join capacity directory name
unfolding setup_join_path local_join
setup_join_path-local_join capacity directory name = elim (Bool-cases (capacity == 0)) [
  | inl full ↦ rw full
  | inr room ↦ elim (Option-cases (append_text [] directory capacity)) [
    | inl long ↦ rw (room, long)
    | inr (target, fits) ↦
        elim (Bool-cases (not (is_empty target) && not (ends_in_separator target))) [
          | inr ends ↦ rw (room, fits, ends)
          | inl open_end ↦ elim (Option-cases (append_text target (b'\\' ∷ []) capacity)) [
            | inl over ↦ rw (room, fits, open_end, over)
            | inr (t, more) ↦ rw (room, fits, open_end, more)
          ]
        ]
  ]
]
