-- ===== src/Scan/Place.antt =====
-- Where the scan is: the local path and the protocol path of a directory belong together.
use win16sync.Prelude.{
  ℕ, ◌+◌, ◌-◌, ◌≤◌, ◌<◌, ◌≡◌, ◌≢◌, refl, ap, sym, ◌∙◌, false, none, some, [], ◌∷◌, ◌++◌, map,
  length, Text, arith, length-append, length-map, take_all,
}
use mathlib.Core.Path.{subst}
use win16sync.Text.{copy_text}
use win16sync.Text.Laws.{copy_text-take}
use win16sync.Path.{
  path_capacity, local_path_capacity, ends_in_separator, is_empty, local_join, to_local,
  protocol_to_local,
}
use win16sync.Path.Split.{IsName, IsName-get_or}
use win16sync.Path.Join.{
  IsDirectory, local_join-joined, protocol_to_local_lem, protocol_to_local-local_join,
  ends_in_separator-append, IsName-map-to_local,
}
use win16sync.Scan.{protocol_path}

ends-IsName : (name : Text) → IsName name → ends_in_separator name ≡ false
ends-IsName name h = IsName-get_or name (length name - 1) h

join-longer :
    (left : Text) (n : ℕ) (name : Text) {local : Text}
    → local_join local_path_capacity left (n ∷ name) ≡ some local
    → length left < length local
join-longer left n name e =
    let e' = rw (local_join-joined local_path_capacity left (n ∷ name)) at e in
    ground (arith, length-append left (b'\\' ∷ n ∷ name), length-append left (n ∷ name))

-- Right below the root the protocol path is the name.
root-joined :
    (root : Text) (n : ℕ) (name : Text)
    → IsDirectory root
    → IsName (n ∷ name)
    → protocol_to_local local_path_capacity root (n ∷ name)
      ≡ local_join local_path_capacity root (n ∷ name)
root-joined root n name h named =
    rw
      (
        protocol_to_local_lem local_path_capacity root n name h,
        local_join-joined local_path_capacity root (n ∷ name),
        h.0,
        h.1,
      )
      (ground (arith, IsName-map-to_local (n ∷ name) named, length-append root (b'\\' ∷ n ∷ name)))

module _ (root : Text) (h : IsDirectory root) where
  -- The root itself, or a directory below it whose local path is the one of its protocol path.
  abbrev pub IsAt : Text → Text → Type 0
  IsAt [] current = current ≡ root
  IsAt (c ∷ prefix) current =
      (ends_in_separator (c ∷ prefix) ≡ false)
      × (protocol_to_local local_path_capacity root (c ∷ prefix) ≡ some current)

  pub IsAt-length :
      (prefix current : Text)
      → IsAt prefix current
      → is_empty prefix ≡ false
      → (length current ≡ length root + 1 + length prefix) × (length current < local_path_capacity)
  IsAt-length [] current at filled = absurd (cc filled)
  IsAt-length (c ∷ prefix) current (e, at) filled =
      let found = rw (protocol_to_local_lem local_path_capacity root c prefix h) at at in
      let local = map to_local (c ∷ prefix) in
      let shape : root ++ (b'\\' ∷ local) ≡ current = ground arith in
      let n = length-append root (b'\\' ∷ local) in
      (
        omega (arith, n, length-map to_local prefix, ap length shape),
        ground (arith, n, length-map to_local prefix, ap length shape),
      )

  -- A name in a directory has a protocol path, if the root is not too short.
  pub protocol_path-fits :
      (prefix current name : Text)
      → IsAt prefix current
      → 12 < length root
      → length name ≤ 12
      → protocol_path prefix name ≢ none
  unfolding protocol_path
  protocol_path-fits [] current name at long short e = cc e
  protocol_path-fits (c ∷ prefix) current name at long short e =
      let (long_enough, within) = IsAt-length (c ∷ prefix) current at refl in ground arith

  -- The two paths of a name in a directory belong together, and the local path is longer.
  pub protocol_path-IsAt :
      (prefix current : Text) (n : ℕ) (name : Text) {protocol local : Text}
      → IsAt prefix current
      → IsName (n ∷ name)
      → length (n ∷ name) ≤ 12
      → protocol_path prefix (n ∷ name) ≡ some protocol
      → local_join local_path_capacity current (n ∷ name) ≡ some local
      → IsAt protocol local
        × (length current < length local)
        × (is_empty protocol ≡ false)
        × (length protocol < path_capacity)
        × (protocol_to_local local_path_capacity root protocol ≡ some local)
  unfolding protocol_path
  protocol_path-IsAt [] current n name {protocol} {local} at named short p l =
      let copied : copy_text [] (n ∷ name) path_capacity ≡ protocol = cc p in
      let whole : n ∷ name ≡ protocol =
        sym (
          copy_text-take [] (n ∷ name) path_capacity (omega arith)
          ∙ take_all 143 (n ∷ name) (omega arith))
        ∙ copied in
      let place = root-joined root n name h named ∙ rw at at l in
      subst
        (λ t.
          IsAt t local
          × (length current < length local)
          × (is_empty t ≡ false)
          × (length t < path_capacity)
          × (protocol_to_local local_path_capacity root t ≡ some local))
        whole
        (
          (ends-IsName (n ∷ name) named, place),
          join-longer current n name l,
          refl,
          omega arith,
          place,
        )
  protocol_path-IsAt (c ∷ prefix) current n name {protocol} {local} (e, at) named short p l =
      let whole : c ∷ prefix ++ b'/' ∷ n ∷ name ≡ protocol = ground arith in
      let within : length (c ∷ prefix) + 1 + length (n ∷ name) < 144 = ground arith in
      let place =
        protocol_to_local-local_join local_path_capacity root c prefix (n ∷ name) h e named at
        ∙ l in
      let ends =
        ends_in_separator-append (c ∷ prefix) b'/' (n ∷ name)
        ∙ ends_in_separator-append (b'/' ∷ []) n name
        ∙ ends-IsName (n ∷ name) named in
      subst
        (λ t.
          IsAt t local
          × (length current < length local)
          × (is_empty t ≡ false)
          × (length t < path_capacity)
          × (protocol_to_local local_path_capacity root t ≡ some local))
        whole
        (
          (ends, place),
          join-longer current n name l,
          refl,
          omega (arith, length-append prefix (b'/' ∷ n ∷ name)),
          place,
        )

  -- What is known of an entry with its two paths, behind `n` characters of a directory.
  abbrev pub IsPlaced : ℕ → Text → Text → Type 0
  IsPlaced n protocol local =
      IsAt protocol local
      × (n < length local)
      × (is_empty protocol ≡ false)
      × (length protocol < path_capacity)
      × (protocol_to_local local_path_capacity root protocol ≡ some local)

  pub protocol_path-IsPlaced :
      (prefix current name : Text) {protocol local : Text}
      → IsAt prefix current
      → IsName name
      → length name ≤ 12
      → is_empty name ≡ false
      → protocol_path prefix name ≡ some protocol
      → local_join local_path_capacity current name ≡ some local
      → IsPlaced (length current) protocol local
  protocol_path-IsPlaced prefix current [] at named short filled p l = absurd (cc filled)
  protocol_path-IsPlaced prefix current (n ∷ name) at named short filled p l =
      protocol_path-IsAt prefix current n name at named short p l
