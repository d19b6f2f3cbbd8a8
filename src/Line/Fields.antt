-- ===== src/Line/Fields.antt =====
-- Lines as both sides write them: a kind, and fields with single spaces in front.
use win16sync.Prelude.{
  ℕ, ◌-◌, ◌<◌, ◌≡◌, refl, sym, ◌∙◌, false, not, Option, none, some, List, [], ◌∷◌, ◌++◌, map, ◌==◌,
  if◌then◌else◌, length, Text, All, arith, inl, inr, Option-cases, text_eq, append_assoc,
  append-nil, take_all,
}
use win16sync.Line.{after_key, extract_param}
use win16sync.Line.Params.{
  cons_word, split_words, words, first_value, HasNoSpace, extract_param-words,
}
use win16sync.Path.{is_empty}

abbrev pub fields_text : List (Text × Text) → Text
fields_text [] = []
fields_text ((k, v) ∷ fields) = b' ' ∷ (k ++ (b'=' ∷ (v ++ fields_text fields)))

-- Neither a space nor an equals sign: a kind or a key.
abbrev pub IsKey : Text → Type 0
IsKey = All (λ c. ((c == b' ') ≡ false) × ((c == b'=') ≡ false))

abbrev pub AreFields : List (Text × Text) → Type 0
AreFields = All (λ f. IsKey f.0 × HasNoSpace f.1)

-- The value of the first field with the key.
abbrev pub field_value : Text → List (Text × Text) → Option Text
field_value key [] = none
field_value key ((k, v) ∷ fields) = if text_eq key k then some v else field_value key fields

abbrev field_word : Text × Text → Text
field_word (k, v) = k ++ (b'=' ∷ v)

IsKey-HasNoSpace : (k : Text) → IsKey k → HasNoSpace k
IsKey-HasNoSpace [] h = tt
IsKey-HasNoSpace (c ∷ k) h = (h.0.0, IsKey-HasNoSpace k h.1)

split_words-append :
    (w s : Text) → HasNoSpace w → split_words (w ++ s) ≡ (w ++ (split_words s).0, (split_words s).1)
split_words-append [] s h = refl
split_words-append (c ∷ w) s h = rw (h.0, split_words-append w s h.1)

field_word-HasNoSpace : (k v : Text) → IsKey k → HasNoSpace v → HasNoSpace (k ++ (b'=' ∷ v))
field_word-HasNoSpace [] v hk hv = (refl, hv)
field_word-HasNoSpace (c ∷ k) v hk hv = (hk.0.0, field_word-HasNoSpace k v hk.1 hv)

cons_word-append :
    (k : Text) (c : ℕ) (v : Text) (ws : List Text)
    → cons_word (k ++ (c ∷ v)) ws ≡ (k ++ (c ∷ v)) ∷ ws
cons_word-append [] c v ws = refl
cons_word-append (d ∷ k) c v ws = refl

split_words-fields :
    (fields : List (Text × Text))
    → AreFields fields
    → split_words (fields_text fields) ≡ ([], map field_word fields)
split_words-fields [] h = refl
split_words-fields ((k, v) ∷ fields) h =
    let rest = fields_text fields in
    rw (
      sym (append_assoc k (b'=' ∷ v) rest),
      split_words-append (k ++ (b'=' ∷ v)) rest (field_word-HasNoSpace k v h.0.0 h.0.1),
      split_words-fields fields h.1,
      append-nil (k ++ (b'=' ∷ v)),
      cons_word-append k b'=' v (map field_word fields),
    )

after_key-kind : (key kind : Text) → IsKey kind → after_key key kind ≡ none
after_key-kind [] [] h = refl
after_key-kind [] (c ∷ kind) h = rw h.0.1
after_key-kind (k ∷ key) [] h = refl
after_key-kind (k ∷ key) (c ∷ kind) h = ground (arith, after_key-kind key kind h.1)

after_key-field :
    (key k v : Text)
    → IsKey key
    → IsKey k
    → after_key key (k ++ (b'=' ∷ v)) ≡ (if text_eq key k then some v else none)
unfolding text_eq
after_key-field [] [] v h hk = refl
after_key-field [] (c ∷ k) v h hk = rw hk.0.1
after_key-field (d ∷ key) [] v h hk = ground arith
after_key-field (d ∷ key) (c ∷ k) v h hk = ground (arith, after_key-field key k v h.1 hk.1)

first_value-fields :
    (key : Text) (fields : List (Text × Text))
    → IsKey key
    → AreFields fields
    → first_value key (map field_word fields) ≡ field_value key fields
first_value-fields key [] hk h = refl
first_value-fields key ((k, v) ∷ fields) hk h =
    ground (arith, after_key-field key k v hk h.0.0, first_value-fields key fields hk h.1)

first_value-line :
    (c : ℕ) (kind : Text) (fields : List (Text × Text)) (key : Text)
    → IsKey (c ∷ kind)
    → AreFields fields
    → IsKey key
    → first_value key (words (c ∷ kind ++ fields_text fields)) ≡ field_value key fields
first_value-line c kind fields key hc h hk =
    let line : split_words (c ∷ kind ++ fields_text fields) ≡ (c ∷ kind, map field_word fields) =
      split_words-append (c ∷ kind) (fields_text fields) (IsKey-HasNoSpace (c ∷ kind) hc)
      ∙ rw (split_words-fields fields h, append-nil kind) in
    rw (line, after_key-kind key (c ∷ kind) hc, first_value) (first_value-fields key fields hk h)

field_value-fits :
    {capacity : ℕ} (key : Text) (fields : List (Text × Text)) (v : Text)
    → All (λ f. length f.1 < capacity) fields
    → field_value key fields ≡ some v
    → length v < capacity
field_value-fits key [] v h e = cc
field_value-fits key ((k, w) ∷ fields) v h e = ground (arith, field_value-fits key fields v h.1)

-- What proto_extract_param gives of such a line, where the value that is asked for fits.
pub extract_param-value :
    (c : ℕ) (kind : Text) (fields : List (Text × Text)) (key value : Text) (capacity : ℕ)
    → IsKey (c ∷ kind)
    → AreFields fields
    → IsKey key
    → ((v : Text) → field_value key fields ≡ some v → length v < capacity)
    → 0 < capacity
    → extract_param (c ∷ kind ++ fields_text fields) key value capacity
      ≡ elim (field_value key fields) [ none ↦ ([], false) | some v ↦ (v, not (is_empty v)) ]
extract_param-value c kind fields key value capacity hc h hk fits room =
    extract_param-words (c ∷ kind ++ fields_text fields) key value capacity
      (IsKey-HasNoSpace key hk) room
    ∙ rw (first_value-line c kind fields key hc h hk)
        (elim (Option-cases (field_value key fields)) [
          | inl missing ↦ rw missing
          | inr (v, there) ↦
              let short = fits v there in rw (there, take_all (capacity - 1) v (omega arith))
        ])

-- In a line that is a kind and fields, all of whose values fit the capacity with a terminator,
-- proto_extract_param gives the value of the first field with the key, and nothing if no field has
-- the key. The kind and the keys have no space and no equals sign, the values no space.
pub extract_param-fields :
    (c : ℕ) (kind : Text) (fields : List (Text × Text)) (key value : Text) (capacity : ℕ)
    → IsKey (c ∷ kind)
    → AreFields fields
    → IsKey key
    → All (λ f. length f.1 < capacity) fields
    → 0 < capacity
    → extract_param (c ∷ kind ++ fields_text fields) key value capacity
      ≡ elim (field_value key fields) [ none ↦ ([], false) | some v ↦ (v, not (is_empty v)) ]
extract_param-fields c kind fields key value capacity hc h hk fits room =
    extract_param-value c kind fields key value capacity hc h hk
      (λ v there. field_value-fits key fields v fits there) room
