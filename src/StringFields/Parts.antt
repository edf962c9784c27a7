-- ===== src/StringFields/Parts.antt =====
-- What `basic_find` of src/common/util/StringFields.hh makes of a text with a separator in it.
use hearty_rabbit.Prelude.{
  ℕ, zero, suc, ◌≤◌, ◌≡◌, ◌≢◌, ◌⊎◌, inl, inr, refl, sym, ap, ◌∙◌, true, false, List, [], ◌∷◌, ◌++◌,
  append_assoc, ◌==◌, Bytes, length, contains, All, arith, Bool-cases,
}
use hearty_rabbit.Escape.Split.{split_left}
use hearty_rabbit.Escape.SplitLaws.{split_left_hit, split_left-append, split_left_sound}
use hearty_rabbit.StringFields.{StringFields, next_token, match_field, find_loop, trim_name}
use hearty_rabbit.StringFields.Laws.{next_token-shorter, find_loop_fuel}

-- A cut of a longer text, at a delimiter that follows the first part.
split_left-extend :
    (m value : Bytes) (sep : ℕ) (rest : Bytes)
    → contains value sep ≡ true
    → ((split_left m value ≡ record { field = m; match = 0; rest = [] })
        × (split_left (m ++ sep ∷ rest) value ≡ record { field = m; match = sep; rest = rest }))
      ⊎ (split_left (m ++ sep ∷ rest) value ≡ record {
        field = (split_left m value).field;
        match = (split_left m value).match;
        rest = (split_left m value).rest ++ sep ∷ rest;
      })
split_left-extend m value sep rest h = elim (split_left_sound m value) [
  | inl (a, e) ↦ inl (e, split_left-append m sep rest value a h)
  | inr (a, hm, e) ↦
      let cut = split_left m value in
      inr (
        ap (λ t. split_left (t ++ sep ∷ rest) value) e
        ∙ (ap (λ t. split_left t value) (append_assoc cut.field (cut.match ∷ cut.rest) (sep ∷ rest))
            ∙ split_left-append cut.field cut.match (cut.rest ++ sep ∷ rest) value a hm))
]

-- A separator: a delimiter of names and of values, and no equals sign.
pub record IsSeparator (sf : StringFields) (sep : ℕ) : Type 0 where
  pub of_names : contains sf.all_delims sep ≡ true
  pub of_values : contains sf.kv_delims sep ≡ true
  pub no_equals : (sep == b'=') ≡ false

-- The two kinds of a token.
valued :
    (sf : StringFields) (m : Bytes)
    → ((split_left m sf.all_delims).match == b'=') ≡ true
    → next_token sf m ≡ (
        let cut = split_left m sf.all_delims in
        let held = split_left cut.rest sf.kv_delims in
        record { name = trim_name sf cut.field; value = held.field; rest = held.rest })
unfolding next_token
valued sf m h = rw h

bare :
    (sf : StringFields) (m : Bytes)
    → ((split_left m sf.all_delims).match == b'=') ≡ false
    → next_token sf m ≡ (
        let cut = split_left m sf.all_delims in
        record { name = trim_name sf cut.field; value = []; rest = cut.rest })
unfolding next_token
bare sf m h = rw h

module _ (sf : StringFields) (sep : ℕ) (is_sep : IsSeparator sf sep) (rest : Bytes) where
  -- Either the first part was one token, which now ends at the separator, or the token is as before
  -- and the rest of the first part is followed by the separator.
  next_token-extend :
      (m : Bytes)
      → (((next_token sf m).rest ≡ [])
          × (next_token sf (m ++ sep ∷ rest) ≡ record {
            name = (next_token sf m).name;
            value = (next_token sf m).value;
            rest = rest;
          }))
        ⊎ (next_token sf (m ++ sep ∷ rest) ≡ record {
          name = (next_token sf m).name;
          value = (next_token sf m).value;
          rest = (next_token sf m).rest ++ sep ∷ rest;
        })
  next_token-extend m = elim (split_left-extend m sf.all_delims sep rest is_sep.of_names) [
    | inl (e, f) ↦
        let before = bare sf m (rw e) in
        let after = bare sf (m ++ sep ∷ rest) (rw f is_sep.no_equals) in
        inl (rw (before, e), rw (after, before, f, e))
    | inr e ↦ elim (Bool-cases ((split_left m sf.all_delims).match == b'=')) [
      | inr n ↦
          let before = bare sf m n in
          let after = bare sf (m ++ sep ∷ rest) (rw e n) in inr (rw (after, before, e))
      | inl y ↦
          let before = valued sf m y in
          let after = valued sf (m ++ sep ∷ rest) (rw e y) in
          elim (split_left-extend (split_left m sf.all_delims).rest sf.kv_delims sep rest
            is_sep.of_values) [
              | inl (g, k) ↦ inl (rw (before, g), rw (after, before, e, k, g))
              | inr k ↦ inr (rw (after, before, e, k))
            ]
    ]
  ]

trim_name-nil : (sf : StringFields) → trim_name sf [] ≡ []
unfolding trim_name
trim_name-nil sf = elim (Bool-cases sf.trim_space) [ inl y ↦ rw y | inr n ↦ rw n ]

-- No field is asked for under the empty name.
abbrev pub Named : List Bytes → Type 0
Named = All λ f. f ≢ []

match_field_unnamed {ℓ} :
    {A : Type ℓ} (r : List A) (v : A) (fields : List Bytes)
    → Named fields
    → match_field r [] v fields ≡ r
unfolding match_field
match_field_unnamed [] v fields h = refl
match_field_unnamed (a ∷ r) v [] h = refl
match_field_unnamed (a ∷ r) v ([] ∷ fields) (hf, hs) = absurd (hf refl)
match_field_unnamed (a ∷ r) v ((c ∷ f) ∷ fields) (hf, hs) =
    ap (λ t. a ∷ t) (match_field_unnamed r v fields hs)

module _ {ℓ} {A : Type ℓ} (sf : StringFields) (out : Bytes → A) (fields : List Bytes) where
  -- The results after a text was read to its end.
  unfoldable pub scan : Bytes → List A → List A
  scan s r = (find_loop sf out fields (length s) s r).1

  pub scan-nil : (r : List A) → scan [] r ≡ r
  unfolding scan find_loop
  scan-nil r = refl

  pub scan_token :
      (c : ℕ) (s : Bytes) (r : List A)
      → scan (c ∷ s) r
        ≡ scan
            (next_token sf (c ∷ s)).rest
            (match_field r (next_token sf (c ∷ s)).name (out (next_token sf (c ∷ s)).value) fields)
  unfolding scan find_loop
  scan_token c s r =
      ap (λ t. t.1)
        (find_loop_fuel sf out fields (length s) _ (next_token sf (c ∷ s)).rest _
          (next_token-shorter sf c s) (omega arith))

  module _ (sep : ℕ) (is_sep : IsSeparator sf sep) (named : Named fields) (rest : Bytes) where
    next_token_separator :
        next_token sf (sep ∷ rest) ≡ record { name = []; value = []; rest = rest }
    next_token_separator =
        let hit = split_left_hit sep rest sf.all_delims is_sep.of_names in
        bare sf (sep ∷ rest) (rw hit is_sep.no_equals) ∙ rw (hit, trim_name-nil sf)

    scan_separator : (r : List A) → scan (sep ∷ rest) r ≡ scan rest r
    scan_separator r =
        rw (scan_token, next_token_separator)
          (ap (scan rest) (match_field_unnamed r (out []) fields named))

    scan_fuel :
        (n : ℕ) (m : Bytes) (r : List A)
        → length m ≤ n
        → scan (m ++ sep ∷ rest) r ≡ scan rest (scan m r)
    scan_fuel n [] r h = scan_separator r ∙ unfold scan find_loop in refl
    scan_fuel zero (c ∷ m) r h = absurd (omega arith)
    scan_fuel (suc n) (c ∷ m) r h = elim (next_token-extend sf sep is_sep rest (c ∷ m)) [
      | inl (e, f) ↦
          rw (scan_token c (m ++ sep ∷ rest) r, f, scan_token c m r, e)
            (ap (scan rest) (sym (scan-nil _)))
      | inr f ↦
          rw (scan_token c (m ++ sep ∷ rest) r, f, scan_token c m r)
            (scan_fuel n (next_token sf (c ∷ m)).rest _ (omega (arith, next_token-shorter sf c m)))
    ]

    -- The results of a text with a separator in it: first those of the part before, then the part
    -- behind, which wins where both name a field.
    pub scan-append : (m : Bytes) (r : List A) → scan (m ++ sep ∷ rest) r ≡ scan rest (scan m r)
    scan-append m r = scan_fuel (length m) m r (omega arith)
