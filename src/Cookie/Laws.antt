-- ===== src/Cookie/Laws.antt =====
-- `add`, `field` and `has` of src/common/util/Cookie.cc.
use hearty_rabbit.Prelude.{
  ℕ, zero, suc, ◌≤◌, ◌≡◌, ◌≢◌, refl, Bool, true, false, ◌||◌, List, [], ◌∷◌, ◌++◌, append_assoc,
  append-nil, Option, none, some, if◌then◌else◌, Bytes, codes, length, is_empty, bytes_eq, Avoids,
  arith, Bool-cases, inl, inr,
}
use hearty_rabbit.Escape.SplitLaws.{split_left-append, split_left_none}
use hearty_rabbit.StringFields.{next_token, match_field, trim_name}
use hearty_rabbit.StringFields.Laws.{next_token-shorter}
use hearty_rabbit.StringFields.Parts.{IsSeparator, scan, scan-append, scan-nil, scan_token}
use hearty_rabbit.Cookie.{fields, get_first, field, has, add}

semicolon : IsSeparator fields b';'
semicolon = record { of_names = refl; of_values = refl; no_equals = refl }

-- What a name must be, to be read back: not empty, without delimiters and spaces at its ends.
pub record IsName (id : Bytes) : Type 0 where
  pub present : id ≢ []
  pub no_delims : Avoids (codes "=;") id
  pub trimmed : trim_name fields id ≡ id

spaced : (id : Bytes) → trim_name fields id ≡ id → trim_name fields (b' ' ∷ id) ≡ id
unfolding trim_name
spaced id e = e

-- What `add` writes behind a name.
assigned : Bytes → Bytes
assigned value = if is_empty value then [] else b'=' ∷ value

add-assigned :
    (cookie id value : Bytes)
    → add cookie id value ≡ (
        if is_empty cookie
        then id ++ assigned value
        else cookie ++ b';' ∷ ((b' ' ∷ id) ++ assigned value))
unfolding add assigned
add-assigned [] id [] = rw append-nil
add-assigned [] id (v ∷ value) = refl
add-assigned (c ∷ cookie) id [] = rw (append-nil, append_assoc)
add-assigned (c ∷ cookie) id (v ∷ value) = rw (append_assoc, append_assoc)

if_cons {ℓ} :
    {A : Type ℓ} (b : Bool) (x y : A) → (if b then x ∷ [] else y ∷ []) ≡ (if b then x else y) ∷ []
if_cons true x y = refl
if_cons false x y = refl

module _ {ℓ} {A : Type ℓ} (out : Bytes → A) (j : Bytes) where
  abbrev results : Bytes → List A → List A
  results = scan fields out (j ∷ [])

  -- One pair, whose name may have a space before it.
  results_pair :
      (c : ℕ) (t id value : Bytes) (x : A)
      → Avoids (codes "=;") (c ∷ t)
      → trim_name fields (c ∷ t) ≡ id
      → Avoids (codes ";") value
      → results ((c ∷ t) ++ assigned value) (x ∷ []) ≡ (if bytes_eq id j then out value else x) ∷ []
  unfolding assigned match_field
  results_pair c t id [] x h e hv =
      let token : next_token fields (c ∷ t) ≡ record { name = id; value = []; rest = [] } =
        unfold next_token in rw (split_left_none (c ∷ t) (codes "=;") h, e) in
      rw (append-nil, scan_token, token, scan-nil) (if_cons (bytes_eq id j) (out []) x)
  results_pair c t id (v ∷ value) x h e hv =
      let token : next_token fields ((c ∷ t) ++ b'=' ∷ v ∷ value)
          ≡ record { name = id; value = v ∷ value; rest = [] } =
        unfold next_token in
        rw (
          split_left-append (c ∷ t) b'=' (v ∷ value) (codes "=;") h refl,
          split_left_none (v ∷ value) (codes ";") hv,
          e,
        ) in
      rw (scan_token, token, scan-nil) (if_cons (bytes_eq id j) (out (v ∷ value)) x)

  match_field_single :
      (x : A) (name : Bytes) (v : A) → (y : A) × (match_field (x ∷ []) name v (j ∷ []) ≡ y ∷ [])
  unfolding match_field
  match_field_single x name v = ((if bytes_eq name j then v else x), if_cons (bytes_eq name j) v x)

  single_fuel : (n : ℕ) (s : Bytes) (x : A) → length s ≤ n → (y : A) × (results s (x ∷ []) ≡ y ∷ [])
  single_fuel n [] x h = (x, scan-nil fields out (j ∷ []) (x ∷ []))
  single_fuel zero (c ∷ s) x h = absurd (omega arith)
  single_fuel (suc n) (c ∷ s) x h =
      let token = next_token fields (c ∷ s) in
      let (y, e) = match_field_single x token.name (out token.value) in
      let (z, f) = single_fuel n token.rest y (omega (arith, next_token-shorter fields c s)) in
      (z, rw (scan_token, e) f)

  -- What a cookie holds for one name, once another was added.
  pub results-add :
      (cookie id value : Bytes) (d : A)
      → j ≢ []
      → IsName id
      → Avoids (codes ";") value
      → get_first d (results (add cookie id value) (d ∷ []))
        ≡ (if bytes_eq id j then out value else get_first d (results cookie (d ∷ [])))
  results-add cookie [] value d hj hid hv = absurd (hid.present refl)
  results-add [] (i ∷ id) value d hj hid hv =
      rw (add-assigned, results_pair i id (i ∷ id) value d hid.no_delims hid.trimmed hv, scan-nil)
  results-add (c ∷ cookie) (i ∷ id) value d hj hid hv =
      let (y, e) = single_fuel (length (c ∷ cookie)) (c ∷ cookie) d (omega arith) in
      rw (
        add-assigned,
        scan-append fields out (j ∷ []) b';' semicolon (hj, tt)
            ((b' ' ∷ (i ∷ id)) ++ assigned value) (c ∷ cookie),
        e,
        results_pair b' ' (i ∷ id) (i ∷ id) value y (refl, hid.no_delims)
            (spaced (i ∷ id) hid.trimmed) hv,
      )

field-results :
    (cookie j : Bytes)
    → field cookie j ≡ get_first [] (scan fields (λ v. v) (j ∷ []) cookie ([] ∷ []))
unfolding field scan
field-results cookie j = refl

-- A cookie is a map. After `add` of a name with a value that holds no semicolon, the name reads as
-- that value, and every other name as before.
pub field-add :
    (cookie id value j : Bytes)
    → j ≢ []
    → IsName id
    → Avoids (codes ";") value
    → field (add cookie id value) j ≡ (if bytes_eq id j then value else field cookie j)
field-add cookie id value j hj hid hv =
    rw (field-results (add cookie id value) j, field-results cookie j)
      (results-add (λ v. v) j cookie id value [] hj hid hv)

is_found : Option Bytes → Bool
is_found none = false
is_found (some v) = true

has-results :
    (cookie j : Bytes)
    → has cookie j
      ≡ is_found (get_first none (scan fields (λ v. some v) (j ∷ []) cookie (none ∷ [])))
unfolding has scan is_found
has-results cookie j = refl

-- A name is there once it was added, with or without a value, and no other name comes with it.
pub has-add :
    (cookie id value j : Bytes)
    → j ≢ []
    → IsName id
    → Avoids (codes ";") value
    → has (add cookie id value) j ≡ (bytes_eq id j || has cookie j)
unfolding is_found
has-add cookie id value j hj hid hv =
    rw
      (
        has-results (add cookie id value) j,
        has-results cookie j,
        results-add (λ v. some v) j cookie id value none hj hid hv,
      )
      (elim (Bool-cases (bytes_eq id j)) [ inl y ↦ rw y | inr n ↦ rw n ])
