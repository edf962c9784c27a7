-- ===== src/Client/Forms.antt =====
-- The forms and options that src/client/http/HRBClient.ipp writes, as `urlform` of
-- src/common/util/StringFields.hh reads them.
use hearty_rabbit.Prelude.{
  ℕ, ◌≡◌, ◌∙◌, sym, refl, ap, Bool, true, false, List, [], ◌∷◌, ◌++◌, append_assoc, Option, none,
  some, if◌then◌else◌, Bytes, codes, bytes_eq, Avoids,
}
use hearty_rabbit.Escape.Split.{split_left}
use hearty_rabbit.Escape.SplitLaws.{split_left-append, split_left_none}
use hearty_rabbit.Escape.UrlLaws.{avoids-Avoids}
use hearty_rabbit.StringFields
use hearty_rabbit.StringFields.{urlform, next_token, match_field, trim_name}
use hearty_rabbit.StringFields.Parts.{IsSeparator, scan, scan-append, scan-nil, scan_token}
use hearty_rabbit.Handler.Header.{form_value}
use hearty_rabbit.Handler.Body.{form_option}
use hearty_rabbit.Client.{rendition_of}

ampersand : IsSeparator urlform b'&'
ampersand = record { of_names = refl; of_values = refl; no_equals = refl }

if_cons {ℓ} :
    {A : Type ℓ} (b : Bool) (x y : A) → (if b then x ∷ [] else y ∷ []) ≡ (if b then x else y) ∷ []
if_cons true x y = refl
if_cons false x y = refl

module _ {ℓ} {A : Type ℓ} (out : Bytes → A) (j : Bytes) where
  pair_read :
      (c : ℕ) (name value : Bytes) (x : A)
      → Avoids (codes "=;&") (c ∷ name)
      → Avoids (codes ";&") value
      → scan urlform out (j ∷ []) ((c ∷ name) ++ b'=' ∷ value) (x ∷ [])
        ≡ (if bytes_eq (c ∷ name) j then out value else x) ∷ []
  unfolding match_field
  pair_read c name value x hn hv =
      let token : next_token urlform ((c ∷ name) ++ b'=' ∷ value)
          ≡ record { name = c ∷ name; value = value; rest = [] } =
        unfold next_token trim_name in
        rw (
          split_left-append (c ∷ name) b'=' value (codes "=;&") hn refl,
          split_left_none value (codes ";&") hv,
        ) in
      rw (scan_token, token, scan-nil) (if_cons (bytes_eq (c ∷ name) j) (out value) x)

form_value_of :
    (text j v : Bytes)
    → scan urlform (λ v. v) (j ∷ []) text ([] ∷ []) ≡ v ∷ []
    → form_value text j ≡ v
unfolding StringFields.find scan
form_value_of text j v e = ap (λ (l : List Bytes). elim l [ [] ↦ [] | w ∷ ws ↦ w ]) e

form_option_of :
    (text j : Bytes) (v : Option Bytes)
    → scan urlform (λ v. some v) (j ∷ []) text (none ∷ []) ≡ v ∷ []
    → form_option text j ≡ v
unfolding StringFields.find_optional scan
form_option_of text j v e = ap (λ (l : List (Option Bytes)). elim l [ [] ↦ none | w ∷ ws ↦ w ]) e

abbrev pub IsValue : Bytes → Type 0
IsValue = Avoids (codes ";&")

-- The rendition that a client asks for, and that it does not ask for JSON.
pub rendition_read :
    (rendition : Bytes)
    → IsValue rendition
    → (form_value (rendition_of rendition) (codes "rendition") ≡ rendition)
      × (form_option (rendition_of rendition) (codes "json") ≡ none)
rendition_read rendition h =
    let name = avoids-Avoids (codes "=;&") (codes "rendition") refl in
    (
      form_value_of (rendition_of rendition) (codes "rendition") rendition
          (pair_read (λ v. v) (codes "rendition") b'r' (codes "endition") rendition [] name h),
      form_option_of (rendition_of rendition) (codes "json") none
          (pair_read (λ v. some v) (codes "json") b'r' (codes "endition") rendition none name h),
    )

pub json_read : form_option (codes "&json") (codes "json") ≡ some []
unfolding StringFields.find_optional next_token match_field trim_name split_left
json_read = refl

-- Two parts, the second of which is a pair.
module _ {ℓ} {A : Type ℓ} (out : Bytes → A) (c : ℕ) (j : Bytes) where
  two_parts :
      (m : Bytes) (d : ℕ) (name value : Bytes) (x y : A)
      → Avoids (codes "=;&") (d ∷ name)
      → IsValue value
      → scan urlform out ((c ∷ j) ∷ []) m (x ∷ []) ≡ y ∷ []
      → scan urlform out ((c ∷ j) ∷ []) (m ++ b'&' ∷ ((d ∷ name) ++ b'=' ∷ value)) (x ∷ [])
        ≡ (if bytes_eq (d ∷ name) (c ∷ j) then out value else y) ∷ []
  two_parts m d name value x y hn hv e =
      scan-append urlform out ((c ∷ j) ∷ []) b'&' ampersand (cc, tt) ((d ∷ name) ++ b'=' ∷ value) m
        (x ∷ [])
      ∙ rw e (pair_read out (c ∷ j) d name value y hn hv)

json_alone :
    (j : Bytes) (x : Option Bytes)
    → scan urlform (λ v. some v) (j ∷ []) (codes "json") (x ∷ [])
      ≡ (if bytes_eq (codes "json") j then some [] else x) ∷ []
unfolding scan next_token match_field trim_name split_left StringFields.find_loop
json_alone j x = if_cons (bytes_eq (codes "json") j) (some []) x

-- The option of `scan_collections`.
pub json_user_read :
    (user : Bytes)
    → IsValue user
    → (form_option (codes "json&user=" ++ user) (codes "user") ≡ some user)
      × (form_option (codes "json&user=" ++ user) (codes "json") ≡ some [])
json_user_read user h =
    let text = codes "json&user=" ++ user in
    let name = avoids-Avoids (codes "=;&") (codes "user") refl in
    (
      form_option_of text (codes "user") (some user) (
          two_parts (λ v. some v) b'u' (codes "ser") (codes "json") b'u' (codes "ser") user none
            none name h (json_alone (codes "user") none)),
      form_option_of text (codes "json") (some []) (
          two_parts (λ v. some v) b'j' (codes "son") (codes "json") b'u' (codes "ser") user none
            (some []) name h (json_alone (codes "json") none)),
    )

-- The form of `login`.
pub login_read :
    (username password : Bytes)
    → IsValue username
    → IsValue password
    → (form_value
          (codes "username=" ++ (username ++ (codes "&password=" ++ password)))
          (codes "username")
        ≡ username)
      × (form_value
            (codes "username=" ++ (username ++ (codes "&password=" ++ password)))
            (codes "password")
          ≡ password)
login_read username password hu hp =
    let first = codes "username=" ++ username in
    let text = codes "username=" ++ (username ++ (codes "&password=" ++ password)) in
    let split : text ≡ first ++ (codes "&password=" ++ password) =
      sym (append_assoc (codes "username=") username (codes "&password=" ++ password)) in
    let names = avoids-Avoids (codes "=;&") (codes "username") refl in
    let passes = avoids-Avoids (codes "=;&") (codes "password") refl in
    (
      form_value_of text (codes "username") username (
          rw split (
            two_parts (λ v. v) b'u' (codes "sername") first b'p' (codes "assword") password []
              username passes hp
              (pair_read (λ v. v) (codes "username") b'u' (codes "sername") username [] names hu))),
      form_value_of text (codes "password") password (
          rw split (
            two_parts (λ v. v) b'p' (codes "assword") first b'p' (codes "assword") password [] []
              passes hp
              (pair_read (λ v. v) (codes "password") b'u' (codes "sername") username [] names hu))),
    )
