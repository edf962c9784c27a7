-- ===== src/Tests/JsonModel.antt =====
-- JSON values that meet what is asked of nlohmann's: the members of an object, the newest first,
-- written with their lengths.
use hearty_rabbit.Prelude.{
  ℕ, zero, suc, ◌≤◌, ◌≡◌, refl, false, List, [], ◌∷◌, ◌++◌, Option, none, some, if◌then◌else◌, ◌==◌,
  Bytes, bytes_eq, bytes_eq_sound, Bool-cases, inl, inr, arith, length, length-append, take, drop,
  take-append, drop-append, ◌>>=◌,
}
use hearty_rabbit.Redis.Reply.{ℤ}
use hearty_rabbit.BlobInode.{Json, JsonLaws, Member, missing, mistyped, found, or_new}

pub data Value : Type 0 where
  words : Bytes → Value
  num : ℤ → Value

pub record Field : Type 0 where
  pub key : Bytes
  pub value : Value

abbrev pub Fields : Type 0
Fields = List Field

abbrev text_value : Value → Member Bytes
text_value (words s) = found s
text_value (num n) = mistyped

abbrev number_value : Value → Member ℤ
number_value (num n) = found n
number_value (words s) = mistyped

unfoldable pub text : Fields → Bytes → Member Bytes
text [] k = missing
text (f ∷ fs) k = let rest = text fs k in if bytes_eq f.key k then text_value f.value else rest

unfoldable pub number : Fields → Bytes → Member ℤ
number [] k = missing
number (f ∷ fs) k =
    let rest = number fs k in if bytes_eq f.key k then number_value f.value else rest

abbrev add {ℓ} : {A : Type ℓ} → Member A → Bytes → Value → Fields → Fields
add missing k v fs = record { key = k; value = v } ∷ fs
add mistyped k v fs = fs
add (found a) k v fs = fs

unfoldable pub write_value : Value → Bytes
write_value (words s) = 0 ∷ length s ∷ s
write_value (num (ℤ.pos n)) = 1 ∷ n ∷ []
write_value (num (ℤ.negsuc n)) = 2 ∷ n ∷ []

unfoldable pub write : Fields → Bytes
unfolding write_value
write [] = []
write (f ∷ fs) = length f.key ∷ (f.key ++ (write_value f.value ++ write fs))

unfoldable pub read_value : Bytes → Option (Value × Bytes)
read_value (k ∷ n ∷ s) =
    if k == 0
    then some (words (take n s), drop n s)
    else if k == 1
    then some (num (ℤ.pos n), s)
    else some (num (ℤ.negsuc n), s)
read_value _ = none

unfoldable pub read : ℕ → Bytes → Option Fields
unfolding read_value
read fuel [] = some []
read zero (n ∷ s) = none
read (suc fuel) (n ∷ s) = do
  (v, rest) ← read_value (drop n s)
  fs ← read fuel rest
  some (record { key = take n s; value = v } ∷ fs)

abbrev pub objects : Json Fields
objects = record {
  parse = λ s. read (length s) s;
  dump = λ v. some (write v);
  object = [];
  emplace_text = λ v k s. add (text v k) k (words s) v;
  emplace_number = λ v k n. add (number v k) k (num n) v;
  text = text;
  number = number;
}

read_value-write : (v : Value) (s : Bytes) → read_value (write_value v ++ s) ≡ some (v, s)
unfolding read_value write_value
read_value-write (words t) s = rw (take-append t s, drop-append t s)
read_value-write (num (ℤ.pos n)) s = refl
read_value-write (num (ℤ.negsuc n)) s = refl

read-write : (fuel : ℕ) (fs : Fields) → length (write fs) ≤ fuel → read fuel (write fs) ≡ some fs
unfolding read write
read-write zero [] h = refl
read-write (suc fuel) [] h = refl
read-write zero (f ∷ fs) h = absurd (omega arith)
read-write (suc fuel) (f ∷ fs) h =
    let rest = write_value f.value ++ write fs in
    let n1 = length-append f.key rest in
    let n2 = length-append (write_value f.value) (write fs) in
    rw (
      drop-append f.key rest,
      take-append f.key rest,
      read_value-write f.value (write fs),
      read-write fuel fs (omega (arith, n1, n2, h)),
    )

text_over :
    (v : Fields) (k m s : Bytes) (o : Member Bytes)
    → text v k ≡ o
    → text (add o k (words s) v) m ≡ (if bytes_eq k m then or_new o s else text v m)
unfolding text
text_over v k m s missing e = refl
text_over v k m s mistyped e = elim (Bool-cases (bytes_eq k m)) [
  | inl y ↦ rw (y, ← bytes_eq_sound k m y) e
  | inr n ↦ rw n
]
text_over v k m s (found b) e = elim (Bool-cases (bytes_eq k m)) [
  | inl y ↦ rw (y, ← bytes_eq_sound k m y) e
  | inr n ↦ rw n
]

number_over :
    (v : Fields) (k m : Bytes) (n : ℤ) (o : Member ℤ)
    → number v k ≡ o
    → number (add o k (num n) v) m ≡ (if bytes_eq k m then or_new o n else number v m)
unfolding number
number_over v k m n missing e = refl
number_over v k m n mistyped e = elim (Bool-cases (bytes_eq k m)) [
  | inl y ↦ rw (y, ← bytes_eq_sound k m y) e
  | inr d ↦ rw d
]
number_over v k m n (found b) e = elim (Bool-cases (bytes_eq k m)) [
  | inl y ↦ rw (y, ← bytes_eq_sound k m y) e
  | inr d ↦ rw d
]

text_beside :
    (v : Fields) (k m : Bytes) (n : ℤ) (o : Member ℤ)
    → bytes_eq k m ≡ false
    → text (add o k (num n) v) m ≡ text v m
unfolding text
text_beside v k m n missing d = rw d
text_beside v k m n mistyped d = refl
text_beside v k m n (found b) d = refl

number_beside :
    (v : Fields) (k m s : Bytes) (o : Member Bytes)
    → bytes_eq k m ≡ false
    → number (add o k (words s) v) m ≡ number v m
unfolding number
number_beside v k m s missing d = rw d
number_beside v k m s mistyped d = refl
number_beside v k m s (found b) d = refl

parse-write : (v : Fields) (s : Bytes) → some (write v) ≡ some s → read (length s) s ≡ some v
parse-write v s e =
    let same : s ≡ write v = cc in rw same (read-write (length (write v)) v (omega arith))

pub objects-JsonLaws : JsonLaws objects
unfolding text number
objects-JsonLaws = record {
  parse-dump = parse-write;
  text_object = λ k. refl;
  number_object = λ k. refl;
  text_emplace_text = λ v k m s. text_over v k m s (text v k) refl;
  number_emplace_number = λ v k m n. number_over v k m n (number v k) refl;
  text_emplace_number = λ v k m n d. text_beside v k m n (number v k) d;
  number_emplace_text = λ v k m s d. number_beside v k m s (text v k) d;
}
