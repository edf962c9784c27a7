-- ===== src/BlobInode.antt =====
-- src/common/hrb/BlobInode.hh and BlobInode.cc: what is kept with a blob, and its JSON form. JSON
-- values are those of the nlohmann library, and enter as a record of operations.
use hearty_rabbit.Prelude.{
  ℕ, ◌≡◌, ◌⊎◌, inl, inr, refl, Bool, true, false, ◌&&◌, ◌==◌, Option, none, some, if◌then◌else◌,
  Bytes, codes, is_some, ◌>>=◌, bytes_eq, bytes_eq_refl, bytes_eq_sound, Bool-cases, arith,
}
use hearty_rabbit.Redis.Reply.{ℤ}
use hearty_rabbit.Permission.{
  description, from_description, public, shared, private, from_description-description,
}
pub mod Record

-- A member of an object: not there, of another type than asked for, or of a value.
pub data Member {ℓ} (A : Type ℓ) : Type ℓ where
  missing : Member A
  mistyped : Member A
  found : A → Member A

-- `parse` is `none` for a discarded value, and `dump` for a text that is not UTF-8, where it throws.
-- `object` is an empty object. A member of what is no object counts as mistyped.
pub record Json {ℓ} (V : Type ℓ) : Type ℓ where
  pub parse : Bytes → Option V
  pub dump : V → Option Bytes
  pub object : V
  pub emplace_text : V → Bytes → Bytes → V
  pub emplace_number : V → Bytes → ℤ → V
  pub text : V → Bytes → Member Bytes
  pub number : V → Bytes → Member ℤ

-- `emplace` keeps a member that is there.
abbrev pub or_new {ℓ} : {A : Type ℓ} → Member A → A → Member A
or_new missing a = found a
or_new mistyped a = mistyped
or_new (found b) a = found b

pub record JsonLaws {ℓ} {V : Type ℓ} (j : Json V) : Type ℓ where
  pub parse-dump : (v : V) (s : Bytes) → j.dump v ≡ some s → j.parse s ≡ some v
  pub text_object : (k : Bytes) → j.text j.object k ≡ missing
  pub number_object : (k : Bytes) → j.number j.object k ≡ missing
  pub text_emplace_text :
      (v : V) (k m s : Bytes)
      → j.text (j.emplace_text v k s) m
        ≡ (if bytes_eq k m then or_new (j.text v k) s else j.text v m)
  pub number_emplace_number :
      (v : V) (k m : Bytes) (n : ℤ)
      → j.number (j.emplace_number v k n) m
        ≡ (if bytes_eq k m then or_new (j.number v k) n else j.number v m)
  pub text_emplace_number :
      (v : V) (k m : Bytes) (n : ℤ)
      → bytes_eq k m ≡ false
      → j.text (j.emplace_number v k n) m ≡ j.text v m
  pub number_emplace_text :
      (v : V) (k m s : Bytes)
      → bytes_eq k m ≡ false
      → j.number (j.emplace_text v k s) m ≡ j.number v m

pub record BlobInode : Type 0 where
  pub perm : ℕ
  pub filename : Bytes
  pub mime : Bytes
  pub timestamp : ℤ

unfoldable pub same_number : ℤ → ℤ → Bool
same_number (ℤ.pos m) (ℤ.pos n) = m == n
same_number (ℤ.negsuc m) (ℤ.negsuc n) = m == n
same_number _ _ = false

-- `operator==`
unfoldable pub same_inode : BlobInode → BlobInode → Bool
unfolding same_number
same_inode a b =
    same_number a.timestamp b.timestamp
    && bytes_eq a.filename b.filename
    && bytes_eq a.mime b.mime
    && a.perm == b.perm

-- `at`, which throws where there is no such member.
abbrev pub at {ℓ} : {A : Type ℓ} → Member A → Option A
at (found a) = some a
at _ = none

module _ {ℓ} {V : Type ℓ} (j : Json V) where
  unfoldable pub to_json : BlobInode → V
  to_json src =
      let v1 = j.emplace_number j.object (codes "timestamp") src.timestamp in
      let v2 = j.emplace_text v1 (codes "filename") src.filename in
      let v3 = j.emplace_text v2 (codes "mime") src.mime in
      j.emplace_text v3 (codes "perm") (description src.perm)

  -- `none` is an exception.
  unfoldable pub from_json : V → Option BlobInode
  from_json src = do
    timestamp ← at (j.number src (codes "timestamp"))
    filename ← at (j.text src (codes "filename"))
    mime ← at (j.text src (codes "mime"))
    perm ← at (j.text src (codes "perm"))
    some (record {
      perm = from_description perm;
      filename = filename;
      mime = mime;
      timestamp = timestamp;
    })

  -- What `to_json` writes is read back by `from_json`, with a permission that is not one of the three
  -- read as private.
  pub from_json-to_json :
      (src : BlobInode)
      → JsonLaws j
      → from_json (to_json src)
        ≡ some (record src {
          perm =
              if src.perm == public then public else if src.perm == shared then shared else private;
        })
  unfolding from_json to_json
  from_json-to_json src laws = simp (
    laws.text_emplace_text, laws.number_emplace_number, laws.text_emplace_number,
    laws.number_emplace_text, laws.text_object, laws.number_object, from_description-description,
  )
