-- ===== src/BlobInode/Record.antt =====
-- src/server/hrb/BlobInodeDB.cc: the text under which redis keeps an inode, its permission first.
use hearty_rabbit.Prelude.{
  ℕ, ◌≡◌, false, [], ◌∷◌, Option, none, some, if◌then◌else◌, Bytes, codes, is_empty, ◌>>=◌,
  Option-cases, inl, inr, arith,
}
use hearty_rabbit.Redis.Reply.{ℤ}
use hearty_rabbit.Permission.{private}
use hearty_rabbit.BlobInode.{Json, JsonLaws, Member, missing, mistyped, found, BlobInode}

-- `value`, which throws where the member has another type.
abbrev pub value {ℓ} : {A : Type ℓ} → Member A → A → Option A
value missing d = some d
value mistyped d = none
value (found a) d = some a

-- `BlobInodeDB::json`
unfoldable pub json_text : Bytes → Bytes
json_text [] = []
json_text (c ∷ raw) = raw

unfoldable pub permission : Bytes → ℕ
permission [] = private
permission (c ∷ raw) = c

module _ {ℓ} {V : Type ℓ} (j : Json V) where
  unfoldable pub create_object : Bytes → Bytes → ℤ → V
  create_object filename mime timestamp =
      let v1 = j.emplace_text j.object (codes "mime") mime in
      let v2 = j.emplace_number v1 (codes "timestamp") timestamp in
      if is_empty filename then v2 else j.emplace_text v2 (codes "filename") filename

  -- `none` is an exception, here and below.
  unfoldable pub create : ℕ → Bytes → Bytes → ℤ → Option Bytes
  unfolding create_object
  create perm filename mime timestamp = do
    text ← j.dump (create_object filename mime timestamp)
    some (perm ∷ text)

  unfoldable pub create_inode : BlobInode → Option Bytes
  unfolding create
  create_inode fields = create fields.perm fields.filename fields.mime fields.timestamp

  unfoldable pub create_json : ℕ → V → Option Bytes
  unfolding create
  create_json perm v = do
    filename ← value (j.text v (codes "filename")) []
    mime ← value (j.text v (codes "mime")) []
    timestamp ← value (j.number v (codes "timestamp")) (ℤ.pos 0)
    create perm filename mime timestamp

  unfoldable pub read_member {κ} : {A : Type κ} → (V → Member A) → A → Option V → Option A
  read_member m d none = some d
  read_member m d (some v) = value (m v) d

  unfoldable pub filename : Bytes → Option Bytes
  unfolding json_text read_member
  filename raw = read_member (λ v. j.text v (codes "filename")) [] (j.parse (json_text raw))

  unfoldable pub mime : Bytes → Option Bytes
  unfolding json_text read_member
  mime raw = read_member (λ v. j.text v (codes "mime")) [] (j.parse (json_text raw))

  unfoldable pub timestamp : Bytes → Option ℤ
  unfolding json_text read_member
  timestamp raw =
      read_member (λ v. j.number v (codes "timestamp")) (ℤ.pos 0) (j.parse (json_text raw))

  unfoldable pub read_fields : ℕ → V → Option BlobInode
  read_fields perm v = do
    filename ← value (j.text v (codes "filename")) []
    mime ← value (j.text v (codes "mime")) []
    timestamp ← value (j.number v (codes "timestamp")) (ℤ.pos 0)
    some (record { perm = perm; filename = filename; mime = mime; timestamp = timestamp })

  unfoldable pub fields_of : Bytes → Option V → Option (Option BlobInode)
  unfolding read_fields permission
  fields_of raw none = some none
  fields_of raw (some v) = do inode ← read_fields (permission raw) v; some (some inode)

  unfoldable pub fields : Bytes → Option (Option BlobInode)
  unfolding fields_of json_text
  fields raw = fields_of raw (j.parse (json_text raw))

  module _ (laws : JsonLaws j) where
    -- The object that is dumped has the members it was made of; an empty filename is left out, and
    -- read as such.
    read_fields-create_object :
        (perm : ℕ) (filename mime : Bytes) (timestamp : ℤ)
        → read_fields perm (create_object filename mime timestamp)
          ≡ some (record { perm = perm; filename = filename; mime = mime; timestamp = timestamp })
    unfolding read_fields create_object
    read_fields-create_object perm [] type time = simp (
      laws.text_emplace_text, laws.number_emplace_number, laws.text_emplace_number,
      laws.number_emplace_text, laws.text_object, laws.number_object,
    )
    read_fields-create_object perm (c ∷ name) type time = simp (
      laws.text_emplace_text, laws.number_emplace_number, laws.text_emplace_number,
      laws.number_emplace_text, laws.text_object, laws.number_object,
    )

    -- A record that could be made is read back as the inode it was made of.
    pub fields-create_inode :
        (inode : BlobInode) (raw : Bytes)
        → create_inode inode ≡ some raw
        → fields raw ≡ some (some inode)
    unfolding create_inode create fields json_text permission
    fields-create_inode inode raw h =
        elim (Option-cases (j.dump (create_object inode.filename inode.mime inode.timestamp))) [
          | inl n ↦ let bad : none ≡ some raw = rw n at h in cc
          | inr (text, e) ↦
              let shape : raw ≡ inode.perm ∷ text =
                let e' : some (inode.perm ∷ text) ≡ some raw = rw e at h in cc in
              let inner : fields (inode.perm ∷ text) ≡ some (some inode) = rw (
                laws.parse-dump _ text e,
                fields_of,
                read_fields-create_object inode.perm inode.filename inode.mime inode.timestamp,
              ) in
              rw shape inner
        ]

  -- A record has at least the permission.
  pub create_inode_full :
      (inode : BlobInode) (raw : Bytes) → create_inode inode ≡ some raw → is_empty raw ≡ false
  unfolding create_inode create
  create_inode_full inode raw h =
      elim (Option-cases (j.dump (create_object inode.filename inode.mime inode.timestamp))) [
        | inl n ↦ let bad : none ≡ some raw = rw n at h in cc
        | inr (text, e) ↦
            let shape : raw ≡ inode.perm ∷ text =
              let e' : some (inode.perm ∷ text) ≡ some raw = rw e at h in cc in
            rw shape
      ]

  read_fields_perm :
      (perm : ℕ) (v : V) (inode : BlobInode) → read_fields perm v ≡ some inode → inode.perm ≡ perm
  unfolding read_fields
  read_fields_perm perm v inode e = elim (Option-cases (value (j.text v (codes "filename")) [])) [
    | inl n ↦ let bad : none ≡ some inode = rw n at e in cc
    | inr (f, ef) ↦ elim (Option-cases (value (j.text v (codes "mime")) [])) [
      | inl n ↦ let bad : none ≡ some inode = rw (ef, n) at e in cc
      | inr (m, em) ↦ elim (Option-cases (value (j.number v (codes "timestamp")) (ℤ.pos 0))) [
        | inl n ↦ let bad : none ≡ some inode = rw (ef, em, n) at e in cc
        | inr (t, et) ↦
            let read : some (record { perm = perm; filename = f; mime = m; timestamp = t })
                ≡ some inode =
              rw (ef, em, et) at e in
            let same : inode ≡ record { perm = perm; filename = f; mime = m; timestamp = t } = cc in
            rw same
      ]
    ]
  ]

  -- The permission of what is read is the first character of the record.
  pub fields_perm :
      (raw : Bytes) (inode : BlobInode)
      → fields raw ≡ some (some inode)
      → inode.perm ≡ permission raw
  unfolding fields fields_of
  fields_perm raw inode e = elim (Option-cases (j.parse (json_text raw))) [
    | inl n ↦
        let bad : some none ≡ some (some inode) = rw (n, fields_of) at e in
        absurd (ground (arith, bad))
    | inr (v, ev) ↦ elim (Option-cases (read_fields (permission raw) v)) [
      | inl n ↦ let bad : none ≡ some (some inode) = rw (ev, fields_of, n) at e in cc
      | inr (f, ef) ↦
          let read : some (some f) ≡ some (some inode) = rw (ev, fields_of, ef) at e in
          let same : inode ≡ f = cc in rw same (read_fields_perm (permission raw) v f ef)
    ]
  ]
