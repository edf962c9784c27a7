-- ===== src/Ownership/Public/Permitted.antt =====
-- `set_permission_command` of src/server/hrb/Ownership.cc: what it keeps and what it makes sure of.
use hearty_rabbit.Prelude.{
  ◌≡◌, ◌∙◌, refl, false, ◌++◌, none, some, inl, inr, ltb, lt→ltb, if◌then◌else◌, Bytes, codes, drop,
  is_some, bytes_eq, bytes_eq_refl, bytes_eq_sound, Bool-cases, Option-cases,
}
use hearty_rabbit.RedisKeys.{collection, collection_list, public_blobs, blob_inode}
use hearty_rabbit.Ownership.Store.{Db, DbLaws, without, hset}
use hearty_rabbit.Ownership.Scripts.{
  Lua, raised, after, has_raised, set_permission_of, set_permission_script,
}
use hearty_rabbit.Ownership.Invariant.{IsConsistent}
use hearty_rabbit.Ownership.Public.{
  count, IsShortList, requeue-IsShortList, without-IsShortList, count-cut_last, count-without,
}
use hearty_rabbit.Ownership.Public.Permit.{
  publics, permitted, permit_runs, permit_hget, permit_smembers, permit_exists, permit_publics,
  Only_publics-IsConsistent,
}

module _ {ℓ κ} {S : Type ℓ} {J : Type κ} (db : Db S) (laws : DbLaws db) (l : Lua J)
    (u : Bytes) where
  module _ (s : S) (blob perm original : Bytes)
      (stored : db.hget s (blob_inode u) blob ≡ some original) where
    fields_marked :
        (j f : Bytes)
        → bytes_eq public_blobs j ≡ false
        → is_some (db.hget (permitted db laws l u s blob perm original stored) j f)
          ≡ is_some (db.hget s j f)
    fields_marked j f n =
        rw (permit_hget db laws l u s blob perm original stored j f n)
          (elim (Bool-cases (bytes_eq (blob_inode u) j)) [
            | inr k ↦
                rw (laws.hget_frame s (hset (blob_inode u) blob (perm ++ drop 1 original)) j f k)
            | inl y ↦
                rw
                  (
                    ← bytes_eq_sound (blob_inode u) j y,
                    laws.hget_hset s (blob_inode u) blob (perm ++ drop 1 original) f
                        (unfold blob_inode in refl),
                  )
                  (elim (Bool-cases (bytes_eq blob f)) [
                    | inl z ↦ rw (z, ← bytes_eq_sound blob f z, stored)
                    | inr k ↦ rw k
                  ])
          ])

    runs-IsConsistent :
        IsConsistent db l u s
        → IsConsistent db l u (permitted db laws l u s blob perm original stored)
    unfolding collection_list blob_inode public_blobs
    runs-IsConsistent inv =
        let w = hset (blob_inode u) blob (perm ++ drop 1 original) in
        Only_publics-IsConsistent db laws l u s (permitted db laws l u s blob perm original stored)
          fields_marked
          (λ c.
            permit_hget db laws l u s blob perm original stored (collection_list u) c refl
            ∙ laws.hget_frame s w (collection_list u) c refl)
          (λ j n k.
            permit_smembers db laws l u s blob perm original stored j n
            ∙ laws.smembers_frame s w j k)
          (λ j n k.
            permit_exists db laws l u s blob perm original stored j n ∙ laws.exists_frame s w j k)
          inv

  -- A blob that the user does not have is left alone, with an error.
  permit_fails :
      (s : S) (blob perm : Bytes)
      → db.hget s (blob_inode u) blob ≡ none
      → set_permission_script db l u s blob perm ≡ raised s
  unfolding set_permission_script set_permission_of
  permit_fails s blob perm n = rw n

  -- After a permission is set, whatever it was and whether or not the user has the blob, the list of
  -- public blobs has at most a hundred entries and none twice, if that was so before.
  pub set_permission-IsShortList :
      (s : S) (blob perm : Bytes)
      → IsShortList (publics db laws l u s)
      → IsShortList (publics db laws l u (after (set_permission_script db l u s blob perm)))
  set_permission-IsShortList s blob perm h = elim (Option-cases (db.hget s (blob_inode u) blob)) [
    | inl n ↦ rw (permit_fails s blob perm n) h
    | inr (original, e) ↦
        rw (permit_publics db laws l u s blob perm original e)
          (elim (Bool-cases (bytes_eq perm (codes "*"))) [
            | inl y ↦ rw y (requeue-IsShortList (l.pack u blob) (publics db laws l u s) h)
            | inr k ↦ rw k (without-IsShortList (l.pack u blob) (publics db laws l u s) h)
          ])
  ]

  pub set_permission-IsConsistent :
      (s : S) (blob perm : Bytes)
      → IsConsistent db l u s
      → IsConsistent db l u (after (set_permission_script db l u s blob perm))
  set_permission-IsConsistent s blob perm inv =
      elim (Option-cases (db.hget s (blob_inode u) blob)) [
        | inl n ↦ rw (permit_fails s blob perm n) inv
        | inr (original, e) ↦ runs-IsConsistent s blob perm original e inv
      ]

  -- Setting the permission of a blob that the user has raises no error. The inode keeps all but its
  -- first character, every other inode is as before, and the blob is listed as public exactly if the
  -- permission is `*`.
  pub set_permission_marks :
      (s : S) (blob perm original : Bytes)
      → db.hget s (blob_inode u) blob ≡ some original
      → (has_raised (set_permission_script db l u s blob perm) ≡ false)
        × ((b : Bytes)
            → db.hget (after (set_permission_script db l u s blob perm)) (blob_inode u) b ≡ (
                if bytes_eq blob b
                then some (perm ++ drop 1 original)
                else db.hget s (blob_inode u) b))
        × (ltb 0 (
              count
                (l.pack u blob)
                (publics db laws l u (after (set_permission_script db l u s blob perm))))
            ≡ bytes_eq perm (codes "*"))
  set_permission_marks s blob perm original e = (
    rw (permit_runs db laws l u s blob perm original e),
    λ b.
        (permit_hget db laws l u s blob perm original e (blob_inode u) b
            (unfold public_blobs blob_inode in refl)
          ∙ laws.hget_hset s (blob_inode u) blob (perm ++ drop 1 original) b
              (unfold blob_inode in refl)),
    rw (permit_publics db laws l u s blob perm original e)
        (elim (Bool-cases (bytes_eq perm (codes "*"))) [
          | inl y ↦ rw y (
              lt→ltb 0 _
                (count-cut_last (l.pack u blob) (without (l.pack u blob) (publics db laws l u s))))
          | inr k ↦ rw (
            k,
            count-without (l.pack u blob) (l.pack u blob) (publics db laws l u s),
            bytes_eq_refl (l.pack u blob),
          )
        ]),
  )

  -- A permission does not touch what is in the albums.
  pub permit_album :
      (s : S) (blob perm c b : Bytes)
      → db.hget (after (set_permission_script db l u s blob perm)) (collection u c) b
        ≡ db.hget s (collection u c) b
  unfolding collection public_blobs blob_inode
  permit_album s blob perm c b = elim (Option-cases (db.hget s (blob_inode u) blob)) [
    | inl n ↦ rw (permit_fails s blob perm n)
    | inr (original, e) ↦
        rw (permit_hget db laws l u s blob perm original e (collection u c) b refl)
          (simp laws.hget_frame)
  ]
