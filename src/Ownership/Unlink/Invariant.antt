-- ===== src/Ownership/Unlink/Invariant.antt =====
-- `unlink_command` of src/server/hrb/Ownership.cc keeps what a user has consistent.
use hearty_rabbit.Prelude.{
  ◌≡◌, ◌∙◌, refl, true, false, [], none, some, inl, inr, if◌then◌else◌, Bytes, is_some, bytes_eq,
  bytes_eq_refl, bytes_eq_sound, Bool-cases, arith,
}
use hearty_rabbit.RedisKeys.{blob_refs, collection, collection_list}
use hearty_rabbit.Ownership.Store.{Db, DbLaws, hset, hdel}
use hearty_rabbit.Ownership.Scripts.{Lua, LuaLaws, unlink_script, tohex, cover_of}
use hearty_rabbit.Ownership.Invariant.{IsCovered, IsConsistent}
use hearty_rabbit.Ownership.Unlink.{
  still, dropped, drop_album, drop_refs, drop_owners, drop_inode, drop_list, drop_exists_refs,
  drop_exists_refs_other, drop_exists_album_other, drop_exists_album, still_exists,
}
use hearty_rabbit.Ownership.Relist.{
  AllButList, relist-AllButList, relist_album, relist_exists, listed_text, listed-IsConsistent,
  Kept, outcome-Kept,
}
use hearty_rabbit.Ownership.Unlink.Trim.{Emptied, Recovered, Untouched, trim_cases}

module _ {ℓ κ} {S : Type ℓ} {J : Type κ} (db : Db S) (laws : DbLaws db) (l : Lua J)
    (u : Bytes) where
  module _ (s : S) (coll blob : Bytes) (inv : IsConsistent db l u s) where
    abbrev t : S
    t = dropped db laws l u s coll blob

    drop_exists :
        (e : Bytes)
        → db.exists t (blob_refs u e)
          ≡ (if bytes_eq blob e then still db laws l u s coll blob else db.exists s (blob_refs u e))
    drop_exists e = elim (Bool-cases (bytes_eq blob e)) [
      | inl y ↦ rw (y, ← bytes_eq_sound blob e y) (drop_exists_refs db laws l u s coll blob)
      | inr n ↦ rw n (drop_exists_refs_other db laws l u s coll blob e n)
    ]

    had :
        (e : Bytes)
        → still db laws l u s coll blob ≡ true
        → bytes_eq blob e ≡ true
        → db.exists s (blob_refs u e) ≡ true
    had e y same = rw (← bytes_eq_sound blob e same) (still_exists db laws l u s coll blob y)

    drop-AllButList : AllButList db laws l u t
    drop-AllButList = record {
      linked = λ b c. ground (
        arith,
        drop_album db laws l u s coll blob c b,
        drop_refs db laws l u s coll blob b c,
        inv.linked b c,
      );
      owned = λ b. ground (
        arith,
        drop_owners db laws l u s coll blob b u,
        drop_exists b,
        inv.owned b,
        bytes_eq_refl u,
        had b,
      );
      stored = λ b.
          ground (arith, drop_inode db laws l u s coll blob b, drop_exists b, inv.stored b, had b);
    }

    list_kept :
        (c : Bytes)
        → bytes_eq coll c ≡ false
        → is_some (db.hget s (collection_list u) c) ≡ db.exists t (collection u c)
    list_kept c n = rw (drop_exists_album_other db laws l u s coll blob c n) (inv.listed c)

    -- The cover of another album stays in it.
    cover_kept :
        (c text : Bytes)
        → bytes_eq coll c ≡ false
        → db.hget s (collection_list u) c ≡ some text
        → IsCovered db l u t c text
    cover_kept c text n h =
        let (b, k, there) = inv.covered c text h in
        (b, k, rw (drop_album db laws l u s coll blob c b, n) there)

    emptied : Emptied db laws l u t coll blob → Kept db l u (unlink_script db l u s coll blob)
    unfolding unlink_script
    emptied (gone, e) =
        let w = hdel (collection_list u) coll in
        let kept = relist-AllButList db laws l u t w refl drop-AllButList in
        let list : (c : Bytes)
            → db.hget (db.call t w) (collection_list u) c
              ≡ (if bytes_eq coll c then none else db.hget s (collection_list u) c) =
          λ c.
            rw (← drop_list db laws l u s coll blob c)
              (laws.hget_hdel t (collection_list u) coll c (unfold collection_list in refl)) in
        let here : (c : Bytes) → bytes_eq coll c ≡ true → db.exists t (collection u c) ≡ false =
          λ c y. rw (← bytes_eq_sound coll c y) gone in
        outcome-Kept db laws l u _ _ e (
          refl,
          listed-IsConsistent db laws l u (db.call t w) kept
              (λ c.
                ground (arith, list c, relist_exists db laws l u t w c refl, here c, list_kept c))
              (λ c text h. elim (Bool-cases (bytes_eq coll c)) [
                | inl y ↦ absurd (let bad : none ≡ some text = rw (list c, y) at h in ground arith)
                | inr n ↦
                    let (b, k, there) = cover_kept c text n (rw (list c, n) at h) in
                    (b, k, rw (relist_album db laws l u t w c b refl) there)
              ]),
        )

    recovered :
        LuaLaws l
        → Recovered db laws l u t coll blob
        → Kept db l u (unlink_script db l u s coll blob)
    unfolding unlink_script
    recovered lua (left, (a, first, there, e)) =
        let v = l.encode (l.with_cover a (tohex first)) in
        let w = hset (collection_list u) coll v in
        let kept = relist-AllButList db laws l u t w refl drop-AllButList in
        let list : (c : Bytes)
            → db.hget (db.call t w) (collection_list u) c
              ≡ (if bytes_eq coll c then some v else db.hget s (collection_list u) c) =
          λ c.
            rw (← drop_list db laws l u s coll blob c)
              (laws.hget_hset t (collection_list u) coll v c (unfold collection_list in refl)) in
        let here : (c : Bytes) → bytes_eq coll c ≡ true → db.exists t (collection u c) ≡ true =
          λ c y. rw (← bytes_eq_sound coll c y) left in
        outcome-Kept db laws l u _ _ e (
          refl,
          listed-IsConsistent db laws l u (db.call t w) kept
              (λ c.
                ground (arith, list c, relist_exists db laws l u t w c refl, here c, list_kept c))
              (λ c text h. elim (Bool-cases (bytes_eq coll c)) [
                | inl y ↦
                    let same : text ≡ v = let e' : some v ≡ some text = rw (list c, y) at h in cc in
                    (
                      first,
                      rw same (lua.cover_of-with_cover a (tohex first)),
                      rw (relist_album db laws l u t w c first refl, ← bytes_eq_sound coll c y)
                          there,
                    )
                | inr n ↦
                    let (b, k, p) = cover_kept c text n (rw (list c, n) at h) in
                    (b, k, rw (relist_album db laws l u t w c b refl) p)
              ]),
        )

    untouched :
        (text b : Bytes)
        → db.hget s (collection_list u) coll ≡ some text
        → cover_of l text ≡ some (tohex b)
        → is_some (db.hget s (collection u coll) b) ≡ true
        → Untouched db laws l u t coll blob (tohex b)
        → Kept db l u (unlink_script db l u s coll blob)
    unfolding unlink_script
    untouched text b before k there (left, other, e) =
        let here : (c : Bytes)
            → bytes_eq coll c ≡ true
            → is_some (db.hget s (collection_list u) c) ≡ db.exists t (collection u c) =
          λ c y. rw (← bytes_eq_sound coll c y, left, before) in
        let apart : bytes_eq blob b ≡ false = elim (Bool-cases (bytes_eq blob b)) [
          | inl y ↦ absurd (
              let same : bytes_eq (tohex b) (tohex blob) ≡ true =
                rw (bytes_eq_sound blob b y) (bytes_eq_refl (tohex b)) in
              ground (arith, other, same))
          | inr n ↦ n
        ] in
        outcome-Kept db laws l u _ _ e (
          refl,
          listed-IsConsistent db laws l u t drop-AllButList
              (λ c. ground (arith, drop_list db laws l u s coll blob c, here c, list_kept c))
              (λ c text' h. elim (Bool-cases (bytes_eq coll c)) [
                | inl y ↦
                    let same : text' ≡ text =
                      let e' : some text ≡ some text' =
                        rw (drop_list db laws l u s coll blob c, ← bytes_eq_sound coll c y, before)
                          at h in
                      cc in
                    (
                      b,
                      rw same k,
                      rw
                          (
                            ← bytes_eq_sound coll c y,
                            drop_album db laws l u s coll blob coll b,
                            apart,
                            bytes_eq_refl coll,
                          )
                          there,
                    )
                | inr n ↦ cover_kept c text' n (rw (drop_list db laws l u s coll blob c) at h)
              ]),
        )

    -- Unlinking a blob from an album raises no error and keeps what a user has consistent.
    pub unlink-IsConsistent : LuaLaws l → Kept db l u (unlink_script db l u s coll blob)
    unlink-IsConsistent lua = elim (Bool-cases (db.exists t (collection u coll))) [
      | inr n ↦ elim (trim_cases db laws l u t coll blob [] [] (inl n)) [
        | inl e ↦ emptied e
        | inr (inl r) ↦ recovered lua r
        | inr (inr k) ↦ absurd (ground (arith, k.0, n))
      ]
      | inl y ↦
          let (text, e) =
            listed_text db laws l u s coll inv (drop_exists_album db laws l u s coll blob y) in
          let (b, k, there) = inv.covered coll text e in
          elim (trim_cases db laws l u t coll blob text (tohex b)
            (inr (drop_list db laws l u s coll blob coll ∙ e, k))) [
              | inl gone ↦ emptied gone
              | inr (inl r) ↦ recovered lua r
              | inr (inr v) ↦ untouched text b e k there v
            ]
    ]
