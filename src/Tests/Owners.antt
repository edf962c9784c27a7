-- ===== src/Tests/Owners.antt =====
-- What users have in redis.
use hearty_rabbit.Prelude.{
  Avoids, ◌/◌, ◌%◌, ◌≡◌, refl, true, false, List, [], ◌∷◌, none, some, if◌then◌else◌, Bytes,
  IsBytes, codes, is_some, has, bytes_eq, ltb, drop, ◌++◌, arith,
}
use hearty_rabbit.Redis.Reply.{ℤ}
use hearty_rabbit.RedisKeys.{
  blob_refs, blob_owners, collection, collection_list, blob_inode, public_blobs,
}
use hearty_rabbit.Permission.{public, private}
use hearty_rabbit.BlobInode.{BlobInode}
use hearty_rabbit.BlobInode.Record.{create_object}
use hearty_rabbit.Ownership.Scripts.{
  after, has_raised, replied, store_entry, tohex, link_script, move_script, unlink_script,
  set_permission_script, set_cover_script,
}
use hearty_rabbit.Ownership.Invariant.{IsConsistent}
use hearty_rabbit.Ownership.Relist.{Kept, AllButList, IsConsistent-AllButList}
use hearty_rabbit.Ownership.Others.{Same}
use hearty_rabbit.Ownership.Others.Calls.{run-Same}
use hearty_rabbit.Ownership.Commands.{Call, run}
use hearty_rabbit.Ownership.Albums.{view, spec_all, run_all, run_all-spec_all}
use hearty_rabbit.Ownership.Reach.{WritesHex, Reach, here, next, link, Reach-IsConsistent}
use hearty_rabbit.Ownership.Public.{IsShortList, count}
use hearty_rabbit.Ownership.Bounds.{run_all-IsShortList}
use hearty_rabbit.Ownership.Link.Invariant.{link-IsConsistent}
use hearty_rabbit.Ownership.Unlink.Invariant.{unlink-IsConsistent}
use hearty_rabbit.Ownership.Cover.{set_cover-IsConsistent}
use hearty_rabbit.Ownership.Move.{move-AllButList, move_missing}
use hearty_rabbit.Ownership.Public.Permitted.{set_permission_marks}
use hearty_rabbit.Tests.HexModel
use hearty_rabbit.Tests.HexModel.{model}
use hearty_rabbit.Tests.DbModel.{
  Tables, tables, no_tables, call, find_cell, fields_of, values_of, exists_kind,
}
use hearty_rabbit.Tests.DbLaws.{tables-DbLaws}
use hearty_rabbit.Tests.LuaModel.{covers, covers-LuaLaws}
use hearty_rabbit.Tests.JsonModel.{objects, write}

abbrev pub nestal : Bytes
nestal = codes "nestal"

abbrev pub trip : Bytes
trip = codes "trip"

abbrev pub home : Bytes
home = codes "home"

abbrev pub cat : Bytes
cat = codes "0123456789abcdefghij"

abbrev dog : Bytes
dog = codes "9876543210abcdefghij"

abbrev pub photo : BlobInode
photo = record {
  perm = private;
  filename = codes "cat.jpg";
  mime = codes "image/jpeg";
  timestamp = ℤ.pos 7;
}

nestal-Avoids : Avoids (codes ":") nestal
nestal-Avoids = ground arith

cat-IsBytes : IsBytes cat
cat-IsBytes = omega arith

dog-IsBytes : IsBytes dog
dog-IsBytes = omega arith

-- The digits of a byte.
model-WritesHex : WritesHex model
unfolding HexModel.hex_lower tohex
model-WritesHex [] h = refl
model-WritesHex (c ∷ s) (hc, hs) =
    let high : c / 16 % 16 ≡ c / 16 = omega arith in rw (high, model-WritesHex s hs)

empty-IsConsistent : IsConsistent tables covers nestal no_tables
unfolding find_cell fields_of exists_kind blob_refs blob_owners collection collection_list
    blob_inode
empty-IsConsistent = record {
  linked = λ b c. refl;
  owned = λ b. refl;
  stored = λ b. refl;
  listed = λ c. refl;
  covered = λ c text h. cc;
}

abbrev act : Tables → Call → Tables
act s c = after (run tables covers objects model nestal s c)

-- A cat and a dog in an album, and then only the dog.
abbrev both : Tables
both = act (act no_tables (Call.link_blob trip cat photo)) (Call.link_blob trip dog photo)

abbrev dog_left : Tables
dog_left = act both (Call.unlink_blob trip cat)

both-Reach : Reach tables covers objects model nestal no_tables both
both-Reach = next (next here (link trip cat photo cat-IsBytes)) (link trip dog photo dog-IsBytes)

abbrev days : List Call
days =
    Call.link_blob trip cat photo
    ∷ Call.link_blob trip dog photo
    ∷ Call.move_blob trip home cat
    ∷ Call.set_permission cat public
    ∷ Call.unlink_blob trip dog
    ∷ []

run_all-spec_all_example :
    view tables tables-DbLaws covers objects model nestal
      (run_all tables tables-DbLaws covers objects model nestal no_tables days)
    ≡ spec_all tables tables-DbLaws covers objects model nestal
        (view tables tables-DbLaws covers objects model nestal no_tables)
        days
run_all-spec_all_example =
    run_all-spec_all tables tables-DbLaws covers objects model nestal days no_tables

empty-IsShortList : IsShortList (values_of no_tables.lists public_blobs)
unfolding values_of
empty-IsShortList = record { bounded = omega arith; once = λ m. omega arith }

run_all-IsShortList_example : IsShortList (
    tables.lrange
      (run_all tables tables-DbLaws covers objects model nestal no_tables days)
      public_blobs)
run_all-IsShortList_example =
    run_all-IsShortList tables tables-DbLaws covers objects model nestal days no_tables
      empty-IsShortList

-- The album of both is consistent, too.
both-IsConsistent : IsConsistent tables covers nestal both
both-IsConsistent =
    Reach-IsConsistent tables covers objects model nestal tables-DbLaws covers-LuaLaws
      model-WritesHex nestal-Avoids both-Reach empty-IsConsistent

-- Albums without the steps of a call: the same, from its parts.
abbrev pub text : Bytes
text = b' ' ∷ write (create_object objects (codes "cat.jpg") (codes "image/jpeg") (ℤ.pos 7))

abbrev pub linked : Tables
linked = link_script tables covers nestal no_tables trip cat (tohex cat) text (codes "cat.jpg")

pub linked-IsConsistent : IsConsistent tables covers nestal linked
linked-IsConsistent =
    link-IsConsistent tables covers nestal tables-DbLaws covers-LuaLaws no_tables trip cat text
      (codes "cat.jpg") refl empty-IsConsistent

unlink-IsConsistent_example :
    Kept tables covers nestal (unlink_script tables covers nestal linked trip cat)
unlink-IsConsistent_example =
    unlink-IsConsistent tables tables-DbLaws covers nestal linked trip cat linked-IsConsistent
      covers-LuaLaws

set_cover-IsConsistent_example :
    Kept tables covers nestal (set_cover_script tables covers nestal linked trip (tohex cat) cat)
    × (replied (set_cover_script tables covers nestal linked trip (tohex cat) cat)
        ≡ is_some (tables.hget linked (collection nestal trip) cat))
set_cover-IsConsistent_example =
    set_cover-IsConsistent tables tables-DbLaws covers nestal linked trip cat linked-IsConsistent
      covers-LuaLaws

cat_named : tables.hget linked (collection nestal trip) cat ≡ some (codes "cat.jpg")
unfolding link_script store_entry find_cell call collection_list blob_inode collection
cat_named = refl

pub cat_stored : tables.hget linked (blob_inode nestal) cat ≡ some text
unfolding link_script store_entry find_cell call collection_list blob_inode collection
cat_stored = refl

move-AllButList_example :
    (has_raised (move_script tables covers nestal linked trip home cat (tohex cat)) ≡ false)
    × (tables.hget
          (after (move_script tables covers nestal linked trip home cat (tohex cat)))
          (collection nestal home)
          cat
        ≡ some (codes "cat.jpg"))
    × (tables.hget
          (after (move_script tables covers nestal linked trip home cat (tohex cat)))
          (collection nestal trip)
          cat
        ≡ none)
    × AllButList tables tables-DbLaws covers nestal
        (after (move_script tables covers nestal linked trip home cat (tohex cat)))
move-AllButList_example =
    move-AllButList tables tables-DbLaws covers nestal linked trip home cat (tohex cat)
      (codes "cat.jpg") cat_named refl
      (IsConsistent-AllButList tables tables-DbLaws covers nestal linked linked-IsConsistent)

dog_missing : tables.hget linked (collection nestal trip) dog ≡ none
unfolding link_script store_entry find_cell call collection_list blob_inode collection
dog_missing = refl

move_missing_example :
    (has_raised (move_script tables covers nestal linked trip home dog (tohex dog)) ≡ true)
    × (has home (
          tables.smembers
            (after (move_script tables covers nestal linked trip home dog (tohex dog)))
            (blob_refs nestal dog))
        ≡ true)
    × (tables.hget
          (after (move_script tables covers nestal linked trip home dog (tohex dog)))
          (collection nestal home)
          dog
        ≡ tables.hget linked (collection nestal home) dog)
move_missing_example =
    move_missing tables tables-DbLaws covers nestal linked trip home dog (tohex dog) dog_missing
      refl

abbrev pub opened : Tables
opened = after (set_permission_script tables covers nestal linked cat (codes "*"))

set_permission_marks_example :
    (has_raised (set_permission_script tables covers nestal linked cat (codes "*")) ≡ false)
    × ((b : Bytes)
        → tables.hget opened (blob_inode nestal) b ≡ (
            if bytes_eq cat b
            then some (codes "*" ++ drop 1 text)
            else tables.hget linked (blob_inode nestal) b))
    × (ltb 0 (count (covers.pack nestal cat) (tables.lrange opened public_blobs))
        ≡ bytes_eq (codes "*") (codes "*"))
set_permission_marks_example =
    set_permission_marks tables tables-DbLaws covers nestal linked cat (codes "*") text cat_stored

abbrev eve : Bytes
eve = codes "eve"

eve-Avoids : Avoids (codes ":") eve
eve-Avoids = ground arith

run-Same_example :
    Same tables nestal linked
      (after (run tables covers objects model eve linked (Call.unlink_blob trip cat)))
run-Same_example =
    run-Same tables tables-DbLaws covers objects model nestal eve nestal-Avoids eve-Avoids refl
      linked (Call.unlink_blob trip cat)
