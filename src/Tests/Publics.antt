-- ===== src/Tests/Publics.antt =====
-- The page of public blobs.
use hearty_rabbit.Prelude.{◌≡◌, refl, [], ◌∷◌, Option, none, some, Bytes, All, List}
use hearty_rabbit.Redis.Reply.{as_array_checked, items, as_string}
use hearty_rabbit.RedisKeys.{
  blob_refs, blob_owners, collection, collection_list, blob_inode, public_blobs,
}
use hearty_rabbit.Permission.{public}
use hearty_rabbit.ObjectId.{from_raw}
use hearty_rabbit.BlobInode.{BlobInode}
use hearty_rabbit.BlobInode.Record
use hearty_rabbit.BlobInode.Record.{fields, create_object}
use hearty_rabbit.Collection.{Blob}
use hearty_rabbit.Ownership.Scripts.{
  store_entry, link_script, set_permission_script, set_permission_of, publish,
}
use hearty_rabbit.Ownership.Replies.{add_found, add_public, on_list_public_blobs}
use hearty_rabbit.Ownership.Query.{public_row, public_rows, public_script}
use hearty_rabbit.Handler.Publics.{
  is_shown, pub_blobs, list_public_blobs, IsPublic, list_public_blobs-IsPublic,
}
use hearty_rabbit.Tests.DbModel.{
  Tables, tables, call, find_cell, fields_of, values_of, cells_of, drop_cell, without_key,
}
use hearty_rabbit.Tests.LuaModel.{covers, unpack}
use hearty_rabbit.Tests.JsonModel.{objects, write, write_value, read, read_value}
use hearty_rabbit.Tests.JsonModel
use hearty_rabbit.Tests.Owners.{nestal, trip, cat, photo, opened}

abbrev first_of : List Bytes → Option Bytes
first_of [] = none
first_of (m ∷ ms) = some m

abbrev pick : Tables → Bytes → Option Bytes
pick t key = first_of (tables.smembers t key)

abbrev shown : List (Blob BlobInode)
shown =
    record { owner = nestal; collection = trip; id = cat; info = record photo { perm = public } }
    ∷ []

cat_shown :
    list_public_blobs objects [] nestal (public_script tables covers pick opened) ≡ some shown
unfolding list_public_blobs pub_blobs is_shown public_script public_rows public_row unpack
    on_list_public_blobs add_public add_found as_array_checked items as_string from_raw fields
    Record.fields_of Record.json_text Record.read_fields Record.permission create_object read write
    write_value read_value JsonModel.text JsonModel.number call find_cell fields_of values_of
    cells_of drop_cell without_key link_script store_entry set_permission_script set_permission_of
    publish blob_refs blob_owners collection collection_list blob_inode public_blobs
cat_shown = refl

list_public_blobs-IsPublic_example :
    All (IsPublic tables covers pick objects [] nestal opened) shown
list_public_blobs-IsPublic_example =
    list_public_blobs-IsPublic tables covers pick objects [] nestal opened shown cat_shown
