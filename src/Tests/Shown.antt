-- ===== src/Tests/Shown.antt =====
-- What users are shown of what they have in redis.
use hearty_rabbit.Prelude.{◌≡◌, refl, false, [], ◌∷◌, none, some, if◌then◌else◌, codes, is_some}
use hearty_rabbit.Redis.Reply.{Error}
use hearty_rabbit.RedisKeys.{blob_refs, blob_owners, collection, collection_list, blob_inode}
use hearty_rabbit.Permission.{allow}
use hearty_rabbit.UserId.{UserId, of_session}
use hearty_rabbit.BlobInode.{BlobInode}
use hearty_rabbit.BlobInode.Record
use hearty_rabbit.BlobInode.Record.{
  create_inode, create, create_object, fields, fields-create_inode,
}
use hearty_rabbit.Ownership.Scripts.{store_entry, link_script}
use hearty_rabbit.Redis.Reply.{array_size, as_array, items, as_string}
use hearty_rabbit.UserId
use hearty_rabbit.ObjectId.{from_raw}
use hearty_rabbit.Collection.{Collection, find, find_entry, add_blob}
use hearty_rabbit.Ownership.Replies.{
  on_get_collection, scan_script, scan_rows, from_reply, from_rows, add_row, add_allowed,
  add_fields, rename_to,
}
use hearty_rabbit.Ownership.Visible.{shown, get_collection_shows}
use hearty_rabbit.Tests.DbModel.{
  tables, call, find_cell, fields_of, values_of, cells_of, drop_cell, without_key,
}
use hearty_rabbit.Tests.DbLaws.{tables-DbLaws}
use hearty_rabbit.Tests.JsonModel.{objects, objects-JsonLaws, write, write_value, read, read_value}
use hearty_rabbit.Tests.JsonModel
use hearty_rabbit.Tests.Owners.{nestal, trip, cat, photo, text, linked}

abbrev owner : UserId
owner = record { session = codes "0123456789abcdef"; user = nestal; guest = false }

-- The album as its owner sees it.
abbrev seen : Collection BlobInode
seen = record { name = trip; owner = nestal; blobs = record { id = cat; inode = photo } ∷ [] }

cat_seen :
    on_get_collection objects nestal (scan_script tables nestal linked trip) Error.ok trip owner
    ≡ (some seen, Error.ok)
unfolding on_get_collection scan_script scan_rows from_reply from_rows add_row add_allowed
    add_fields rename_to array_size as_array fields_of link_script call collection_list collection
    as_string find_cell blob_inode from_raw allow Record.permission Record.fields read write
    create_object Record.fields_of Record.json_text Record.read_fields add_blob find_entry
    store_entry items blob_owners blob_refs cells_of drop_cell values_of without_key read_value
    write_value UserId.valid JsonModel.text JsonModel.number
cat_seen = refl

get_collection_shows_example : find seen cat ≡ (
    if is_some (tables.hget linked (collection nestal trip) cat)
    then shown tables objects nestal linked trip owner cat
    else none)
get_collection_shows_example =
    get_collection_shows tables objects nestal linked trip owner seen cat tables-DbLaws cat_seen

cat_created : create_inode objects photo ≡ some text
unfolding create_inode create
cat_created = refl

fields-create_inode_example : fields objects text ≡ some (some photo)
fields-create_inode_example = fields-create_inode objects objects-JsonLaws photo text cat_created
