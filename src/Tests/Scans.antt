-- ===== src/Tests/Scans.antt =====
-- The scan of the albums of a user, and where a blob is found.
use hearty_rabbit.Prelude.{◌≡◌, refl, List, [], ◌∷◌, ◌++◌, map, some, Bytes, codes, has, is_some}
use hearty_rabbit.Redis.Reply.{string, Error, ℤ, items, pairs, as_any_string}
use hearty_rabbit.Redis.Number.{to_int, stol}
use hearty_rabbit.BlobInode.{BlobInode}
use hearty_rabbit.BlobInode.Record
use hearty_rabbit.BlobInode.Record.{fields, create_object}
use hearty_rabbit.Collection.{Blob}
use hearty_rabbit.RedisKeys.{collection}
use hearty_rabbit.Ownership.Scan.{finished, Album, scan_all_collections}
use hearty_rabbit.Ownership.Once.{IsOnce, scan_all-IsOnce}
use hearty_rabbit.Ownership.Pages.{Page, answer, IsMore, scan_all_lists}
use hearty_rabbit.Ownership.Replies.{on_query_blob}
use hearty_rabbit.Ownership.Query.{query_script, found_in, query_blob_finds}
use hearty_rabbit.Tests.DbModel.{tables}
use hearty_rabbit.Tests.LuaModel.{covers}
use hearty_rabbit.Tests.JsonModel.{
  Fields, Field, words, objects, write, write_value, read, read_value,
}
use hearty_rabbit.Tests.JsonModel
use hearty_rabbit.Tests.Owners.{
  nestal, trip, home, cat, photo, text, linked, linked-IsConsistent, cat_stored,
}

abbrev meta : Fields
meta = record { key = codes "cover"; value = words (codes "ab") } ∷ []

-- A page with an album and a field without a value, and the last one.
abbrev first : Page
first = record { cursor = codes "17"; fields = (trip, write meta) ∷ (codes "gone", []) ∷ [] }

abbrev last : Page
last = record { cursor = codes " 0"; fields = (home, write meta) ∷ [] }

abbrev album : Bytes → Album Fields
album name = record { name = name; owner = nestal; meta = meta }

cursor_read : to_int (string (codes "17")) ≡ some (ℤ.pos 17)
unfolding to_int as_any_string stol
cursor_read = refl

cursor_below : to_int (string (codes "-5")) ≡ some (ℤ.negsuc 4)
unfolding to_int as_any_string stol
cursor_below = refl

last_read : to_int (string (codes " 0")) ≡ some (ℤ.pos 0)
unfolding to_int as_any_string stol
last_read = refl

first-IsMore : IsMore first
first-IsMore = (ℤ.pos 17, cursor_read, refl)

scan_all-IsOnce_example :
    IsOnce objects nestal (scan_all_collections objects nestal (answer first ∷ answer last ∷ []))
scan_all-IsOnce_example = scan_all-IsOnce objects nestal (answer first ∷ answer last ∷ [])

scan_all_lists_example :
    scan_all_collections objects nestal (map answer (first ∷ []) ++ answer last ∷ [])
    ≡ finished (record { albums = []; completed = (album trip ∷ album home ∷ [], Error.ok) ∷ [] })
unfolding read write write_value read_value
scan_all_lists_example =
    scan_all_lists objects nestal (first ∷ []) last (ℤ.pos 0) (album trip ∷ []) (album home ∷ [])
      (first-IsMore, tt) last_read refl refl refl

cat_legible : fields objects text ≡ some (some photo)
unfolding fields Record.fields_of Record.json_text Record.read_fields Record.permission
    create_object read write write_value read_value JsonModel.text JsonModel.number
cat_legible = refl

query_blob_finds_example :
    (blobs : List (Blob BlobInode)) × (on_query_blob objects nestal cat
        (pairs (items (query_script tables linked nestal cat)))
      ≡ some blobs)
    × (blobs
        ≡ map (found_in tables covers objects nestal cat photo) (map (λ b. b.collection) blobs))
    × (has trip (map (λ b. b.collection) blobs)
        ≡ is_some (tables.hget linked (collection nestal trip) cat))
query_blob_finds_example =
    query_blob_finds tables covers objects nestal linked cat text photo trip linked-IsConsistent
      cat_stored cat_legible
