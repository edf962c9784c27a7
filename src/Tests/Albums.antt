-- ===== src/Tests/Albums.antt =====
-- Albums, the keys of redis, renditions and aggregated callbacks.
use hearty_rabbit.Prelude.{ℕ, ◌≡◌, refl, [], ◌∷◌, codes}
use hearty_rabbit.Escape.UrlLaws.{avoids-Avoids}
use hearty_rabbit.RedisKeys.{album, encode_inj}
use hearty_rabbit.Collection
use hearty_rabbit.Collection.{Entry, Collection, add_blob, remove_blob, compare}
use hearty_rabbit.Collection.Laws.{lacked_by, compare_sound}

encode_inj_example : album (codes "nestal") (codes "a:b") ≡ album (codes "nestal") (codes "a:b")
encode_inj_example =
    encode_inj (album (codes "nestal") (codes "a:b")) (album (codes "nestal") (codes "a:b"))
      (avoids-Avoids (codes ":") (codes "nestal") refl)
      (avoids-Avoids (codes ":") (codes "nestal") refl) refl

abbrev holidays : Collection ℕ
holidays = record {
  name = codes "holidays";
  owner = codes "nestal";
  blobs = record { id = codes "one"; inode = 1 } ∷ record { id = codes "two"; inode = 2 } ∷ [];
}

abbrev on_disk : Collection ℕ
on_disk = record holidays {
  blobs = record { id = codes "two"; inode = 2 } ∷ record { id = codes "new"; inode = 3 } ∷ [];
}

compare_sound_example :
    (Collection.find (compare on_disk holidays).download (codes "one")
      ≡ lacked_by (Collection.find on_disk (codes "one")) (Collection.find holidays (codes "one")))
    × (Collection.find (compare on_disk holidays).upload (codes "one")
        ≡ lacked_by
            (Collection.find holidays (codes "one"))
            (Collection.find on_disk (codes "one")))
compare_sound_example = compare_sound on_disk holidays (codes "one")
