-- ===== src/Ownership/Pages.antt =====
-- src/server/hrb/Ownership.ipp, `scan_all_collections`: the list that the pages of a scan make.
use hearty_rabbit.Prelude.{
  ◌≡◌, ◌∙◌, ap, true, false, List, [], ◌∷◌, ◌++◌, append_assoc, append-nil, Option, none, some,
  if◌then◌else◌, Bytes, is_empty, ◌>>=◌, Bool-cases, Option-cases, inl, inr, map,
}
use hearty_rabbit.Redis.Reply.{
  Reply, string, array, Replies, end, ◌⨾◌, Error, is_error, ℤ, as_string, items, pairs, elements,
  as_array_checked,
}
use hearty_rabbit.Redis.Number.{to_int}
use hearty_rabbit.BlobInode.{Json}
use hearty_rabbit.Ownership.Scan.{
  asked, finished, is_zero, scan_next, on_row, on_rows, on_page, on_scan, scan_collections, Album,
  Listing, no_listing, add_album, on_cursor, scan_all_collections,
}

-- What redis replies to HSCAN: a cursor and fields of the hash with their values.
pub record Page : Type 0 where
  pub cursor : Bytes
  pub fields : List (Bytes × Bytes)

abbrev pub field_replies : List (Bytes × Bytes) → Replies
field_replies [] = end
field_replies ((key, value) ∷ fields) = string key ⨾ string value ⨾ field_replies fields

abbrev pub answer : Page → Reply × Error
answer page = (array (string page.cursor ⨾ array (field_replies page.fields) ⨾ end), Error.ok)

-- There are more pages, or the page is the last one.
abbrev pub IsMore : Page → Type 0
IsMore page = (n : ℤ) × (to_int (string page.cursor) ≡ some n) × (is_zero n ≡ false)

abbrev pub AllMore : List Page → Type 0
AllMore [] = Unit
AllMore (page ∷ pages) = IsMore page × AllMore pages

module _ {ι} {V : Type ι} (j : Json V) (user : Bytes) where
  -- The albums that the fields stand for; `none` if a value is no JSON.
  abbrev pub albums_of : List (Bytes × Bytes) → Option (List (Album V))
  albums_of [] = some []
  albums_of ((key, value) ∷ fields) =
      let rest = albums_of fields in
      if is_empty value then rest else (do
        meta ← j.parse value
        albums ← rest
        some (record { name = key; owner = user; meta = meta } ∷ albums))

  abbrev pub all_albums : List Page → Option (List (Album V))
  all_albums [] = some []
  all_albums (page ∷ pages) = do
    first ← albums_of page.fields
    others ← all_albums pages
    some (first ++ others)

  abbrev with_albums : Listing V → List (Album V) → Listing V
  with_albums l new = record l { albums = l.albums ++ new }

  rows_listed :
      (fields : List (Bytes × Bytes)) (l : Listing V) (new : List (Album V))
      → albums_of fields ≡ some new
      → on_rows j (add_album user) on_cursor l (pairs (elements (field_replies fields)))
        ≡ some (with_albums l new)
  unfolding on_rows on_row pairs as_string
  rows_listed [] l new e = let same : new ≡ [] = cc in rw (same, append-nil l.albums)
  rows_listed ((key, value) ∷ fields) l new e = elim (Bool-cases (is_empty value)) [
    | inl y ↦ rw y (rows_listed fields l new (rw y at e))
    | inr n ↦ elim (Option-cases (j.parse value)) [
      | inl k ↦ let bad : none ≡ some new = rw (n, k) at e in cc
      | inr (v, k) ↦ elim (Option-cases (albums_of fields)) [
        | inl f ↦ let bad : none ≡ some new = rw (n, k, f) at e in cc
        | inr (others, f) ↦
            let read : some (record { name = key; owner = user; meta = v } ∷ others) ≡ some new =
              rw (n, k, f) at e in
            let same : new ≡ record { name = key; owner = user; meta = v } ∷ others = cc in
            rw (n, k, same)
              (rows_listed fields (add_album user l key v) others f
                ∙ (unfold add_album in
                    rw (
                      append_assoc l.albums (record { name = key; owner = user; meta = v } ∷ [])
                        others)))
      ]
    ]
  ]

  page_listed :
      (page : Page) (l : Listing V) (n : ℤ) (new : List (Album V))
      → to_int (string page.cursor) ≡ some n
      → albums_of page.fields ≡ some new
      → on_scan j (add_album user) on_cursor l ((answer page).0) Error.ok
        ≡ scan_next n (on_cursor (with_albums l new) n Error.ok)
  unfolding on_scan on_page as_array_checked items
  page_listed page l n new h e = rw (h, on_page, rows_listed page.fields l new e)

  -- A reply is taken off the replies to come.
  scan_asked :
      (l d : Listing V) (reply : Reply) (ec : Error) (cursor n : ℤ) (rest : List (Reply × Error))
      → on_scan j (add_album user) on_cursor l reply ec ≡ asked n d
      → scan_collections j (add_album user) on_cursor cursor l ((reply, ec) ∷ rest)
        ≡ scan_collections j (add_album user) on_cursor n d rest
  unfolding scan_collections
  scan_asked l d reply ec cursor n rest e = rw (scan_collections, e)

  scan_finished :
      (l d : Listing V) (reply : Reply) (ec : Error) (cursor : ℤ) (rest : List (Reply × Error))
      → on_scan j (add_album user) on_cursor l reply ec ≡ finished d
      → scan_collections j (add_album user) on_cursor cursor l ((reply, ec) ∷ rest) ≡ finished d
  unfolding scan_collections
  scan_finished l d reply ec cursor rest e = rw (scan_collections, e)

  next_more :
      (n : ℤ) (l : Listing V) → is_zero n ≡ false → scan_next n (on_cursor l n Error.ok) ≡ asked n l
  unfolding scan_next on_cursor
  next_more n l z = rw z

  next_last :
      (n : ℤ) (l : Listing V)
      → is_zero n ≡ true
      → scan_next n (on_cursor l n Error.ok)
        ≡ finished (record { albums = []; completed = l.completed ++ (l.albums, Error.ok) ∷ [] })
  unfolding scan_next on_cursor
  next_last n l z = rw z

  pages_listed :
      (pages : List Page) (cursor : ℤ) (l : Listing V) (new : List (Album V))
      (rest : List (Reply × Error))
      → AllMore pages
      → all_albums pages ≡ some new
      → (n : ℤ) × (scan_collections j (add_album user) on_cursor cursor l (map answer pages ++ rest)
          ≡ scan_collections j (add_album user) on_cursor n (with_albums l new) rest)
  pages_listed [] cursor l new rest more e =
      let same : new ≡ [] = cc in (cursor, rw (same, append-nil l.albums))
  pages_listed (page ∷ pages) cursor l new rest ((n, h, z), more) e =
      elim (Option-cases (albums_of page.fields)) [
        | inl k ↦ let bad : none ≡ some new = rw k at e in cc
        | inr (first, k) ↦ elim (Option-cases (all_albums pages)) [
          | inl f ↦ let bad : none ≡ some new = rw (k, f) at e in cc
          | inr (others, f) ↦
              let read : some (first ++ others) ≡ some new = rw (k, f) at e in
              let same : new ≡ first ++ others = cc in
              let (m, later) = pages_listed pages n (with_albums l first) others rest more f in
              let here = page_listed page l n first h k ∙ next_more n (with_albums l first) z in
              let joined : with_albums (with_albums l first) others ≡ with_albums l new =
                rw (same, append_assoc l.albums first others) in
              (
                m,
                scan_asked l (with_albums l first) ((answer page).0) Error.ok cursor n
                      (map answer pages ++ rest) here
                    ∙ later
                    ∙ ap (λ d. scan_collections j (add_album user) on_cursor m d rest) joined,
              )
        ]
      ]

  -- If redis answers HSCAN with pages and then with a last one, `scan_all_collections` calls its caller
  -- with the albums of all of them, in order: one for each field whose value is not empty, with the
  -- JSON of the value. Every value must be empty or JSON.
  pub scan_all_lists :
      (pages : List Page) (last : Page) (n : ℤ) (albums others : List (Album V))
      → AllMore pages
      → to_int (string last.cursor) ≡ some n
      → is_zero n ≡ true
      → all_albums pages ≡ some albums
      → albums_of last.fields ≡ some others
      → scan_all_collections j user (map answer pages ++ answer last ∷ [])
        ≡ finished (record { albums = []; completed = (albums ++ others, Error.ok) ∷ [] })
  unfolding scan_all_collections
  scan_all_lists pages last n albums others more h z e f =
      let l = with_albums no_listing albums in
      let (m, later) = pages_listed pages (ℤ.pos 0) no_listing albums (answer last ∷ []) more e in
      let here = page_listed last l n others h f ∙ next_last n (with_albums l others) z in
      later ∙ scan_finished l _ ((answer last).0) Error.ok m [] here

  -- If redis fails after some pages, `scan_all_collections` calls its caller with the error and the
  -- albums of these pages.
  pub scan_all_fails :
      (pages : List Page) (reply : Reply) (ec : Error) (albums : List (Album V))
      → AllMore pages
      → is_error ec ≡ true
      → all_albums pages ≡ some albums
      → scan_all_collections j user (map answer pages ++ (reply, ec) ∷ [])
        ≡ finished (record { albums = []; completed = (albums, ec) ∷ [] })
  unfolding scan_all_collections on_scan on_cursor
  scan_all_fails pages reply ec albums more bad e =
      let l = with_albums no_listing albums in
      let (m, later) = pages_listed pages (ℤ.pos 0) no_listing albums ((reply, ec) ∷ []) more e in
      later ∙ scan_finished l _ reply ec m [] (rw bad)
