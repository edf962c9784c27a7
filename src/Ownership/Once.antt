-- ===== src/Ownership/Once.antt =====
-- src/server/hrb/Ownership.ipp, `scan_all_collections`: what its caller is called with.
use hearty_rabbit.Prelude.{
  ◌≡◌, ◌∙◌, refl, List, [], ◌∷◌, Option, none, some, Bytes, is_empty, Bool-cases, Option-cases, inl,
  inr,
}
use hearty_rabbit.Redis.Reply.{Reply, Error, is_error, ℤ, as_string, items, pairs, as_array_checked}
use hearty_rabbit.Redis.Number.{to_int}
use hearty_rabbit.BlobInode.{Json}
use hearty_rabbit.Ownership.Scan.{
  Scan, asked, finished, threw, is_zero, scan_next, on_row, on_rows, on_page, on_scan,
  scan_collections, Album, Listing, no_listing, add_album, on_cursor, scan_all_collections,
}

module _ {ι} {V : Type ι} (j : Json V) (user : Bytes) where
  abbrev pub IsOnce : Scan (Listing V) → Type ι
  IsOnce (asked cursor l) = l.completed ≡ []
  IsOnce (finished l) = (p : List (Album V) × Error) × (l.completed ≡ p ∷ [])
  IsOnce (threw l) = l.completed ≡ []

  row_completed :
      (l next : Listing V) (row : Bytes × Reply)
      → on_row j (add_album user) on_cursor l row ≡ some next
      → next.completed ≡ l.completed
  unfolding on_row add_album
  row_completed l next (key, value) e = elim (Bool-cases (is_empty (as_string value))) [
    | inl y ↦ let same : some l ≡ some next = rw y at e in cc
    | inr n ↦ elim (Option-cases (j.parse (as_string value))) [
      | inl k ↦ let bad : none ≡ some next = rw (n, k) at e in cc
      | inr (v, k) ↦ let same : some (add_album user l key v) ≡ some next = rw (n, k) at e in cc
    ]
  ]

  rows_completed :
      (l next : Listing V) (rows : List (Bytes × Reply))
      → on_rows j (add_album user) on_cursor l rows ≡ some next
      → next.completed ≡ l.completed
  unfolding on_rows
  rows_completed l next [] e = cc
  rows_completed l next (row ∷ rows) e =
      elim (Option-cases (on_row j (add_album user) on_cursor l row)) [
        | inl n ↦ let bad : none ≡ some next = rw n at e in cc
        | inr (m, k) ↦ rows_completed m next rows (rw k at e) ∙ row_completed l m row k
      ]

  next-IsOnce :
      (cursor : ℤ) (l : Listing V)
      → l.completed ≡ []
      → IsOnce (scan_next cursor (on_cursor l cursor Error.ok))
  unfolding scan_next on_cursor
  next-IsOnce cursor l fresh = elim (Bool-cases (is_zero cursor)) [
    | inl y ↦ rw y ((l.albums, Error.ok), rw fresh)
    | inr n ↦ rw n fresh
  ]

  over-IsOnce :
      (l : Listing V) (ec : Error)
      → l.completed ≡ []
      → IsOnce (finished ((on_cursor l (ℤ.pos 0) ec).0))
  unfolding on_cursor
  over-IsOnce l ec fresh = ((l.albums, ec), rw fresh)

  page-IsOnce :
      (l : Listing V) (cursor : Option ℤ) (dirs : Reply)
      → l.completed ≡ []
      → IsOnce (on_page j (add_album user) on_cursor l cursor dirs)
  unfolding on_page
  page-IsOnce l none dirs fresh = fresh
  page-IsOnce l (some cursor) dirs fresh =
      let rows = pairs (items dirs) in
      after (on_rows j (add_album user) on_cursor l rows) (λ next. rows_completed l next rows)
    where
      after :
          (o : Option (Listing V))
          → ((next : Listing V) → o ≡ some next → next.completed ≡ l.completed)
          → IsOnce (elim o [
            | none ↦ threw l
            | some next ↦ scan_next cursor (on_cursor next cursor Error.ok)
          ])
      after none kept = fresh
      after (some next) kept = next-IsOnce cursor next (kept next refl ∙ fresh)

  on_scan-IsOnce :
      (l : Listing V) (reply : Reply) (ec : Error)
      → l.completed ≡ []
      → IsOnce (on_scan j (add_album user) on_cursor l reply ec)
  unfolding on_scan
  on_scan-IsOnce l reply ec fresh =
      let first = as_array_checked reply 0 ec in
      let second = as_array_checked reply 1 first.1 in
      elim (Bool-cases (is_error ec)) [
        | inl y ↦ rw y (over-IsOnce l ec fresh)
        | inr n ↦ elim (Bool-cases (is_error second.1)) [
          | inl y ↦ rw (n, y) (over-IsOnce l second.1 fresh)
          | inr k ↦ rw (n, k) (page-IsOnce l (to_int first.0) second.0 fresh)
        ]
      ]

  scan-IsOnce :
      (replies : List (Reply × Error)) (cursor : ℤ) (l : Listing V)
      → l.completed ≡ []
      → IsOnce (scan_collections j (add_album user) on_cursor cursor l replies)
  unfolding scan_collections
  scan-IsOnce [] cursor l fresh = fresh
  scan-IsOnce ((reply, ec) ∷ replies) cursor l fresh =
      after (on_scan j (add_album user) on_cursor l reply ec) (on_scan-IsOnce l reply ec fresh)
        (scan-IsOnce replies)
    where
      after :
          (next : Scan (Listing V))
          → IsOnce next
          → ((cursor : ℤ) (l : Listing V)
              → l.completed ≡ []
              → IsOnce (scan_collections j (add_album user) on_cursor cursor l replies))
          → IsOnce (elim next [
            | asked n d ↦ scan_collections j (add_album user) on_cursor n d replies
            | finished d ↦ finished d
            | threw d ↦ threw d
          ])
      after (asked n d) once rest = rest n d once
      after (finished d) once rest = once
      after (threw d) once rest = once

  -- Whatever redis replies, the caller of `scan_all_collections` is called once if the scan is over,
  -- and not yet if redis is asked for a page. With an exception it was not called.
  pub scan_all-IsOnce :
      (replies : List (Reply × Error)) → IsOnce (scan_all_collections j user replies)
  unfolding scan_all_collections
  scan_all-IsOnce replies = scan-IsOnce replies (ℤ.pos 0) no_listing refl
