-- ===== src/Ownership/Scan.antt =====
-- src/server/hrb/Ownership.ipp, `scan_collections` and `scan_all_collections`: the albums of a user, a
-- page of them with each HSCAN. The list they make is that of src/common/hrb/CollectionList.hh.
use hearty_rabbit.Prelude.{
  Bool, true, false, not, ◌&&◌, ◌==◌, List, [], ◌∷◌, ◌++◌, Option, none, some, if◌then◌else◌, Bytes,
  is_empty, ◌>>=◌,
}
use hearty_rabbit.Redis.Reply.{Reply, Error, is_error, ℤ, as_string, items, pairs, as_array_checked}
use hearty_rabbit.Redis.Number.{to_int}
use hearty_rabbit.BlobInode.{Json}

-- What has become of a scan: redis is asked for the page at a cursor, it is over, or an exception has
-- left the callback of the command. `C` is what the two callbacks of the caller change; with an
-- exception, as it was before the page.
pub data Scan {κ} (C : Type κ) : Type κ where
  asked : ℤ → C → Scan C
  finished : C → Scan C
  threw : C → Scan C

abbrev pub is_zero : ℤ → Bool
is_zero (ℤ.pos n) = n == 0
is_zero (ℤ.negsuc n) = false

-- The next page is asked for if the caller wants it and there is one.
unfoldable pub scan_next {κ} : {C : Type κ} → ℤ → C × Bool → Scan C
scan_next cursor (c, more) = if more && not (is_zero cursor) then asked cursor c else finished c

module _ {ι κ} {V : Type ι} {C : Type κ} (j : Json V) (callback : C → Bytes → V → C)
    (complete : C → ℤ → Error → C × Bool) where
  unfoldable pub on_row : C → Bytes × Reply → Option C
  on_row c (key, value) =
      if is_empty (as_string value)
      then some c
      else (do v ← j.parse (as_string value); some (callback c key v))

  unfoldable pub on_rows : C → List (Bytes × Reply) → Option C
  unfolding on_row
  on_rows c [] = some c
  on_rows c (row ∷ rows) = do next ← on_row c row; on_rows next rows

  unfoldable pub on_page : C → Option ℤ → Reply → Scan C
  unfolding on_rows scan_next
  on_page c none dirs = threw c
  on_page c (some cursor) dirs = elim (on_rows c (pairs (items dirs))) [
    | none ↦ threw c
    | some next ↦ scan_next cursor (complete next cursor Error.ok)
  ]

  -- The callback of the command.
  unfoldable pub on_scan : C → Reply → Error → Scan C
  unfolding on_page
  on_scan c reply ec =
      if is_error ec
      then finished ((complete c (ℤ.pos 0) ec).0)
      else let (cursor, e0) = as_array_checked reply 0 ec in
        let (dirs, e1) = as_array_checked reply 1 e0 in
        if is_error e1
        then finished ((complete c (ℤ.pos 0) e1).0)
        else on_page c (to_int cursor) dirs

  -- The scan from a cursor, with what redis replies in turn.
  unfoldable pub scan_collections : ℤ → C → List (Reply × Error) → Scan C
  unfolding on_scan
  scan_collections cursor c [] = asked cursor c
  scan_collections cursor c ((reply, ec) ∷ replies) = elim (on_scan c reply ec) [
    | asked next d ↦ scan_collections next d replies
    | finished d ↦ finished d
    | threw d ↦ threw d
  ]

-- A collection of the list, without its blobs.
pub record Album {ι} (V : Type ι) : Type ι where
  pub name : Bytes
  pub owner : Bytes
  pub meta : V

-- The shared list, and what the caller's completion was called with.
pub record Listing {ι} (V : Type ι) : Type ι where
  pub albums : List (Album V)
  pub completed : List (List (Album V) × Error)

abbrev pub no_listing {ι} : {V : Type ι} → Listing V
no_listing = record { albums = []; completed = [] }

-- `CollectionList::add`.
unfoldable pub add_album {ι} : {V : Type ι} → Bytes → Listing V → Bytes → V → Listing V
add_album user l coll meta = record l {
  albums = l.albums ++ record { name = coll; owner = user; meta = meta } ∷ [];
}

-- The list is moved into the call.
unfoldable pub on_cursor {ι} : {V : Type ι} → Listing V → ℤ → Error → Listing V × Bool
on_cursor l cursor ec = (
  if is_zero cursor
      then record { albums = []; completed = l.completed ++ (l.albums, ec) ∷ [] }
      else l,
  true,
)

unfoldable pub scan_all_collections {ι} :
    {V : Type ι} → Json V → Bytes → List (Reply × Error) → Scan (Listing V)
unfolding scan_collections add_album on_cursor
scan_all_collections j user replies =
    scan_collections j (add_album user) on_cursor (ℤ.pos 0) no_listing replies
