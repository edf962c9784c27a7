-- ===== src/Ownership/Commands.antt =====
-- The members of class Ownership (src/server/hrb/Ownership.cc and Ownership.ipp) that change what a
-- user has, as commands: each fills in the keys and arguments of a script and runs it.
use hearty_rabbit.Prelude.{
  ℕ, true, [], ◌∷◌, Option, none, some, if◌then◌else◌, Bytes, codes, is_empty,
}
use hearty_rabbit.Escape.Hex.{HexCodec, to_hex}
use hearty_rabbit.BlobInode.{Json, BlobInode}
use hearty_rabbit.BlobInode.Record.{create_inode}
use hearty_rabbit.Ownership.Store.{Db}
use hearty_rabbit.Ownership.Scripts.{
  Lua, Outcome, returned, raised, link_script, move_script, unlink_script, set_permission_script,
  set_cover_script, update,
}
use hearty_rabbit.Ownership.Scripts

-- The members of the class; `Ownership` has no state but the user's name.
pub data Call : Type 0 where
  link_blob : Bytes → Bytes → BlobInode → Call
  move_blob : Bytes → Bytes → Bytes → Call
  unlink_blob : Bytes → Bytes → Call
  set_permission : Bytes → ℕ → Call
  set_cover : Bytes → Bytes → Call
  rename_blob : Bytes → Bytes → Bytes → Call
  update_blob : Bytes → BlobInode → Call

-- A blob that is linked without a name gets one.
unfoldable pub default_name : Bytes → Bytes
default_name filename = if is_empty filename then codes "hello" else filename

module _ {ℓ κ ι} {S : Type ℓ} {J : Type κ} {V : Type ι} (db : Db S) (l : Lua J) (j : Json V)
    (h : HexCodec) (user : Bytes) where
  -- An inode whose text cannot be made throws before anything is sent.
  unfoldable pub link_inode : S → Bytes → Bytes → BlobInode → Option Bytes → Outcome S
  unfolding default_name
  link_inode s coll blob inode none = raised s
  link_inode s coll blob inode (some entry) =
      returned
        (link_script db l user s coll blob (to_hex h blob) entry (default_name inode.filename)) true

  unfoldable pub update_inode : S → Bytes → Option Bytes → Outcome S
  update_inode s blob none = raised s
  update_inode s blob (some entry) = returned (update db l user s blob entry) true

  unfoldable pub run : S → Call → Outcome S
  unfolding link_inode update_inode
  run s (link_blob coll blob inode) = link_inode s coll blob inode (create_inode j inode)
  run s (move_blob src dest blob) = move_script db l user s src dest blob (to_hex h blob)
  run s (unlink_blob coll blob) = unlink_script db l user s coll blob
  run s (set_permission blob perm) = set_permission_script db l user s blob (perm ∷ [])
  run s (set_cover coll blob) = set_cover_script db l user s coll (to_hex h blob) blob
  run s (rename_blob coll blob filename) =
      returned (Scripts.rename_blob db l user s coll blob filename) true
  run s (update_blob blob inode) = update_inode s blob (create_inode j inode)
