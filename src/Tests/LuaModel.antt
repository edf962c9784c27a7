-- ===== src/Tests/LuaModel.antt =====
-- Functions that meet what Ownership relies on of the modules of a Lua script: an album's table is its
-- cover, and a packed pair is written with the length of its first text.
use hearty_rabbit.Prelude.{
  refl, [], ◌∷◌, ◌++◌, Option, none, some, Bytes, length, take, drop, take-append, drop-append,
}
use hearty_rabbit.Ownership.Scripts.{Lua, LuaLaws, cover_of}

unfoldable pub unpack : Bytes → Option (Bytes × Bytes)
unpack [] = none
unpack (n ∷ s) = some (take n s, drop n s)

abbrev pub covers : Lua Bytes
covers = record {
  encode = λ a. a;
  decode = λ s. some s;
  cover = λ a. some a;
  with_cover = λ a c. c;
  cover_only = λ c. c;
  pack = λ user blob. length user ∷ (user ++ blob);
  unpack = unpack;
}

pub covers-LuaLaws : LuaLaws covers
unfolding cover_of unpack
covers-LuaLaws = record {
  cover_of-with_cover = λ a c. refl;
  cover_of-cover_only = λ c. refl;
  unpack-pack = λ user blob. rw (take-append user blob, drop-append user blob);
}
