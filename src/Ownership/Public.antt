-- ===== src/Ownership/Public.antt =====
-- `set_permission_command` of src/server/hrb/Ownership.cc, and the list of public blobs.
pub mod Permit
pub mod Permitted
use hearty_rabbit.Prelude.{
  ℕ, zero, suc, ◌+◌, ◌≤◌, ◌<◌, ◌≡◌, ◌∙◌, refl, Bool, true, false, not, ◌&&◌, List, [], ◌∷◌, ◌++◌,
  Option, none, some, ◌⊎◌, inl, inr, ltb, if◌then◌else◌, Bytes, codes, drop, length, length-append,
  is_some, has, bytes_eq, bytes_eq_refl, bytes_eq_sound, Bool-cases, Option-cases, arith,
}
use hearty_rabbit.RedisKeys.{
  blob_refs, blob_owners, collection, collection_list, public_blobs, blob_inode,
}
use hearty_rabbit.Ownership.Store.{Db, DbLaws, without, tail, hset, lrem, rpush, lpop}
use hearty_rabbit.Ownership.Scripts.{
  Lua, LuaLaws, Outcome, returned, after, has_raised, publish, set_permission_of,
  set_permission_script,
}
use hearty_rabbit.Ownership.Invariant.{IsCovered, IsConsistent}
use hearty_rabbit.Ownership.Relist.{Kept}

-- How often a text is in a list.
abbrev pub count : Bytes → List Bytes → ℕ
count m [] = 0
count m (x ∷ xs) = let rest = count m xs in if bytes_eq x m then suc rest else rest

pub count-append : (m : Bytes) (xs ys : List Bytes) → count m (xs ++ ys) ≡ count m xs + count m ys
count-append m [] ys = omega arith
count-append m (x ∷ xs) ys = ground (arith, count-append m xs ys)

pub count-without :
    (m n : Bytes) (xs : List Bytes)
    → count n (without m xs) ≡ (if bytes_eq m n then 0 else count n xs)
count-without m n [] = ground arith
count-without m n (x ∷ xs) =
    ground (arith, count-without m n xs, bytes_eq_sound x m, bytes_eq_sound m n, bytes_eq_refl m)

pub length-without : (m : Bytes) (xs : List Bytes) → length (without m xs) ≤ length xs
length-without m [] = omega arith
length-without m (x ∷ xs) = ground (arith, length-without m xs)

-- A list that grew past a hundred loses its first.
abbrev pub cut : List Bytes → List Bytes
cut xs = if ltb 100 (length xs) then tail xs else xs

pub length-tail : (xs : List Bytes) → length (tail xs) + 1 ≤ length xs + 1
length-tail [] = omega arith
length-tail (x ∷ xs) = omega arith

pub count-tail : (m : Bytes) (xs : List Bytes) → count m (tail xs) ≤ count m xs
count-tail m [] = omega arith
count-tail m (x ∷ xs) = ground arith

pub length-cut : (xs : List Bytes) → length xs ≤ 101 → length (cut xs) ≤ 100
length-cut [] h = ground arith
length-cut (x ∷ xs) h = ground arith

pub count-cut : (m : Bytes) (xs : List Bytes) → count m (cut xs) ≤ count m xs
count-cut m xs = ground (arith, count-tail m xs)

-- What was pushed last is not cut.
pub count-cut_last : (m : Bytes) (xs : List Bytes) → 1 ≤ count m (cut (xs ++ m ∷ []))
count-cut_last m [] = ground (arith, bytes_eq_refl m)
count-cut_last m (x ∷ xs) = ground (arith, count-append m xs (m ∷ []), bytes_eq_refl m)

-- Moving a text to the end of a list without it.
abbrev pub requeue : Bytes → List Bytes → List Bytes
requeue m xs = cut (without m xs ++ m ∷ [])

-- At most a hundred, and none twice.
pub record IsShortList (xs : List Bytes) : Type 0 where
  pub bounded : length xs ≤ 100
  pub once : (m : Bytes) → count m xs ≤ 1

pub requeue-IsShortList :
    (m : Bytes) (xs : List Bytes) → IsShortList xs → IsShortList (requeue m xs)
requeue-IsShortList m xs h = record {
  bounded =
      length-cut (without m xs ++ m ∷ [])
        (omega (arith, length-append (without m xs) (m ∷ []), length-without m xs, h.bounded));
  once = λ n. ground (
    arith,
    count-cut n (without m xs ++ m ∷ []),
    count-append n (without m xs) (m ∷ []),
    count-without m n xs,
    h.once n,
  );
}

pub without-IsShortList :
    (m : Bytes) (xs : List Bytes) → IsShortList xs → IsShortList (without m xs)
without-IsShortList m xs h = record {
  bounded = omega (arith, length-without m xs, h.bounded);
  once = λ n. ground (arith, count-without m n xs, h.once n);
}
