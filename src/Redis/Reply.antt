-- ===== src/Redis/Reply.antt =====
-- src/server/net/Redis.hh and Redis.cc, class Reply: what redis answers to a command.
use hearty_rabbit.Prelude.{
  ℕ, Bool, true, false, List, [], ◌∷◌, Bytes, length, get_or, get_elem?, if◌then◌else◌, none, some,
}
pub use hearty_rabbit.Prelude.Int.{ℤ}

-- `std::error_code`: none, those of redis, those of the program, and those of the system.
pub data Error : Type 0 where
  ok io eof protocol oom other command_error field_not_found : Error
  transaction_aborted login_incorrect object_not_exist unknown_error : Error
  system : ℕ → Error

-- An error code tests as true when it is an error.
abbrev pub is_error : Error → Bool
is_error Error.ok = false
is_error e = true

-- `null` is a reply without a `redisReply`, which is what a callback gets with an error.
infixr 67 ◌⨾◌
mutual
  pub data Reply : Type 0 where
    null : Reply
    string : Bytes → Reply
    array : Replies → Reply
    integer : ℤ → Reply
    nil : Reply
    status : Bytes → Reply
    error : Bytes → Reply

  pub data Replies : Type 0 where
    end : Replies
    ◌⨾◌ : Reply → Replies → Replies

-- `m_array`.
abbrev pub elements : Replies → List Reply
elements end = []
elements (r ⨾ rs) = r ∷ elements rs

unfoldable pub as_any_string : Reply → Bytes
as_any_string (string s) = s
as_any_string (status s) = s
as_any_string (error s) = s
as_any_string _ = []

unfoldable pub as_string : Reply → Bytes
as_string (string s) = s
as_string _ = []

unfoldable pub as_status : Reply → Bytes
as_status (status s) = s
as_status _ = []

unfoldable pub as_error : Reply → Bytes
as_error (error s) = s
as_error _ = []

unfoldable pub is_nil : Reply → Bool
is_nil nil = true
is_nil _ = false

-- `begin()` and `end()`.
unfoldable pub items : Reply → List Reply
items (array rs) = elements rs
items _ = []

unfoldable pub as_array : Reply → ℕ → Reply
unfolding items
as_array r i = get_or (items r) i null

-- `as_array` that reports a missing element, unless there is an error already or no reply.
unfoldable pub as_array_checked : Reply → ℕ → Error → Reply × Error
unfolding items
as_array_checked null i ec = (null, ec)
as_array_checked r i ec =
    if is_error ec
    then (null, ec)
    else elim (get_elem? (items r) i) [ none ↦ (null, Error.field_not_found) | some q ↦ (q, ec) ]

-- `kv_pairs()`: keys and values in turn.
unfoldable pub pairs : List Reply → List (Bytes × Reply)
pairs (k ∷ v ∷ rs) = (as_string k, v) ∷ pairs rs
pairs rs = []

unfoldable pub array_size : Reply → ℕ
unfolding items
array_size r = length (items r)

unfoldable pub as_int : Reply → ℤ
as_int (integer n) = n
as_int _ = ℤ.pos 0

-- `operator bool`: there is a reply, and it is no error. A nil reply is one.
unfoldable pub is_ok : Reply → Bool
is_ok null = false
is_ok (error s) = false
is_ok _ = true
