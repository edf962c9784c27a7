-- ===== src/Tests/RedisModel.antt =====
-- A store that meets what the server relies on of redis: a list of entries, the newest first.
use hearty_rabbit.Prelude.{
  ℕ, ◌≡◌, ◌≢◌, ◌&&◌, refl, false, List, [], ◌∷◌, Option, none, some, if◌then◌else◌, Bytes, bytes_eq,
  bytes_eq_refl, bytes_eq_sound, Bool-cases, inl, inr,
}
use hearty_rabbit.Redis.Reply.{ℤ}
use hearty_rabbit.Auth.Store.{Redis, RedisLaws, Hashes, HashLaws}

pub record Entry : Type 0 where
  pub key : Bytes
  pub value : Bytes
  pub seconds : ℕ

abbrev pub Entries : Type 0
Entries = List Entry

unfoldable pub find_value : Entries → Bytes → Option Bytes
find_value [] k = none
find_value (e ∷ es) k =
    let rest = find_value es k in if bytes_eq e.key k then some e.value else rest

unfoldable pub find_seconds : Entries → Bytes → ℤ
find_seconds [] k = ℤ.negsuc 1
find_seconds (e ∷ es) k =
    let rest = find_seconds es k in if bytes_eq e.key k then ℤ.pos e.seconds else rest

unfoldable pub without : Entries → Bytes → Entries
without [] k = []
without (e ∷ es) k = let rest = without es k in if bytes_eq e.key k then rest else e ∷ rest

abbrev pub entries : Redis Entries
entries = record {
  get = find_value;
  ttl = find_seconds;
  set = λ s k v t. record { key = k; value = v; seconds = t } ∷ s;
  del = without;
}

differ : (k j : Bytes) → k ≢ j → bytes_eq k j ≡ false
differ k j h = elim (Bool-cases (bytes_eq k j)) [
  | inl y ↦ absurd (h (bytes_eq_sound k j y))
  | inr n ↦ n
]

find_value-without : (s : Entries) (k : Bytes) → find_value (without s k) k ≡ none
unfolding find_value without
find_value-without [] k = refl
find_value-without (e ∷ es) k = elim (Bool-cases (bytes_eq e.key k)) [
  | inl y ↦ rw y (find_value-without es k)
  | inr n ↦ rw (n, n) (find_value-without es k)
]

pub entries-RedisLaws : RedisLaws entries
unfolding find_value find_seconds
entries-RedisLaws = record {
  get_set = λ s k v t h. rw (bytes_eq_refl k);
  ttl_set = λ s k v t h. rw (bytes_eq_refl k);
  get_set_other = λ s k j v t h d. rw (differ k j d);
  ttl_set_other = λ s k j v t h d. rw (differ k j d);
  get_del = find_value-without;
}

-- The same with hashes beside them.
pub record Cell : Type 0 where
  pub key : Bytes
  pub field : Bytes
  pub value : Bytes

abbrev pub Both : Type 0
Both = Entries × List Cell

abbrev pub values : Redis Both
values = record {
  get = λ s. find_value s.0;
  ttl = λ s. find_seconds s.0;
  set = λ s k v t. (record { key = k; value = v; seconds = t } ∷ s.0, s.1);
  del = λ s k. (without s.0 k, s.1);
}

unfoldable pub find_cell : List Cell → Bytes → Bytes → Option Bytes
find_cell [] k f = none
find_cell (c ∷ cs) k f =
    let rest = find_cell cs k f in
    if bytes_eq c.key k && bytes_eq c.field f then some c.value else rest

abbrev pub cells : Hashes Both
cells = record {
  hset = λ s k f v. (s.0, record { key = k; field = f; value = v } ∷ s.1);
  hget = λ s. find_cell s.1;
}

pub cells-HashLaws : HashLaws cells
unfolding find_cell
cells-HashLaws = record {
  hget_hset = λ s k f v. rw (bytes_eq_refl k, bytes_eq_refl f);
  hget_hset_other = λ s k f g v d. rw (bytes_eq_refl k, differ f g d);
}
