-- ===== src/Auth/Store.antt =====
-- What the server relies on of redis: values under keys, which last for a number of seconds.
use hearty_rabbit.Prelude.{ℕ, ◌≡◌, ◌≢◌, ◌<◌, Option, none, some, Bytes}
use hearty_rabbit.Redis.Reply.{ℤ}

-- `GET`, `TTL`, `SET … EX` and `DEL`.
pub record Redis {ℓ} (S : Type ℓ) : Type ℓ where
  pub get : S → Bytes → Option Bytes
  pub ttl : S → Bytes → ℤ
  pub set : S → Bytes → Bytes → ℕ → S
  pub del : S → Bytes → S

pub record RedisLaws {ℓ} {S : Type ℓ} (r : Redis S) : Type ℓ where
  pub get_set : (s : S) (k v : Bytes) (t : ℕ) → 0 < t → r.get (r.set s k v t) k ≡ some v
  pub ttl_set : (s : S) (k v : Bytes) (t : ℕ) → 0 < t → r.ttl (r.set s k v t) k ≡ ℤ.pos t
  pub get_set_other :
      (s : S) (k j v : Bytes) (t : ℕ) → 0 < t → k ≢ j → r.get (r.set s k v t) j ≡ r.get s j
  pub ttl_set_other :
      (s : S) (k j v : Bytes) (t : ℕ) → 0 < t → k ≢ j → r.ttl (r.set s k v t) j ≡ r.ttl s j
  pub get_del : (s : S) (k : Bytes) → r.get (r.del s k) k ≡ none

-- `HSET` and `HGET`: a value for each field under a key. `HMSET` and `HMGET` do the same for several
-- fields.
pub record Hashes {ℓ} (S : Type ℓ) : Type ℓ where
  pub hset : S → Bytes → Bytes → Bytes → S
  pub hget : S → Bytes → Bytes → Option Bytes

pub record HashLaws {ℓ} {S : Type ℓ} (r : Hashes S) : Type ℓ where
  pub hget_hset : (s : S) (k f v : Bytes) → r.hget (r.hset s k f v) k f ≡ some v
  pub hget_hset_other :
      (s : S) (k f g v : Bytes) → f ≢ g → r.hget (r.hset s k f v) k g ≡ r.hget s k g
