-- ===== src/Redis/Connection.antt =====
-- src/server/net/Redis.hh and Redis.cc, class Connection: commands are sent with a callback each,
-- and redis answers them in order. A callback has a name of type `C`, and `react` says with what
-- callbacks it sends commands of its own, on the same connection, when it is called.
use hearty_rabbit.Prelude.{
  ℕ, zero, suc, Bool, true, false, ◌||◌, List, [], ◌∷◌, ◌++◌, ◌==◌, if◌then◌else◌, codes, length,
  drop, is_empty, bytes_eq,
}
pub use hearty_rabbit.Redis.Reply.{Error, is_error}
use hearty_rabbit.Redis.Reply.{Reply, null, as_status, is_nil, array_size, items}

-- The results of `ReplyReader::get` that yield no reply.
pub data Result : Type 0 where
  not_ready failed : Result

unfoldable pub is_queued : Reply → Bool
unfolding as_status
is_queued r = bytes_eq (as_status r) (codes "QUEUED")

-- The transaction failed, or was discarded.
unfoldable pub is_aborted : Reply → Bool
unfolding as_status is_nil
is_aborted r = is_nil r || bytes_eq (as_status r) (codes "OK")

abbrev pub or_io : Error → Error
or_io e = if is_error e then e else Error.io

-- More replies than commands are an error.
abbrev pub overrun : List Reply → Result → Result
overrun [] result = result
overrun (r ∷ rs) result = Result.failed

module _ {ℓ} (C : Type ℓ) where
  pub record Call : Type ℓ where
    pub callback : C
    pub reply : Reply
    pub ec : Error

  -- `reading` says that a read is outstanding. The last two fields are the history: the callbacks
  -- called, and the callbacks ever given to `do_write`.
  pub record Connection : Type ℓ where
    pub callbacks : List C
    pub queued : List C
    pub open_ : Bool
    pub reading : Bool
    pub calls : List Call
    pub issued : List C

module _ {ℓ} {C : Type ℓ} where
  abbrev pub fresh : Connection C
  fresh = record {
    callbacks = [];
    queued = [];
    open_ = true;
    reading = false;
    calls = [];
    issued = [];
  }

  unfoldable pub do_write : C → Connection C → Connection C
  do_write x c = record c {
    callbacks = c.callbacks ++ x ∷ [];
    issued = c.issued ++ x ∷ [];
    reading = length (c.callbacks ++ x ∷ []) == 1 || c.reading;
  }

  unfoldable pub do_writes : List C → Connection C → Connection C
  do_writes [] c = c
  do_writes (x ∷ xs) c = do_writes xs (do_write x c)

  unfoldable pub pop_front : Connection C → Connection C
  pop_front c = record c { callbacks = drop 1 c.callbacks }

  unfoldable pub log_call : C → Reply → Error → Connection C → Connection C
  log_call x r e c = record c { calls = c.calls ++ record { callback = x; reply = r; ec = e } ∷ [] }

  unfoldable pub log_calls : List C → Reply → Error → Connection C → Connection C
  log_calls [] r e c = c
  log_calls (x ∷ xs) r e c = log_calls xs r e (log_call x r e c)

module _ {ℓ} {C : Type ℓ} (react : C → Reply → Error → List C) where
  -- A callback runs.
  unfoldable pub invoke : C → Reply → Error → Connection C → Connection C
  invoke x r e c = do_writes (react x r e) (log_call x r e c)

  -- All callbacks get the same reply.
  unfoldable pub invoke_all : List C → Reply → Error → Connection C → Connection C
  invoke_all [] r e c = c
  invoke_all (x ∷ xs) r e c = invoke_all xs r e (invoke x r e c)

  -- Each callback gets its own reply.
  unfoldable pub invoke_each : List C → List Reply → Error → Connection C → Connection C
  invoke_each (x ∷ xs) (r ∷ rs) e c = invoke_each xs rs e (invoke x r e c)
  invoke_each xs rs e c = c

  -- `x` is the callback of EXEC.
  unfoldable pub on_exec_transaction : C → Reply → Error → Connection C → Connection C
  on_exec_transaction x r e c =
      let run =
        (if is_aborted r
          then invoke_all c.queued r Error.transaction_aborted c
          else if array_size r == length c.queued
          then invoke_each c.queued (items r) e c
          else c) in
      record (invoke x r e run) { queued = [] }

  -- One reply, for the front of the callbacks.
  unfoldable pub on_reply : C → Reply → Connection C → Connection C
  on_reply x r c = pop_front (
      if is_queued r
      then record c { queued = c.queued ++ x ∷ [] }
      else if is_empty c.queued
      then invoke x r Error.ok c
      else on_exec_transaction x r Error.ok c)

  -- The replies that the reader has, as long as a callback waits; the rest is returned.
  unfoldable pub on_replies : List Reply → Connection C → Connection C × List Reply
  on_replies [] c = (c, [])
  on_replies (r ∷ rs) c = elim c.callbacks [
    | [] ↦ (c, r ∷ rs)
    | x ∷ xs ↦ on_replies rs (on_reply x r c)
  ]

  -- After an error of the reader, on fuel: a callback may send another command.
  unfoldable pub drain : ℕ → Connection C → Connection C
  drain zero c = c
  drain (suc fuel) c = elim c.callbacks [
    | [] ↦ c
    | x ∷ xs ↦ drain fuel (pop_front (invoke x null Error.protocol c))
  ]

  -- A callback of the deque that sends a command here grows the deque under the loop over it, which
  -- C++ leaves undefined; no such command is modelled.
  unfoldable pub disconnect : Error → Connection C → Connection C
  disconnect e c =
      let told = record (invoke_all c.queued null (or_io e) c) { queued = [] } in
      record (log_calls told.callbacks null (or_io e) told) { callbacks = []; open_ = false }

  unfoldable pub do_read : Connection C → Connection C
  do_read c = record c { reading = true }

  unfoldable pub after_replies : ℕ → Result → Connection C → Connection C
  after_replies fuel Result.failed c = disconnect Error.protocol (drain fuel c)
  after_replies fuel Result.not_ready c = if is_empty c.callbacks then c else do_read c

  -- A read ends: with an error, or with the replies that the reader then has.
  unfoldable pub on_read : Error → List Reply → Result → ℕ → Connection C → Connection C
  on_read e rs result fuel c =
      let arrived = record c { reading = false } in
      let (read, rest) = on_replies rs arrived in
      if is_error e then disconnect e arrived else after_replies fuel (overrun rest result) read

  -- A write ends.
  unfoldable pub on_write : Error → Connection C → Connection C
  on_write e c = if is_error e then disconnect Error.protocol c else c
