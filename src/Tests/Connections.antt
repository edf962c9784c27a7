-- ===== src/Tests/Connections.antt =====
-- A redis connection.
use hearty_rabbit.Prelude.{
  ℕ, ◌≡◌, refl, true, false, List, [], ◌∷◌, ◌++◌, codes, ◌==◌, if◌then◌else◌,
}
use hearty_rabbit.Redis.Reply.{
  Error, Reply, ℤ, array, string, integer, status, end, ◌⨾◌, as_status, array_size, items, is_nil,
}
use hearty_rabbit.Redis.Connection.{
  Result, Connection, fresh, do_write, do_writes, pop_front, log_call, invoke, invoke_all,
  invoke_each, on_exec_transaction, is_aborted, is_queued, on_reply, on_replies, after_replies,
  do_read, on_read,
}
use hearty_rabbit.Redis.Order.{InOrder, all_fit}
use hearty_rabbit.Redis.Reach.{Reach, Lives, Reach-Lives, start, step, command, read}
use hearty_rabbit.Redis.Transaction.{answered_all, answered_each, exec-calls}

-- Callbacks that send no commands.
abbrev silent : ℕ → Reply → Error → List ℕ
silent x r e = []

-- The second callback sends a command.
abbrev talking : ℕ → Reply → Error → List ℕ
talking x r e = if x == 2 then 9 ∷ [] else []

-- MULTI and one command were sent, with EXEC behind them.
abbrev sent : Connection ℕ
sent = do_write 3 (do_write 2 (do_write 1 fresh))

abbrev replies : List Reply
replies = status (codes "OK") ∷ status (codes "QUEUED") ∷ array (string (codes "value") ⨾ end) ∷ []

sent_open : sent.open_ ≡ true
unfolding do_write
sent_open = refl

replies_fit : all_fit talking replies (record sent { reading = false }) ≡ true
unfolding all_fit do_write do_writes pop_front log_call invoke invoke_all invoke_each
    on_exec_transaction is_aborted is_queued on_reply as_status array_size items is_nil
replies_fit = refl

abbrev answered : Connection ℕ
answered = on_read talking Error.ok replies Result.not_ready 3 sent

answered-Reach : Reach talking answered
unfolding do_write
answered-Reach =
    step (step (step (step start (command 1 refl)) (command 2 refl)) (command 3 refl))
      (read Error.ok replies Result.not_ready 3 refl replies_fit)

Reach-Lives_example : Lives talking answered
Reach-Lives_example = Reach-Lives talking answered-Reach

-- The reply of the transaction reaches the callback of its command, whose own command then waits.
answers : answered ≡ record {
  callbacks = 9 ∷ [];
  queued = [];
  open_ = true;
  reading = true;
  calls =
      record { callback = 1; reply = status (codes "OK"); ec = Error.ok }
      ∷ record { callback = 2; reply = string (codes "value"); ec = Error.ok }
      ∷ record { callback = 3; reply = array (string (codes "value") ⨾ end); ec = Error.ok }
      ∷ [];
  issued = 1 ∷ 2 ∷ 3 ∷ 9 ∷ [];
}
unfolding do_write do_writes pop_front log_call invoke invoke_all invoke_each on_exec_transaction
    is_aborted is_queued on_reply as_status array_size items is_nil on_read on_replies after_replies
    do_read
answers = refl

sent-InOrder : InOrder sent
unfolding do_write
sent-InOrder = refl

-- A transaction of two commands, and EXEC.
abbrev queued : Connection ℕ
queued = record fresh { callbacks = 3 ∷ []; queued = 1 ∷ 2 ∷ []; issued = 1 ∷ 2 ∷ 3 ∷ [] }

abbrev executed : Reply
executed = array (string (codes "a") ⨾ integer (ℤ.pos 5) ⨾ end)

exec-calls_example :
    (on_exec_transaction talking 3 executed Error.ok queued).calls
    ≡ []
      ++ ((if is_aborted executed
            then answered_all (1 ∷ 2 ∷ []) executed Error.transaction_aborted
            else if array_size executed == 2
            then answered_each (1 ∷ 2 ∷ []) (items executed) Error.ok
            else [])
          ++ record { callback = 3; reply = executed; ec = Error.ok } ∷ [])
exec-calls_example = exec-calls talking 3 executed Error.ok queued
