-- ===== src/Redis/Transaction.antt =====
-- What the callbacks of a transaction get.
use hearty_rabbit.Prelude.{
  ◌≡◌, ◌≢◌, refl, false, List, [], ◌∷◌, ◌++◌, map, append_assoc, append-nil, Bytes, length, ◌==◌,
  if◌then◌else◌, arith, Bool-cases, inl, inr,
}
use hearty_rabbit.Redis.Reply.{Reply, array_size, items, as_status, is_nil}
use hearty_rabbit.Redis.Connection.{
  Error, Call, Connection, do_write, do_writes, log_call, invoke, invoke_all, invoke_each,
  on_exec_transaction, is_aborted,
}

module _ {ℓ} {C : Type ℓ} where
  -- The i-th callback with the i-th reply.
  pub answered_each : List C → List Reply → Error → List (Call C)
  answered_each (x ∷ xs) (r ∷ rs) e =
      record { callback = x; reply = r; ec = e } ∷ answered_each xs rs e
  answered_each xs rs e = []

  pub answered_all : List C → Reply → Error → List (Call C)
  answered_all xs r e = map (λ x. record { callback = x; reply = r; ec = e }) xs

  no_elements :
      (s : Bytes) (xs : List C) → xs ≢ [] → (array_size (Reply.error s) == length xs) ≡ false
  unfolding array_size items
  no_elements s [] h = absurd (h refl)
  no_elements s (x ∷ xs) h = ground arith

  do_writes_silent : (xs : List C) (c : Connection C) → (do_writes xs c).calls ≡ c.calls
  unfolding do_writes do_write
  do_writes_silent [] c = refl
  do_writes_silent (x ∷ xs) c = do_writes_silent xs (do_write x c)

  module _ (react : C → Reply → Error → List C) where
    invoke-calls :
        (x : C) (r : Reply) (e : Error) (c : Connection C)
        → (invoke react x r e c).calls ≡ c.calls ++ record { callback = x; reply = r; ec = e } ∷ []
    unfolding invoke log_call
    invoke-calls x r e c = do_writes_silent (react x r e) _

    invoke_all-calls :
        (xs : List C) (r : Reply) (e : Error) (c : Connection C)
        → (invoke_all react xs r e c).calls ≡ c.calls ++ answered_all xs r e
    unfolding invoke_all answered_all
    invoke_all-calls [] r e c = rw append-nil
    invoke_all-calls (x ∷ xs) r e c =
        rw (invoke_all-calls xs r e (invoke react x r e c), invoke-calls x r e c, append_assoc)

    invoke_each-calls :
        (xs : List C) (rs : List Reply) (e : Error) (c : Connection C)
        → (invoke_each react xs rs e c).calls ≡ c.calls ++ answered_each xs rs e
    unfolding invoke_each answered_each
    invoke_each-calls [] rs e c = rw append-nil
    invoke_each-calls (x ∷ xs) [] e c = rw append-nil
    invoke_each-calls (x ∷ xs) (r ∷ rs) e c =
        rw (invoke_each-calls xs rs e (invoke react x r e c), invoke-calls x r e c, append_assoc)

    -- The reply of EXEC calls the callbacks of the transaction, and then its own: all with the error of
    -- an aborted transaction if redis answers nil or OK, or each with its own element if there are as
    -- many, or else none. What they send does not disturb them.
    pub exec-calls :
        (x : C) (r : Reply) (e : Error) (c : Connection C)
        → (on_exec_transaction react x r e c).calls
          ≡ c.calls
            ++ ((if is_aborted r
                  then answered_all c.queued r Error.transaction_aborted
                  else if array_size r == length c.queued
                  then answered_each c.queued (items r) e
                  else [])
                ++ record { callback = x; reply = r; ec = e } ∷ [])
    unfolding on_exec_transaction
    exec-calls x r e c = elim (Bool-cases (is_aborted r)) [
      | inl y ↦ rw (y, invoke-calls, invoke_all-calls, append_assoc)
      | inr n ↦ elim (Bool-cases (array_size r == length c.queued)) [
        | inl y ↦ rw (n, y, invoke-calls, invoke_each-calls, append_assoc)
        | inr m ↦ rw (n, m, invoke-calls)
      ]
    ]

    -- An error in a transaction, such as EXECABORT, drops the queued callbacks: only the callback of
    -- the reply itself is called, and nothing is queued any more.
    pub exec_error_drops :
        (x : C) (s : Bytes) (e : Error) (c : Connection C)
        → c.queued ≢ []
        → ((on_exec_transaction react x (Reply.error s) e c).calls
            ≡ c.calls ++ record { callback = x; reply = Reply.error s; ec = e } ∷ [])
          × ((on_exec_transaction react x (Reply.error s) e c).queued ≡ [])
    unfolding on_exec_transaction is_aborted as_status is_nil
    exec_error_drops x s e c h =
        let differ = no_elements s c.queued h in (rw (differ, invoke-calls), refl)
