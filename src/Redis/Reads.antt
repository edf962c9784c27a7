-- ===== src/Redis/Reads.antt =====
-- When a connection of src/server/net/Redis.cc has a read outstanding.
use hearty_rabbit.Prelude.{
  ℕ, ◌≡◌, ◌≢◌, refl, ◌∙◌, List, [], ◌∷◌, ◌++◌, length, length-append, arith, false, not, ◌||◌, ◌==◌,
  is_empty, Bool-cases, List-cases, inl, inr, ◌⊎◌,
}
use hearty_rabbit.Redis.Reply.{Reply, array_size, items}
use hearty_rabbit.Redis.Connection.{
  Error, Result, Connection, invoke, invoke_all, invoke_each, log_call, do_writes, on_replies,
  on_reply, on_exec_transaction, is_queued, is_aborted, pop_front, do_write, disconnect,
  after_replies, on_read, do_read, is_error,
}
use hearty_rabbit.Redis.Runs.{on_replies_end, on_replies_idle, on_replies_busy}

module _ {ℓ} {C : Type ℓ} where
  -- While a command waits, callbacks that run start no read of their own.
  record Steady (c d : Connection C) : Type ℓ where
    open_ : d.open_ ≡ c.open_
    reading : d.reading ≡ c.reading
    waits : length d.callbacks ≢ 0

  Steady-trans : {c d e : Connection C} → Steady c d → Steady d e → Steady c e
  Steady-trans p q = record {
    open_ = q.open_ ∙ p.open_;
    reading = q.reading ∙ p.reading;
    waits = q.waits;
  }

  do_writes-Steady :
      (xs : List C) (c : Connection C) → length c.callbacks ≢ 0 → Steady c (do_writes xs c)
  unfolding do_writes do_write
  do_writes-Steady [] c h = record { open_ = refl; reading = refl; waits = h }
  do_writes-Steady (x ∷ xs) c h =
      let more = length-append c.callbacks (x ∷ []) in
      Steady-trans {d = do_write x c}
        (record { open_ = refl; reading = ground (arith, more); waits = ground (arith, more) })
        (do_writes-Steady xs (do_write x c) (ground (arith, more)))

  module _ (react : C → Reply → Error → List C) where
    invoke-Steady :
        (x : C) (r : Reply) (e : Error) (c : Connection C)
        → length c.callbacks ≢ 0
        → Steady c (invoke react x r e c)
    unfolding invoke log_call
    invoke-Steady x r e c h =
        let p = do_writes-Steady (react x r e) (log_call x r e c) h in
        record { open_ = p.open_; reading = p.reading; waits = p.waits }

    invoke_all-Steady :
        (xs : List C) (r : Reply) (e : Error) (c : Connection C)
        → length c.callbacks ≢ 0
        → Steady c (invoke_all react xs r e c)
    unfolding invoke_all
    invoke_all-Steady [] r e c h = record { open_ = refl; reading = refl; waits = h }
    invoke_all-Steady (x ∷ xs) r e c h =
        let p = invoke-Steady x r e c h in
        Steady-trans p (invoke_all-Steady xs r e (invoke react x r e c) p.waits)

    invoke_each-Steady :
        (xs : List C) (rs : List Reply) (e : Error) (c : Connection C)
        → length c.callbacks ≢ 0
        → Steady c (invoke_each react xs rs e c)
    unfolding invoke_each
    invoke_each-Steady [] rs e c h = record { open_ = refl; reading = refl; waits = h }
    invoke_each-Steady (x ∷ xs) [] e c h = record { open_ = refl; reading = refl; waits = h }
    invoke_each-Steady (x ∷ xs) (r ∷ rs) e c h =
        let p = invoke-Steady x r e c h in
        Steady-trans p (invoke_each-Steady xs rs e (invoke react x r e c) p.waits)

    exec-Steady :
        (x : C) (r : Reply) (e : Error) (c : Connection C)
        → length c.callbacks ≢ 0
        → Steady c (on_exec_transaction react x r e c)
    unfolding on_exec_transaction
    exec-Steady x r e c h = elim (Bool-cases (is_aborted r)) [
      | inl y ↦ rw y (last (invoke_all-Steady c.queued r Error.transaction_aborted c h))
      | inr n ↦ elim (Bool-cases (array_size r == length c.queued)) [
        | inl y ↦ rw (n, y) (last (invoke_each-Steady c.queued (items r) e c h))
        | inr m ↦ rw (n, m) (last (record { open_ = refl; reading = refl; waits = h }))
      ]
    ]
      where
        last :
            {d : Connection C}
            → Steady c d
            → Steady c (record (invoke react x r e d) { queued = [] })
        last {d} p =
            let q = invoke-Steady x r e d p.waits in
            record { open_ = q.open_ ∙ p.open_; reading = q.reading ∙ p.reading; waits = q.waits }

    on_reply_kept :
        (x : C) (r : Reply) (c : Connection C)
        → length c.callbacks ≢ 0
        → ((on_reply react x r c).open_ ≡ c.open_) × ((on_reply react x r c).reading ≡ c.reading)
    unfolding on_reply pop_front
    on_reply_kept x r c h = elim (Bool-cases (is_queued r)) [
      | inl y ↦ rw y (refl, refl)
      | inr n ↦ elim (Bool-cases (is_empty c.queued)) [
        | inl y ↦ let p = invoke-Steady x r Error.ok c h in rw (n, y) (p.open_, p.reading)
        | inr m ↦ let p = exec-Steady x r Error.ok c h in rw (n, m) (p.open_, p.reading)
      ]
    ]

    -- The replies start no read, and close nothing.
    pub on_replies_kept :
        (rs : List Reply) (c : Connection C)
        → ((on_replies react rs c).0.open_ ≡ c.open_)
          × ((on_replies react rs c).0.reading ≡ c.reading)
    on_replies_kept [] c = rw (on_replies_end react c) (refl, refl)
    on_replies_kept (r ∷ rs) c = elim (List-cases c.callbacks) [
      | inl e ↦ rw (on_replies_idle react rs r c e) (refl, refl)
      | inr (x, xs, e) ↦
          let (o, g) = on_reply_kept x r c (rw e cc) in
          let (p, q) = on_replies_kept rs (on_reply react x r c) in
          rw (on_replies_busy react rs r c x xs e) (p ∙ o, q ∙ g)
    ]

  abbrev pub Reads : Connection C → Type 0
  Reads c = c.reading ≡ not (is_empty c.callbacks)

  first_waits :
      (xs : List C) (x : C)
      → ((length (xs ++ x ∷ []) == 1) || not (is_empty xs)) ≡ not (is_empty (xs ++ x ∷ []))
  first_waits [] x = refl
  first_waits (y ∷ ys) x = elim (Bool-cases (length ((y ∷ ys) ++ x ∷ []) == 1)) [
    | inl t ↦ rw t
    | inr f ↦ rw f
  ]

  -- A command starts a read exactly when it is the only one that waits.
  pub do_write-Reads : (x : C) (c : Connection C) → Reads c → Reads (do_write x c)
  unfolding do_write
  do_write-Reads x c h = rw h (first_waits c.callbacks x)

  module _ (react : C → Reply → Error → List C) where
    after_replies-Reads :
        (fuel : ℕ) (result : Result) (c : Connection C)
        → c.reading ≡ false
        → ((after_replies react fuel result c).open_ ≡ false)
          ⊎ Reads (after_replies react fuel result c)
    unfolding after_replies disconnect do_read
    after_replies-Reads fuel Result.failed c h = inl refl
    after_replies-Reads fuel Result.not_ready c h = elim (Bool-cases (is_empty c.callbacks)) [
      | inl y ↦ rw y (inr (rw (h, y)))
      | inr n ↦ rw n (inr (rw n))
    ]

    -- A read that ends starts the next one exactly when a command still waits, or it closes the
    -- connection.
    pub on_read-Reads :
        (e : Error) (rs : List Reply) (result : Result) (fuel : ℕ) (c : Connection C)
        → ((on_read react e rs result fuel c).open_ ≡ false)
          ⊎ Reads (on_read react e rs result fuel c)
    unfolding on_read disconnect
    on_read-Reads e rs result fuel c = elim (Bool-cases (is_error e)) [
      | inl y ↦ rw y (inl refl)
      | inr n ↦
          rw n (
            after_replies-Reads fuel _ _
              (on_replies_kept react rs (record c { reading = false })).1)
    ]
