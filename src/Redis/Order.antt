-- ===== src/Redis/Order.antt =====
-- The order in which a connection of src/server/net/Redis.cc calls its callbacks.
use hearty_rabbit.Prelude.{
  ◌≡◌, refl, sym, ap, ◌∙◌, List, [], ◌∷◌, ◌++◌, append_assoc, length, arith, Bool, true, ◌&&◌, ◌||◌,
  ◌==◌, List-cases, is_empty, Bool-cases, inl, inr, ==_iff,
}
use hearty_rabbit.Redis.Reply.{Reply, array_size, items}
use hearty_rabbit.Redis.Connection.{
  Error, Connection, invoke, invoke_all, invoke_each, on_exec_transaction, on_reply, on_replies,
  pop_front, is_aborted, is_queued, do_write,
}
use hearty_rabbit.Redis.Runs.{
  Ran, Ran-trans, called, invoke-Ran, on_replies_idle, on_replies_busy, on_replies_end,
  invoke_all-Ran, invoke_each-Ran,
}

module _ {ℓ} {C : Type ℓ} where
  -- All callbacks there are: called, waiting for EXEC, and waiting for a reply.
  abbrev pub history : Connection C → List C
  history c = called c.calls ++ (c.queued ++ c.callbacks)

  -- They are the callbacks given to `do_write`, in the same order.
  abbrev pub InOrder : Connection C → Type ℓ
  InOrder c = history c ≡ c.issued

  -- What redis promises of a reply: EXEC is answered for the whole transaction, or for none of it.
  abbrev pub fits : Reply → Connection C → Bool
  fits r c = is_queued r || is_empty c.queued || is_aborted r || array_size r == length c.queued

  pub do_write-InOrder : (x : C) (c : Connection C) → InOrder c → InOrder (do_write x c)
  unfolding do_write
  do_write-InOrder x c h = rw (sym h, append_assoc, append_assoc)

  pub is_empty_sound : (xs : List C) → is_empty xs ≡ true → xs ≡ []
  is_empty_sound [] h = refl
  is_empty_sound (x ∷ xs) h = cc

  regroup :
      (a b : List C) (x : C) (xs new : List C)
      → (a ++ (b ++ x ∷ [])) ++ (xs ++ new) ≡ (a ++ (b ++ x ∷ xs)) ++ new
  regroup [] [] x xs new = refl
  regroup [] (y ∷ b) x xs new = ap (λ t. y ∷ t) (regroup [] b x xs new)
  regroup (y ∷ a) b x xs new = ap (λ t. y ∷ t) (regroup a b x xs new)

  -- The front callback was called behind the queued ones, and nothing is queued any more.
  flushed :
      (x : C) (xs : List C) (c d : Connection C)
      → c.callbacks ≡ x ∷ xs
      → InOrder c
      → Ran (c.queued ++ x ∷ []) c d
      → InOrder (pop_front (record d { queued = [] }))
  unfolding pop_front
  flushed x xs c d e h p =
      rw (p.callbacks, p.issued, p.served, sym h, e) (regroup (called c.calls) c.queued x xs p.new)

  queued_up :
      (x : C) (xs : List C) (c : Connection C)
      → c.callbacks ≡ x ∷ xs
      → InOrder c
      → InOrder (pop_front (record c { queued = c.queued ++ x ∷ [] }))
  unfolding pop_front
  queued_up x xs c e h = rw (sym h, e, append_assoc)

  flushed_alone :
      (x : C) (xs : List C) (c d : Connection C)
      → c.callbacks ≡ x ∷ xs
      → InOrder c
      → c.queued ≡ []
      → Ran (x ∷ []) c d
      → InOrder (pop_front d)
  unfolding pop_front
  flushed_alone x xs c d e h q p =
      rw (p.callbacks, p.issued, p.served, p.queued, sym h, q, e)
        (regroup (called c.calls) [] x xs p.new)

  module _ (react : C → Reply → Error → List C) where
    exec-Ran :
        (x : C) (r : Reply) (e : Error) (c : Connection C)
        → (is_aborted r || array_size r == length c.queued) ≡ true
        → (d : Connection C) × (on_exec_transaction react x r e c ≡ record d { queued = [] })
          × Ran (c.queued ++ x ∷ []) c d
    unfolding on_exec_transaction array_size
    exec-Ran x r e c h = elim (Bool-cases (is_aborted r)) [
      | inl y ↦ (
        invoke react x r e (invoke_all react c.queued r Error.transaction_aborted c),
        rw y,
        Ran-trans (invoke_all-Ran react c.queued r _ c) (invoke-Ran react x r e _),
      )
      | inr n ↦
          let same : (array_size r == length c.queued) ≡ true = rw n at h in
          (
            invoke react x r e (invoke_each react c.queued (items r) e c),
            rw (n, same),
            Ran-trans (invoke_each-Ran react c.queued (items r) e c ((==_iff _ _).0 same))
                (invoke-Ran react x r e _),
          )
    ]

    pub on_reply-InOrder :
        (x : C) (xs : List C) (r : Reply) (c : Connection C)
        → c.callbacks ≡ x ∷ xs
        → fits r c ≡ true
        → InOrder c
        → InOrder (on_reply react x r c)
    unfolding on_reply
    on_reply-InOrder x xs r c e f h = elim (Bool-cases (is_queued r)) [
      | inl y ↦ rw y (queued_up x xs c e h)
      | inr n ↦ elim (Bool-cases (is_empty c.queued)) [
        | inl y ↦
            rw (n, y)
              (flushed_alone x xs c _ e h (is_empty_sound c.queued y)
                (invoke-Ran react x r Error.ok c))
        | inr m ↦
            let (d, g, p) = exec-Ran x r Error.ok c (rw (n, m) at f) in
            rw (n, m, g) (flushed x xs c d e h p)
      ]
    ]

    -- Every reply fits, as the connection stands when it comes.
    unfoldable pub all_fit : List Reply → Connection C → Bool
    all_fit [] c = true
    all_fit (r ∷ rs) c = elim c.callbacks [
      | [] ↦ true
      | x ∷ xs ↦ fits r c && all_fit rs (on_reply react x r c)
    ]

    all_fit_busy :
        (rs : List Reply) (r : Reply) (c : Connection C) (x : C) (xs : List C)
        → c.callbacks ≡ x ∷ xs
        → all_fit (r ∷ rs) c ≡ (fits r c && all_fit rs (on_reply react x r c))
    unfolding all_fit
    all_fit_busy rs r c x xs e =
        ap (λ cs. elim cs [ [] ↦ true | y ∷ ys ↦ fits r c && all_fit rs (on_reply react y r c) ]) e

    pub on_replies-InOrder :
        (rs : List Reply) (c : Connection C)
        → all_fit rs c ≡ true
        → InOrder c
        → InOrder (on_replies react rs c).0
    on_replies-InOrder [] c f h = rw (on_replies_end react c) h
    on_replies-InOrder (r ∷ rs) c f h = elim (List-cases c.callbacks) [
      | inl e ↦ rw (on_replies_idle react rs r c e) h
      | inr (x, xs, e) ↦
          let both = sym (all_fit_busy rs r c x xs e) ∙ f in
          rw (on_replies_busy react rs r c x xs e) (
            on_replies-InOrder rs (on_reply react x r c) (ground (arith, both))
              (on_reply-InOrder x xs r c e (ground (arith, both)) h))
    ]
