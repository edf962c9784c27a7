-- ===== src/Redis/Runs.antt =====
-- What calling callbacks does to a redis connection.
use hearty_rabbit.Prelude.{
  ℕ, suc, ◌≡◌, refl, ap, ◌∙◌, List, [], ◌∷◌, ◌++◌, append_assoc, append-nil, length, arith,
}
use hearty_rabbit.Redis.Reply.{Reply, null}
use hearty_rabbit.Redis.Connection.{
  Error, Call, Connection, do_write, do_writes, log_call, log_calls, invoke, invoke_all,
  invoke_each, on_replies, on_reply, drain, pop_front,
}

module _ {ℓ} {C : Type ℓ} where
  abbrev pub called : List (Call C) → List C
  called [] = []
  called (k ∷ ks) = k.callback ∷ called ks

  pub called-append : (ks ls : List (Call C)) → called (ks ++ ls) ≡ called ks ++ called ls
  called-append [] ls = refl
  called-append (k ∷ ks) ls = rw (called-append ks ls)

  -- `d` is `c` after the callbacks `xs` were called, in this order; they sent the commands `new`.
  pub record Ran (xs : List C) (c d : Connection C) : Type ℓ where
    pub new : List C
    pub callbacks : d.callbacks ≡ c.callbacks ++ new
    pub issued : d.issued ≡ c.issued ++ new
    pub served : called d.calls ≡ called c.calls ++ xs
    pub queued : d.queued ≡ c.queued
    pub open_ : d.open_ ≡ c.open_

  pub Ran-refl : (c : Connection C) → Ran [] c c
  Ran-refl c = record {
    new = [];
    callbacks = rw append-nil;
    issued = rw append-nil;
    served = rw append-nil;
    queued = refl;
    open_ = refl;
  }

  pub Ran-trans :
      {xs ys : List C} {c d e : Connection C} → Ran xs c d → Ran ys d e → Ran (xs ++ ys) c e
  Ran-trans {xs} {ys} {c} p q = record {
    new = p.new ++ q.new;
    callbacks = rw (q.callbacks, p.callbacks, append_assoc);
    issued = rw (q.issued, p.issued, append_assoc);
    served = rw (q.served, p.served, append_assoc);
    queued = q.queued ∙ p.queued;
    open_ = q.open_ ∙ p.open_;
  }

  do_write-Ran : (x : C) (c : Connection C) → Ran [] c (do_write x c)
  unfolding do_write
  do_write-Ran x c = record {
    new = x ∷ [];
    callbacks = refl;
    issued = refl;
    served = rw append-nil;
    queued = refl;
    open_ = refl;
  }

  do_writes-Ran : (xs : List C) (c : Connection C) → Ran [] c (do_writes xs c)
  unfolding do_writes
  do_writes-Ran [] c = Ran-refl c
  do_writes-Ran (x ∷ xs) c = Ran-trans (do_write-Ran x c) (do_writes-Ran xs (do_write x c))

  log_call-Ran :
      (x : C) (r : Reply) (e : Error) (c : Connection C) → Ran (x ∷ []) c (log_call x r e c)
  unfolding log_call
  log_call-Ran x r e c = record {
    new = [];
    callbacks = rw append-nil;
    issued = rw append-nil;
    served = called-append c.calls _;
    queued = refl;
    open_ = refl;
  }

  -- Calls that send no command add to the history, and to nothing else.
  pub log_calls_only :
      (xs : List C) (r : Reply) (e : Error) (c : Connection C)
      → log_calls xs r e c ≡ record c { calls = (log_calls xs r e c).calls }
  unfolding log_calls log_call
  log_calls_only [] r e c = refl
  log_calls_only (x ∷ xs) r e c = log_calls_only xs r e (log_call x r e c)

  pub log_calls-called :
      (xs : List C) (r : Reply) (e : Error) (c : Connection C)
      → called (log_calls xs r e c).calls ≡ called c.calls ++ xs
  unfolding log_calls
  log_calls-called [] r e c = rw append-nil
  log_calls-called (x ∷ xs) r e c =
      rw (log_calls-called xs r e (log_call x r e c), (log_call-Ran x r e c).served, append_assoc)

  module _ (react : C → Reply → Error → List C) where
    pub invoke-Ran :
        (x : C) (r : Reply) (e : Error) (c : Connection C) → Ran (x ∷ []) c (invoke react x r e c)
    unfolding invoke
    invoke-Ran x r e c = Ran-trans (log_call-Ran x r e c) (do_writes-Ran (react x r e) _)

    pub invoke_all-Ran :
        (xs : List C) (r : Reply) (e : Error) (c : Connection C)
        → Ran xs c (invoke_all react xs r e c)
    unfolding invoke_all
    invoke_all-Ran [] r e c = Ran-refl c
    invoke_all-Ran (x ∷ xs) r e c = Ran-trans (invoke-Ran x r e c) (invoke_all-Ran xs r e _)

    pub invoke_each-Ran :
        (xs : List C) (rs : List Reply) (e : Error) (c : Connection C)
        → length rs ≡ length xs
        → Ran xs c (invoke_each react xs rs e c)
    unfolding invoke_each
    invoke_each-Ran [] [] e c h = Ran-refl c
    invoke_each-Ran [] (r ∷ rs) e c h = absurd (omega arith)
    invoke_each-Ran (x ∷ xs) [] e c h = absurd (omega arith)
    invoke_each-Ran (x ∷ xs) (r ∷ rs) e c h =
        Ran-trans (invoke-Ran x r e c) (invoke_each-Ran xs rs e _ (omega arith))

    -- The loop over the replies, step by step.
    pub on_replies_end : (c : Connection C) → on_replies react [] c ≡ (c, [])
    unfolding on_replies
    on_replies_end c = refl

    pub on_replies_idle :
        (rs : List Reply) (r : Reply) (c : Connection C)
        → c.callbacks ≡ []
        → on_replies react (r ∷ rs) c ≡ (c, r ∷ rs)
    unfolding on_replies
    on_replies_idle rs r c e =
        ap
          (λ cs. elim cs [ [] ↦ (c, r ∷ rs) | x ∷ xs ↦ on_replies react rs (on_reply react x r c) ])
          e

    pub on_replies_busy :
        (rs : List Reply) (r : Reply) (c : Connection C) (x : C) (xs : List C)
        → c.callbacks ≡ x ∷ xs
        → on_replies react (r ∷ rs) c ≡ on_replies react rs (on_reply react x r c)
    unfolding on_replies
    on_replies_busy rs r c x xs e =
        ap
          (λ cs. elim cs [ [] ↦ (c, r ∷ rs) | y ∷ ys ↦ on_replies react rs (on_reply react y r c) ])
          e

    pub drain_idle : (fuel : ℕ) (c : Connection C) → c.callbacks ≡ [] → drain react (suc fuel) c ≡ c
    unfolding drain
    drain_idle fuel c e =
        ap
          (λ cs. elim cs [
            | [] ↦ c
            | x ∷ xs ↦ drain react fuel (pop_front (invoke react x null Error.protocol c))
          ])
          e

    pub drain_busy :
        (fuel : ℕ) (c : Connection C) (x : C) (xs : List C)
        → c.callbacks ≡ x ∷ xs
        → drain react (suc fuel) c
          ≡ drain react fuel (pop_front (invoke react x null Error.protocol c))
    unfolding drain
    drain_busy fuel c x xs e =
        ap
          (λ cs. elim cs [
            | [] ↦ c
            | y ∷ ys ↦ drain react fuel (pop_front (invoke react y null Error.protocol c))
          ])
          e
