-- ===== src/Redis/Closing.antt =====
-- The end of a connection: `disconnect`, `drain` and what leads to them, of
-- src/server/net/Redis.cc.
use mathlib.Core.List.{Perm, perm_middle}
use mathlib.Core.List.Perm
use hearty_rabbit.Prelude.{
  ℕ, zero, suc, ◌≡◌, refl, ap, ◌∙◌, List, [], ◌∷◌, ◌++◌, append_assoc, length, drop, arith, ◌≤◌,
  true, false, is_empty, Bool-cases, List-cases, inl, inr, ◌⊎◌,
}
use hearty_rabbit.Redis.Reply.{Reply, null}
use hearty_rabbit.Redis.Connection.{
  Error, Result, Connection, invoke, invoke_all, pop_front, do_writes, log_call, drain, disconnect,
  or_io, after_replies, on_read, on_write, do_read,
}
use hearty_rabbit.Redis.Runs.{
  Ran, called, drain_idle, drain_busy, invoke-Ran, invoke_all-Ran, log_calls_only, log_calls-called,
}
use hearty_rabbit.Redis.Order.{history, InOrder, is_empty_sound, all_fit, on_replies-InOrder}
use hearty_rabbit.Redis.Reads.{on_replies_kept}
use hearty_rabbit.Redis.Connection.{is_error}

module _ {ℓ} {C : Type ℓ} where
  -- Every callback given to `do_write` was called or waits, and no other, none of them twice.
  abbrev pub Complete : Connection C → Type ℓ
  Complete c = Perm (history c) c.issued

  pub InOrder-Complete : (c : Connection C) → InOrder c → Complete c
  InOrder-Complete c h = rw h (Perm.refl c.issued)

  -- Nothing waits.
  pub record IsSettled (c : Connection C) : Type ℓ where
    pub closed : c.open_ ≡ false
    pub no_queued : c.queued ≡ []
    pub no_callbacks : c.callbacks ≡ []
    pub all_called : Perm (called c.calls) c.issued

  moved :
      (a q : List C) (x : C) (xs new : List C)
      → Perm ((a ++ x ∷ []) ++ (q ++ (xs ++ new))) ((a ++ (q ++ x ∷ xs)) ++ new)
  moved a q x xs new =
      rw (append_assoc, append_assoc, append_assoc)
        (Perm.append_left a (Perm.symm (perm_middle q (xs ++ new))))

  -- One more callback was called, the front one, and taken off.
  taken :
      (x : C) (xs : List C) (c d : Connection C)
      → c.callbacks ≡ x ∷ xs
      → Complete c
      → Ran (x ∷ []) c d
      → Complete (pop_front d)
  unfolding pop_front
  taken x xs c d f h p =
      let before : Perm (called c.calls ++ (c.queued ++ x ∷ xs)) c.issued = rw f at h in
      rw (p.callbacks, p.issued, p.served, p.queued, f)
        (Perm.trans (moved (called c.calls) c.queued x xs p.new) (Perm.append_right p.new before))

  -- The queued callbacks were called, and then the others, with those that the queued ones added.
  all_taken :
      (c d : Connection C)
      → Complete c
      → Ran c.queued c d
      → Perm (called d.calls ++ d.callbacks) d.issued
  all_taken c d h p =
      let longer : Perm (history c ++ p.new) (c.issued ++ p.new) = Perm.append_right p.new h in
      rw (p.callbacks, p.issued, p.served, append_assoc) (rw (append_assoc, append_assoc) at longer)

  module _ (react : C → Reply → Error → List C) where
    pub disconnect-IsSettled :
        (e : Error) (c : Connection C) → Complete c → IsSettled (disconnect react e c)
    unfolding disconnect
    disconnect-IsSettled e c h =
        let run = invoke_all react c.queued null (or_io e) c in
        let told = record run { queued = [] } in
        let same = log_calls_only told.callbacks null (or_io e) told in
        record {
          closed = refl;
          no_queued = ap (λ d. d.queued) same;
          no_callbacks = refl;
          all_called =
              rw (log_calls-called told.callbacks null (or_io e) told, ap (λ d. d.issued) same)
                (all_taken c run h (invoke_all-Ran react c.queued null (or_io e) c));
        }

    drain-Complete : (fuel : ℕ) (c : Connection C) → Complete c → Complete (drain react fuel c)
    unfolding drain
    drain-Complete zero c h = h
    drain-Complete (suc fuel) c h = elim (List-cases c.callbacks) [
      | inl e ↦ rw (drain_idle react fuel c e) h
      | inr (x, xs, e) ↦
          rw (drain_busy react fuel c x xs e)
            (drain-Complete fuel _ (taken x xs c _ e h (invoke-Ran react x null Error.protocol c)))
    ]

    -- The end of a connection.
    abbrev pub Sound : Connection C → Type ℓ
    Sound c = ((c.open_ ≡ true) × InOrder c) ⊎ IsSettled c

    after_replies-Sound :
        (fuel : ℕ) (result : Result) (c : Connection C)
        → c.open_ ≡ true
        → InOrder c
        → Sound (after_replies react fuel result c)
    unfolding after_replies do_read
    after_replies-Sound fuel Result.failed c o h =
        inr (disconnect-IsSettled Error.protocol _ (drain-Complete fuel c (InOrder-Complete c h)))
    after_replies-Sound fuel Result.not_ready c o h = elim (Bool-cases (is_empty c.callbacks)) [
      | inl y ↦ rw y (inl (o, h))
      | inr n ↦ rw n (inl (o, h))
    ]

    -- While a connection is open, the callbacks called, queued and waiting are the commands sent, in
    -- order. A read keeps this, or it closes the connection, and then each callback was called once.
    -- The replies must fit: EXEC is answered for the whole transaction, or for none of it.
    pub on_read-Sound :
        (e : Error) (rs : List Reply) (result : Result) (fuel : ℕ) (c : Connection C)
        → c.open_ ≡ true
        → all_fit react rs (record c { reading = false }) ≡ true
        → InOrder c
        → Sound (on_read react e rs result fuel c)
    unfolding on_read
    on_read-Sound e rs result fuel c o f h =
        let arrived = record c { reading = false } in
        elim (Bool-cases (is_error e)) [
          | inl y ↦ rw y (inr (disconnect-IsSettled e arrived (InOrder-Complete arrived h)))
          | inr n ↦ rw n (
              after_replies-Sound fuel _ _ ((on_replies_kept react rs arrived).0 ∙ o)
                (on_replies-InOrder react rs arrived f h))
        ]

    -- A write keeps the order too, or closes the connection, and then each callback was called once.
    pub on_write-Sound :
        (e : Error) (c : Connection C) → c.open_ ≡ true → InOrder c → Sound (on_write react e c)
    unfolding on_write
    on_write-Sound e c o h = elim (Bool-cases (is_error e)) [
      | inl y ↦ rw y (inr (disconnect-IsSettled Error.protocol c (InOrder-Complete c h)))
      | inr n ↦ rw n (inl (o, h))
    ]

    quiet_pop :
        (x : C) (c : Connection C)
        → react x null Error.protocol ≡ []
        → (pop_front (invoke react x null Error.protocol c)).callbacks ≡ drop 1 c.callbacks
    unfolding pop_front invoke do_writes log_call
    quiet_pop x c quiet = rw quiet

    -- On fuel for one round a callback, the loop over them ends when they send nothing after an error.
    pub drain_done :
        (fuel : ℕ) (c : Connection C)
        → ((x : C) → react x null Error.protocol ≡ [])
        → length c.callbacks ≤ fuel
        → (drain react fuel c).callbacks ≡ []
    unfolding drain
    drain_done zero c quiet h = is_empty_sound c.callbacks (ground arith)
    drain_done (suc fuel) c quiet h = elim (List-cases c.callbacks) [
      | inl e ↦ ap (λ d. d.callbacks) (drain_idle react fuel c e) ∙ e
      | inr (x, xs, e) ↦
          rw (drain_busy react fuel c x xs e)
            (drain_done fuel _ quiet (rw (quiet_pop x c (quiet x), e) (omega (arith, ap length e))))
    ]
