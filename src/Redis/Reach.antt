-- ===== src/Redis/Reach.antt =====
-- A redis connection over its life: commands, and the ends of reads and writes, in any order.
use hearty_rabbit.Prelude.{ℕ, ◌≡◌, ◌⊎◌, inl, inr, refl, true, false, List, Bool-cases, arith}
use hearty_rabbit.Redis.Reply.{Reply}
use hearty_rabbit.Redis.Connection.{
  Error, Result, Connection, fresh, do_write, disconnect, on_read, on_write, is_error,
}
use hearty_rabbit.Redis.Order.{InOrder, all_fit, do_write-InOrder}
use hearty_rabbit.Redis.Closing.{IsSettled, on_read-Sound, on_write-Sound}
use hearty_rabbit.Redis.Reads.{Reads, do_write-Reads, on_read-Reads}

module _ {ℓ} {C : Type ℓ} (react : C → Reply → Error → List C) where
  -- The events of an open connection. The replies of a read fit the commands that are queued.
  pub data Step : Connection C → Connection C → Type ℓ where
    command : {c : Connection C} (x : C) → c.open_ ≡ true → Step c (do_write x c)
    read :
        {c : Connection C} (e : Error) (rs : List Reply) (result : Result) (fuel : ℕ)
        → c.open_ ≡ true
        → all_fit react rs (record c { reading = false }) ≡ true
        → Step c (on_read react e rs result fuel c)
    written : {c : Connection C} (e : Error) → c.open_ ≡ true → Step c (on_write react e c)

  pub data Reach : Connection C → Type ℓ where
    start : Reach fresh
    step : {c d : Connection C} → Reach c → Step c d → Reach d

  abbrev pub Lives : Connection C → Type ℓ
  Lives c = ((c.open_ ≡ true) × InOrder c × Reads c) ⊎ IsSettled c

  -- A connection whose order and reads are kept lives, unless it is closed.
  both_kept :
      {d : Connection C}
      → ((d.open_ ≡ true) × InOrder d) ⊎ IsSettled d
      → (d.open_ ≡ false) ⊎ Reads d
      → Lives d
  both_kept (inr s) r = inr s
  both_kept (inl (o, h)) (inl n) = absurd (ground (arith, o, n))
  both_kept (inl (o, h)) (inr r) = inl (o, h, r)

  on_write-Reads :
      (e : Error) (c : Connection C)
      → Reads c
      → ((on_write react e c).open_ ≡ false) ⊎ Reads (on_write react e c)
  unfolding on_write disconnect
  on_write-Reads e c h = elim (Bool-cases (is_error e)) [
    | inl y ↦ rw y (inl refl)
    | inr n ↦ rw n (inr h)
  ]

  open-Lives : {c : Connection C} → c.open_ ≡ true → Lives c → InOrder c × Reads c
  open-Lives o (inl (p, h, r)) = (h, r)
  open-Lives o (inr s) = let closed = s.closed in absurd (ground (arith, o, closed))

  Step-Lives : {c d : Connection C} → Step c d → Lives c → Lives d
  unfolding do_write
  Step-Lives {c} (command x o) l =
      let (h, r) = open-Lives o l in inl (o, do_write-InOrder x c h, do_write-Reads x c r)
  Step-Lives {c} (read e rs result fuel o f) l =
      both_kept (on_read-Sound react e rs result fuel c o f (open-Lives o l).0)
        (on_read-Reads react e rs result fuel c)
  Step-Lives {c} (written e o) l =
      let (h, r) = open-Lives o l in both_kept (on_write-Sound react e c o h) (on_write-Reads e c r)

  -- A connection sends commands, and reads and writes of it end, with or without an error, in any order.
  -- The replies must fit: once commands of a transaction are queued, redis answers the EXEC that follows
  -- with one reply for each of them, or tells that it is aborted, and answers with nothing else, such
  -- as an error. Then, while the connection is open, the callbacks called, queued and waiting are the
  -- commands sent, in order, and a read is outstanding exactly when a command waits. Once it is closed
  -- nothing waits, and each command's callback was called once; those that the closing calls send
  -- no command.
  pub Reach-Lives : {c : Connection C} → Reach c → Lives c
  Reach-Lives start = inl (refl, refl, refl)
  Reach-Lives (step r s) = Step-Lives s (Reach-Lives r)
