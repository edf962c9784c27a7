-- ===== src/Client/Stuck.antt =====
-- src/client/http: what requests that fail do to the client. `settle` runs the functions that the
-- exchanges over so far have called, all of which end a request.
use hearty_rabbit.Prelude.{
  ℕ, ap, ◌+◌, ◌-◌, ◌≤◌, ◌<◌, min, contains, ltb→lt, lt→ltb, Bool-cases, inl, inr, length-append,
  ◌≡◌, refl, false, ◌++◌, List, [], ◌∷◌, if◌then◌else◌, ltb, ◌==◌, length, All, arith,
}
use hearty_rabbit.Redis.Reply.{Error}
use hearty_rabbit.Scheduler.{Scheduler, add, try_start, start_all, start, insert}
use hearty_rabbit.UserId.{UserId, nobody}
use hearty_rabbit.Client.{Client, Outgoing, fresh, send, done}
use hearty_rabbit.Client.Exchange.{run, run-calls, all_fine}

unfoldable pub settle : (ℕ → List Error) → List ℕ → Client → Client
settle outcomes [] c = c
settle outcomes (req ∷ reqs) c =
    settle outcomes reqs (if (run (outcomes req)).1 == 0 then c else done req c)

-- Requests made one after the other, with what is over by then.
unfoldable pub send_all : (ℕ → List Error) → List Outgoing → Client → Client
unfolding settle
send_all outcomes [] c = c
send_all outcomes (out ∷ outs) c =
    let sent = send out c in
    send_all outcomes outs (settle outcomes sent.outstanding.outstanding sent)

start_all_full :
    (queue : List ℕ) (s : Scheduler) → length s.outstanding ≡ s.limit → start_all queue s ≡ s
unfolding start_all
start_all_full [] s h = refl
start_all_full (req ∷ queue) s h =
    let full : ltb (length s.outstanding) s.limit ≡ false = ground arith in rw full

module _ (outcomes : ℕ → List Error) where
  abbrev pub AllFail : List ℕ → Type 0
  AllFail = All λ req. all_fine 5 (outcomes req) ≡ false

  settle_failed : (reqs : List ℕ) (c : Client) → AllFail reqs → settle outcomes reqs c ≡ c
  unfolding settle
  settle_failed [] c h = refl
  settle_failed (req ∷ reqs) c (f, fs) = rw (run-calls (outcomes req), f) (settle_failed reqs c fs)

  send_full :
      (out : Outgoing) (c : Client)
      → length c.outstanding.outstanding ≡ c.outstanding.limit
      → send out c ≡ record c {
        requests = c.requests ++ out ∷ [];
        outstanding = record c.outstanding {
          pending = c.outstanding.pending ++ length c.requests ∷ [];
        };
      }
  unfolding send add try_start
  send_full out c h =
      ap (λ t. record c { requests = c.requests ++ out ∷ []; outstanding = t })
        (start_all_full (c.outstanding.pending ++ length c.requests ∷ [])
          (record c.outstanding { pending = c.outstanding.pending ++ length c.requests ∷ [] }) h)

  send_all-stuck :
      (outs : List Outgoing) (c : Client)
      → length c.outstanding.outstanding ≡ c.outstanding.limit
      → AllFail c.outstanding.outstanding
      → ((send_all outcomes outs c).outstanding.started ≡ c.outstanding.started)
        × (length (send_all outcomes outs c).outstanding.pending
            ≡ length c.outstanding.pending + length outs)
  unfolding send_all
  send_all-stuck [] c h f = (refl, omega arith)
  send_all-stuck (out ∷ outs) c h f =
      let sent = send_full out c h in
      let waiting = record c {
        requests = c.requests ++ out ∷ [];
        outstanding = record c.outstanding {
          pending = c.outstanding.pending ++ length c.requests ∷ [];
        };
      } in
      let (started, longer) = send_all-stuck outs waiting h f in
      let one = length-append c.outstanding.pending (length c.requests ∷ []) in
      let settled : settle outcomes (send out c).outstanding.outstanding (send out c) ≡ waiting =
        rw sent (settle_failed c.outstanding.outstanding waiting f) in
      let step : send_all outcomes (out ∷ outs) c ≡ send_all outcomes outs waiting =
        ap (send_all outcomes outs) settled in
      rw step (started, omega (arith, longer, one))

not_in : (n : ℕ) (os : List ℕ) → All (λ q. q < n) os → contains os n ≡ false
not_in n [] h = refl
not_in n (q ∷ os) (h, hs) = ground (arith, not_in n os hs)

All-below : (n m : ℕ) (os : List ℕ) → n ≤ m → All (λ q. q < n) os → All (λ q. q < m) os
All-below n m [] l h = tt
All-below n m (q ∷ os) l (h, hs) = (omega arith, All-below n m os l hs)

-- A client none of whose requests waits.
abbrev with_room : UserId → List Outgoing → ℕ → List ℕ → List ℕ → Client
with_room u rs limit os st = record {
  user = u;
  requests = rs;
  outstanding = record { limit = limit; outstanding = os; pending = []; started = st };
}

module _ (u : UserId) (limit : ℕ) where
  send_started :
      (out : Outgoing) (rs : List Outgoing) (os st : List ℕ)
      → length os < limit
      → All (λ q. q < length rs) os
      → send out (with_room u rs limit os st)
        ≡ with_room u (rs ++ out ∷ []) limit (length rs ∷ os) (st ++ length rs ∷ [])
  unfolding send add try_start start_all start insert
  send_started out rs os st h earlier =
      rw (lt→ltb (length os) limit h, not_in (length rs) os earlier) refl

  module _ (outcomes : ℕ → List Error) (fails : (req : ℕ) → all_fine 5 (outcomes req) ≡ false) where
    all-AllFail : (reqs : List ℕ) → AllFail outcomes reqs
    all-AllFail [] = tt
    all-AllFail (req ∷ reqs) = (fails req, all-AllFail reqs)

    send_all_next :
        (out : Outgoing) (outs rs : List Outgoing) (os st : List ℕ)
        → length os < limit
        → All (λ q. q < length rs) os
        → send_all outcomes (out ∷ outs) (with_room u rs limit os st)
          ≡ send_all outcomes outs
              (with_room u (rs ++ out ∷ []) limit (length rs ∷ os) (st ++ length rs ∷ []))
    unfolding send_all
    send_all_next out outs rs os st h earlier =
        let made = with_room u (rs ++ out ∷ []) limit (length rs ∷ os) (st ++ length rs ∷ []) in
        let sent = send_started out rs os st h earlier in
        let settled : settle outcomes
              (send out (with_room u rs limit os st)).outstanding.outstanding
              (send out (with_room u rs limit os st))
            ≡ made =
          rw sent (settle_failed outcomes (length rs ∷ os) made (all-AllFail (length rs ∷ os))) in
        ap (send_all outcomes outs) settled

    send_all-started :
        (outs rs : List Outgoing) (os st : List ℕ)
        → length os ≤ limit
        → All (λ q. q < length rs) os
        → (length (send_all outcomes outs (with_room u rs limit os st)).outstanding.started
            ≡ length st + min (length outs) (limit - length os))
          × (length (send_all outcomes outs (with_room u rs limit os st)).outstanding.pending
              ≡ length outs - (limit - length os))
    send_all-started [] rs os st h earlier = unfold send_all in (omega arith, omega arith)
    send_all-started (out ∷ outs) rs os st h earlier = elim (Bool-cases (ltb (length os) limit)) [
      | inl y ↦
          let room = ltb→lt (length os) limit y in
          let more = length-append rs (out ∷ []) in
          let longer = length-append st (length rs ∷ []) in
          let numbered : All (λ q. q < length (rs ++ out ∷ [])) (length rs ∷ os) = (
            omega (arith, more),
            All-below (length rs) (length (rs ++ out ∷ [])) os (omega (arith, more)) earlier,
          ) in
          let (started, waiting) =
            send_all-started outs (rs ++ out ∷ []) (length rs ∷ os) (st ++ length rs ∷ [])
              (omega (arith, room)) numbered in
          rw (send_all_next out outs rs os st room earlier)
            (omega (arith, started, room, longer), omega (arith, waiting, room))
      | inr n ↦
          let full : length os ≡ limit = ground arith in
          let (started, waiting) =
            send_all-stuck outcomes (out ∷ outs) (with_room u rs limit os st) full
              (all-AllFail os) in
          (rw started (omega (arith, full)), omega (arith, waiting, full))
    ]

-- Of the requests that a fresh client makes, if all of them fail, as many are started as may be
-- outstanding at once, and the others wait for ever: a failed request never gives back its place. A
-- request fails if one of its operations does before the response is read.
pub send_all-fresh :
    (outcomes : ℕ → List Error) (limit : ℕ) (outs : List Outgoing)
    → ((req : ℕ) → all_fine 5 (outcomes req) ≡ false)
    → (length (send_all outcomes outs (fresh limit)).outstanding.started ≡ min (length outs) limit)
      × (length (send_all outcomes outs (fresh limit)).outstanding.pending ≡ length outs - limit)
send_all-fresh outcomes limit outs fails =
    let (started, waiting) =
      send_all-started nobody limit outcomes fails outs [] [] [] (omega arith) tt in
    (omega (arith, started), omega (arith, waiting))
