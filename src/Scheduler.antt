-- ===== src/Scheduler.antt =====
-- src/client/http/RequestScheduler.hh and RequestScheduler.cc: requests wait until fewer than a
-- limit are outstanding. A request has a number, its address; `started` is the history of the
-- calls of `run`, which only start a request: it finishes later.
use hearty_rabbit.Prelude.{
  ℕ, suc, ◌≡◌, ◌≤◌, ◌⊎◌, inl, inr, refl, ◌∙◌, true, List, [], ◌∷◌, ◌++◌, append_assoc, ltb, ltb→lt,
  ◌==◌, if◌then◌else◌, length, is_empty, contains, arith, Bool-cases,
}

pub record Scheduler : Type 0 where
  pub limit : ℕ
  pub outstanding : List ℕ
  pub pending : List ℕ
  pub started : List ℕ

abbrev pub fresh : ℕ → Scheduler
fresh limit = record { limit = limit; outstanding = []; pending = []; started = [] }

-- `insert` of a set.
unfoldable pub insert : ℕ → List ℕ → List ℕ
insert r rs = if contains rs r then rs else r ∷ rs

-- `erase` of a set.
unfoldable pub erase : ℕ → List ℕ → List ℕ
erase r [] = []
erase r (q ∷ rs) = let rest = erase r rs in if q == r then rs else q ∷ rest

-- One round of the loop, for the front of the queue `req`.
unfoldable pub start : ℕ → List ℕ → Scheduler → Scheduler
start req rest s = record s {
  pending = rest;
  started = s.started ++ req ∷ [];
  outstanding = insert req s.outstanding;
}

-- The loop, along the queue.
unfoldable pub start_all : List ℕ → Scheduler → Scheduler
start_all [] s = s
start_all (req ∷ rest) s =
    let more = start_all rest (start req rest s) in
    if ltb (length s.outstanding) s.limit then more else s

unfoldable pub try_start : Scheduler → Scheduler
try_start s = start_all s.pending s

unfoldable pub add : ℕ → Scheduler → Scheduler
add req s = try_start (record s { pending = s.pending ++ req ∷ [] })

unfoldable pub finish : ℕ → Scheduler → Scheduler
finish req s = try_start (record s { outstanding = erase req s.outstanding })

-- Within the limit, and no request waits while another could start.
pub record IsBusy (s : Scheduler) : Type 0 where
  pub bounded : length s.outstanding ≤ s.limit
  pub eager : (is_empty s.pending ≡ true) ⊎ (length s.outstanding ≡ s.limit)

length-insert : (r : ℕ) (rs : List ℕ) → length (insert r rs) ≤ suc (length rs)
unfolding insert
length-insert r rs = ground arith

length-erase : (r : ℕ) (rs : List ℕ) → length (erase r rs) ≤ length rs
unfolding erase
length-erase r [] = omega arith
length-erase r (q ∷ rs) = ground (arith, length-erase r rs)

start_all-IsBusy :
    (queue : List ℕ) (s : Scheduler)
    → s.pending ≡ queue
    → length s.outstanding ≤ s.limit
    → IsBusy (start_all queue s)
unfolding start_all
start_all-IsBusy [] s e h = record { bounded = h; eager = inl (rw e) }
start_all-IsBusy (req ∷ rest) s e h = elim (Bool-cases (ltb (length s.outstanding) s.limit)) [
  | inl y ↦ rw y (
      start_all-IsBusy rest (start req rest s) (unfold start in refl) (
        unfold start in
        ground (arith, length-insert req s.outstanding, ltb→lt (length s.outstanding) s.limit y)))
  | inr n ↦ rw n (record { bounded = h; eager = inr (ground arith) })
]

-- The loop leaves the limit and the order of the requests as they are.
start_all_order :
    (queue : List ℕ) (s : Scheduler)
    → s.pending ≡ queue
    → ((start_all queue s).limit ≡ s.limit)
      × ((start_all queue s).started ++ (start_all queue s).pending ≡ s.started ++ s.pending)
unfolding start_all start
start_all_order [] s e = (refl, refl)
start_all_order (req ∷ rest) s e = elim (Bool-cases (ltb (length s.outstanding) s.limit)) [
  | inl y ↦
      let (l, o) = start_all_order rest (start req rest s) refl in
      rw y (l, o ∙ rw (e, append_assoc))
  | inr n ↦ rw n (refl, refl)
]

-- Adding a request keeps the limit, starts all that the limit admits, and starts them in the order in
-- which they came: those started and those that wait are the ones before, and the new one last.
pub add_sound :
    (req : ℕ) (s : Scheduler)
    → length s.outstanding ≤ s.limit
    → IsBusy (add req s)
      × ((add req s).limit ≡ s.limit)
      × ((add req s).started ++ (add req s).pending ≡ (s.started ++ s.pending) ++ req ∷ [])
unfolding add try_start
add_sound req s h =
    let (l, o) =
      start_all_order (s.pending ++ req ∷ []) (record s { pending = s.pending ++ req ∷ [] }) refl in
    (start_all-IsBusy _ _ refl h, l, o ∙ rw append_assoc)

-- A request that finishes makes room: the limit is kept, and requests start as it admits, in order.
pub finish_sound :
    (req : ℕ) (s : Scheduler)
    → length s.outstanding ≤ s.limit
    → IsBusy (finish req s)
      × ((finish req s).limit ≡ s.limit)
      × ((finish req s).started ++ (finish req s).pending ≡ s.started ++ s.pending)
unfolding finish try_start
finish_sound req s h =
    let (l, o) =
      start_all_order s.pending (record s { outstanding = erase req s.outstanding }) refl in
    (start_all-IsBusy _ _ refl (omega (arith, length-erase req s.outstanding)), l, o)
