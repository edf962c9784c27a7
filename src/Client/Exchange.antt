-- ===== src/Client/Exchange.antt =====
-- src/client/http/GenericHTTPRequest.hh: the steps of a request. What Boost reports of each
-- asynchronous operation comes as an error code.
use hearty_rabbit.Prelude.{
  ℕ, zero, suc, ◌≡◌, ◌⊎◌, refl, Bool, true, false, not, ◌&&◌, List, [], ◌∷◌, if◌then◌else◌,
  Bool-cases, inl, inr,
}
use hearty_rabbit.Redis.Reply.{Error, is_error}

-- Which operation is outstanding; none once the request is over. `closing` begins when the caller's
-- function has run, which ends by calling `shutdown`.
pub data Stage : Type 0 where
  resolving connecting handshaking writing reading closing closed failed : Stage

-- An operation is over: what comes next, and whether `m_comp` is called. `fail` writes to the standard
-- error and does nothing else.
unfoldable pub on_resolve : Error → Stage × Bool
on_resolve ec = if is_error ec then (Stage.failed, false) else (Stage.connecting, false)

unfoldable pub on_connect : Error → Stage × Bool
on_connect ec = if is_error ec then (Stage.failed, false) else (Stage.handshaking, false)

unfoldable pub on_handshake : Error → Stage × Bool
on_handshake ec = if is_error ec then (Stage.failed, false) else (Stage.writing, false)

unfoldable pub on_write : Error → Stage × Bool
on_write ec = if is_error ec then (Stage.failed, false) else (Stage.reading, false)

unfoldable pub on_read : Error → Stage × Bool
on_read ec = if is_error ec then (Stage.failed, false) else (Stage.closing, true)

unfoldable pub on_shutdown : Error → Stage × Bool
on_shutdown Error.eof = (Stage.closed, false)
on_shutdown ec = if is_error ec then (Stage.failed, false) else (Stage.closed, false)

unfoldable pub advance : Stage → Error → Stage × Bool
unfolding on_resolve on_connect on_handshake on_write on_read on_shutdown
advance Stage.resolving ec = on_resolve ec
advance Stage.connecting ec = on_connect ec
advance Stage.handshaking ec = on_handshake ec
advance Stage.writing ec = on_write ec
advance Stage.reading ec = on_read ec
advance Stage.closing ec = on_shutdown ec
advance Stage.closed ec = (Stage.closed, false)
advance Stage.failed ec = (Stage.failed, false)

-- What comes of the operations in turn, and how often `m_comp` is called.
unfoldable pub advance_all : Stage → List Error → Stage × ℕ
unfolding advance
advance_all stage [] = (stage, 0)
advance_all stage (ec ∷ ecs) =
    let (next, called) = advance stage ec in
    let (last, calls) = advance_all next ecs in (last, if called then suc calls else calls)

-- `run` resolves the host.
unfoldable pub run : List Error → Stage × ℕ
unfolding advance_all
run ecs = advance_all Stage.resolving ecs

abbrev pub all_fine : ℕ → List Error → Bool
all_fine zero ecs = true
all_fine (suc n) [] = false
all_fine (suc n) (ec ∷ ecs) = let rest = all_fine n ecs in not (is_error ec) && rest

failed_calls : (ecs : List Error) → (advance_all Stage.failed ecs).1 ≡ 0
unfolding advance_all
failed_calls [] = refl
failed_calls (ec ∷ ecs) = failed_calls ecs

closed_calls : (ecs : List Error) → (advance_all Stage.closed ecs).1 ≡ 0
unfolding advance_all
closed_calls [] = refl
closed_calls (ec ∷ ecs) = closed_calls ecs

on_shutdown_quiet :
    (ec : Error)
    → (on_shutdown ec ≡ (Stage.closed, false)) ⊎ (on_shutdown ec ≡ (Stage.failed, false))
unfolding on_shutdown
on_shutdown_quiet Error.eof = inl refl
on_shutdown_quiet Error.ok = inl refl
on_shutdown_quiet ec = inr refl

closing_calls : (ecs : List Error) → (advance_all Stage.closing ecs).1 ≡ 0
unfolding advance_all advance
closing_calls [] = refl
closing_calls (ec ∷ ecs) = elim (on_shutdown_quiet ec) [
  | inl e ↦ rw e (closed_calls ecs)
  | inr e ↦ rw e (failed_calls ecs)
]

-- One operation before the others.
step_calls :
    (stage next : Stage) (n : ℕ)
    → ((ec : Error)
        → advance stage ec ≡ (if is_error ec then (Stage.failed, false) else (next, false)))
    → ((ecs : List Error) → (advance_all next ecs).1 ≡ (if all_fine n ecs then 1 else 0))
    → (ecs : List Error) → (advance_all stage ecs).1 ≡ (if all_fine (suc n) ecs then 1 else 0)
unfolding advance_all
step_calls stage next n step later [] = refl
step_calls stage next n step later (ec ∷ ecs) = elim (Bool-cases (is_error ec)) [
  | inl y ↦ rw (step ec, y) (failed_calls ecs)
  | inr k ↦ rw (step ec, k) (later ecs)
]

reading_calls :
    (ecs : List Error) → (advance_all Stage.reading ecs).1 ≡ (if all_fine 1 ecs then 1 else 0)
unfolding advance_all advance on_read
reading_calls [] = refl
reading_calls (ec ∷ ecs) = elim (Bool-cases (is_error ec)) [
  | inl y ↦ rw y (failed_calls ecs)
  | inr k ↦ rw (k, closing_calls ecs)
]

-- The caller's function is called exactly once if the host is resolved, and the connection, the
-- handshake, the writing and the reading all succeed, and never if one of them fails or is not over.
pub run-calls : (ecs : List Error) → (run ecs).1 ≡ (if all_fine 5 ecs then 1 else 0)
unfolding run advance on_resolve on_connect on_handshake on_write
run-calls =
    step_calls Stage.resolving Stage.connecting 4 (λ ec. refl)
      (step_calls Stage.connecting Stage.handshaking 3 (λ ec. refl)
        (step_calls Stage.handshaking Stage.writing 2 (λ ec. refl)
          (step_calls Stage.writing Stage.reading 1 (λ ec. refl) reading_calls)))
