-- ===== src/Aggregated.antt =====
-- src/common/util/AggregatedCallBack.hh: a callback that runs at the last of a number of calls,
-- with the arguments of that call. The count is a `std::size_t` of 64 bits.
use hearty_rabbit.Prelude.{
  ℕ, suc, ◌+◌, ◌-◌, ◌%◌, ◌<◌, ◌≡◌, ◌∙◌, true, false, List, [], ◌∷◌, ◌++◌, Option, none, some, ltb,
  ◌==◌, if◌then◌else◌, length, get_elem?, arith, Bool-cases, inl, inr,
}

pub record Aggregated : Type 0 where
  pub expected_count : ℕ
  pub count : ℕ

abbrev pub fresh : ℕ → Aggregated
fresh expected = record { expected_count = expected; count = 0 }

unfoldable pub next_count : ℕ → ℕ
next_count n = (n + 1) % 18446744073709551616

next_count_lem : (n : ℕ) → n + 1 < 18446744073709551616 → next_count n ≡ suc n
unfolding next_count
next_count_lem n h = omega arith

module _ {ℓ} {A : Type ℓ} where
  -- A call, with what reaches the callback.
  unfoldable pub call : A → Aggregated → Aggregated × List A
  call args a =
      let count = next_count a.count in
      (record a { count = count }, if count == a.expected_count then args ∷ [] else [])

  -- Calls one after the other.
  unfoldable pub call_all : List A → Aggregated → List A
  call_all [] a = []
  call_all (args ∷ calls) a = let (b, fired) = call args a in fired ++ call_all calls b

  abbrev pub at_most_one : Option A → List A
  at_most_one none = []
  at_most_one (some x) = x ∷ []

  call_all-from :
      (calls : List A) (a : Aggregated)
      → a.count + length calls < 18446744073709551616
      → call_all calls a ≡ (
          if ltb a.count a.expected_count
          then at_most_one (get_elem? calls (a.expected_count - a.count - 1))
          else [])
  unfolding call_all call
  call_all-from [] a h = elim (Bool-cases (ltb a.count a.expected_count)) [
    | inl y ↦ rw y
    | inr n ↦ rw n
  ]
  call_all-from (args ∷ calls) a h =
      let next = next_count_lem a.count (omega (arith, h)) in
      let later = call_all-from calls (record a { count = suc a.count }) (omega (arith, h)) in
      elim (Bool-cases (suc a.count == a.expected_count)) [
        | inl y ↦
            let now : ltb a.count a.expected_count ≡ true = ground arith in
            let over : ltb (suc a.count) a.expected_count ≡ false = ground arith in
            let first : a.expected_count - a.count - 1 ≡ 0 = ground arith in
            rw (next, y, later, now, over, first)
        | inr n ↦ elim (Bool-cases (ltb a.count a.expected_count)) [
          | inl now ↦
              let on : ltb (suc a.count) a.expected_count ≡ true = ground arith in
              let index : a.expected_count - a.count - 1
                  ≡ suc (a.expected_count - suc a.count - 1) =
                ground arith in
              rw (next, n, later, now, on, index)
          | inr over ↦
              let still : ltb (suc a.count) a.expected_count ≡ false = ground arith in
              rw (next, n, later, over, still)
        ]
      ]

  -- The callback runs once, at the call of the expected number, or never if there are fewer calls or
  -- none is expected.
  pub call_all-fresh :
      (calls : List A) (expected : ℕ)
      → length calls < 18446744073709551616
      → call_all calls (fresh expected)
        ≡ (if expected == 0 then [] else at_most_one (get_elem? calls (expected - 1)))
  call_all-fresh calls expected h =
      call_all-from calls (fresh expected) (omega (arith, h)) ∙ counted
    where
      counted :
          (if ltb 0 expected then at_most_one (get_elem? calls (expected - 0 - 1)) else [])
          ≡ (if expected == 0 then [] else at_most_one (get_elem? calls (expected - 1)))
      counted = elim (Bool-cases (expected == 0)) [
        | inl y ↦ let none_expected : ltb 0 expected ≡ false = ground arith in rw (y, none_expected)
        | inr n ↦
            let some_expected : ltb 0 expected ≡ true = ground arith in
            let same : expected - 0 - 1 ≡ expected - 1 = omega arith in rw (n, some_expected, same)
      ]
