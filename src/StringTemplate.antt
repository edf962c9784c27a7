-- ===== src/StringTemplate.antt =====
-- src/server/util/StringTemplate.hh and StringTemplate.cc: a text cut at needles, into whose gaps
-- other texts are put. A template is the list `m_src` of its segments.
pub mod Laws
use hearty_rabbit.Prelude.{
  ℕ, zero, suc, ◌+◌, ◌-◌, ◌≡◌, refl, Bool, true, false, List, [], ◌∷◌, ◌++◌, Option, none, some,
  ltb, if◌then◌else◌, Bytes, length, take, drop, is_empty,
}
use hearty_rabbit.Escape.Split.{find}

-- An empty needle is nowhere.
unfoldable pub find_needle : Bytes → Bytes → Option ℕ
find_needle s needle = if is_empty needle then none else find s needle

-- The loop over the segments: the first that has the needle is cut in two, with the first bytes of the
-- needle at the end of the one and the last bytes of it at the start of the other. If none has it, an
-- empty segment comes at the end.
unfoldable pub inject : Bytes → ℕ → ℕ → List Bytes → List Bytes
inject needle needle_before needle_after [] = [] ∷ []
inject needle needle_before needle_after (s ∷ src) = elim (find_needle s needle) [
  | none ↦ s ∷ inject needle needle_before needle_after src
  | some offset ↦
      take (offset + needle_before) s ∷ drop (offset + length needle - needle_after) s ∷ src
]

unfoldable pub replace : Bytes → List Bytes → List Bytes
replace needle = inject needle 0 0

-- `replace` of a part of the needle only.
unfoldable pub replace_part : Bytes → Bytes → List Bytes → List Bytes
unfolding find
replace_part needle subneedle src = elim (find needle subneedle) [
  | none ↦ src
  | some offset ↦ inject needle offset (length needle - offset - length subneedle) src
]

unfoldable pub inject_before : Bytes → List Bytes → List Bytes
inject_before needle = inject needle 0 (length needle)

unfoldable pub inject_after : Bytes → List Bytes → List Bytes
inject_after needle = inject needle (length needle) 0

-- `InstantiatedStringTemplate<N>`: N + 1 segments, and N texts for the gaps.
pub record Instantiated : Type 0 where
  pub src : List Bytes
  pub extra : List Bytes

abbrev empties : ℕ → List Bytes
empties zero = []
empties (suc n) = [] ∷ empties n

-- The array is `size` long: more segments throw, which is no result here, fewer leave it empty.
abbrev filled : ℕ → List Bytes → Option (List Bytes)
filled size [] = some (empties size)
filled zero (s ∷ segments) = none
filled (suc size) (s ∷ segments) = elim (filled size segments) [
  | none ↦ none
  | some rest ↦ some (s ∷ rest)
]

unfoldable pub instantiate : ℕ → List Bytes → Option Instantiated
instantiate n segments = elim (filled (suc n) segments) [
  | none ↦ none
  | some src ↦ some (record { src = src; extra = empties n })
]

-- `at` throws out of range.
unfoldable pub set_at : ℕ → Bytes → List Bytes → Option (List Bytes)
set_at i text [] = none
set_at zero text (e ∷ extra) = some (text ∷ extra)
set_at (suc i) text (e ∷ extra) = elim (set_at i text extra) [
  | none ↦ none
  | some rest ↦ some (e ∷ rest)
]

unfoldable pub set_extra : ℕ → Bytes → Instantiated → Option Instantiated
unfolding set_at
set_extra i text t = elim (set_at i text t.extra) [
  | none ↦ none
  | some extra ↦ some (record t { extra = extra })
]

-- A buffer that is not empty.
abbrev pub buffer : Bytes → List Bytes
buffer s = if is_empty s then [] else s ∷ []

-- The loop of `data`: a gap, a segment, and so on.
unfoldable pub interleave : List Bytes → List Bytes → List Bytes
interleave (s ∷ src) (e ∷ extra) = buffer e ++ (buffer s ++ interleave src extra)
interleave src extra = []

unfoldable pub data_ : Instantiated → List Bytes
unfolding interleave
data_ t = elim t.src [ [] ↦ [] | s ∷ src ↦ s ∷ interleave src t.extra ]

-- All bytes of a list of buffers.
unfoldable pub joined : List Bytes → Bytes
joined [] = []
joined (s ∷ bufs) = s ++ joined bufs

unfoldable pub str : Instantiated → Bytes
unfolding data_ joined
str t = joined (data_ t)
