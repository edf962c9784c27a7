-- ===== src/StringTemplate/Laws.antt =====
-- The segments of src/server/util/StringTemplate.cc, and what comes out of them.
use hearty_rabbit.Prelude.{
  ℕ, suc, ◌+◌, ◌-◌, ◌≡◌, ◌⊎◌, inl, inr, refl, sym, ap, ◌∙◌, List, [], ◌∷◌, ◌++◌, append_assoc,
  append-nil, Option, none, some, Bytes, length, length-append, take, drop, take-append,
  drop-append, take-append-drop, arith, Option-cases, Bool-cases, is_prefix, is_prefix_sound,
}
use hearty_rabbit.Escape.Split.{find}
use hearty_rabbit.StringTemplate.{
  find_needle, inject, joined, interleave, data_, str, buffer, instantiate, set_extra, set_at,
}

-- Where a text is found, with what stands before it and behind it.
find_at :
    (s needle : Bytes) (i : ℕ)
    → find s needle ≡ some i
    → (a : Bytes) × (b : Bytes) × (length a ≡ i) × (s ≡ a ++ (needle ++ b))
unfolding find
find_at [] [] i h = ([], [], ground arith, refl)
find_at [] (d ∷ needle) i h = cc
find_at (c ∷ s) needle i h = elim (Bool-cases (is_prefix needle (c ∷ s))) [
  | inl p ↦ ([], drop (length needle) (c ∷ s), ground arith, is_prefix_sound needle (c ∷ s) p)
  | inr n ↦ elim (Option-cases (find s needle)) [
    | inl e ↦ let none_some : none ≡ some i = ground arith in cc
    | inr (j, e) ↦
        let k : i ≡ suc j = ground arith in
        let (a, b, f, g) = find_at s needle j e in (c ∷ a, b, rw (f, k), ap (λ t. c ∷ t) g)
  ]
]

find_needle_at :
    (s needle : Bytes) (i : ℕ)
    → find_needle s needle ≡ some i
    → (a : Bytes) × (b : Bytes) × (length a ≡ i) × (s ≡ a ++ (needle ++ b))
unfolding find_needle
find_needle_at s [] i h = cc
find_needle_at s (c ∷ needle) i h = find_at s (c ∷ needle) i h

inject_found :
    (needle : Bytes) (b a : ℕ) (s : Bytes) (src : List Bytes) (i : ℕ)
    → find_needle s needle ≡ some i
    → inject needle b a (s ∷ src) ≡ take (i + b) s ∷ drop (i + length needle - a) s ∷ src
unfolding inject
inject_found needle b a s src i e = rw (e, inject)

inject_end : (needle : Bytes) (b a : ℕ) → inject needle b a [] ≡ [] ∷ []
unfolding inject
inject_end needle b a = refl

inject_missed :
    (needle : Bytes) (b a : ℕ) (s : Bytes) (src : List Bytes)
    → find_needle s needle ≡ none
    → inject needle b a (s ∷ src) ≡ s ∷ inject needle b a src
unfolding inject
inject_missed needle b a s src e = rw (e, inject)

-- Where the two new segments share the needle between them, no byte is lost.
pub joined-inject :
    (needle : Bytes) (b a : ℕ) (src : List Bytes)
    → b + a ≡ length needle
    → joined (inject needle b a src) ≡ joined src
unfolding joined
joined-inject needle b a [] h = unfold inject in refl
joined-inject needle b a (s ∷ src) h = elim (Option-cases (find_needle s needle)) [
  | inl e ↦ rw (inject_missed needle b a s src e, joined-inject needle b a src h)
  | inr (i, e) ↦
      let same : i + length needle - a ≡ i + b = omega arith in
      rw (inject_found needle b a s src i e, same)
        (sym (append_assoc (take (i + b) s) (drop (i + b) s) (joined src))
          ∙ ap (λ t. t ++ joined src) (take-append-drop (i + b) s))
]

-- A template with one gap, filled.
unfoldable pub rendered : List Bytes → Bytes → Option Bytes
rendered segments text = elim (instantiate 1 segments) [
  | none ↦ none
  | some t ↦ elim (set_extra 0 text t) [ none ↦ none | some u ↦ some (str u) ]
]

joined-buffer : (e : Bytes) (bufs : List Bytes) → joined (buffer e ++ bufs) ≡ e ++ joined bufs
unfolding joined
joined-buffer [] bufs = refl
joined-buffer (c ∷ e) bufs = refl

two_segments : (s t text : Bytes) → rendered (s ∷ t ∷ []) text ≡ some (s ++ (text ++ t))
unfolding rendered instantiate set_extra set_at str data_ interleave joined
two_segments s t text =
    rw (joined-buffer text, append-nil)
      (ap (λ r. some (s ++ (text ++ r)))
        (ap joined (sym (append-nil (buffer t))) ∙ (joined-buffer t [] ∙ append-nil t)))

-- What is before the middle part of a needle, and what is behind it.
before_part : (a p rest : Bytes) → take (length a + length p) (a ++ (p ++ rest)) ≡ a ++ p
before_part a p rest =
    rw (sym (length-append a p), sym (append_assoc a p rest)) (take-append (a ++ p) rest)

behind_part :
    (a p m rest : Bytes) → drop (length a + (length p + length m)) (a ++ (p ++ (m ++ rest))) ≡ rest
behind_part a p m rest =
    let shape : a ++ (p ++ (m ++ rest)) ≡ (a ++ (p ++ m)) ++ rest =
      rw (append_assoc, append_assoc) in
    let size : length a + (length p + length m) ≡ length (a ++ (p ++ m)) =
      omega (arith, length-append a (p ++ m), length-append p m) in
    rw (shape, size) (drop-append (a ++ (p ++ m)) rest)

parts :
    (a p m q b needle file text : Bytes) (i : ℕ)
    → needle ≡ p ++ (m ++ q)
    → length a ≡ i
    → file ≡ a ++ (needle ++ b)
    → take (i + length p) file ++ (text ++ drop (i + length needle - length q) file)
      ≡ a ++ (p ++ (text ++ (q ++ b)))
parts a p m q b needle file text i h l f =
    let shape : file ≡ a ++ (p ++ (m ++ (q ++ b))) = rw (f, h, append_assoc, append_assoc) in
    let size : i + length needle - length q ≡ length a + (length p + length m) =
      omega (arith, ap length h, length-append p (m ++ q), length-append m q, l) in
    rw (
      size,
      shape,
      behind_part a p m (q ++ b),
      sym l,
      before_part a p (m ++ (q ++ b)),
      append_assoc,
    )

-- A needle of three parts: a text put at its middle part takes the place of that part in the first
-- occurrence of the needle, or it comes behind everything.
pub rendered-inject :
    (needle p m q file text : Bytes)
    → needle ≡ p ++ (m ++ q)
    → ((find_needle file needle ≡ none)
        × (rendered (inject needle (length p) (length q) (file ∷ [])) text ≡ some (file ++ text)))
      ⊎ ((a : Bytes) × (b : Bytes) × (file ≡ a ++ (needle ++ b))
          × (rendered (inject needle (length p) (length q) (file ∷ [])) text
              ≡ some (a ++ (p ++ (text ++ (q ++ b))))))
rendered-inject needle p m q file text h = elim (Option-cases (find_needle file needle)) [
  | inl e ↦ inl (
    e,
    rw (inject_missed needle (length p) (length q) file [] e, inject_end, two_segments, append-nil),
  )
  | inr (i, e) ↦
      let (a, b, l, f) = find_needle_at file needle i e in
      inr (
        a,
        b,
        f,
        rw (inject_found needle (length p) (length q) file [] i e, two_segments)
            (ap some (parts a p m q b needle file text i h l f)),
      )
]
