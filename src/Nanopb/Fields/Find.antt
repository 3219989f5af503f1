-- ===== src/Nanopb/Fields/Find.antt =====
-- The walk of CardPang/Pods/nanopb/pb_common.c round a table, and its search for a field.
use card_pang.Common.{
  ◌&&◌, not, ℕ, zero, suc, ◌+◌, ◌≤◌, ◌<◌, ◌≡◌, ◌≢◌, refl, ap, sym, subst, ◌∙◌, ◌⊎◌, inl, inr, Bool,
  true, false, List, [], ◌∷◌, length, ◌==◌, ==_iff, arith, Bool-cases,
}
use card_pang.Nanopb.Types.{PbField, pb_ltype, ltype_extension}
use card_pang.Nanopb.Fields.{
  FieldIter, field_at, current, in_union, move_pointers, pb_field_iter_begin, pb_field_iter_next,
  is_wanted, find_rounds, pb_field_iter_find, find_extension_field,
}

-- A table of `n` fields, of which there is one, with its terminator.
pub record IsTable (fields : List PbField) (n : ℕ) : Type 0 where
  pub some_field : 0 < n
  pub present : (i : ℕ) → i < n → (field_at fields i).tag ≢ 0
  pub terminated : (field_at fields n).tag ≡ 0

field_at-lt : (fields : List PbField) (i : ℕ) → (field_at fields i).tag ≢ 0 → i < length fields
field_at-lt [] i h = absurd (h refl)
field_at-lt (field ∷ fields) zero h = omega arith
field_at-lt (field ∷ fields) (suc i) h = omega (arith, field_at-lt fields i h)

pub IsTable-length : (n : ℕ) (fields : List PbField) → IsTable fields n → n ≤ length fields
IsTable-length zero fields v = omega arith
IsTable-length (suc n) fields v = field_at-lt fields n (v.present n (omega arith))

pub not_zero : (t : ℕ) → t ≢ 0 → (t == 0) ≡ false
not_zero t h = ground (arith, h)

move_pointers-pos :
    (prev next : PbField) (iter : FieldIter)
    → ((move_pointers prev next iter).pos ≡ iter.pos)
      × ((move_pointers prev next iter).start ≡ iter.start)
move_pointers-pos prev next iter = elim (Bool-cases (in_union prev next)) [
  | inl same ↦ rw same (refl, refl)
  | inr moves ↦ rw moves (refl, refl)
]

pub pb_field_iter_next-start : (iter : FieldIter) → (pb_field_iter_next iter).1.start ≡ iter.start
unfolding pb_field_iter_next pb_field_iter_begin
pb_field_iter_next-start iter =
    let moved = record iter { pos = suc iter.pos } in
    elim (Bool-cases ((field_at iter.start iter.pos).tag == 0)) [
      | inl empty ↦ rw empty refl
      | inr more ↦ elim (Bool-cases ((field_at iter.start (suc iter.pos)).tag == 0)) [
        | inl wrapped ↦ rw (more, wrapped) refl
        | inr on ↦ rw (more, on) (move_pointers-pos (current iter) (current moved) moved).1
      ]
    ]

-- A step goes to the field behind, or from the last one to the first.
module _ (n : ℕ) (iter : FieldIter) (v : IsTable iter.start n) where
  pub next-moves :
      suc iter.pos < n
      → (pb_field_iter_next iter).0 ≡ true
        × ((pb_field_iter_next iter).1.pos ≡ suc iter.pos)
        × ((pb_field_iter_next iter).1.start ≡ iter.start)
  unfolding pb_field_iter_next
  next-moves h =
      rw
        (
          not_zero (field_at iter.start iter.pos).tag (v.present iter.pos (omega arith)),
          not_zero (field_at iter.start (suc iter.pos)).tag (v.present (suc iter.pos) h),
        )
        (let moved = record iter { pos = suc iter.pos } in
          let r = move_pointers-pos (current iter) (current moved) moved in (refl, r.0, r.1))

  pub next-wraps :
      suc iter.pos ≡ n
      → (pb_field_iter_next iter).0 ≡ false
        × ((pb_field_iter_next iter).1.pos ≡ 0)
        × ((pb_field_iter_next iter).1.start ≡ iter.start)
  unfolding pb_field_iter_next pb_field_iter_begin
  next-wraps h =
      let last : ((field_at iter.start (suc iter.pos)).tag == 0) ≡ true =
        (==_iff _ 0).1 (ap (λ i. (field_at iter.start i).tag) h ∙ v.terminated) in
      rw (not_zero (field_at iter.start iter.pos).tag (v.present iter.pos (omega arith)), last)
        (refl, refl, refl)

-- No field of a table of `n` fields passes a test.
abbrev pub AllFail : (PbField → Bool) → ℕ → List PbField → Type 0
AllFail wanted zero fields = Unit
AllFail wanted (suc n) fields = (wanted (field_at fields n) ≡ false) × AllFail wanted n fields

AllFail-of :
    (wanted : PbField → Bool) (n : ℕ) (fields : List PbField)
    → ((i : ℕ) → i < n → wanted (field_at fields i) ≡ false)
    → AllFail wanted n fields
AllFail-of wanted zero fields h = tt
AllFail-of wanted (suc n) fields h =
    (h n (omega arith), AllFail-of wanted n fields (λ i l. h i (omega arith)))

-- The outcome of a search that began at place `p`.
abbrev pub FindOutcome : (PbField → Bool) → ℕ → List PbField → ℕ → Bool × FieldIter → Type 0
FindOutcome wanted n fields p r =
    ((r.0 ≡ true) × (r.1.pos < n) × (wanted (field_at fields r.1.pos) ≡ true))
    ⊎ ((r.0 ≡ false) × (r.1.pos ≡ p) × AllFail wanted n fields)

-- The places that `k` rounds from `p` have left behind.
abbrev Passed : ℕ → ℕ → ℕ → ℕ → Type 0
Passed n p k i = ((p ≤ i) × (i < p + k)) ⊎ (i + n < p + k)

Passed-suc :
    (n p k i pos : ℕ)
    → i < n
    → pos < n
    → (pos ≡ p + k) ⊎ (pos + n ≡ p + k)
    → Passed n p (suc k) i
    → Passed n p k i ⊎ (i ≡ pos)
Passed-suc n p k i pos hi hp place passed = ground (arith, place, passed)

Passed-all : (n p i : ℕ) → p < n → i < n → Passed n p n i
Passed-all n p i hp hi = ground arith

module _ (wanted : PbField → Bool) (n p : ℕ) (hp : p < n) where
  -- Where the iterator stands after a round, and whether that is where it began.
  next_place :
      (k : ℕ) (iter : FieldIter)
      → IsTable iter.start n
      → k < n
      → iter.pos < n
      → (iter.pos ≡ p + k) ⊎ (iter.pos + n ≡ p + k)
      → ((pb_field_iter_next iter).1.start ≡ iter.start)
        × ((pb_field_iter_next iter).1.pos < n)
        × (((pb_field_iter_next iter).1.pos ≡ p + suc k)
            ⊎ ((pb_field_iter_next iter).1.pos + n ≡ p + suc k))
  next_place k iter v hk h place = elim (Bool-cases (suc iter.pos == n)) [
    | inl last ↦
        let r = next-wraps n iter v ((==_iff _ _).0 last) in
        (r.2, ground (arith, r.1), ground (arith, r.1, place, last, ==_iff (suc iter.pos) n))
    | inr more ↦
        let r = next-moves n iter v (ground (arith, more)) in
        (r.2, ground (arith, r.1, more), ground (arith, r.1, place))
  ]

  round_ends :
      (k i pos : ℕ)
      → i < n
      → (pos ≡ p + suc k) ⊎ (pos + n ≡ p + suc k)
      → pos ≡ p
      → Passed n p (suc k) i
  round_ends k i pos hi there e = ground (arith, there)

  not_round :
      (k pos : ℕ)
      → k < n
      → (pos ≡ p + suc k) ⊎ (pos + n ≡ p + suc k)
      → (pos == p) ≡ false
      → pos < n
      → suc k < n
  not_round k pos hk there e h = ground (arith, there, e)

  find_rounds-FindOutcome :
      (rounds k : ℕ) (iter : FieldIter)
      → IsTable iter.start n
      → k < n
      → iter.pos < n
      → (iter.pos ≡ p + k) ⊎ (iter.pos + n ≡ p + k)
      → ((i : ℕ) → i < n → Passed n p k i → wanted (field_at iter.start i) ≡ false)
      → n ≤ rounds + k
      → FindOutcome wanted n iter.start p (find_rounds wanted rounds p iter)
  unfolding find_rounds
  find_rounds-FindOutcome zero k iter v hk h place old enough = absurd (omega arith)
  find_rounds-FindOutcome (suc rounds) k iter v hk h place old enough =
      elim (Bool-cases (wanted (current iter))) [
        | inl found ↦ rw found (inl (refl, h, found))
        | inr other ↦
            let (same, inside, there) = next_place k iter v hk h place in
            let passed : (i : ℕ)
                → i < n
                → Passed n p (suc k) i
                → wanted (field_at iter.start i) ≡ false =
              λ i hi q. elim (Passed-suc n p k i iter.pos hi h place q) [
                | inl before ↦ old i hi before
                | inr now ↦ ap (λ t. wanted (field_at iter.start t)) now ∙ other
              ] in
            let next = (pb_field_iter_next iter).1 in
            rw other (elim (Bool-cases ((pb_field_iter_next iter).1.pos == p)) [
              | inl round ↦ rw round (
                  inr (
                    refl,
                    (==_iff _ _).0 round,
                    AllFail-of wanted n iter.start (λ i hi. passed i hi (
                        round_ends k i (pb_field_iter_next iter).1.pos hi there
                          ((==_iff _ _).0 round))),
                  ))
              | inr on ↦ rw on (
                  subst (λ fields. FindOutcome wanted n fields p (find_rounds wanted rounds p next))
                    same
                    (find_rounds-FindOutcome rounds (suc k) next
                      (subst (λ fields. IsTable fields n) (sym same) v)
                      (not_round k next.pos hk there on inside) inside there
                      (λ i hi q. ap (λ fields. wanted (field_at fields i)) same ∙ passed i hi q)
                      (omega arith)))
            ])
      ]

-- `pb_field_iter_find` on an iterator over a table of fields ends. It finds a field with the tag that
-- is not an extension and stands there, or no field of the table is one and it stands where it was.
pub pb_field_iter_find-FindOutcome :
    (tag n : ℕ) (iter : FieldIter)
    → IsTable iter.start n
    → iter.pos < n
    → FindOutcome
        (λ field. field.tag == tag && not (pb_ltype field.type_bits == ltype_extension))
        n
        iter.start
        iter.pos
        (pb_field_iter_find tag iter)
unfolding pb_field_iter_find
pb_field_iter_find-FindOutcome tag n iter v h =
    find_rounds-FindOutcome (is_wanted tag) n iter.pos h (length iter.start) 0 iter v v.some_field h
      (inl (omega arith)) (λ i hi q. absurd (ground (arith, q)))
      (omega (arith, IsTable-length n iter.start v))

-- `find_extension_field` on an iterator over a table of fields ends. It finds a field of the type for
-- extensions and stands there, or no field of the table has it and it stands where it was.
pub find_extension_field-FindOutcome :
    (n : ℕ) (iter : FieldIter)
    → IsTable iter.start n
    → iter.pos < n
    → FindOutcome
        (λ field. pb_ltype field.type_bits == ltype_extension)
        n
        iter.start
        iter.pos
        (find_extension_field iter)
unfolding find_extension_field
find_extension_field-FindOutcome n iter v h =
    find_rounds-FindOutcome (λ field. pb_ltype field.type_bits == ltype_extension) n iter.pos h
      (length iter.start) 0 iter v v.some_field h (inl (omega arith))
      (λ i hi q. absurd (ground (arith, q))) (omega (arith, IsTable-length n iter.start v))
