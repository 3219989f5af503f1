-- ===== src/Nanopb/Message/Seen/Required.antt =====
-- The fields that `pb_decode_noinit` of CardPang/Pods/nanopb/pb_decode.c has seen.
use card_pang.Common.{
  ℕ, zero, suc, ◌+◌, ◌-◌, ◌*◌, ◌/◌, ◌%◌, ◌^◌, ◌<◌, ◌≤◌, ◌≡◌, refl, ap, ◌∙◌, ◌↔◌, Bool, true, false,
  ◌&&◌, ◌||◌, List, [], ◌∷◌, All, ltb, ◌==◌, ==_iff, lt→ltb, le→ltb, sym, if◌then◌else◌, Bool-cases,
  inl, inr, arith,
}
use card_pang.Nanopb.Message.Seen.{see, word, all_whole, all_seen}
use card_pang.Nanopb.Message.Seen.Bits.{bit, set-bit, full_word, ones_of, bit-zero, both, part_iff}

-- `i` is one of the indices.
abbrev pub elem : ℕ → List ℕ → Bool
elem i [] = false
elem i (k ∷ is) = k == i || elem i is

-- `fields_seen` after the fields with these indices, the last one first.
abbrev pub sees : List ℕ → ℕ × ℕ
sees [] = (0, 0)
sees (i ∷ is) = see i (sees is)

abbrev one : Bool → ℕ
one b = if b then 1 else 0

see-bit :
    (v i j : ℕ) (s : ℕ × ℕ)
    → v < 2
    → i < 64
    → bit (word v (see i s)) j ≡ (if i / 32 == v && i % 32 == j then 1 else bit (word v s) j)
see-bit v i j (low, high) hv hi = elim (Bool-cases (i / 32 == 0)) [
  | inl e ↦ elim (Bool-cases (v == 0)) [
    | inl z ↦ rw (e, z) (let b = set-bit low (i % 32) j in ground (arith, b, e, z))
    | inr z ↦ rw (e, z) (ground (arith, e, z, hv))
  ]
  | inr e ↦ elim (Bool-cases (v == 0)) [
    | inl z ↦ rw (e, z) (ground (arith, e, z, hi))
    | inr z ↦ rw (e, z) (let b = set-bit high (i % 32) j in ground (arith, b, e, z, hi, hv))
  ]
]

place : (i v j : ℕ) → (i / 32 == v && i % 32 == j) ≡ (ltb j 32 && i == 32 * v + j)
place i v j = ground arith

or_one : (a b c : Bool) (x : ℕ) → x ≡ one (a && c) → (if a && b then 1 else x) ≡ one (a && (b || c))
or_one true true c x e = refl
or_one true false c x e = e
or_one false b c x e = e

sees-bit :
    (is : List ℕ) (v j : ℕ)
    → v < 2
    → All (λ i. i < 64) is
    → bit (word v (sees is)) j ≡ one (ltb j 32 && elem (32 * v + j) is)
sees-bit [] v j hv h = elim (Bool-cases (v == 0)) [
  | inl z ↦ rw z (ground (arith, bit-zero j))
  | inr z ↦ rw z (ground (arith, bit-zero j))
]
sees-bit (i ∷ is) v j hv h =
    see-bit v i j (sees is) hv h.0
    ∙ ap (λ b. if b then 1 else bit (word v (sees is)) j) (place i v j)
    ∙ or_one (ltb j 32) (i == 32 * v + j) (elem (32 * v + j) is) (bit (word v (sees is)) j)
        (sees-bit is v j hv h.1)

all_whole_iff :
    (w : ℕ) (s : ℕ × ℕ) → (all_whole w s ≡ true) ↔ ((v : ℕ) → v < w → word v s ≡ 2 ^ 32 - 1)
unfolding all_whole
all_whole_iff zero s = ((λ _ v h. absurd (omega (arith, h))), (λ _. refl))
all_whole_iff (suc w) s =
    let (to, from) = all_whole_iff w s in
    let (split, join) = both (all_whole w s) (word w s == 2 ^ 32 - 1) in
    (
      (λ e v h.
          let (below, here) = split e in
          elim (Bool-cases (v == w)) [
            | inl same ↦ ap (λ n. word n s) ((==_iff v w).0 same) ∙ (==_iff _ _).0 here
            | inr other ↦ to below v (ground (arith, other, h))
          ]),
      (λ all. join (from (λ v h. all v (omega (arith, h))), (==_iff _ _).1 (all w (omega arith)))),
    )

elem-above : (count i : ℕ) (is : List ℕ) → All (λ k. k < count) is → count ≤ i → elem i is ≡ false
elem-above count i [] h above = refl
elem-above count i (k ∷ is) h above =
    let rest = elem-above count i is h.1 above in ground (arith, rest, h.0, above)

below_64 : (count : ℕ) (is : List ℕ) → count ≤ 64 → All (λ k. k < count) is → All (λ k. k < 64) is
below_64 count [] h all = tt
below_64 count (k ∷ is) h all = (omega (arith, h, all.0), below_64 count is h all.1)

one_iff : (b : Bool) → (one b ≡ 1) ↔ (b ≡ true)
one_iff true = ((λ _. refl), (λ _. refl))
one_iff false = ((λ h. absurd (omega (arith, h))), (λ h. absurd (ground (arith, h))))

module _ (count : ℕ) (is : List ℕ) (h : count ≤ 64) (all : All (λ i. i < count) is) where
  -- The bit of an index below 64.
  index-bit :
      (i v j : ℕ)
      → v < 2
      → j < 32
      → i ≡ 32 * v + j
      → (bit (word v (sees is)) j ≡ 1) ↔ (elem i is ≡ true)
  index-bit i v j hv hj e =
      let value = sees-bit is v j hv (below_64 count is h all) in
      let (to, from) = one_iff (elem i is) in
      let same : one (ltb j 32 && elem (32 * v + j) is) ≡ one (elem i is) =
        rw (lt→ltb j 32 hj, e) in
      ((λ b. to (sym (value ∙ same) ∙ b)), (λ b. value ∙ same ∙ from b))

  rest-zeros : 0 < count % 32 → (j : ℕ) → count % 32 ≤ j → bit (word (count / 32) (sees is)) j ≡ 0
  rest-zeros some_left j above =
      sees-bit is (count / 32) j (omega (arith, h, some_left)) (below_64 count is h all)
      ∙ elim (Bool-cases (ltb j 32)) [
        | inl low ↦ rw (low, elem-above count (32 * (count / 32) + j) is all (omega (arith, above)))
        | inr high ↦ rw high
      ]

  high-zeros : (v : ℕ) → v < 2 → (j : ℕ) → 32 ≤ j → bit (word v (sees is)) j ≡ 0
  high-zeros v hv j above = sees-bit is v j hv (below_64 count is h all) ∙ rw (le→ltb j 32 above)

  seen_to : all_seen count (sees is) ≡ true → (i : ℕ) → i < count → elem i is ≡ true
  unfolding all_seen
  seen_to e i below =
      let (whole, part) = (both (all_whole (count / 32) (sees is)) _).0 e in
      let ones =
        (part_iff (count % 32) (word (count / 32) (sees is)) (omega arith) rest-zeros).0 part in
      (index-bit i (i / 32) (i % 32) (omega (arith, h, below)) (omega arith) (omega arith)).0
        (elim (Bool-cases (i / 32 == count / 32)) [
          | inl same ↦
              let q = (==_iff (i / 32) (count / 32)).0 same in
              rw q (ones (i % 32) (omega (arith, q, below)))
          | inr other ↦
              let full =
                (all_whole_iff (count / 32) (sees is)).0 whole (i / 32)
                  (ground (arith, other, below)) in
              ones_of 32 (word (i / 32) (sees is)) (i % 32) (omega (arith, full)) (omega arith)
        ])

  seen_from : ((i : ℕ) → i < count → elem i is ≡ true) → all_seen count (sees is) ≡ true
  unfolding all_seen
  seen_from here = (both (all_whole (count / 32) (sees is)) _).1 (
    (all_whole_iff (count / 32) (sees is)).1 (λ v low.
        let hv : v < 2 = omega (arith, h, low) in
        let full =
          full_word 32 (word v (sees is))
            (λ j hj.
              (index-bit (32 * v + j) v j hv hj refl).1
                (here (32 * v + j) (omega (arith, low, hj))))
            (high-zeros v hv) in
        omega (arith, full)),
    (part_iff (count % 32) (word (count / 32) (sees is)) (omega arith) rest-zeros).1 (λ j hj.
        (index-bit (32 * (count / 32) + j) (count / 32) j (omega (arith, h, hj)) (omega (arith, hj))
            refl).1
          (here (32 * (count / 32) + j) (omega (arith, hj)))),
  )

-- The indices of the required fields of a message that were seen, all below a number of at most 64, are
-- all numbers below it exactly when the check of the words and of the bits that are left succeeds.
pub all_seen-sees :
    (count : ℕ) (is : List ℕ)
    → count ≤ 64
    → All (λ i. i < count) is
    → (all_seen count (sees is) ≡ true) ↔ ((i : ℕ) → i < count → elem i is ≡ true)
all_seen-sees count is h all = (seen_to count is h all, seen_from count is h all)
