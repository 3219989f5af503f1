-- ===== src/Nanopb/Message/Encode/Sizes.antt =====
-- `pb_get_encoded_size` of CardPang/Pods/nanopb/pb_encode.c against `pb_encode` on a buffer.
use card_pang.Common.{
  ℕ, ◌+◌, ◌^◌, ◌≤◌, ◌<◌, ◌≡◌, refl, ap, sym, subst, ◌∙◌, ◌⊎◌, inl, inr, Option, none, some, List,
  ◌++◌, length, ltb, ltb→lt, arith, Bool-cases,
}
use mathlib.Core.Option.{some-injective}
use card_pang.Nanopb.Types.{M, u64}
use card_pang.Nanopb.Output.{OStream, Buffer, pb_ostream_sizing}
use card_pang.Nanopb.Output.Bounds.{IsBuffer, written, written-emit, length-emit}
use card_pang.Nanopb.Message.{Program, counted_size}
use card_pang.Nanopb.Message.Measure.{Encodes, Settled}
use card_pang.Nanopb.Message.Encode.{pb_encode, pb_get_encoded_size}
use card_pang.Nanopb.Message.Encode.Submessage.{pb_ostream_sizing-IsSizing}
use card_pang.Nanopb.Message.Encode.Settled.{IsPure, pb_encode-Settled}

-- The outcome of a write to a buffer: the bytes are written behind what was there, or there is no
-- room for them and it fails, or their number with the buffer's size does not fit `size_t`.
abbrev pub Outcome : OStream Buffer → List ℕ → Option (Unit {0}) × OStream Buffer → Type 0
Outcome s bs r =
    ((s.bytes_written + length bs ≤ s.max_size)
      × (r.0 ≡ some tt)
      × (written r.1 ≡ written s ++ bs)
      × (r.1.bytes_written ≡ s.bytes_written + length bs))
    ⊎ ((s.max_size < s.bytes_written + length bs) × (r.0 ≡ none))
    ⊎ (2 ^ 64 ≤ s.max_size + length bs)

Encodes-Outcome :
    (m : M (OStream Buffer) (Unit {0})) (bs : List ℕ) (s : OStream Buffer)
    → Encodes m bs
    → IsBuffer s
    → s.errmsg ≡ none
    → Outcome s bs (m s)
Encodes-Outcome m bs s h v e = elim (Bool-cases (ltb s.max_size (s.bytes_written + length bs))) [
  | inr fits ↦
      let room : s.bytes_written + length bs ≤ s.max_size = ground (arith, fits) in
      inl (
        subst
          (λ r.
            (s.bytes_written + length bs ≤ s.max_size)
            × (r.0 ≡ some tt)
            × (written r.1 ≡ written s ++ bs)
            × (r.1.bytes_written ≡ s.bytes_written + length bs))
          (sym (h.appends s v e room)) (room, refl, written-emit s bs v room, (length-emit s bs).0))
  | inl full ↦ elim (Bool-cases (ltb (s.max_size + length bs) (2 ^ 64))) [
    | inl small ↦
        inr (inl (ltb→lt _ _ full, h.overflows s v e (ltb→lt _ _ full) (ltb→lt _ _ small)))
    | inr large ↦ inr (inr (ground (arith, large)))
  ]
]

counted_size-some :
    (m : M (OStream Buffer) (Unit {0})) (null : Buffer) (n : ℕ)
    → Settled m
    → counted_size (m (pb_ostream_sizing null)) ≡ some n
    → (bs : List ℕ) × Encodes m bs × (n ≡ u64 (length bs))
unfolding pb_ostream_sizing
counted_size-some m null n (inl (bs, h)) e =
    let zero_more : 0 + length bs ≡ length bs = omega arith in
    (
      bs,
      h,
      some-injective _ _ (
            sym e
            ∙ ap counted_size (h.counts (pb_ostream_sizing null) (pb_ostream_sizing-IsSizing null)))
          ∙ ap u64 zero_more,
    )
counted_size-some m null n (inr h) e = absurd (
    failed (m (pb_ostream_sizing null))
      (h (pb_ostream_sizing null) (pb_ostream_sizing-IsSizing null)) e)
  where
    failed : (r : Option (Unit {0}) × OStream Buffer) → r.0 ≡ none → counted_size r ≡ some n → ⊥
    failed (none, s) d f = ground (arith, f)
    failed (some u, s) d f = ground (arith, d)

-- The user's functions write the same bytes to any stream, and `pb_get_encoded_size` returns n. Then
-- there are bytes whose number, modulo 2^64, is n, and `pb_encode` on a valid buffer stream without
-- an error writes just these bytes if there is room for them, and fails if there is not; or their
-- number with the buffer's size does not fit `size_t`.
pub pb_encode-pb_get_encoded_size :
    (null : Buffer) (program : Program Buffer) (mem : List ℕ)
    → IsPure program
    → (depth fields src n : ℕ) (s : OStream Buffer)
    → pb_get_encoded_size null program mem depth fields src ≡ some n
    → IsBuffer s
    → s.errmsg ≡ none
    → (bs : List ℕ) × (n ≡ u64 (length bs))
      × Outcome s bs (pb_encode null program mem depth fields src s)
unfolding pb_get_encoded_size
pb_encode-pb_get_encoded_size null program mem pure depth fields src n s e v fresh =
    let m = pb_encode null program mem depth fields src in
    let (bs, h, size) =
      counted_size-some m null n (pb_encode-Settled null program mem pure depth fields src) e in
    (bs, size, Encodes-Outcome m bs s h v fresh)
