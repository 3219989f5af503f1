-- ===== src/Nanopb/Message/Measure.antt =====
-- What a computation of CardPang/Pods/nanopb/pb_encode.c does to a sizing stream and to a buffer,
-- and how that goes through sequences, tests and loops.
use card_pang.Common.{
  ℕ, zero, suc, ◌+◌, ◌*◌, ◌^◌, ◌≤◌, ◌<◌, ◌≡◌, refl, ap, sym, ◌∙◌, ◌⊎◌, inl, inr, Bool, true, false,
  Option, none, some, List, [], ◌++◌, length, length-append, arith, ltb, ltb→lt, Bool-cases,
  if◌then◌else◌,
}
use native.Mathlib.Nat.{mul-suc}
use card_pang.Nanopb.Types.{M, after, ◌>>◌, return, u64, ErrorMessage}
use card_pang.Nanopb.Output.{OStream, Buffer, fail, copy, fetch, pb_write}
use card_pang.Nanopb.Output.Bounds.{
  IsBuffer, emit, pb_write-emit, pb_write-refuse, emit-IsBuffer, emit-append, length-emit,
}
use card_pang.Nanopb.Output.Counts.{length-fetch, pb_write-fetch, pb_write-sizing}
use card_pang.Nanopb.Message.{give_up, starve, each_item, unless_sizing, or_error}

-- A stream that only counts, after `n` more bytes.
abbrev pub grown : ℕ → OStream Buffer → OStream Buffer
grown n s = record s { bytes_written = u64 (s.bytes_written + n) }

abbrev pub IsSizing : OStream Buffer → Type 0
IsSizing s = (s.callback ≡ none) × (s.bytes_written < 2 ^ 64)

grown-IsSizing : (n : ℕ) (s : OStream Buffer) → IsSizing s → IsSizing (grown n s)
grown-IsSizing n s h = (h.0, omega arith)

-- A sizing stream counts `bs`. A buffer without an error that has room takes just these bytes, and
-- on one without room the computation fails.
pub record Encodes (m : M (OStream Buffer) (Unit {0})) (bs : List ℕ) : Type 0 where
  pub counts : (s : OStream Buffer) → IsSizing s → m s ≡ (some tt, grown (length bs) s)
  pub appends :
      (s : OStream Buffer)
      → IsBuffer s
      → s.errmsg ≡ none
      → s.bytes_written + length bs ≤ s.max_size
      → m s ≡ (some tt, emit s bs)
  pub overflows :
      (s : OStream Buffer)
      → IsBuffer s
      → s.errmsg ≡ none
      → s.max_size < s.bytes_written + length bs
      → s.max_size + length bs < 2 ^ 64
      → (m s).0 ≡ none

-- A sizing stream fails.
abbrev pub Refuses : M (OStream Buffer) (Unit {0}) → Type 0
Refuses m = (s : OStream Buffer) → IsSizing s → (m s).0 ≡ none

abbrev pub Settled : M (OStream Buffer) (Unit {0}) → Type 0
Settled m = ((bs : List ℕ) × Encodes m bs) ⊎ Refuses m

pub fail-Settled : (msg : ErrorMessage) → Settled (fail msg)
fail-Settled msg = inr (λ s h. refl)

pub give_up-Settled : Settled give_up
give_up-Settled = inr (λ s h. refl)

pub starve-Settled : Settled starve
starve-Settled = inr (λ s h. refl)

emit-nil : (s : OStream Buffer) → emit s [] ≡ s
unfolding emit copy
emit-nil s = λ i. record s {
  state = record { memory = s.state.memory; position = zero_more s.state.position i };
  bytes_written = zero_more s.bytes_written i;
}
  where
    zero_more : (n : ℕ) → n + 0 ≡ n
    zero_more n = omega arith

pub return-Encodes : Encodes (return tt) []
return-Encodes = record {
  counts = λ s h. ap (λ n. (some tt, record s { bytes_written = n })) (omega (arith, h.1));
  appends = λ s v e h. ap (λ t. (some tt, t)) (sym (emit-nil s));
  overflows = λ s v e h k. absurd (omega (arith, v));
}

after-none :
    {A : Type 0} (r : Option (Unit {0}) × OStream Buffer) (f : Unit {0} → M (OStream Buffer) A)
    → r.0 ≡ none
    → (after r f).0 ≡ none
after-none (none, s) f h = refl
after-none (some u, s) f h = absurd (ground (arith, h))

emit-errmsg : (s : OStream Buffer) (bs : List ℕ) → (emit s bs).errmsg ≡ s.errmsg
unfolding emit
emit-errmsg s bs = refl

module _ {m k : M (OStream Buffer) (Unit {0})} where
  >>-Encodes : (xs ys : List ℕ) → Encodes m xs → Encodes k ys → Encodes (m >> k) (xs ++ ys)
  >>-Encodes xs ys hm hk = record {
    counts = λ s h.
        ap (λ r. after r (λ _. k)) (hm.counts s h)
        ∙ hk.counts (grown (length xs) s) (grown-IsSizing (length xs) s h)
        ∙ ap (λ n. (some tt, record s { bytes_written = n })) (omega (arith, length-append xs ys));
    appends = λ s v e h.
        let room_xs : s.bytes_written + length xs ≤ s.max_size =
          omega (arith, length-append xs ys) in
        then_k s v room_xs e
        ∙ hk.appends (emit s xs) (emit-IsBuffer s xs v room_xs) (emit-errmsg s xs ∙ e)
            (omega (arith, h, length-emit s xs, length-append xs ys))
        ∙ ap (λ t. (some tt, t)) (emit-append s xs ys);
    overflows = λ s v e h wide. elim (Bool-cases (ltb s.max_size (s.bytes_written + length xs))) [
      | inl full ↦
          after-none (m s) (λ _. k)
            (hm.overflows s v e (ltb→lt _ _ full) (omega (arith, wide, length-append xs ys)))
      | inr fits ↦
          let room_xs : s.bytes_written + length xs ≤ s.max_size = ground (arith, fits) in
          ap (λ r. r.0) (then_k s v room_xs e)
          ∙ hk.overflows (emit s xs) (emit-IsBuffer s xs v room_xs) (emit-errmsg s xs ∙ e)
              (omega (arith, h, length-emit s xs, length-append xs ys))
              (omega (arith, wide, length-emit s xs, length-append xs ys))
    ];
  }
    where
      then_k :
          (s : OStream Buffer)
          → IsBuffer s
          → s.bytes_written + length xs ≤ s.max_size
          → s.errmsg ≡ none
          → (m >> k) s ≡ k (emit s xs)
      then_k s v room e = ap (λ r. after r (λ _. k)) (hm.appends s v e room)

  pub >>-Settled : Settled m → Settled k → Settled (m >> k)
  >>-Settled (inr rm) hk = inr (λ s h. after-none (m s) (λ _. k) (rm s h))
  >>-Settled (inl (xs, hm)) (inl (ys, hk)) = inl (xs ++ ys, >>-Encodes xs ys hm hk)
  >>-Settled (inl (xs, hm)) (inr rk) = inr (λ s h.
      ap (λ r. (after r (λ _. k)).0) (hm.counts s h)
      ∙ rk (grown (length xs) s) (grown-IsSizing (length xs) s h))

pub choose-Settled :
    (b : Bool) {m k : M (OStream Buffer) (Unit {0})}
    → Settled m
    → Settled k
    → Settled (if b then m else k)
choose-Settled true hm hk = hm
choose-Settled false hm hk = hk

pub pb_write-Encodes : (buf : List ℕ) (count : ℕ) → Encodes (pb_write buf count) (fetch count buf)
pb_write-Encodes buf count = record {
  counts = λ s h.
      pb_write-sizing buf count s h.0
      ∙ ap (λ n. (some tt, grown n s)) (sym (length-fetch count buf));
  appends = λ s v e h. pb_write-fetch count buf s ∙ pb_write-emit s (fetch count buf) v h;
  overflows = λ s v e h wide.
      ap (λ r. r.0) (pb_write-fetch count buf s ∙ pb_write-refuse s (fetch count buf) v h wide);
}

pub or_error-Settled :
    (msg : ErrorMessage) (m : M (OStream Buffer) (Unit {0}))
    → Settled m
    → Settled (λ s. or_error msg (m s))
or_error-Settled msg m (inl (bs, h)) = inl (
  bs,
  record {
    counts = λ s k. ap (or_error msg) (h.counts s k);
    appends = λ s v e room. ap (or_error msg) (h.appends s v e room);
    overflows = λ s v e full wide. failed (m s) (h.overflows s v e full wide);
  },
)
  where
    failed : (r : Option (Unit {0}) × OStream Buffer) → r.0 ≡ none → (or_error msg r).0 ≡ none
    failed (none, s) e = refl
    failed (some u, s) e = absurd (ground (arith, e))
or_error-Settled msg m (inr h) = inr (λ s k. failed (m s) (h s k))
  where
    failed : (r : Option (Unit {0}) × OStream Buffer) → r.0 ≡ none → (or_error msg r).0 ≡ none
    failed (none, s) e = refl
    failed (some u, s) e = absurd (ground (arith, e))

-- Where a size is written ahead of the bytes: a sizing stream only adds it.
pub unless_sizing-Encodes :
    (m : M (OStream Buffer) (Unit {0})) (bs : List ℕ) (size : ℕ)
    → size ≡ u64 (length bs)
    → ((s : OStream Buffer)
        → IsBuffer s
        → s.errmsg ≡ none
        → s.bytes_written + length bs ≤ s.max_size
        → m s ≡ (some tt, emit s bs))
    → ((s : OStream Buffer)
        → IsBuffer s
        → s.errmsg ≡ none
        → s.max_size < s.bytes_written + length bs
        → s.max_size + length bs < 2 ^ 64
        → (m s).0 ≡ none)
    → Encodes (unless_sizing size m) bs
unless_sizing-Encodes m bs size e ha ho = record {
  counts = λ s h.
      ap (λ c. if elim c [ none ↦ true | some _ ↦ false ] then pb_write [] size s else m s) h.0
      ∙ pb_write-sizing [] size s h.0
      ∙ ap (λ n. (some tt, record s { bytes_written = n })) (omega (arith, e));
  appends = λ s v q room. real s v ∙ ha s v q room;
  overflows = λ s v q full wide. ap (λ r. r.0) (real s v) ∙ ho s v q full wide;
}
  where
    real : (s : OStream Buffer) → IsBuffer s → unless_sizing size m s ≡ m s
    real s v =
        ap (λ c. if elim c [ none ↦ true | some _ ↦ false ] then pb_write [] size s else m s)
          v.calls_buf_write

-- The loop over the entries of an array.
module _ (func : ℕ → M (OStream Buffer) (Unit {0})) (size : ℕ) where
  pub each_item-Settled :
      ((p : ℕ) → Settled (func p)) → (count p : ℕ) → Settled (each_item func size count p)
  unfolding each_item
  each_item-Settled h zero p = inl ([], return-Encodes)
  each_item-Settled h (suc count) p = >>-Settled (h p) (each_item-Settled h count (u64 (p + size)))

  -- Entries of `w` bytes each.
  pub each_item-length :
      (w : ℕ)
      → ((p : ℕ) → (bs : List ℕ) × Encodes (func p) bs × (length bs ≡ w))
      → (count p : ℕ)
      → (bs : List ℕ) × Encodes (each_item func size count p) bs × (length bs ≡ w * count)
  unfolding each_item
  each_item-length w h zero p = ([], return-Encodes, omega arith)
  each_item-length w h (suc count) p =
      let (xs, hx, ex) = h p in
      let (ys, hy, ey) = each_item-length w h count (u64 (p + size)) in
      (
        xs ++ ys,
        >>-Encodes xs ys hx hy,
        omega (arith, ex, ey, length-append xs ys, mul-suc w count),
      )
