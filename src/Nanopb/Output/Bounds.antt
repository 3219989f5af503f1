-- ===== src/Nanopb/Output/Bounds.antt =====
-- Writing through `pb_write` into a buffer of CardPang/Pods/nanopb/pb_encode.c: what is written,
-- where, and what happens when the buffer is full.
use card_pang.Common.{
  ℕ, zero, suc, ◌+◌, ◌^◌, ◌≤◌, ◌<◌, ◌≡◌, refl, sym, ap, ◌∙◌, none, some, List, [], ◌∷◌, ◌++◌,
  length, take, drop, set, length-set, length-take, length-append, take_prefix, drop_prefix,
  drop-drop, arith, le→ltb, lt→ltb,
}
use card_pang.Nanopb.Types.{stream_full, pb_set_error, u64}
use card_pang.Nanopb.Output.{
  OStream, Buffer, copy, fetch, buf_write, call_write, pb_write_with, pb_write,
}
use mathlib.Core.List.{append_assoc}

module _ {ℓ} {A : Type ℓ} where
  take-suc-set :
      (xs : List A) (d : ℕ) (b : A)
      → d < length xs
      → take (suc d) (set xs d b) ≡ take d xs ++ b ∷ []
  take-suc-set [] d b h = elim h [ ]
  take-suc-set (x ∷ xs) zero b h = refl
  take-suc-set (x ∷ xs) (suc d) b h = ap (λ t. x ∷ t) (take-suc-set xs d b (omega arith))

  drop-set : (xs : List A) (d k : ℕ) (b : A) → d < k → drop k (set xs d b) ≡ drop k xs
  drop-set [] d k b h = refl
  drop-set (x ∷ xs) zero zero b h = absurd (omega arith)
  drop-set (x ∷ xs) zero (suc k) b h = refl
  drop-set (x ∷ xs) (suc d) zero b h = absurd (omega arith)
  drop-set (x ∷ xs) (suc d) (suc k) b h = drop-set xs d k b (omega arith)

  pub take-append-drop : (n : ℕ) (xs : List A) → take n xs ++ drop n xs ≡ xs
  take-append-drop zero xs = refl
  take-append-drop (suc n) [] = refl
  take-append-drop (suc n) (x ∷ xs) = ap (λ t. x ∷ t) (take-append-drop n xs)

-- A copy that fits replaces the bytes from its destination on, and no others.
copy_lem :
    (memory : List ℕ) (dest : ℕ) (bs : List ℕ)
    → dest + length bs ≤ length memory
    → copy memory dest bs ≡ take dest memory ++ (bs ++ drop (dest + length bs) memory)
unfolding copy
copy_lem memory dest [] h =
    sym (ap (λ n. take dest memory ++ drop n memory) (dest_zero) ∙ take-append-drop dest memory)
  where
    dest_zero : dest + 0 ≡ dest
    dest_zero = omega arith
copy_lem memory dest (b ∷ bs) h =
    copy_lem (set memory dest b) (suc dest) bs (omega (arith, length-set memory dest b))
    ∙ ap (λ t. t ++ (bs ++ drop (suc dest + length bs) (set memory dest b)))
        (take-suc-set memory dest b (omega arith))
    ∙ append_assoc (take dest memory) (b ∷ []) _
    ∙ ap (λ t. take dest memory ++ (b ∷ (bs ++ t)))
        (drop-set memory dest (suc dest + length bs) b (omega arith)
          ∙ ap (λ n. drop n memory) shift)
  where
    shift : suc dest + length bs ≡ dest + suc (length bs)
    shift = omega arith

length-copy :
    (memory : List ℕ) (dest : ℕ) (bs : List ℕ) → length (copy memory dest bs) ≡ length memory
unfolding copy
length-copy memory dest [] = refl
length-copy memory dest (b ∷ bs) =
    length-copy (set memory dest b) (suc dest) bs ∙ length-set memory dest b

copy-append :
    (memory : List ℕ) (dest : ℕ) (xs bs : List ℕ)
    → copy (copy memory dest xs) (dest + length xs) bs ≡ copy memory dest (xs ++ bs)
unfolding copy
copy-append memory dest [] bs = ap (λ n. copy memory n bs) (dest_zero)
  where
    dest_zero : dest + 0 ≡ dest
    dest_zero = omega arith
copy-append memory dest (x ∷ xs) bs =
    ap (λ n. copy (copy (set memory dest x) (suc dest) xs) n bs) shift
    ∙ copy-append (set memory dest x) (suc dest) xs bs
  where
    shift : dest + suc (length xs) ≡ suc dest + length xs
    shift = omega arith

-- A stream over a buffer with memory, from `state` on, for all bytes that it may still take. A
-- substream, which counts from 0, is one too.
pub record IsBuffer (s : OStream Buffer) : Type 0 where
  pub calls_buf_write : s.callback ≡ some buf_write
  pub within : s.bytes_written ≤ s.max_size
  pub backed : s.state.position + s.max_size ≤ length s.state.memory + s.bytes_written
  pub sized : s.max_size < 2 ^ 64

-- The bytes that have been written, and the memory behind them.
abbrev pub written : OStream Buffer → List ℕ
written s = take s.state.position s.state.memory

abbrev pub behind : OStream Buffer → ℕ → List ℕ
behind s n = drop (s.state.position + n) s.state.memory

-- The stream after the bytes have been copied.
unfoldable pub emit : OStream Buffer → List ℕ → OStream Buffer
emit s bs = record s {
  state = record {
    memory = copy s.state.memory s.state.position bs;
    position = s.state.position + length bs;
  };
  bytes_written = s.bytes_written + length bs;
}

-- The stream after `stream full`.
unfoldable pub refuse : OStream Buffer → OStream Buffer
refuse s = record s { errmsg = pb_set_error s.errmsg stream_full }

no_wrap : (a n m : ℕ) → a + n ≤ m → m < 2 ^ 64 → u64 (a + n) ≡ a + n
no_wrap a n m h k = omega arith

pub fetch-length : (bs : List ℕ) → fetch (length bs) bs ≡ bs
unfolding fetch
fetch-length [] = refl
fetch-length (b ∷ bs) = ap (λ t. b ∷ t) (fetch-length bs)

call_write-emit :
    (s : OStream Buffer) (bs : List ℕ)
    → IsBuffer s
    → s.bytes_written + length bs ≤ s.max_size
    → call_write buf_write bs (length bs) s ≡ (some tt, emit s bs)
unfolding call_write emit buf_write
call_write-emit s bs v h = rw (
  no_wrap s.bytes_written (length bs) s.max_size h v.sized,
  le→ltb s.max_size _ h,
  fetch-length bs,
)

-- A write that fits appends the bytes.
pub pb_write-emit :
    (s : OStream Buffer) (bs : List ℕ)
    → IsBuffer s
    → s.bytes_written + length bs ≤ s.max_size
    → pb_write bs (length bs) s ≡ (some tt, emit s bs)
unfolding pb_write pb_write_with emit copy
pb_write-emit s [] v h = ap (λ c. pb_write_with c [] 0 s) v.calls_buf_write ∙ ground (arith, v)
pb_write-emit s (b ∷ bs) v h =
    ap (λ c. pb_write_with c (b ∷ bs) (suc (length bs)) s) v.calls_buf_write
    ∙ rw (lt→ltb 0 (suc (length bs)) (omega arith)) (call_write-emit s (b ∷ bs) v h)

pub pb_write-refuse :
    (s : OStream Buffer) (bs : List ℕ)
    → IsBuffer s
    → s.max_size < s.bytes_written + length bs
    → s.max_size + length bs < 2 ^ 64
    → pb_write bs (length bs) s ≡ (none, refuse s)
unfolding pb_write refuse call_write
pb_write-refuse s [] v h k = absurd (omega (arith, v))
pb_write-refuse s (b ∷ bs) v h k =
    ap (λ c. pb_write_with c (b ∷ bs) (suc (length bs)) s) v.calls_buf_write ∙ ground (arith, v)

pub length-emit :
    (s : OStream Buffer) (bs : List ℕ)
    → ((emit s bs).bytes_written ≡ s.bytes_written + length bs)
      × ((emit s bs).max_size ≡ s.max_size)
unfolding emit
length-emit s bs = (refl, refl)

pub emit-IsBuffer :
    (s : OStream Buffer) (bs : List ℕ)
    → IsBuffer s
    → s.bytes_written + length bs ≤ s.max_size
    → IsBuffer (emit s bs)
unfolding emit
emit-IsBuffer s bs v h = record {
  calls_buf_write = v.calls_buf_write;
  within = h;
  backed = omega (arith, v, length-copy s.state.memory s.state.position bs);
  sized = v.sized;
}

pub emit-append : (s : OStream Buffer) (xs ys : List ℕ) → emit (emit s xs) ys ≡ emit s (xs ++ ys)
unfolding emit
emit-append s xs ys = λ i. record s {
  state = record {
    memory = copy-append s.state.memory s.state.position xs ys i;
    position = sum s.state.position i;
  };
  bytes_written = sum s.bytes_written i;
}
  where
    sum : (n : ℕ) → n + length xs + length ys ≡ n + length (xs ++ ys)
    sum n = omega (arith, length-append xs ys)

-- What was written stays, and the new bytes follow it.
pub written-emit :
    (s : OStream Buffer) (bs : List ℕ)
    → IsBuffer s
    → s.bytes_written + length bs ≤ s.max_size
    → written (emit s bs) ≡ written s ++ bs
unfolding emit
written-emit s bs v h =
    ap (take (s.state.position + length bs)) (
      copy_lem s.state.memory s.state.position bs (omega (arith, v))
      ∙ sym (append_assoc (written s) bs _))
    ∙ take_prefix (s.state.position + length bs) (written s ++ bs) _ (
        omega (arith, v, length-append (written s) bs, length-take s.state.position s.state.memory))

-- The memory behind the new bytes is not touched.
pub behind-emit :
    (s : OStream Buffer) (bs : List ℕ) (n : ℕ)
    → IsBuffer s
    → s.bytes_written + length bs ≤ s.max_size
    → behind (emit s bs) n ≡ behind s (length bs + n)
unfolding emit
behind-emit s bs n v h =
    ap (drop (s.state.position + length bs + n)) (
      copy_lem s.state.memory s.state.position bs (omega (arith, v))
      ∙ sym (append_assoc (written s) bs _))
    ∙ drop_prefix (s.state.position + length bs + n) n (written s ++ bs) _ (
        omega (arith, v, length-append (written s) bs, length-take s.state.position s.state.memory))
    ∙ drop-drop n (s.state.position + length bs) (s.state.position + (length bs + n)) s.state.memory
        (omega arith)
