-- ===== src/Nanopb/Input/Bounds.antt =====
-- Reading from a buffer (CardPang/Pods/nanopb/pb_decode.c): what is read, and what is left.
use card_pang.Common.{
  ℕ, zero, suc, ◌+◌, ◌-◌, ◌≤◌, ◌<◌, ◌≡◌, refl, ap, sym, subst, ◌∙◌, Bool, true, false, Option, none,
  some, List, [], ◌∷◌, ◌++◌, length, drop, take_prefix, drop_prefix, drop-drop, length-drop, arith,
  ltb, le→ltb, suc-==-zero, ◌==◌, Bool-cases, inl, inr, if◌then◌else◌,
}
use card_pang.Nanopb.Types.{ErrorMessage, end_of_stream, pb_set_error, M, after, ◌>>=◌, return}
use card_pang.Nanopb.Input.{
  IStream, fail, first, buf_read, after_read, call_read, read_counted, read_one, skip_rounds,
  pb_read, pb_read_null, pb_readbyte,
}

-- The stream over a buffer, with `n` bytes left.
abbrev pub reading : List ℕ → ℕ → Option ErrorMessage → IStream (List ℕ)
reading bs n e = record {
  callback = buf_read;
  is_buf_read = true;
  state = bs;
  bytes_left = n;
  errmsg = e;
}

pub pb_readbyte-cons :
    (b : ℕ) (bs : List ℕ) (n : ℕ) (e : Option ErrorMessage)
    → 0 < n
    → pb_readbyte (reading (b ∷ bs) n e) ≡ (some b, reading bs (n - 1) e)
unfolding pb_readbyte buf_read
pb_readbyte-cons b bs n e h = ground arith

pub pb_readbyte-zero :
    (bs : List ℕ) (e : Option ErrorMessage)
    → pb_readbyte (reading bs 0 e) ≡ (none, reading bs 0 (pb_set_error e end_of_stream))
unfolding pb_readbyte
pb_readbyte-zero bs e = refl

-- Bytes that are there are read, and the stream goes on behind them.
pub pb_read-prefix :
    (xs rest : List ℕ) (n : ℕ) (e : Option ErrorMessage)
    → length xs ≤ n
    → pb_read (length xs) (reading (xs ++ rest) n e) ≡ (some xs, reading rest (n - length xs) e)
unfolding pb_read buf_read
pb_read-prefix [] rest n e h = ap (λ m. (some [], reading rest m e)) (omega arith)
pb_read-prefix (x ∷ xs) rest n e h = rw (
  suc-==-zero (length xs),
  le→ltb n (suc (length xs)) h,
  take_prefix (suc (length xs)) (x ∷ xs) rest refl,
  drop_prefix (suc (length xs)) 0 (x ∷ xs) rest (omega arith),
)

pub pb_read_null-prefix :
    (xs rest : List ℕ) (n : ℕ) (e : Option ErrorMessage)
    → length xs ≤ n
    → pb_read_null (length xs) (reading (xs ++ rest) n e)
      ≡ (some tt, reading rest (n - length xs) e)
unfolding pb_read_null buf_read
pb_read_null-prefix [] rest n e h = ap (λ m. (some tt, reading rest m e)) (omega arith)
pb_read_null-prefix (x ∷ xs) rest n e h = rw (
  suc-==-zero (length xs),
  le→ltb n (suc (length xs)) h,
  drop_prefix (suc (length xs)) 0 (x ∷ xs) rest (omega arith),
)

-- Where `count` bytes are not left, nothing is read.
pub pb_read-short :
    (count : ℕ) (bs : List ℕ) (n : ℕ) (e : Option ErrorMessage)
    → n < count
    → pb_read count (reading bs n e) ≡ (none, reading bs n (pb_set_error e end_of_stream))
unfolding pb_read
pb_read-short count bs n e h = ground arith

-- A stream over a buffer that holds all the bytes that are left.
pub record IsInput (s : IStream (List ℕ)) : Type 0 where
  pub calls_buf_read : s.callback ≡ buf_read
  pub reads_buffer : s.is_buf_read ≡ true
  pub backed : s.bytes_left ≤ length s.state

-- `t` is `s` with `count` bytes of its buffer taken.
pub record Advances (s t : IStream (List ℕ)) : Type 0 where
  pub count : ℕ
  pub taken : t.state ≡ drop count s.state
  pub counted : t.bytes_left + count ≡ s.bytes_left
  pub same_callback : t.callback ≡ s.callback
  pub same_reader : t.is_buf_read ≡ s.is_buf_read

pub Advances-IsInput : {s t : IStream (List ℕ)} → Advances s t → IsInput s → IsInput t
Advances-IsInput {s} {t} a v = record {
  calls_buf_read = a.same_callback ∙ v.calls_buf_read;
  reads_buffer = a.same_reader ∙ v.reads_buffer;
  backed = omega (arith, a, v, ap length a.taken, length-drop a.count s.state);
}

pub Advances-refl : (s : IStream (List ℕ)) → Advances s s
Advances-refl s = record {
  count = 0;
  taken = refl;
  counted = omega arith;
  same_callback = refl;
  same_reader = refl;
}

pub Advances-trans : {s t u : IStream (List ℕ)} → Advances s t → Advances t u → Advances s u
Advances-trans {s} {t} {u} a b = record {
  count = a.count + b.count;
  taken =
      b.taken
      ∙ ap (drop b.count) a.taken
      ∙ drop-drop b.count a.count (a.count + b.count) s.state refl;
  counted = omega (arith, a, b);
  same_callback = b.same_callback ∙ a.same_callback;
  same_reader = b.same_reader ∙ a.same_reader;
}

-- A computation that, on every buffer, only takes bytes that are left.
abbrev pub StaysInside : {A : Type 0} → M (IStream (List ℕ)) A → Type 0
StaysInside m = (s : IStream (List ℕ)) → IsInput s → Advances s (m s).1

pub fail-StaysInside : (A : Type 0) (msg : ErrorMessage) → StaysInside (fail {A = A} msg)
fail-StaysInside A msg s v = record {
  count = 0;
  taken = refl;
  counted = omega arith;
  same_callback = refl;
  same_reader = refl;
}

pub return-StaysInside : {A : Type 0} (a : A) → StaysInside (return a)
return-StaysInside a s v = Advances-refl s

pub >>=-StaysInside :
    {A B : Type 0} (m : M (IStream (List ℕ)) A) (f : A → M (IStream (List ℕ)) B)
    → StaysInside m
    → ((a : A) → StaysInside (f a))
    → StaysInside (m >>= f)
>>=-StaysInside {A} m f hm hf s v = go (m s) (hm s v)
  where
    go : (r : Option A × IStream (List ℕ)) → Advances s r.1 → Advances s (after r f).1
    go (none, t) a = a
    go (some x, t) a = Advances-trans a (hf x t (Advances-IsInput a v))

-- A test that chooses between two computations.
pub if-StaysInside :
    {A : Type 0} (b : Bool) (m k : M (IStream (List ℕ)) A)
    → StaysInside m
    → StaysInside k
    → (s : IStream (List ℕ)) → IsInput s
    → Advances s (if b then m s else k s).1
if-StaysInside true m k hm hk s v = hm s v
if-StaysInside false m k hm hk s v = hk s v

pub choose-StaysInside :
    {A : Type 0} (b : Bool) (m k : M (IStream (List ℕ)) A)
    → StaysInside m
    → StaysInside k
    → StaysInside (if b then m else k)
choose-StaysInside true m k hm hk = hm
choose-StaysInside false m k hm hk = hk

read-Advances :
    (count : ℕ) (s : IStream (List ℕ))
    → IsInput s
    → count ≤ s.bytes_left
    → Advances s (after_read count s (call_read count s)).1
unfolding after_read buf_read
read-Advances count s v h =
    subst
      (λ c.
        Advances s
          (after_read count s
            (c (record { state = s.state; bytes_left = s.bytes_left; errmsg = s.errmsg }) count)).1)
      (sym v.calls_buf_read)
      (record {
        count = count;
        taken = refl;
        counted = ground (arith, h);
        same_callback = refl;
        same_reader = refl;
      })

read_counted-StaysInside : (count : ℕ) → StaysInside (read_counted count)
unfolding read_counted
read_counted-StaysInside count s v = elim (Bool-cases (ltb s.bytes_left count)) [
  | inl short ↦ rw short (fail-StaysInside (List ℕ) end_of_stream s v)
  | inr enough ↦ rw enough (read-Advances count s v (ground arith))
]

pub pb_read-StaysInside : (count : ℕ) → StaysInside (pb_read count)
unfolding pb_read
pb_read-StaysInside count =
    if-StaysInside (count == 0) (return []) (read_counted count)
      (return-StaysInside {A = List ℕ} []) (read_counted-StaysInside count)

read_one-StaysInside :
    (s : IStream (List ℕ)) → IsInput s → 0 < s.bytes_left → Advances s (read_one s).1
unfolding read_one
read_one-StaysInside s v h = read-Advances 1 s v h

pub pb_readbyte-StaysInside : StaysInside pb_readbyte
unfolding pb_readbyte
pb_readbyte-StaysInside s v = elim (Bool-cases (s.bytes_left == 0)) [
  | inl none_left ↦ rw none_left (fail-StaysInside ℕ end_of_stream s v)
  | inr some_left ↦ rw some_left (byte (read_one s) (read_one-StaysInside s v (ground arith)))
]
  where
    byte :
        (r : Option (List ℕ) × IStream (List ℕ))
        → Advances s r.1
        → Advances s (after r (λ bytes. return (first bytes))).1
    byte (none, t) a = a
    byte (some x, t) a = a

skip_rounds-StaysInside : (fuel count : ℕ) → StaysInside (skip_rounds fuel count)
unfolding skip_rounds
skip_rounds-StaysInside zero count s v = pb_read-StaysInside count s v
skip_rounds-StaysInside (suc fuel) count s v = elim (Bool-cases (ltb 16 count)) [
  | inl more ↦ rw more (
      >>=-StaysInside (pb_read 16) (λ _. skip_rounds fuel (count - 16)) (pb_read-StaysInside 16)
        (λ _. skip_rounds-StaysInside fuel (count - 16)) s v)
  | inr done ↦ rw done (pb_read-StaysInside count s v)
]

pub pb_read_null-StaysInside : (count : ℕ) → StaysInside (pb_read_null count)
unfolding pb_read_null
pb_read_null-StaysInside count =
    if-StaysInside (count == 0) (return tt)
      (λ s.
        if s.is_buf_read
        then (read_counted count >>= λ _. return tt) s
        else (skip_rounds count count >>= λ _. return tt) s)
      (return-StaysInside {A = Unit {0}} tt)
      (λ s.
        if-StaysInside s.is_buf_read (read_counted count >>= λ _. return tt)
          (skip_rounds count count >>= λ _. return tt)
          (>>=-StaysInside (read_counted count) (λ _. return tt) (read_counted-StaysInside count)
            (λ _. return-StaysInside tt))
          (>>=-StaysInside (skip_rounds count count) (λ _. return tt)
            (skip_rounds-StaysInside count count) (λ _. return-StaysInside tt))
          s)
