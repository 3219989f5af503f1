-- ===== src/Nanopb/Input/Reported.antt =====
-- How reading from a stream of CardPang/Pods/nanopb/pb_decode.c ends.
use card_pang.Common.{
  ℕ, zero, suc, ◌-◌, ◌<◌, ◌≢◌, ◌≡◌, Bool, true, false, Option, none, some, List, inl, inr, arith,
  ltb, ◌==◌, Bool-cases, if◌then◌else◌,
}
use card_pang.Nanopb.Types.{ErrorMessage, pb_set_error, M, after, return, end_of_stream, io_error}
use card_pang.Nanopb.Input.{
  IStream, first, fail, after_read, call_read, Reached, read_counted, read_one, skip_rounds,
  pb_read, pb_read_null, pb_readbyte,
}

set_error-some : (e : Option ErrorMessage) (msg : ErrorMessage) → pb_set_error e msg ≢ none
set_error-some none msg h = ground (arith, h)
set_error-some (some old) msg h = ground (arith, h)

module _ {S : Type 0} where
  -- Success, or failure with a message.
  abbrev pub IsReported : {A : Type 0} → Option A × IStream S → Type 0
  IsReported (none, s) = s.errmsg ≢ none
  IsReported (some a, s) = Unit

  -- The callback leaves `bytes_left` to `pb_read`.
  abbrev pub IsSteady : IStream S → Type 0
  IsSteady s = (c : Reached S) (count : ℕ) → (s.callback c count).1.bytes_left ≡ c.bytes_left

  -- Success with at least one byte less left, or failure with a message.
  abbrev pub Consumes : {A : Type 0} → IStream S → Option A × IStream S → Type 0
  Consumes s (none, t) = t.errmsg ≢ none
  Consumes s (some a, t) = (t.bytes_left < s.bytes_left) × IsSteady t

  pub fail-IsReported :
      (A : Type 0) (msg : ErrorMessage) (s : IStream S) → IsReported (fail {A = A} msg s)
  fail-IsReported A msg s = set_error-some s.errmsg msg

  pub after-IsReported :
      {A B : Type 0} (r : Option A × IStream S) (f : A → M (IStream S) B)
      → IsReported r
      → ((a : A) (s : IStream S) → IsReported (f a s))
      → IsReported (after r f)
  after-IsReported (none, s) f h k = h
  after-IsReported (some a, s) f h k = k a s

  pub after-Consumes :
      {A B : Type 0} (s : IStream S) (r : Option A × IStream S) (f : A → M (IStream S) B)
      → Consumes s r
      → ((a : A) (t : IStream S) → (t.bytes_left < s.bytes_left) × IsSteady t → IsReported (f a t))
      → IsReported (after r f)
  after-Consumes s (none, t) f h k = h
  after-Consumes s (some a, t) f h k = k a t h

  after_read-IsReported :
      (count : ℕ) (s : IStream S) (r : Option (List ℕ) × Reached S)
      → IsReported (after_read count s r)
  unfolding after_read
  after_read-IsReported count s (some bytes, c) = tt
  after_read-IsReported count s (none, c) = set_error-some c.errmsg io_error

  after_read-Consumes :
      (s : IStream S) (r : Option (List ℕ) × Reached S)
      → IsSteady s
      → 0 < s.bytes_left
      → r.1.bytes_left ≡ s.bytes_left
      → Consumes s (after_read 1 s r)
  unfolding after_read
  after_read-Consumes s (some bytes, c) steady h e = (ground (arith, h, e), steady)
  after_read-Consumes s (none, c) steady h e = set_error-some c.errmsg io_error

  call_read-steady :
      (count : ℕ) (s : IStream S) → IsSteady s → (call_read count s).1.bytes_left ≡ s.bytes_left
  call_read-steady count s steady =
      steady (record { state = s.state; bytes_left = s.bytes_left; errmsg = s.errmsg }) count

  read_counted-IsReported : (count : ℕ) (s : IStream S) → IsReported (read_counted count s)
  unfolding read_counted
  read_counted-IsReported count s = elim (Bool-cases (ltb s.bytes_left count)) [
    | inl short ↦ rw short (fail-IsReported (List ℕ) end_of_stream s)
    | inr enough ↦ rw enough (after_read-IsReported count s (call_read count s))
  ]

  pub pb_read-IsReported : (count : ℕ) (s : IStream S) → IsReported (pb_read count s)
  unfolding pb_read
  pb_read-IsReported count s = elim (Bool-cases (count == 0)) [
    | inl nothing ↦ rw nothing tt
    | inr something ↦ rw something (read_counted-IsReported count s)
  ]

  pub pb_read-Consumes : (s : IStream S) → IsSteady s → Consumes s (pb_read 1 s)
  unfolding pb_read read_counted
  pb_read-Consumes s steady = elim (Bool-cases (ltb s.bytes_left 1)) [
    | inl short ↦ rw short (fail-IsReported (List ℕ) end_of_stream s)
    | inr enough ↦ rw enough (
        after_read-Consumes s (call_read 1 s) steady (ground (arith, enough))
          (call_read-steady 1 s steady))
  ]

  pub pb_readbyte-Consumes : (s : IStream S) → IsSteady s → Consumes s (pb_readbyte s)
  unfolding pb_readbyte read_one
  pb_readbyte-Consumes s steady = elim (Bool-cases (s.bytes_left == 0)) [
    | inl none_left ↦ rw none_left (fail-IsReported ℕ end_of_stream s)
    | inr some_left ↦ rw some_left (
        byte (after_read 1 s (call_read 1 s)) (
          after_read-Consumes s (call_read 1 s) steady (ground (arith, some_left))
            (call_read-steady 1 s steady)))
  ]
    where
      byte :
          (r : Option (List ℕ) × IStream S)
          → Consumes s r
          → Consumes s (after r (λ bytes. return (first bytes)))
      byte (none, t) h = h
      byte (some x, t) h = h

  pub pb_readbyte-IsReported : (s : IStream S) → IsReported (pb_readbyte s)
  unfolding pb_readbyte read_one
  pb_readbyte-IsReported s = elim (Bool-cases (s.bytes_left == 0)) [
    | inl none_left ↦ rw none_left (fail-IsReported ℕ end_of_stream s)
    | inr some_left ↦ rw some_left (
        after-IsReported (after_read 1 s (call_read 1 s)) (λ bytes. return (first bytes))
          (after_read-IsReported 1 s (call_read 1 s)) (λ bytes t. tt))
  ]

  choose :
      {A : Type 0} (b : Bool) (r t : Option A × IStream S)
      → IsReported r
      → IsReported t
      → IsReported (if b then r else t)
  choose true r t h k = h
  choose false r t h k = k

  skip_rounds-IsReported : (fuel count : ℕ) (s : IStream S) → IsReported (skip_rounds fuel count s)
  unfolding skip_rounds
  skip_rounds-IsReported zero count s = pb_read-IsReported count s
  skip_rounds-IsReported (suc fuel) count s = elim (Bool-cases (ltb 16 count)) [
    | inl more ↦ rw more (
        after-IsReported (pb_read 16 s) (λ _. skip_rounds fuel (count - 16))
          (pb_read-IsReported 16 s) (λ _. skip_rounds-IsReported fuel (count - 16)))
    | inr done ↦ rw done (pb_read-IsReported count s)
  ]

  then_unit :
      (r : Option (List ℕ) × IStream S)
      → IsReported r
      → IsReported (after r (λ _. return {S = IStream S} tt))
  then_unit r h = after-IsReported r (λ _. return {S = IStream S} tt) h (λ a s. tt)

  pub pb_read_null-IsReported : (count : ℕ) (s : IStream S) → IsReported (pb_read_null count s)
  unfolding pb_read_null
  pb_read_null-IsReported count s = elim (Bool-cases (count == 0)) [
    | inl nothing ↦ rw nothing tt
    | inr something ↦ rw something (
        choose s.is_buf_read _ _
          (then_unit (read_counted count s) (read_counted-IsReported count s))
          (then_unit (skip_rounds count count s) (skip_rounds-IsReported count count s)))
  ]
