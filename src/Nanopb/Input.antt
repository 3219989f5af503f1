-- ===== src/Nanopb/Input.antt =====
-- pb_istream_t (CardPang/Pods/nanopb/pb_decode.c and pb_decode.h). A stream is generic in the
-- state that its callback uses. The callback is given what it may change of the stream and a count,
-- and returns the bytes read, or `none` for failure; it may not put another callback in its place.
-- `is_buf_read` is the test `callback == buf_read`. For a stream over a buffer the state is the memory
-- from the pointer on.
pub mod Bounds
pub mod Reported
use card_pang.Common.{
  ℕ, zero, suc, ◌+◌, ◌-◌, ◌*◌, ◌^◌, ◌%◌, Bool, true, false, not, Option, none, some, List, [], ◌∷◌,
  take, drop, ltb, ◌==◌, if◌then◌else◌,
}
use card_pang.Nanopb.Types.{
  ErrorMessage, end_of_stream, io_error, pb_set_error, M, ◌>>=◌, ◌>>◌, return,
}

-- What a callback reaches through its `pb_istream_t *`.
pub record Reached (S : Type 0) : Type 0 where
  pub state : S
  pub bytes_left : ℕ
  pub errmsg : Option ErrorMessage

abbrev pub ReadCallback : Type 0 → Type 0
ReadCallback S = Reached S → ℕ → Option (List ℕ) × Reached S

pub record IStream (S : Type 0) : Type 0 where
  pub callback : ReadCallback S
  pub is_buf_read : Bool
  pub state : S
  pub bytes_left : ℕ
  pub errmsg : Option ErrorMessage

-- `PB_RETURN_ERROR`
abbrev pub fail : {S A : Type 0} → ErrorMessage → M (IStream S) A
fail msg s = (none, record s { errmsg = pb_set_error s.errmsg msg })

unfoldable pub buf_read : ReadCallback (List ℕ)
buf_read stream count =
    (some (take count stream.state), record stream { state = drop count stream.state })

unfoldable pub pb_istream_from_buffer : List ℕ → ℕ → IStream (List ℕ)
pb_istream_from_buffer buf bufsize = record {
  callback = buf_read;
  is_buf_read = true;
  state = buf;
  bytes_left = bufsize;
  errmsg = none;
}

abbrev pub call_read : {S : Type 0} → ℕ → IStream S → Option (List ℕ) × Reached S
call_read count s =
    s.callback (record { state = s.state; bytes_left = s.bytes_left; errmsg = s.errmsg }) count

-- `left -= count` on a `size_t`.
abbrev pub less : ℕ → ℕ → ℕ
less left count = if ltb left count then 2 ^ 64 + left - count else left - count

-- The return of the callback, and `bytes_left -= count`.
after_read :
    {S : Type 0} → ℕ → IStream S → Option (List ℕ) × Reached S → Option (List ℕ) × IStream S
after_read count s (some bytes, c) = (
  some bytes,
  record s { state = c.state; bytes_left = less c.bytes_left count; errmsg = c.errmsg },
)
after_read count s (none, c) =
    fail io_error (record s { state = c.state; bytes_left = c.bytes_left; errmsg = c.errmsg })

read_counted : {S : Type 0} → ℕ → M (IStream S) (List ℕ)
unfolding after_read
read_counted count s =
    if ltb s.bytes_left count then fail end_of_stream s else after_read count s (call_read count s)

-- `pb_read(stream, buf, count)` with a buffer: the bytes read.
unfoldable pub pb_read : {S : Type 0} → ℕ → M (IStream S) (List ℕ)
unfolding read_counted
pb_read count s = if count == 0 then (some [], s) else read_counted count s

-- `while (count > 16) { pb_read(stream, tmp, 16); count -= 16; } return pb_read(stream, tmp, count);`
-- Each round takes 16 off the count, so `count` rounds of fuel are enough.
unfoldable pub skip_rounds : {S : Type 0} → ℕ → ℕ → M (IStream S) (List ℕ)
skip_rounds zero count = pb_read count
skip_rounds (suc fuel) count =
    let rest = skip_rounds fuel (count - 16) in
    if ltb 16 count then pb_read 16 >>= (λ _. rest) else pb_read count

-- `pb_read(stream, NULL, count)`: a buffer is skipped at once, another stream 16 bytes at a time.
unfoldable pub pb_read_null : {S : Type 0} → ℕ → M (IStream S) (Unit {0})
unfolding read_counted skip_rounds
pb_read_null count s =
    if count == 0
    then (some tt, s)
    else (if s.is_buf_read
        then (read_counted count >>= λ _. return tt) s
        else (skip_rounds count count >>= λ _. return tt) s)

-- `*buf` after one byte has been read into it.
abbrev pub first : List ℕ → ℕ
first [] = 0
first (b ∷ bs) = b

read_one : {S : Type 0} → M (IStream S) (List ℕ)
unfolding after_read
read_one s = after_read 1 s (call_read 1 s)

unfoldable pub pb_readbyte : {S : Type 0} → M (IStream S) ℕ
unfolding read_one
pb_readbyte s =
    if s.bytes_left == 0
    then fail end_of_stream s
    else (read_one >>= λ bytes. return (first bytes)) s
