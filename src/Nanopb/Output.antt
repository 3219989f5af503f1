-- ===== src/Nanopb/Output.antt =====
-- pb_ostream_t (CardPang/Pods/nanopb/pb_encode.c and pb_encode.h). A stream is generic in the
-- state that its callback uses; the callback sees the state and the bytes, and returns whether it
-- succeeded. An output buffer is the memory from its first byte on, with the position of `state`.
pub mod Bounds
pub mod Counts
pub mod Write
use card_pang.Common.{
  ℕ, zero, suc, ◌+◌, ◌%◌, ◌^◌, Bool, true, false, Option, none, some, List, [], ◌∷◌, length, take,
  set, ltb, if◌then◌else◌,
}
use card_pang.Nanopb.Types.{ErrorMessage, stream_full, io_error, pb_set_error, M, return, u64}

abbrev pub WriteCallback : Type 0 → Type 0
WriteCallback S = S → List ℕ → Bool × S

pub record OStream (S : Type 0) : Type 0 where
  pub callback : Option (WriteCallback S)
  pub state : S
  pub max_size : ℕ
  pub bytes_written : ℕ
  pub errmsg : Option ErrorMessage

-- `PB_RETURN_ERROR`
abbrev pub fail : {S A : Type 0} → ErrorMessage → M (OStream S) A
fail msg s = (none, record s { errmsg = pb_set_error s.errmsg msg })

pub record Buffer : Type 0 where
  pub memory : List ℕ
  pub position : ℕ

-- `for (i = 0; i < count; i++) dest[i] = buf[i];`
unfoldable pub copy : List ℕ → ℕ → List ℕ → List ℕ
copy memory dest [] = memory
copy memory dest (b ∷ bs) = copy (set memory dest b) (suc dest) bs

-- `count` bytes of memory; what lies past the list reads as 0.
unfoldable pub fetch : ℕ → List ℕ → List ℕ
fetch zero bs = []
fetch (suc n) [] = 0 ∷ fetch n []
fetch (suc n) (b ∷ bs) = b ∷ fetch n bs

unfoldable pub buf_write : WriteCallback Buffer
unfolding copy
buf_write b bytes = (
  true,
  record b { memory = copy b.memory b.position bytes; position = b.position + length bytes },
)

unfoldable pub pb_ostream_from_buffer : List ℕ → ℕ → OStream Buffer
pb_ostream_from_buffer buf bufsize = record {
  callback = some buf_write;
  state = record { memory = buf; position = 0 };
  max_size = bufsize;
  bytes_written = 0;
  errmsg = none;
}

-- `PB_OSTREAM_SIZING`: no callback, so that only the size is counted.
unfoldable pub pb_ostream_sizing : {S : Type 0} → S → OStream S
pb_ostream_sizing null = record {
  callback = none;
  state = null;
  max_size = 0;
  bytes_written = 0;
  errmsg = none;
}

-- `stream->bytes_written += count; return true;`
abbrev pub advance : {S : Type 0} → ℕ → M (OStream S) (Unit {0})
advance count s = (some tt, record s { bytes_written = u64 (s.bytes_written + count) })

after_callback : {S : Type 0} → ℕ → OStream S → Bool × S → Option (Unit {0}) × OStream S
after_callback count s (true, state) = advance count (record s { state = state })
after_callback count s (false, state) = fail io_error (record s { state = state })

call_write : {S : Type 0} → WriteCallback S → List ℕ → ℕ → M (OStream S) (Unit {0})
unfolding after_callback fetch
call_write callback buf count s =
    if ltb s.max_size (u64 (s.bytes_written + count))
    then fail stream_full s
    else after_callback count s (callback s.state (fetch count buf))

pb_write_with : {S : Type 0} → Option (WriteCallback S) → List ℕ → ℕ → M (OStream S) (Unit {0})
unfolding call_write
pb_write_with none buf count s = advance count s
pb_write_with (some callback) buf count s =
    if ltb 0 count then call_write callback buf count s else advance count s

-- The callback is called only for a positive count, and never past `max_size`. A sizing caller
-- passes NULL, here `[]`.
unfoldable pub pb_write : {S : Type 0} → List ℕ → ℕ → M (OStream S) (Unit {0})
unfolding pb_write_with
pb_write buf count s = pb_write_with s.callback buf count s
