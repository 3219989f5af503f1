-- ===== src/Nanopb/RoundTrip/Numbers.antt =====
-- Varints, zigzag varints and the fixed formats (CardPang/Pods/nanopb).
use card_pang.Common.{ℕ, ◌+◌, ◌-◌, ◌^◌, ◌≤◌, ◌<◌, ◌≡◌, Option, some, List, ◌++◌, length}
use card_pang.Nanopb.Types.{ErrorMessage, load, store}
use card_pang.Nanopb.Output.{OStream, Buffer}
use card_pang.Nanopb.Output.Bounds.{IsBuffer, written}
use card_pang.Nanopb.Encode.{
  varint_buffer, pb_encode_varint, pb_encode_svarint, pb_encode_fixed32, pb_encode_fixed64,
}
use card_pang.Nanopb.Encode.Varint.{varint_buffer-IsVarint}
use card_pang.Nanopb.Encode.Writes.{
  zigzag, pb_encode_varint-Appends, pb_encode_svarint-Appends, pb_encode_fixed32-Appends,
  pb_encode_fixed64-Appends,
}
use card_pang.Nanopb.Input.Bounds.{reading}
use card_pang.Nanopb.Decode.{pb_decode_varint}
use card_pang.Nanopb.Decode.Varint.{pb_decode_varint-IsVarint}
use card_pang.Nanopb.Decode.Scalars.{pb_decode_svarint, pb_decode_fixed32, pb_decode_fixed64}
use card_pang.Nanopb.Decode.Scalars.Laws.{
  pb_decode_svarint-zigzag, pb_decode_fixed32-store, pb_decode_fixed64-store,
}
use card_pang.Nanopb.RoundTrip.{appended}

module _ (s : OStream Buffer) (v : IsBuffer s) (n : ℕ) (rest : List ℕ)
    (e : Option ErrorMessage) where
  -- Every `uint64_t` that `pb_encode_varint` writes to a buffer with room is read back by
  -- `pb_decode_varint`, which leaves what follows; the bytes are behind those written before.
  pub pb_decode_varint-pb_encode_varint :
      (value : ℕ)
      → value < 2 ^ 64
      → s.bytes_written + length (varint_buffer value) ≤ s.max_size
      → length (varint_buffer value) ≤ n
      → ((pb_encode_varint value s).0 ≡ some tt)
        × (written (pb_encode_varint value s).1 ≡ written s ++ varint_buffer value)
        × (pb_decode_varint (reading (varint_buffer value ++ rest) n e)
            ≡ (some value, reading rest (n - length (varint_buffer value)) e))
  pb_decode_varint-pb_encode_varint value hv room hn =
      let done =
        appended (pb_encode_varint value) (varint_buffer value) s
          (pb_encode_varint-Appends value s v room) v room in
      (done.0, done.1, pb_decode_varint-IsVarint n rest e (varint_buffer-IsVarint value) hv hn)

  -- Every `int64_t`, as its bit pattern, that `pb_encode_svarint` writes to a buffer with room is read
  -- back by `pb_decode_svarint`; what is written is the varint of its zigzag value.
  pub pb_decode_svarint-pb_encode_svarint :
      (value : ℕ)
      → value < 2 ^ 64
      → s.bytes_written + length (varint_buffer (zigzag value)) ≤ s.max_size
      → length (varint_buffer (zigzag value)) ≤ n
      → ((pb_encode_svarint value s).0 ≡ some tt)
        × (written (pb_encode_svarint value s).1 ≡ written s ++ varint_buffer (zigzag value))
        × (pb_decode_svarint (reading (varint_buffer (zigzag value) ++ rest) n e)
            ≡ (some value, reading rest (n - length (varint_buffer (zigzag value))) e))
  pb_decode_svarint-pb_encode_svarint value hv room hn =
      let done =
        appended (pb_encode_svarint value) (varint_buffer (zigzag value)) s
          (pb_encode_svarint-Appends value s v room) v room in
      (
        done.0,
        done.1,
        pb_decode_svarint-zigzag n rest e (varint_buffer-IsVarint (zigzag value)) hv hn,
      )

  -- What `pb_encode_fixed32` writes to a buffer with room is the four bytes of the value at its
  -- pointer, from which `pb_decode_fixed32` reads the value back.
  pub pb_decode_fixed32-pb_encode_fixed32 :
      (value : List ℕ)
      → load 4 value < 2 ^ 32
      → s.bytes_written + 4 ≤ s.max_size
      → 4 ≤ n
      → let bs = store 4 (load 4 value) in
        ((pb_encode_fixed32 value s).0 ≡ some tt)
        × (written (pb_encode_fixed32 value s).1 ≡ written s ++ bs)
        × (pb_decode_fixed32 (reading (bs ++ rest) n e)
            ≡ (some (load 4 value), reading rest (n - 4) e))
  unfolding store
  pb_decode_fixed32-pb_encode_fixed32 value hv room hn =
      let done =
        appended (pb_encode_fixed32 value) (store 4 (load 4 value)) s
          (pb_encode_fixed32-Appends value s v room) v room in
      (done.0, done.1, pb_decode_fixed32-store (load 4 value) n rest e hv hn)

  -- What `pb_encode_fixed64` writes to a buffer with room is the eight bytes of the value at its
  -- pointer, from which `pb_decode_fixed64` reads the value back.
  pub pb_decode_fixed64-pb_encode_fixed64 :
      (value : List ℕ)
      → load 8 value < 2 ^ 64
      → s.bytes_written + 8 ≤ s.max_size
      → 8 ≤ n
      → let bs = store 8 (load 8 value) in
        ((pb_encode_fixed64 value s).0 ≡ some tt)
        × (written (pb_encode_fixed64 value s).1 ≡ written s ++ bs)
        × (pb_decode_fixed64 (reading (bs ++ rest) n e)
            ≡ (some (load 8 value), reading rest (n - 8) e))
  unfolding store
  pb_decode_fixed64-pb_encode_fixed64 value hv room hn =
      let done =
        appended (pb_encode_fixed64 value) (store 8 (load 8 value)) s
          (pb_encode_fixed64-Appends value s v room) v room in
      (done.0, done.1, pb_decode_fixed64-store (load 8 value) n rest e hv hn)
