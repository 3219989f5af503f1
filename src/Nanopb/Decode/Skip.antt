-- ===== src/Nanopb/Decode/Skip.antt =====
-- Skipping a value (CardPang/Pods/nanopb/pb_decode.c): `pb_skip_field` passes over the value of
-- each wire type, and a string's substream is the string.
use card_pang.Common.{
  ℕ, zero, suc, ◌+◌, ◌-◌, ◌%◌, ◌^◌, ◌≤◌, ◌<◌, ◌≡◌, ap, subst, ◌∙◌, Option, some, List, [], ◌∷◌,
  ◌++◌, length, arith, le→ltb,
}
use card_pang.Nanopb.Types.{ErrorMessage, after, varint, bits64, string, bits32}
use card_pang.Nanopb.Encode.Varint.{IsVarint, last, more}
use card_pang.Nanopb.Input.{pb_read, pb_read_null}
use card_pang.Nanopb.Input.Bounds.{reading, pb_read-prefix, pb_read_null-prefix}
use card_pang.Nanopb.Decode.{
  skip_varint_rounds, pb_skip_varint, pb_skip_string, pb_skip_field, split_stream,
  pb_make_string_substream,
}
use card_pang.Nanopb.Decode.Varint.{pb_decode_varint32-IsVarint, continues_last, continues_more}

read_first :
    (b n : ℕ) (rest : List ℕ) (e : Option ErrorMessage)
    → 0 < n
    → pb_read 1 (reading (b ∷ rest) n e) ≡ (some (b ∷ []), reading rest (n - 1) e)
read_first b n rest e h = pb_read-prefix (b ∷ []) rest n e h

skip_varint_rounds-IsVarint :
    (f : ℕ) {v : ℕ} {bs : List ℕ} (n : ℕ) (rest : List ℕ) (e : Option ErrorMessage)
    → IsVarint v bs
    → length bs ≤ f
    → length bs ≤ n
    → skip_varint_rounds f (reading (bs ++ rest) n e) ≡ (some tt, reading rest (n - length bs) e)
unfolding skip_varint_rounds
skip_varint_rounds-IsVarint zero n rest e (last h) hf hn = absurd (omega arith)
skip_varint_rounds-IsVarint zero n rest e (more h w) hf hn = absurd (omega arith)
skip_varint_rounds-IsVarint (suc f) n rest e (last {v} h) hf hn =
    ground (arith, read_first v n rest e, continues_last v)
skip_varint_rounds-IsVarint (suc f) n rest e (more {v} {bs} h w) hf hn = ground (
  arith,
  read_first (v % 128 + 128) n (bs ++ rest) e,
  continues_more (v % 128),
  skip_varint_rounds-IsVarint f (n - 1) rest e w,
)

pub pb_skip_varint-IsVarint :
    {v : ℕ} {bs : List ℕ} (n : ℕ) (rest : List ℕ) (e : Option ErrorMessage)
    → IsVarint v bs
    → length bs ≤ n
    → pb_skip_field varint (reading (bs ++ rest) n e) ≡ (some tt, reading rest (n - length bs) e)
unfolding pb_skip_field pb_skip_varint
pb_skip_varint-IsVarint {v} {bs} n rest e w h =
    skip_varint_rounds-IsVarint (suc n) n rest e w (omega arith) h

pub pb_skip_field-fixed :
    (bs rest : List ℕ) (n : ℕ) (e : Option ErrorMessage)
    → length bs ≤ n
    → ((length bs ≡ 8)
        → pb_skip_field bits64 (reading (bs ++ rest) n e) ≡ (some tt, reading rest (n - 8) e))
      × ((length bs ≡ 4)
          → pb_skip_field bits32 (reading (bs ++ rest) n e) ≡ (some tt, reading rest (n - 4) e))
unfolding pb_skip_field
pb_skip_field-fixed bs rest n e h = (of_length 8, of_length 4)
  where
    of_length :
        (k : ℕ)
        → length bs ≡ k
        → pb_read_null k (reading (bs ++ rest) n e) ≡ (some tt, reading rest (n - k) e)
    of_length k q =
        subst (λ j. pb_read_null j (reading (bs ++ rest) n e) ≡ (some tt, reading rest (n - j) e)) q
          (pb_read_null-prefix bs rest n e h)

-- A length and that many bytes are passed over together.
pub pb_skip_string-prefix :
    {hs : List ℕ} (bs rest : List ℕ) (n : ℕ) (e : Option ErrorMessage)
    → IsVarint (length bs) hs
    → length bs < 2 ^ 32
    → length hs + length bs ≤ n
    → pb_skip_field string (reading (hs ++ (bs ++ rest)) n e)
      ≡ (some tt, reading rest (n - length hs - length bs) e)
unfolding pb_skip_field pb_skip_string
pb_skip_string-prefix {hs} bs rest n e w h hn =
    ap (λ r. after r pb_read_null) (pb_decode_varint32-IsVarint n (bs ++ rest) e w h (omega arith))
    ∙ pb_read_null-prefix bs rest (n - length hs) e (omega arith)

-- The substream of a string starts at its first byte and has its length; the stream itself has no
-- longer those bytes to read.
pub pb_make_string_substream-prefix :
    {hs : List ℕ} (bs rest : List ℕ) (n : ℕ) (e : Option ErrorMessage)
    → IsVarint (length bs) hs
    → length bs < 2 ^ 32
    → length hs + length bs ≤ n
    → pb_make_string_substream (reading (hs ++ (bs ++ rest)) n e) ≡ (
      some (reading (bs ++ rest) (length bs) e),
      reading (bs ++ rest) (n - length hs - length bs) e,
    )
unfolding pb_make_string_substream split_stream
pb_make_string_substream-prefix {hs} bs rest n e w h hn =
    ap (λ r. after r split_stream) (pb_decode_varint32-IsVarint n (bs ++ rest) e w h (omega arith))
    ∙ rw (le→ltb (n - length hs) (length bs) (omega arith))
