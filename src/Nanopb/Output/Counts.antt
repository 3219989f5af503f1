-- ===== src/Nanopb/Output/Counts.antt =====
-- `pb_write` of CardPang/Pods/nanopb/pb_encode.c on a sizing stream, and the bytes that it reads.
use card_pang.Common.{
  ℕ, zero, suc, ◌+◌, ◌≡◌, refl, ap, sym, ◌∙◌, Option, none, some, List, [], ◌∷◌, length, ltb,
  if◌then◌else◌,
}
use card_pang.Nanopb.Types.{u64, stream_full}
use card_pang.Nanopb.Output.{
  OStream, WriteCallback, Buffer, fail, fetch, advance, after_callback, call_write, pb_write_with,
  pb_write,
}
use card_pang.Nanopb.Output.Bounds.{fetch-length}

pub length-fetch : (count : ℕ) (buf : List ℕ) → length (fetch count buf) ≡ count
unfolding fetch
length-fetch zero buf = refl
length-fetch (suc count) [] = ap suc (length-fetch count [])
length-fetch (suc count) (b ∷ buf) = ap suc (length-fetch count buf)

fetch-fetch : (count : ℕ) (buf : List ℕ) → fetch count (fetch count buf) ≡ fetch count buf
fetch-fetch count buf =
    ap (λ n. fetch n (fetch count buf)) (sym (length-fetch count buf))
    ∙ fetch-length (fetch count buf)

-- Only the bytes that are written matter.
pub pb_write-fetch :
    (count : ℕ) (buf : List ℕ) (s : OStream Buffer)
    → pb_write buf count s ≡ pb_write (fetch count buf) (length (fetch count buf)) s
unfolding pb_write pb_write_with call_write
pb_write-fetch count buf s =
    same s.callback ∙ ap (λ n. pb_write (fetch count buf) n s) (sym (length-fetch count buf))
  where
    same :
        (callback : Option (WriteCallback Buffer))
        → pb_write_with callback buf count s ≡ pb_write_with callback (fetch count buf) count s
    same none = refl
    same (some callback) =
        ap
          (λ bytes.
            if ltb 0 count
            then (if ltb s.max_size (u64 (s.bytes_written + count))
                then fail stream_full s
                else after_callback count s (callback s.state bytes))
            else advance count s)
          (sym (fetch-fetch count buf))

pub pb_write-sizing :
    (buf : List ℕ) (count : ℕ) (s : OStream Buffer)
    → s.callback ≡ none
    → pb_write buf count s ≡ (some tt, record s { bytes_written = u64 (s.bytes_written + count) })
unfolding pb_write pb_write_with
pb_write-sizing buf count s h = ap (λ c. pb_write_with c buf count s) h
