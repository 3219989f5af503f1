-- ===== src/Nanopb/Message/Encode/Submessage.antt =====
-- `pb_encode_submessage` of CardPang/Pods/nanopb/pb_encode.c: the size is that of a first pass, and a
-- substream holds the second one to it.
use card_pang.Common.{
  ℕ, ◌+◌, ◌^◌, ◌≤◌, ◌<◌, ◌≡◌, refl, ap, sym, subst, ◌∙◌, inl, inr, Option, none, some, List, length,
  lt→ltb, le→ltb, true, ◌==◌, ==_iff, arith,
}
use card_pang.Nanopb.Types.{M, u64}
use card_pang.Nanopb.Output.{OStream, Buffer, pb_ostream_sizing}
use card_pang.Nanopb.Output.Bounds.{IsBuffer, emit}
use card_pang.Nanopb.Encode.Settled.{pb_encode_varint-Settled}
use card_pang.Nanopb.Message.Measure.{
  Encodes, Settled, grown, IsSizing, >>-Settled, unless_sizing-Encodes,
}
use card_pang.Nanopb.Message.Encode.{
  close_submessage, write_submessage, sized_submessage, submessage,
}

pub pb_ostream_sizing-IsSizing : (null : Buffer) → IsSizing (pb_ostream_sizing null)
unfolding pb_ostream_sizing
pb_ostream_sizing-IsSizing null = (refl, omega arith)

module _ (null : Buffer) (fields : M (OStream Buffer) (Unit {0})) where
  -- The second pass takes the bytes of the first.
  module _ (bs : List ℕ) (h : Encodes fields bs) where
    sub : OStream Buffer → OStream Buffer
    sub s = record s { max_size = length bs; bytes_written = 0; errmsg = none }

    sub-IsBuffer :
        (s : OStream Buffer)
        → IsBuffer s
        → s.bytes_written + length bs ≤ s.max_size
        → IsBuffer (sub s)
    unfolding sub
    sub-IsBuffer s v room = record {
      calls_buf_write = v.calls_buf_write;
      within = omega arith;
      backed = omega (arith, v);
      sized = omega (arith, v, room);
    }

    close_submessage-emit :
        (s : OStream Buffer)
        → IsBuffer s
        → s.errmsg ≡ none
        → s.bytes_written + length bs ≤ s.max_size
        → close_submessage (length bs) s (some tt, emit (sub s) bs) ≡ (some tt, emit s bs)
    unfolding close_submessage emit sub
    close_submessage-emit s v e room =
        let same : (0 + length bs == length bs) ≡ true =
          (==_iff (0 + length bs) (length bs)).1 (omega arith) in
        let count : u64 (s.bytes_written + (0 + length bs)) ≡ s.bytes_written + length bs =
          omega (arith, v, room) in
        rw same (λ i. (some tt, record (emit s bs) { bytes_written = count i; errmsg = sym e i }))

    write_submessage-emit :
        (s : OStream Buffer)
        → IsBuffer s
        → s.errmsg ≡ none
        → s.bytes_written + length bs ≤ s.max_size
        → write_submessage fields (u64 (length bs)) s ≡ (some tt, emit s bs)
    unfolding write_submessage sub
    write_submessage-emit s v e room =
        let exact : u64 (length bs) ≡ length bs = omega (arith, v, room) in
        ap (λ n. write_submessage fields n s) exact
        ∙ rw (le→ltb s.max_size (u64 (s.bytes_written + length bs)) (omega (arith, v, room))) (
            ap (close_submessage (length bs) s)
              (h.appends (sub s) (sub-IsBuffer s v room) refl (omega arith))
            ∙ close_submessage-emit s v e room)

    write_submessage-full :
        (s : OStream Buffer)
        → IsBuffer s
        → s.max_size < s.bytes_written + length bs
        → s.max_size + length bs < 2 ^ 64
        → (write_submessage fields (u64 (length bs)) s).0 ≡ none
    unfolding write_submessage
    write_submessage-full s v full wide =
        rw
          (lt→ltb s.max_size (u64 (s.bytes_written + u64 (length bs)))
            (omega (arith, v, full, wide)))
          refl

    sized_submessage-Encodes :
        Settled (sized_submessage fields (some tt, grown (length bs) (pb_ostream_sizing null)))
    unfolding sized_submessage pb_ostream_sizing
    sized_submessage-Encodes =
        let zero_more : 0 + length bs ≡ length bs = omega arith in
        >>-Settled (pb_encode_varint-Settled (u64 (0 + length bs))) (
          inl (
            bs,
            unless_sizing-Encodes (write_submessage fields (u64 (0 + length bs))) bs
                (u64 (0 + length bs)) (ap u64 zero_more)
                (λ s v e room.
                  ap (λ n. write_submessage fields (u64 n) s) zero_more
                  ∙ write_submessage-emit s v e room)
                (λ s v e full wide.
                  ap (λ n. (write_submessage fields (u64 n) s).0) zero_more
                  ∙ write_submessage-full s v full wide),
          ))

  sized_submessage-Refuses :
      (r : Option (Unit {0}) × OStream Buffer) → r.0 ≡ none → Settled (sized_submessage fields r)
  unfolding sized_submessage
  sized_submessage-Refuses (none, t) e = inr (λ s h. refl)
  sized_submessage-Refuses (some u, t) e = absurd (ground (arith, e))

  pub submessage-Settled : Settled fields → Settled (submessage null fields)
  unfolding submessage
  submessage-Settled (inl (bs, h)) =
      subst (λ r. Settled (sized_submessage fields r))
        (sym (h.counts (pb_ostream_sizing null) (pb_ostream_sizing-IsSizing null)))
        (sized_submessage-Encodes bs h)
  submessage-Settled (inr h) =
      sized_submessage-Refuses (fields (pb_ostream_sizing null))
        (h (pb_ostream_sizing null) (pb_ostream_sizing-IsSizing null))
