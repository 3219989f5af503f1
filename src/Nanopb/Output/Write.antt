-- ===== src/Nanopb/Output/Write.antt =====
-- `pb_write` on a buffer (CardPang/Pods/nanopb/pb_encode.c).
use card_pang.Common.{ℕ, ◌+◌, ◌^◌, ◌≤◌, ◌<◌, ◌≡◌, refl, sym, subst, none, some, List, ◌++◌, length}
use card_pang.Nanopb.Types.{stream_full, pb_set_error}
use card_pang.Nanopb.Output.{OStream, Buffer, pb_write}
use card_pang.Nanopb.Output.Bounds.{
  IsBuffer, written, behind, refuse, pb_write-emit, pb_write-refuse, written-emit, behind-emit,
  emit-IsBuffer,
}

module _ (s : OStream Buffer) (bs : List ℕ) (v : IsBuffer s) where
  -- On a valid buffer stream with room for the bytes, `pb_write` succeeds, appends them to what was
  -- written, leaves the memory behind them as it was, and the stream stays valid.
  pub pb_write_room :
      s.bytes_written + length bs ≤ s.max_size
      → ((pb_write bs (length bs) s).0 ≡ some tt)
        × (written (pb_write bs (length bs) s).1 ≡ written s ++ bs)
        × (behind (pb_write bs (length bs) s).1 0 ≡ behind s (length bs + 0))
        × IsBuffer (pb_write bs (length bs) s).1
  pb_write_room h =
      subst
        (λ r.
          (r.0 ≡ some tt)
          × (written r.1 ≡ written s ++ bs)
          × (behind r.1 0 ≡ behind s (length bs + 0))
          × IsBuffer r.1)
        (sym (pb_write-emit s bs v h))
        (refl, written-emit s bs v h, behind-emit s bs 0 v h, emit-IsBuffer s bs v h)

  -- On a valid buffer stream without room for the bytes, where the sizes do not wrap, `pb_write`
  -- fails, writes nothing, and sets the message to "stream full" if none was set.
  pub pb_write_full :
      s.max_size < s.bytes_written + length bs
      → s.max_size + length bs < 2 ^ 64
      → pb_write bs (length bs) s ≡ (none, record s { errmsg = pb_set_error s.errmsg stream_full })
  unfolding refuse
  pb_write_full h wide = pb_write-refuse s bs v h wide
