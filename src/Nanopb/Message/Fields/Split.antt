-- ===== src/Nanopb/Message/Fields/Split.antt =====
-- Substreams in CardPang/Pods/nanopb/pb_decode.c: a stream that `pb_make_string_substream` has split,
-- and what `pb_close_string_substream` leaves of it.
use card_pang.Common.{
  ℕ, ◌+◌, ◌-◌, ◌≤◌, ◌≡◌, refl, ap, ◌∙◌, Option, none, some, List, length, drop, drop-drop,
  length-drop, arith, ltb, if◌then◌else◌, Bool-cases, inl, inr, ◌==◌,
}
use card_pang.Nanopb.Types.{ErrorMessage, after, ◌>>=◌, parent_stream_too_short}
use card_pang.Nanopb.Input.{IStream, pb_read_null}
use card_pang.Nanopb.Input.Bounds.{IsInput, pb_read_null-StaysInside}
use card_pang.Nanopb.Decode.{
  pb_decode_varint32, split_stream, pb_make_string_substream, pb_close_string_substream, rejoin,
}
use card_pang.Nanopb.Decode.Inside.{pb_decode_varint32-StaysInside}
use card_pang.Nanopb.Message.Machine.{Machine, D, on_stream}
use card_pang.Nanopb.Message.Machine.Safe.{
  Within, Within-refl, Within-trans, Within-IsInput, Advances-Within, Safe, failed-Within,
}
use card_pang.Nanopb.Message.Fields.{close_sub}

-- `s` is split into `sub` and what is left for its parent `p`.
pub record Split (s p sub : IStream (List ℕ)) : Type 0 where
  pub count : ℕ
  pub taken : sub.state ≡ drop count s.state
  pub shared : p.state ≡ sub.state
  pub bounded : p.bytes_left + sub.bytes_left + count ≤ s.bytes_left
  pub parent_callback : p.callback ≡ s.callback
  pub parent_reader : p.is_buf_read ≡ s.is_buf_read
  pub same_callback : sub.callback ≡ s.callback
  pub same_reader : sub.is_buf_read ≡ s.is_buf_read

pub Split-IsInput : {s p sub : IStream (List ℕ)} → Split s p sub → IsInput s → IsInput sub
Split-IsInput {s} {p} {sub} a v = record {
  calls_buf_read = a.same_callback ∙ v.calls_buf_read;
  reads_buffer = a.same_reader ∙ v.reads_buffer;
  backed = omega (arith, a, v.backed, ap length a.taken, length-drop a.count s.state);
}

pub Split-Within : {s p sub : IStream (List ℕ)} → Split s p sub → Within s p
Split-Within {s} {p} {sub} a = record {
  count = a.count;
  taken = a.shared ∙ a.taken;
  bounded = omega (arith, a);
  same_callback = a.parent_callback;
  same_reader = a.parent_reader;
}

-- A parent that goes on where its substream has stopped.
rejoined-Within :
    {s p sub u : IStream (List ℕ)} (e : Option ErrorMessage)
    → Split s p sub
    → Within sub u
    → u.bytes_left ≤ sub.bytes_left
    → Within s (record p { state = u.state; errmsg = e })
rejoined-Within {s} {p} {sub} {u} e a b h = record {
  count = a.count + b.count;
  taken =
      b.taken
      ∙ ap (drop b.count) a.taken
      ∙ drop-drop b.count a.count (a.count + b.count) s.state (omega arith);
  bounded = omega (arith, a, b);
  same_callback = a.parent_callback;
  same_reader = a.parent_reader;
}

rejoin-Within :
    {s p sub : IStream (List ℕ)} (r : Option (Unit {0}) × IStream (List ℕ))
    → Split s p sub
    → Within sub r.1
    → Within s (rejoin p r).1
unfolding rejoin
rejoin-Within (none, u) a b = Split-Within a
rejoin-Within (some _, u) a b = rejoined-Within u.errmsg a b (omega (arith, b))

skipped-Within :
    (s : IStream (List ℕ))
    → IsInput s
    → Within s (if s.bytes_left == 0 then (some tt, s) else pb_read_null s.bytes_left s).1
skipped-Within s v = elim (Bool-cases (s.bytes_left == 0)) [
  | inl e ↦ rw e (Within-refl s)
  | inr e ↦ rw e (Advances-Within (pb_read_null-StaysInside s.bytes_left s v))
]

pb_close_string_substream-Within :
    {s p sub u : IStream (List ℕ)}
    → IsInput s
    → Split s p sub
    → Within sub u
    → Within s (pb_close_string_substream u p).1
unfolding pb_close_string_substream
pb_close_string_substream-Within {s} {p} {sub} {u} v a b =
    rejoin-Within (if u.bytes_left == 0 then (some tt, u) else pb_read_null u.bytes_left u) a
      (Within-trans b (skipped-Within u (Within-IsInput b (Split-IsInput a v))))

pub close_sub-Within :
    {A : Type 0} {s p sub : IStream (List ℕ)} (status : Option A) (t : Machine)
    → IsInput s
    → Split s p sub
    → Within sub t.stream
    → Within s (close_sub p (status, t)).1.stream
unfolding close_sub
close_sub-Within {A} {s} {p} {sub} status t v a b =
    closed (pb_close_string_substream t.stream p) (pb_close_string_substream-Within v a b)
  where
    closed :
        (r : Option (Unit {0}) × IStream (List ℕ))
        → Within s r.1
        → Within s
            (elim r.0 as (λ _. Option A × Machine) [
              | none ↦ (none, record t { stream = r.1 })
              | some _ ↦ (status, record t { stream = r.1 })
            ]).1.stream
    closed (none, u) h = h
    closed (some _, u) h = h

split_stream-Safe :
    {A : Type 0} (size : ℕ) (s : IStream (List ℕ)) (t : Machine) (f : IStream (List ℕ) → D A)
    → IsInput s
    → Within s t.stream
    → ((sub : IStream (List ℕ)) (u : Machine) → Split s u.stream sub → Within s (f sub u).1.stream)
    → Within s ((on_stream (split_stream size) >>= f) t).1.stream
unfolding split_stream on_stream
split_stream-Safe {A} size s t f v a h = elim (Bool-cases (ltb t.stream.bytes_left size)) [
  | inl short ↦ rw short (failed-Within A parent_stream_too_short t a)
  | inr enough ↦ rw enough (
      h (record t.stream { bytes_left = size })
        (record t { stream = record t.stream { bytes_left = t.stream.bytes_left - size } })
        (record {
          count = a.count;
          taken = a.taken;
          shared = refl;
          bounded = ground (arith, a.bounded);
          parent_callback = a.same_callback;
          parent_reader = a.same_reader;
          same_callback = a.same_callback;
          same_reader = a.same_reader;
        }))
]

-- What works on a substream and its parent stays within the stream they come from.
pub substream-Safe :
    {A : Type 0} (f : IStream (List ℕ) → D A)
    → ((s sub : IStream (List ℕ)) (u : Machine)
        → IsInput s
        → Split s u.stream sub
        → Within s (f sub u).1.stream)
    → Safe (on_stream pb_make_string_substream >>= f)
unfolding pb_make_string_substream on_stream
substream-Safe f h t v =
    sized (pb_decode_varint32 t.stream)
      (Advances-Within (pb_decode_varint32-StaysInside t.stream v))
  where
    sized :
        (r : Option ℕ × IStream (List ℕ))
        → Within t.stream r.1
        → Within t.stream ((on_stream (λ _. after r split_stream) >>= f) t).1.stream
    sized (none, u) b = b
    sized (some size, u) b =
        split_stream-Safe size t.stream (record t { stream = u }) f v b
          (λ sub w a. h t.stream sub w v a)
