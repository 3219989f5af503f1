-- ===== src/Nanopb/Message/Machine/Safe.antt =====
-- Computations of CardPang/Pods/nanopb/pb_decode.c that take only what is left of a buffer.
use card_pang.Common.{
  ℕ, ◌+◌, ◌≤◌, ◌≡◌, refl, ap, ◌∙◌, Bool, true, false, Option, none, some, List, length, drop,
  length-drop, drop-drop, arith, if◌then◌else◌,
}
use card_pang.Nanopb.Types.{M, ErrorMessage, after, ◌>>=◌, return}
use card_pang.Nanopb.Input.{IStream}
use card_pang.Nanopb.Input.Bounds.{IsInput, Advances, StaysInside}
use card_pang.Nanopb.Message.Machine.{Machine, D, on_stream, put, fail, starve, change}

-- `t` is `s` with `count` bytes of its buffer taken, and at least these no longer left.
pub record Within (s t : IStream (List ℕ)) : Type 0 where
  pub count : ℕ
  pub taken : t.state ≡ drop count s.state
  pub bounded : t.bytes_left + count ≤ s.bytes_left
  pub same_callback : t.callback ≡ s.callback
  pub same_reader : t.is_buf_read ≡ s.is_buf_read

pub Advances-Within : {s t : IStream (List ℕ)} → Advances s t → Within s t
Advances-Within a = record {
  count = a.count;
  taken = a.taken;
  bounded = omega (arith, a.counted);
  same_callback = a.same_callback;
  same_reader = a.same_reader;
}

pub Within-refl : (s : IStream (List ℕ)) → Within s s
Within-refl s = record {
  count = 0;
  taken = refl;
  bounded = omega arith;
  same_callback = refl;
  same_reader = refl;
}

pub Within-trans : {s t u : IStream (List ℕ)} → Within s t → Within t u → Within s u
Within-trans {s} {t} {u} a b = record {
  count = a.count + b.count;
  taken =
      b.taken
      ∙ ap (drop b.count) a.taken
      ∙ drop-drop b.count a.count (a.count + b.count) s.state refl;
  bounded = omega (arith, a, b);
  same_callback = b.same_callback ∙ a.same_callback;
  same_reader = b.same_reader ∙ a.same_reader;
}

pub Within-IsInput : {s t : IStream (List ℕ)} → Within s t → IsInput s → IsInput t
Within-IsInput {s} {t} a v = record {
  calls_buf_read = a.same_callback ∙ v.calls_buf_read;
  reads_buffer = a.same_reader ∙ v.reads_buffer;
  backed = omega (arith, a, v.backed, ap length a.taken, length-drop a.count s.state);
}

abbrev pub Safe : {A : Type 0} → D A → Type 0
Safe m = (t : Machine) → IsInput t.stream → Within t.stream (m t).1.stream

pub failed-Within :
    (A : Type 0) (msg : ErrorMessage) {s : IStream (List ℕ)} (t : Machine)
    → Within s t.stream
    → Within s (fail {A = A} msg t).1.stream
failed-Within A msg t h = record {
  count = h.count;
  taken = h.taken;
  bounded = h.bounded;
  same_callback = h.same_callback;
  same_reader = h.same_reader;
}

pub fail-Safe : (A : Type 0) (msg : ErrorMessage) → Safe (fail {A = A} msg)
fail-Safe A msg t v = failed-Within A msg t (Within-refl t.stream)

pub return-Safe : {A : Type 0} (a : A) → Safe (return a)
return-Safe a t v = Within-refl t.stream

pub starve-Safe : (A : Type 0) → Safe (starve {A = A})
starve-Safe A t v = Within-refl t.stream

pub put-Safe : (address : ℕ) (bytes : List ℕ) → Safe (put address bytes)
put-Safe address bytes t v = Within-refl t.stream

pub after-Safe :
    {A B : Type 0} (s : IStream (List ℕ)) (r : Option A × Machine) (f : A → D B)
    → IsInput s
    → Within s r.1.stream
    → ((a : A) → Safe (f a))
    → Within s (after r f).1.stream
after-Safe s (none, u) f v h k = h
after-Safe s (some a, u) f v h k = Within-trans h (k a u (Within-IsInput h v))

pub >>=-Safe :
    {A B : Type 0} (m : D A) (f : A → D B) → Safe m → ((a : A) → Safe (f a)) → Safe (m >>= f)
>>=-Safe m f hm hf t v = after-Safe t.stream (m t) f v (hm t v) hf

pub choose-Safe : {A : Type 0} (b : Bool) (m k : D A) → Safe m → Safe k → Safe (if b then m else k)
choose-Safe true m k hm hk = hm
choose-Safe false m k hm hk = hk

pub on_stream-Safe : {A : Type 0} (m : M (IStream (List ℕ)) A) → StaysInside m → Safe (on_stream m)
unfolding on_stream
on_stream-Safe m h t v = Advances-Within (h t.stream v)

change-Within : (t : Machine) (r : Option (List ℕ)) → Within t.stream (change (λ _. r) t).1.stream
unfolding change
change-Within t none = Within-refl t.stream
change-Within t (some memory) = Within-refl t.stream

pub change-Safe : (f : List ℕ → Option (List ℕ)) → Safe (change f)
unfolding change
change-Safe f t v = change-Within t (f t.memory)
