-- ===== src/Nanopb/Message/Decode/Safe.antt =====
-- `pb_decode_noinit` and `pb_decode` of CardPang/Pods/nanopb/pb_decode.c on a buffer that may hold
-- anything.
use card_pang.Common.{
  ℕ, zero, suc, ◌+◌, not, ◌&&◌, Option, none, some, List, [], ◌∷◌, length, ltb, ◌==◌, if◌then◌else◌,
  Bool-cases, inl, inr, ◌-◌, ◌^◌,
}
use card_pang.Nanopb.Types.{◌>>=◌, ◌>>◌, return, u64, WireType}
use card_pang.Nanopb.Input.{IStream}
use card_pang.Nanopb.Input.Bounds.{IsInput}
use card_pang.Nanopb.Decode.{pb_skip_field}
use card_pang.Nanopb.Decode.Inside.{pb_skip_field-StaysInside}
use card_pang.Nanopb.Fields.{FieldIter, field_at, current, find_extension_field}
use card_pang.Nanopb.Defaults.{iter_from_extension, pb_message_set_to_defaults}
use card_pang.Nanopb.Message.{pointer_at}
use card_pang.Nanopb.Message.Machine.{Machine, D, on_stream, put, change}
use card_pang.Nanopb.Message.Machine.Safe.{
  Within, Within-refl, Within-trans, Within-IsInput, Safe, return-Safe, starve-Safe, put-Safe,
  >>=-Safe, choose-Safe, on_stream-Safe, change-Safe,
}
use card_pang.Nanopb.Message.Release.{pb_release_single_field, pb_release}
use card_pang.Nanopb.Message.Fields.Safe.{ReadsInside, then-Safe}
use card_pang.Nanopb.Message.Callbacks.Safe.{decode_field-Safe}
use card_pang.Nanopb.Message.Decode.{
  Setup, Progress, release_failed, decode_message, field_here, default_extension_decoder,
  one_extension, extension_rounds, decode_extension, skipped, unknown_field,
}

-- The user's functions read from the stream with `pb_read`, as the documentation asks.
pub record IsCareful (setup : Setup) : Type 0 where
  pub reads : ReadsInside setup.runtime
  pub extensions :
      (function extension tag : ℕ) (wire_type : WireType)
      → Safe (setup.call_extension function extension tag wire_type)

module _ (setup : Setup) (careful : IsCareful setup) (depth : ℕ) (noinit : ℕ → ℕ → D (Unit {0}))
    (noinits : (fields dest : ℕ) → Safe (noinit fields dest)) where
  release_failed-Within :
      (fields dest : ℕ) {s : IStream (List ℕ)} (r : Option (Unit {0}) × Machine)
      → IsInput s
      → Within s r.1.stream
      → Within s (release_failed setup depth noinit fields dest r).1.stream
  unfolding release_failed
  release_failed-Within fields dest (some _, t) v h = h
  release_failed-Within fields dest (none, t) v h = Within-trans h (
      change-Safe (pb_release setup.table setup.arg setup.runtime.pb_free depth fields dest) t
        (Within-IsInput h v))

  pub decode_message-Safe : (fields dest : ℕ) → Safe (decode_message setup depth noinit fields dest)
  unfolding decode_message
  decode_message-Safe fields dest =
      let set = pb_message_set_to_defaults setup.table setup.constant setup.arg depth fields dest in
      then-Safe (change set)
        (λ t. release_failed setup depth noinit fields dest (noinit fields dest t))
        (change-Safe set)
        (λ t v.
          release_failed-Within fields dest (noinit fields dest t) v (noinits fields dest t v))

  pub field_here-Safe :
      (wire_type : WireType) (iter : FieldIter)
      → Safe (field_here setup depth noinit wire_type iter)
  unfolding field_here
  field_here-Safe wire_type iter =
      decode_field-Safe setup.runtime careful.reads (decode_message setup depth noinit) noinit
        (pb_message_set_to_defaults setup.table setup.constant setup.arg depth)
        (pb_release_single_field setup.table setup.arg setup.runtime.pb_free (suc depth))
        decode_message-Safe noinits wire_type iter

  default_extension_decoder-Safe :
      (extension tag : ℕ) (wire_type : WireType)
      → Safe (default_extension_decoder setup depth noinit extension tag wire_type)
  unfolding default_extension_decoder
  default_extension_decoder-Safe extension tag wire_type t v =
      let field = field_at (setup.table (setup.arg (pointer_at t.memory extension))) 0 in
      let iter = iter_from_extension setup.table setup.constant setup.arg extension t.memory in
      let call = field_here setup depth noinit wire_type iter in
      choose-Safe (not (field.tag == tag)) (return tt)
        (put (u64 (extension + 24)) (1 ∷ []) >> (call >>= λ _. return tt)) (return-Safe tt)
        (then-Safe (put (u64 (extension + 24)) (1 ∷ [])) (call >>= λ _. return tt)
          (put-Safe (u64 (extension + 24)) (1 ∷ []))
          (>>=-Safe call (λ _. return tt) (field_here-Safe wire_type iter) (λ _. return-Safe tt)))
        t v

  one_extension-Safe :
      (extension tag : ℕ) (wire_type : WireType)
      → Safe (one_extension setup depth noinit extension tag wire_type)
  unfolding one_extension
  one_extension-Safe extension tag wire_type t v =
      let function = setup.decode_function (pointer_at t.memory extension) in
      choose-Safe (function == 0)
        (default_extension_decoder setup depth noinit extension tag wire_type)
        (setup.call_extension function extension tag wire_type)
        (default_extension_decoder-Safe extension tag wire_type)
        (careful.extensions function extension tag wire_type) t v

  extension_rounds-Safe :
      (rounds pos extension tag : ℕ) (wire_type : WireType)
      → Safe (extension_rounds setup depth noinit rounds pos extension tag wire_type)
  unfolding extension_rounds
  extension_rounds-Safe zero pos extension tag wire_type t v = starve-Safe (Unit {0}) t v
  extension_rounds-Safe (suc rounds) pos extension tag wire_type t v =
      let rest : D (Unit {0}) = (λ u.
        extension_rounds setup depth noinit rounds pos (pointer_at u.memory (u64 (extension + 16)))
          tag wire_type u) in
      elim (Bool-cases (not (extension == 0) && pos == t.stream.bytes_left)) [
        | inl e ↦ rw e (
            then-Safe (one_extension setup depth noinit extension tag wire_type) rest
              (one_extension-Safe extension tag wire_type)
              (λ u.
                extension_rounds-Safe rounds pos (pointer_at u.memory (u64 (extension + 16))) tag
                  wire_type u)
              t v)
        | inr e ↦ rw e (Within-refl t.stream)
      ]

  skipped-Safe :
      (wire_type : WireType) (p : Progress) → Safe (skipped setup depth noinit wire_type p)
  unfolding skipped
  skipped-Safe wire_type p =
      then-Safe (on_stream (pb_skip_field wire_type)) (return p)
        (on_stream-Safe (pb_skip_field wire_type) (pb_skip_field-StaysInside wire_type))
        (return-Safe p)

  pub unknown_field-Safe :
      (wire_type : WireType) (tag : ℕ) (p : Progress)
      → Safe (unknown_field setup depth noinit wire_type tag p)
  unfolding unknown_field decode_extension
  unknown_field-Safe wire_type tag p =
      let r = find_extension_field p.iter in
      let p' : Progress = record p {
        iter = r.1;
        extension_range_start = if r.0 then (current r.1).tag else 2 ^ 32 - 1;
      } in
      let extend = decode_extension setup depth noinit tag wire_type r.1 in
      choose-Safe (ltb tag p.extension_range_start) (skipped setup depth noinit wire_type p) _
        (skipped-Safe wire_type p)
        (choose-Safe (ltb tag p'.extension_range_start) (skipped setup depth noinit wire_type p') _
          (skipped-Safe wire_type p')
          (λ t.
            let rest : D Progress = (λ u.
              if u.stream.bytes_left == t.stream.bytes_left
              then skipped setup depth noinit wire_type p' u
              else (some p', u)) in
            then-Safe extend rest
              (λ u.
                extension_rounds-Safe (suc (length u.memory)) u.stream.bytes_left
                  (pointer_at u.memory r.1.p_data) tag wire_type u)
              (λ u v. elim (Bool-cases (u.stream.bytes_left == t.stream.bytes_left)) [
                | inl e ↦ rw e (skipped-Safe wire_type p' u v)
                | inr e ↦ rw e (Within-refl u.stream)
              ])
              t))
