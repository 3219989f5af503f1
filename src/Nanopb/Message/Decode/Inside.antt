-- ===== src/Nanopb/Message/Decode/Inside.antt =====
-- `pb_decode` of CardPang/Pods/nanopb/pb_decode.c reads nothing behind its buffer, whatever the buffer
-- holds.
use card_pang.Common.{
  ℕ, zero, suc, Bool, not, ◌&&◌, Option, none, some, List, ◌==◌, Bool-cases, inl, inr,
}
use card_pang.Nanopb.Types.{
  ◌>>=◌, ◌>>◌, return, WireType, store, pb_htype, htype_repeated, wrong_size_for_fixed_count_field,
  missing_required_field,
}
use card_pang.Nanopb.Input.{IStream}
use card_pang.Nanopb.Input.Bounds.{IsInput}
use card_pang.Nanopb.Decode.{pb_decode_tag}
use card_pang.Nanopb.Decode.Inside.{pb_decode_tag-Advances}
use card_pang.Nanopb.Fields.{current, pb_field_iter_begin, pb_field_iter_find}
use card_pang.Nanopb.Message.Machine.{Machine, D, put, fail}
use card_pang.Nanopb.Message.Machine.Safe.{
  Within, Within-refl, Within-trans, Within-IsInput, Advances-Within, Safe, fail-Safe, return-Safe,
  starve-Safe, put-Safe, >>=-Safe, choose-Safe,
}
use card_pang.Nanopb.Message.Fields.Safe.{then-Safe}
use card_pang.Nanopb.Message.Decode.{
  Setup, Progress, first_progress, field_here, unknown_field, is_short, is_at, count_fixed,
  see_required, known_field, one_tag, after_tag, field_rounds, finish, all_fields, pb_decode_noinit,
  pb_decode,
}
use card_pang.Nanopb.Message.Seen.{all_seen, required_count}
use card_pang.Nanopb.Message.Decode.Safe.{
  IsCareful, decode_message-Safe, field_here-Safe, unknown_field-Safe,
}

module _ (setup : Setup) (careful : IsCareful setup) (depth : ℕ) (noinit : ℕ → ℕ → D (Unit {0}))
    (noinits : (fields dest : ℕ) → Safe (noinit fields dest)) where
  count_fixed-Safe : (here : ℕ) (p : Progress) → Safe (count_fixed setup depth noinit here p)
  unfolding count_fixed
  count_fixed-Safe here p t v =
      let field = current p.iter in
      let p' : Progress = record p {
        iter = record p.iter { p_size = here };
        fixed_count_field = some p.iter.pos;
      } in
      choose-Safe
        (not (pb_htype field.type_bits == htype_repeated && p.iter.p_size == p.iter.p_data))
        (return p) _ (return-Safe p)
        (choose-Safe (is_at setup depth noinit p.fixed_count_field p.iter.pos) (return p') _
          (return-Safe p')
          (choose-Safe (is_short setup depth noinit here p t)
            (fail wrong_size_for_fixed_count_field) (put here (store 4 0) >> return p')
            (fail-Safe Progress wrong_size_for_fixed_count_field)
            (then-Safe (put here (store 4 0)) (return p') (put-Safe here (store 4 0))
              (return-Safe p'))))
        t v

  known_field-Safe :
      (here : ℕ) (wire_type : WireType) (p : Progress)
      → Safe (known_field setup depth noinit here wire_type p)
  unfolding known_field
  known_field-Safe here wire_type p =
      >>=-Safe (count_fixed setup depth noinit here p)
        (λ counted.
          let seen = see_required setup depth noinit counted in
          field_here setup depth noinit wire_type seen.iter >>= λ iter.
          return (record seen { iter = iter }))
        (count_fixed-Safe here p)
        (λ counted.
          let seen = see_required setup depth noinit counted in
          >>=-Safe (field_here setup depth noinit wire_type seen.iter)
            (λ iter. return (record seen { iter = iter }))
            (field_here-Safe setup careful depth noinit noinits wire_type seen.iter)
            (λ iter. return-Safe (record seen { iter = iter })))

  one_tag-Safe :
      (here : ℕ) (tag : WireType × ℕ) (p : Progress) → Safe (one_tag setup depth noinit here tag p)
  unfolding one_tag
  one_tag-Safe here (wire_type, tag) p =
      let r = pb_field_iter_find tag p.iter in
      let found : Progress = record p { iter = r.1 } in
      choose-Safe r.0 (known_field setup depth noinit here wire_type found)
        (unknown_field setup depth noinit wire_type tag found)
        (known_field-Safe here wire_type found)
        (unknown_field-Safe setup careful depth noinit noinits wire_type tag found)

  after_tag-Within :
      (rest : Progress → D Progress) (here : ℕ) (p : Progress) (t : Machine)
      (r : Option (WireType × ℕ) × Bool × IStream (List ℕ))
      → ((q : Progress) → Safe (rest q))
      → IsInput t.stream
      → Within t.stream r.2
      → Within t.stream (after_tag setup depth noinit rest here p t r).1.stream
  unfolding after_tag
  after_tag-Within rest here p t (none, eof, s) h v a = a
  after_tag-Within rest here p t (some tag, eof, s) h v a = Within-trans a (
      >>=-Safe (one_tag setup depth noinit here tag p) rest (one_tag-Safe here tag p) h
        (record t { stream = s }) (Within-IsInput a v))

  field_rounds-Safe :
      (rounds here : ℕ) (p : Progress) → Safe (field_rounds setup depth noinit rounds here p)
  unfolding field_rounds
  field_rounds-Safe zero here p t v = starve-Safe Progress t v
  field_rounds-Safe (suc rounds) here p t v = elim (Bool-cases (t.stream.bytes_left == 0)) [
    | inl e ↦ rw e (Within-refl t.stream)
    | inr e ↦ rw e (
        after_tag-Within (field_rounds setup depth noinit rounds here) here p t
          (pb_decode_tag t.stream) (field_rounds-Safe rounds here) v
          (Advances-Within (pb_decode_tag-Advances t.stream v)))
  ]

  finish-Safe : (here : ℕ) (p : Progress) → Safe (finish setup depth noinit here p)
  unfolding finish
  finish-Safe here p t v =
      choose-Safe (is_short setup depth noinit here p t) (fail wrong_size_for_fixed_count_field) _
        (fail-Safe (Unit {0}) wrong_size_for_fixed_count_field)
        (choose-Safe (all_seen (required_count p.iter) p.fields_seen) (return tt)
          (fail missing_required_field) (return-Safe tt)
          (fail-Safe (Unit {0}) missing_required_field))
        t v

  all_fields-Safe : (here fields dest : ℕ) → Safe (all_fields setup depth noinit here fields dest)
  unfolding all_fields
  all_fields-Safe here fields dest =
      let start = first_progress (pb_field_iter_begin (setup.table fields) dest).1 in
      let loop : D Progress =
        (λ t. field_rounds setup depth noinit (suc t.stream.bytes_left) here start t) in
      then-Safe (put here (store 4 0)) (loop >>= finish setup depth noinit here)
        (put-Safe here (store 4 0))
        (>>=-Safe loop (finish setup depth noinit here)
          (λ t. field_rounds-Safe (suc t.stream.bytes_left) here start t) (finish-Safe here))

module _ (setup : Setup) (careful : IsCareful setup) where
  pb_decode_noinit-Safe : (depth fields dest : ℕ) → Safe (pb_decode_noinit setup depth fields dest)
  unfolding pb_decode_noinit
  pb_decode_noinit-Safe zero fields dest = starve-Safe (Unit {0})
  pb_decode_noinit-Safe (suc depth) fields dest =
      all_fields-Safe setup careful depth (pb_decode_noinit setup depth)
        (pb_decode_noinit-Safe depth) (setup.fixed_count_size (suc depth)) fields dest

  -- Whatever a buffer and the memory hold, for every table of fields, with submessages, arrays, unions,
  -- callbacks, pointers and extensions, `pb_decode` takes only bytes that are left in the buffer, when
  -- the user's functions read from the stream with `pb_read`.
  pub pb_decode-Within :
      (depth fields dest : ℕ) (t : Machine)
      → IsInput t.stream
      → Within t.stream (pb_decode setup depth fields dest t).1.stream
  unfolding pb_decode
  pb_decode-Within depth fields dest =
      decode_message-Safe setup careful depth (pb_decode_noinit setup depth)
        (pb_decode_noinit-Safe depth) fields dest
