-- ===== src/Nanopb/Message/Fields/Safe.antt =====
-- The decoders of a field in CardPang/Pods/nanopb/pb_decode.c take only bytes that are left.
use card_pang.Common.{ℕ, Option, List, ◌==◌, if◌then◌else◌, Bool-cases, inl, inr}
use card_pang.Nanopb.Types.{
  ◌>>◌, PbField, pb_ltype, pb_htype, ltype_bool, ltype_varint, ltype_uvarint, ltype_svarint,
  ltype_fixed32, ltype_fixed64, ltype_bytes, ltype_string, ltype_submessage,
  ltype_fixed_length_bytes, htype_repeated, invalid_field_descriptor, invalid_field_type,
}
use card_pang.Nanopb.Input.{IStream}
use card_pang.Nanopb.Input.Bounds.{IsInput}
use card_pang.Nanopb.Fields.{FieldIter}
use card_pang.Nanopb.Message.Machine.{Machine, D, fail}
use card_pang.Nanopb.Message.Machine.Safe.{
  Within, Within-refl, Safe, failed-Within, fail-Safe, >>=-Safe, choose-Safe,
}
use card_pang.Nanopb.Message.Machine.Values.{
  pb_dec_bool-Safe, pb_dec_varint-Safe, pb_dec_uvarint-Safe, pb_dec_svarint-Safe,
  pb_dec_fixed32-Safe, pb_dec_fixed64-Safe, pb_dec_fixed_length_bytes-Safe, pb_dec_bytes-Safe,
  pb_dec_string-Safe,
}
use card_pang.Nanopb.Message.Fields.{
  count_up, in_substream, Runtime, submessage_in, pb_dec_submessage, func,
}
use card_pang.Nanopb.Message.Fields.Split.{
  Split, Split-IsInput, Split-Within, close_sub-Within, substream-Safe,
}

-- What the documentation of `pb_callback_t` asks of the user's functions: they read with `pb_read`.
abbrev pub ReadsInside : Runtime → Type 0
ReadsInside runtime =
    (function : ℕ) (field : PbField) (arg : ℕ) → Safe (runtime.call_decode function field arg)

pub count_up-Safe : (p_size : ℕ) → Safe (count_up p_size)
unfolding count_up
count_up-Safe p_size t v = Within-refl t.stream

-- One computation after another.
pub then-Safe : {A : Type 0} (m : D (Unit {0})) (k : D A) → Safe m → Safe k → Safe (m >> k)
then-Safe m k hm hk = >>=-Safe m (λ _. k) hm (λ _. hk)

pub in_substream-Safe :
    (body : D (Unit {0})) (s sub : IStream (List ℕ)) (t : Machine)
    → Safe body
    → IsInput s
    → Split s t.stream sub
    → Within s (in_substream body sub t).1.stream
unfolding in_substream
in_substream-Safe body s sub t h v a =
    let r = body (record t { stream = sub }) in
    close_sub-Within r.0 r.1 v a (h (record t { stream = sub }) (Split-IsInput a v))

module _ (runtime : Runtime) (reads : ReadsInside runtime) (decode noinit : ℕ → ℕ → D (Unit {0}))
    (defaults : ℕ → ℕ → List ℕ → Option (List ℕ)) (release : FieldIter → List ℕ → Option (List ℕ))
    (decodes : (fields dest : ℕ) → Safe (decode fields dest))
    (noinits : (fields dest : ℕ) → Safe (noinit fields dest)) where
  submessage_in-Safe :
      (field : PbField) (dest : ℕ) (s sub : IStream (List ℕ)) (t : Machine)
      → IsInput s
      → Split s t.stream sub
      → Within s (submessage_in runtime decode noinit defaults release field dest sub t).1.stream
  unfolding submessage_in
  submessage_in-Safe field dest s sub t v a = elim (Bool-cases (field.ptr == 0)) [
    | inl e ↦ rw e (failed-Within (Unit {0}) invalid_field_descriptor t (Split-Within a))
    | inr e ↦ rw e (
        in_substream-Safe
          (if pb_htype field.type_bits == htype_repeated
            then decode field.ptr dest
            else noinit field.ptr dest)
          s sub t
          (choose-Safe (pb_htype field.type_bits == htype_repeated) (decode field.ptr dest)
            (noinit field.ptr dest) (decodes field.ptr dest) (noinits field.ptr dest))
          v a)
  ]

  pb_dec_submessage-Safe :
      (field : PbField) (dest : ℕ)
      → Safe (pb_dec_submessage runtime decode noinit defaults release field dest)
  unfolding pb_dec_submessage
  pb_dec_submessage-Safe field dest =
      substream-Safe (submessage_in runtime decode noinit defaults release field dest)
        (submessage_in-Safe field dest)

  pub func-Safe :
      (field : PbField) (dest : ℕ) → Safe (func runtime decode noinit defaults release field dest)
  unfolding func
  func-Safe field dest =
      let ltype = pb_ltype field.type_bits in
      choose-Safe (ltype == ltype_bool) _ _ (pb_dec_bool-Safe dest) (
        choose-Safe (ltype == ltype_varint) _ _ (pb_dec_varint-Safe field dest) (
          choose-Safe (ltype == ltype_uvarint) _ _ (pb_dec_uvarint-Safe field dest) (
            choose-Safe (ltype == ltype_svarint) _ _ (pb_dec_svarint-Safe field dest) (
              choose-Safe (ltype == ltype_fixed32) _ _ (pb_dec_fixed32-Safe dest) (
                choose-Safe (ltype == ltype_fixed64) _ _ (pb_dec_fixed64-Safe dest) (
                  choose-Safe (ltype == ltype_bytes) _ _
                    (pb_dec_bytes-Safe runtime.pb_realloc field dest)
                    (choose-Safe (ltype == ltype_string) _ _
                      (pb_dec_string-Safe runtime.pb_realloc field dest)
                      (choose-Safe (ltype == ltype_submessage) _ _
                        (pb_dec_submessage-Safe field dest)
                        (choose-Safe (ltype == ltype_fixed_length_bytes) _ (fail invalid_field_type)
                          (pb_dec_fixed_length_bytes-Safe field dest)
                          (fail-Safe (Unit {0}) invalid_field_type))))))))))
