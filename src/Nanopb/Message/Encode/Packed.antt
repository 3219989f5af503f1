-- ===== src/Nanopb/Message/Encode/Packed.antt =====
-- The entries of an array in CardPang/Pods/nanopb/pb_encode.c: the size ahead of a packed one.
use card_pang.Common.{
  ℕ, ◌+◌, ◌*◌, ◌≡◌, refl, ap, sym, subst, inl, inr, Bool, Option, none, some, List, length, drop,
  ◌==◌, ==_iff, arith, Bool-cases,
}
use card_pang.Nanopb.Types.{
  M, u64, PbField, pb_ltype, ltype_bool, ltype_varint, ltype_uvarint, ltype_svarint, ltype_fixed32,
  ltype_fixed64, ltype_bytes, ltype_string, ltype_submessage, ltype_fixed_length_bytes,
  invalid_field_descriptor, invalid_field_type,
}
use card_pang.Nanopb.Output.{OStream, Buffer, pb_ostream_sizing}
use card_pang.Nanopb.Encode.{pb_enc_fixed32, pb_enc_fixed64}
use card_pang.Nanopb.Encode.Settled.{
  pb_encode_varint-Settled, pb_enc_varint-Settled, pb_enc_uvarint-Settled, pb_enc_svarint-Settled,
  pb_enc_fixed_length_bytes-Settled, pb_enc_bool-Settled, pb_enc_fixed32-length,
  pb_enc_fixed64-length, pb_enc_bytes-Settled, pb_enc_string-Settled,
}
use card_pang.Nanopb.Message.{Program, pointed, each_item, counted_size}
use card_pang.Nanopb.Message.Measure.{
  Encodes, Settled, fail-Settled, give_up-Settled, >>-Settled, choose-Settled,
  unless_sizing-Encodes, each_item-Settled, each_item-length,
}
use card_pang.Nanopb.Message.Encode.{pb_enc_submessage, func, packed_size, packed_data}
use card_pang.Nanopb.Message.Encode.Submessage.{submessage-Settled, pb_ostream_sizing-IsSizing}

module _ (null : Buffer) (program : Program Buffer) (mem : List ℕ) where
  module _ (encode : ℕ → ℕ → M (OStream Buffer) (Unit {0})) (check : PbField → ℕ → Option Bool)
      (hs : (fields src : ℕ) → Settled (encode fields src)) where
    pb_enc_submessage-Settled :
        (field : PbField) (src : ℕ)
        → Settled (pb_enc_submessage null program mem encode check field src)
    unfolding pb_enc_submessage
    pb_enc_submessage-Settled field src =
        choose-Settled (field.ptr == 0) (fail-Settled invalid_field_descriptor)
          (submessage-Settled null (encode field.ptr src) (hs field.ptr src))

    pub func-Settled :
        (field : PbField) (src : ℕ) → Settled (func null program mem encode check field src)
    unfolding func
    func-Settled field src =
        let t = pb_ltype field.type_bits in
        let p = drop src mem in
        let fixed32 = pb_enc_fixed32-length p in
        let fixed64 = pb_enc_fixed64-length p in
        choose-Settled (t == ltype_bool) (pb_enc_bool-Settled p) (
          choose-Settled (t == ltype_varint) (pb_enc_varint-Settled field p) (
            choose-Settled (t == ltype_uvarint) (pb_enc_uvarint-Settled field p) (
              choose-Settled (t == ltype_svarint) (pb_enc_svarint-Settled field p) (
                choose-Settled (t == ltype_fixed32) (inl (fixed32.0, fixed32.1)) (
                  choose-Settled (t == ltype_fixed64) (inl (fixed64.0, fixed64.1)) (
                    choose-Settled (t == ltype_bytes) (pb_enc_bytes-Settled field (pointed mem src))
                      (choose-Settled (t == ltype_string)
                        (pb_enc_string-Settled field (pointed mem src))
                        (choose-Settled (t == ltype_submessage)
                          (pb_enc_submessage-Settled field src)
                          (choose-Settled (t == ltype_fixed_length_bytes)
                            (pb_enc_fixed_length_bytes-Settled field p)
                            (fail-Settled invalid_field_type))))))))))

    items : PbField → ℕ → ℕ → M (OStream Buffer) (Unit {0})
    items field count p_data =
        each_item (func null program mem encode check field) field.data_size count p_data

    func-fixed32 :
        (field : PbField) (src : ℕ)
        → pb_ltype field.type_bits ≡ 4
        → func null program mem encode check field src ≡ pb_enc_fixed32 (drop src mem)
    unfolding func
    func-fixed32 field src e = rw e refl

    func-fixed64 :
        (field : PbField) (src : ℕ)
        → pb_ltype field.type_bits ≡ 5
        → func null program mem encode check field src ≡ pb_enc_fixed64 (drop src mem)
    unfolding func
    func-fixed64 field src e = rw e refl

    -- A size that is that of the entries.
    module _ (field : PbField) (p_data count : ℕ) where
      packed_some-Settled :
          (size : ℕ) (bs : List ℕ)
          → size ≡ u64 (length bs)
          → Encodes (items field count p_data) bs
          → Settled (packed_data null program mem encode check field p_data count (some size))
      unfolding packed_data items
      packed_some-Settled size bs e h = >>-Settled (pb_encode_varint-Settled size) (
          inl
            (bs, unless_sizing-Encodes (items field count p_data) bs size e h.appends h.overflows))

      packed_fixed-Settled :
          (w : ℕ)
          → ((p : ℕ)
              → (bs : List ℕ) × Encodes (func null program mem encode check field p) bs
                × (length bs ≡ w))
          → Settled (
              packed_data null program mem encode check field p_data count (some (u64 (w * count))))
      unfolding items
      packed_fixed-Settled w h =
          let (bs, he, e) =
            each_item-length (func null program mem encode check field) field.data_size w h count
              p_data in
          packed_some-Settled (u64 (w * count)) bs (ap u64 (sym e)) he

      counted_size-Settled :
          Settled (items field count p_data)
          → Settled (
              packed_data null program mem encode check field p_data count
                (counted_size (items field count p_data (pb_ostream_sizing null))))
      unfolding pb_ostream_sizing packed_data
      counted_size-Settled (inl (bs, h)) =
          let first = h.counts (pb_ostream_sizing null) (pb_ostream_sizing-IsSizing null) in
          let zero_more : 0 + length bs ≡ length bs = omega arith in
          subst (λ c. Settled (packed_data null program mem encode check field p_data count c))
            (sym (ap counted_size first))
            (packed_some-Settled (u64 (0 + length bs)) bs (ap u64 zero_more) h)
      counted_size-Settled (inr h) =
          failed (items field count p_data (pb_ostream_sizing null))
            (h (pb_ostream_sizing null) (pb_ostream_sizing-IsSizing null))
        where
          failed :
              (r : Option (Unit {0}) × OStream Buffer)
              → r.0 ≡ none
              → Settled
                  (packed_data null program mem encode check field p_data count (counted_size r))
          failed (none, s) e = give_up-Settled
          failed (some u, s) e = absurd (ground (arith, e))

    pub packed_data-Settled :
        (field : PbField) (p_data count : ℕ)
        → Settled (
            packed_data null program mem encode check field p_data count
              (packed_size null program mem encode check field p_data count))
    unfolding packed_size items
    packed_data-Settled field p_data count =
        elim (Bool-cases (pb_ltype field.type_bits == ltype_fixed32)) [
          | inl is32 ↦ rw is32 (
              packed_fixed-Settled field p_data count 4 (λ p.
                subst (λ m. (bs : List ℕ) × Encodes m bs × (length bs ≡ 4))
                  (sym (func-fixed32 field p ((==_iff _ 4).0 is32)))
                  (pb_enc_fixed32-length (drop p mem))))
          | inr not32 ↦ rw not32 (elim (Bool-cases (pb_ltype field.type_bits == ltype_fixed64)) [
            | inl is64 ↦ rw is64 (
                packed_fixed-Settled field p_data count 8 (λ p.
                  subst (λ m. (bs : List ℕ) × Encodes m bs × (length bs ≡ 8))
                    (sym (func-fixed64 field p ((==_iff _ 5).0 is64)))
                    (pb_enc_fixed64-length (drop p mem))))
            | inr not64 ↦ rw not64 (
                counted_size-Settled field p_data count (
                  each_item-Settled (func null program mem encode check field) field.data_size
                    (func-Settled field) count p_data))
          ])
        ]
