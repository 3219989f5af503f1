-- ===== src/Nanopb/Encode/Settled.antt =====
-- The encoders of single values of CardPang/Pods/nanopb/pb_encode.c on sizing streams and buffers.
use card_pang.Common.{ℕ, ◌+◌, ◌≡◌, inl, Option, none, some, List, [], length, drop, ltb, ◌==◌, ◌&&◌}
use card_pang.Nanopb.Types.{
  M, u64, WireType, PbField, pb_ltype, pb_atype, atype_static, load, invalid_data_size,
  invalid_field_type, bytes_size_exceeded,
}
use card_pang.Nanopb.Output.{OStream, Buffer, fetch, pb_write}
use card_pang.Nanopb.Output.Counts.{length-fetch}
use card_pang.Nanopb.Encode.{
  varint_buffer, tag_for, encode_int, read_signed, read_unsigned, wire_type_for, pb_encode_varint,
  pb_encode_svarint, pb_encode_tag, pb_encode_tag_for_field, pb_encode_string, pb_encode_fixed32,
  pb_encode_fixed64, pb_enc_bool, pb_enc_varint, pb_enc_uvarint, pb_enc_svarint, pb_enc_fixed32,
  pb_enc_fixed64, pb_enc_bytes, pb_enc_string, pb_enc_fixed_length_bytes,
}
use card_pang.Nanopb.Message.Measure.{
  Encodes, Settled, fail-Settled, >>-Settled, choose-Settled, pb_write-Encodes,
}

pb_write-Settled : (buf : List ℕ) (count : ℕ) → Settled (pb_write buf count)
pb_write-Settled buf count = inl (fetch count buf, pb_write-Encodes buf count)

pub pb_encode_varint-Settled : (v : ℕ) → Settled (pb_encode_varint v)
unfolding pb_encode_varint
pb_encode_varint-Settled v = pb_write-Settled (varint_buffer v) (length (varint_buffer v))

pb_encode_svarint-Settled : (v : ℕ) → Settled (pb_encode_svarint v)
unfolding pb_encode_svarint
pb_encode_svarint-Settled v = pb_encode_varint-Settled _

pub pb_encode_tag-Settled : (w : WireType) (n : ℕ) → Settled (pb_encode_tag w n)
unfolding pb_encode_tag
pb_encode_tag-Settled w n = pb_encode_varint-Settled _

tag_for-Settled : (field : PbField) (w : Option WireType) → Settled (tag_for field w)
unfolding tag_for
tag_for-Settled field none = fail-Settled invalid_field_type
tag_for-Settled field (some w) = pb_encode_tag-Settled w field.tag

pub pb_encode_tag_for_field-Settled : (field : PbField) → Settled (pb_encode_tag_for_field field)
unfolding pb_encode_tag_for_field
pb_encode_tag_for_field-Settled field =
    tag_for-Settled field (wire_type_for (pb_ltype field.type_bits))

pb_encode_string-Settled : (buf : List ℕ) (size : ℕ) → Settled (pb_encode_string buf size)
unfolding pb_encode_string
pb_encode_string-Settled buf size =
    >>-Settled (pb_encode_varint-Settled (u64 size)) (pb_write-Settled buf size)

encode_int-Settled :
    (write : ℕ → M (OStream Buffer) (Unit {0})) (v : Option ℕ)
    → ((n : ℕ) → Settled (write n))
    → Settled (encode_int write v)
unfolding encode_int
encode_int-Settled write none h = fail-Settled invalid_data_size
encode_int-Settled write (some n) h = h n

-- The entries of `PB_ENCODERS`.
module _ (field : PbField) (src : List ℕ) where
  pub pb_enc_varint-Settled : Settled (pb_enc_varint field src)
  unfolding pb_enc_varint
  pb_enc_varint-Settled =
      encode_int-Settled pb_encode_varint (read_signed field.data_size src) pb_encode_varint-Settled

  pub pb_enc_uvarint-Settled : Settled (pb_enc_uvarint field src)
  unfolding pb_enc_uvarint
  pb_enc_uvarint-Settled =
      encode_int-Settled pb_encode_varint (read_unsigned field.data_size src)
        pb_encode_varint-Settled

  pub pb_enc_svarint-Settled : Settled (pb_enc_svarint field src)
  unfolding pb_enc_svarint
  pb_enc_svarint-Settled =
      encode_int-Settled pb_encode_svarint (read_signed field.data_size src)
        pb_encode_svarint-Settled

  pub pb_enc_fixed_length_bytes-Settled : Settled (pb_enc_fixed_length_bytes field src)
  unfolding pb_enc_fixed_length_bytes
  pb_enc_fixed_length_bytes-Settled = pb_encode_string-Settled src field.data_size

pub pb_enc_bool-Settled : (src : List ℕ) → Settled (pb_enc_bool src)
unfolding pb_enc_bool
pb_enc_bool-Settled src = pb_encode_varint-Settled _

pub pb_enc_fixed32-length :
    (src : List ℕ) → (bs : List ℕ) × Encodes (pb_enc_fixed32 src) bs × (length bs ≡ 4)
unfolding pb_enc_fixed32 pb_encode_fixed32
pb_enc_fixed32-length src = (fetch 4 _, pb_write-Encodes _ 4, length-fetch 4 _)

pub pb_enc_fixed64-length :
    (src : List ℕ) → (bs : List ℕ) × Encodes (pb_enc_fixed64 src) bs × (length bs ≡ 8)
unfolding pb_enc_fixed64 pb_encode_fixed64
pb_enc_fixed64-length src = (fetch 8 _, pb_write-Encodes _ 8, length-fetch 8 _)

pub pb_enc_bytes-Settled :
    (field : PbField) (src : Option (List ℕ)) → Settled (pb_enc_bytes field src)
unfolding pb_enc_bytes
pb_enc_bytes-Settled field none = pb_encode_string-Settled [] 0
pb_enc_bytes-Settled field (some src) =
    choose-Settled
      (pb_atype field.type_bits == atype_static && ltb field.data_size (u64 (load 4 src + 4)))
      (fail-Settled bytes_size_exceeded) (pb_encode_string-Settled (drop 4 src) (load 4 src))

pub pb_enc_string-Settled :
    (field : PbField) (src : Option (List ℕ)) → Settled (pb_enc_string field src)
unfolding pb_enc_string
pb_enc_string-Settled field none = pb_encode_string-Settled [] 0
pb_enc_string-Settled field (some src) = pb_encode_string-Settled src _
