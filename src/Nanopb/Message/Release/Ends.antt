-- ===== src/Nanopb/Message/Release/Ends.antt =====
-- How `pb_release` of CardPang/Pods/nanopb/pb_decode.c goes through a message.
use card_pang.Common.{
  ℕ, zero, suc, ◌+◌, ◌<◌, ◌≡◌, ◌≢◌, refl, sym, subst, inl, inr, not, ◌&&◌, Option, some, List, [],
  ◌==◌, if◌then◌else◌, ==_iff, arith, Bool-cases,
}
use card_pang.Nanopb.Types.{
  PbField, u64, pb_ltype, pb_htype, pb_atype, ltype_extension, ltype_submessage, htype_oneof,
  atype_pointer, atype_callback,
}
use card_pang.Nanopb.Fields.{FieldIter, field_at, current}
use card_pang.Nanopb.Defaults.Ends.{IsPlain, Ends, message_defaults-Ends}
use card_pang.Nanopb.Message.{pointer_at}
use card_pang.Nanopb.Message.Machine.{number_at}
use card_pang.Nanopb.Message.Release.{
  and_then, release_pointer, release_count, release_items, release_message, release_inside,
  release_field, pb_release_single_field, pb_release,
}

and_then-Ends :
    (r : Option (List ℕ)) (f : List ℕ → Option (List ℕ))
    → Ends r
    → ((mem : List ℕ) → Ends (f mem))
    → Ends (and_then r f)
and_then-Ends r f (mem, e) h = rw (e, and_then) (h mem)

release_items-Ends :
    (release : ℕ → List ℕ → Option (List ℕ)) (size count : ℕ)
    → ((item : ℕ) (mem : List ℕ) → Ends (release item mem))
    → (item : ℕ) (mem : List ℕ) → Ends (release_items release size count item mem)
unfolding release_items
release_items-Ends release size zero h item mem = (mem, refl)
release_items-Ends release size (suc count) h item mem =
    and_then-Ends (release item mem) (release_items release size count (u64 (item + size)))
      (h item mem) (release_items-Ends release size count h (u64 (item + size)))

module _ (table : ℕ → List PbField) (arg : ℕ → ℕ) (pb_free : ℕ → List ℕ → List ℕ) (rank : ℕ → ℕ)
    (v : IsPlain table rank) where
  release_message-Ends :
      (single : FieldIter → List ℕ → Option (List ℕ)) (fields dest : ℕ) (mem : List ℕ)
      → ((iter : FieldIter) (m : List ℕ) → iter.start ≡ table fields → Ends (single iter m))
      → Ends (release_message table arg pb_free single fields dest mem)
  unfolding release_message
  release_message-Ends single fields dest mem h = elim (Bool-cases (dest == 0)) [
    | inl e ↦ rw e (mem, refl)
    | inr e ↦
        rw e (message_defaults-Ends table (λ _. []) arg single fields dest mem (v.entries fields) h)
  ]

  module _ (single : FieldIter → List ℕ → Option (List ℕ)) (iter : FieldIter)
      (plain : pb_ltype (current iter).type_bits ≢ ltype_extension)
      (inner : pb_ltype (current iter).type_bits ≡ ltype_submessage
        → (item : ℕ) (mem : List ℕ)
        → Ends (release_message table arg pb_free single (current iter).ptr item mem)) where
    release_inside-Ends : (mem : List ℕ) → Ends (release_inside table arg pb_free single iter mem)
    unfolding release_inside
    release_inside-Ends mem =
        let field = current iter in
        let ltype = pb_ltype field.type_bits in
        let atype = pb_atype field.type_bits in
        let item = if atype == atype_pointer then pointer_at mem iter.p_data else iter.p_data in
        elim (Bool-cases (ltype == ltype_extension)) [
          | inl e ↦ absurd (plain ((==_iff _ _).0 e))
          | inr e ↦ elim (Bool-cases (ltype == ltype_submessage)) [
            | inr other ↦ rw (e, other) (mem, refl)
            | inl sub ↦ elim (Bool-cases (atype == atype_callback)) [
              | inl callback ↦ rw (e, sub, callback) (mem, refl)
              | inr here ↦ elim (Bool-cases (item == 0)) [
                | inl nothing ↦ rw (e, sub, here, nothing) (mem, refl)
                | inr there ↦
                    rw (e, sub, here, there)
                      (release_items-Ends (release_message table arg pb_free single field.ptr)
                        field.data_size (release_count iter mem) (inner ((==_iff _ _).0 sub)) item
                        mem)
              ]
            ]
          ]
        ]

    release_field-Ends : (mem : List ℕ) → Ends (release_field table arg pb_free single iter mem)
    unfolding release_field
    release_field-Ends mem =
        elim (Bool-cases (
          pb_htype (current iter).type_bits == htype_oneof
          && not (number_at mem iter.p_size == (current iter).tag))) [
            | inl another ↦ rw another (mem, refl)
            | inr this ↦ rw this (
                and_then-Ends (release_inside table arg pb_free single iter mem)
                  (λ released. some (release_pointer pb_free iter released))
                  (release_inside-Ends mem)
                  (λ released. (release_pointer pb_free iter released, refl)))
          ]

  single-Ends :
      (depth fields : ℕ) (iter : FieldIter) (mem : List ℕ)
      → rank fields < depth
      → iter.start ≡ table fields
      → Ends (pb_release_single_field table arg pb_free depth iter mem)
  unfolding pb_release_single_field
  single-Ends zero fields iter mem h e = absurd (omega (arith, h))
  single-Ends (suc depth) fields iter mem h e =
      let lower : pb_ltype (current iter).type_bits ≡ ltype_submessage
          → rank (current iter).ptr < rank fields =
        subst
          (λ t.
            pb_ltype (field_at t iter.pos).type_bits ≡ ltype_submessage
            → rank (field_at t iter.pos).ptr < rank fields)
          (sym e) (v.submessages fields iter.pos) in
      release_field-Ends (pb_release_single_field table arg pb_free depth) iter
        (subst (λ t. pb_ltype (field_at t iter.pos).type_bits ≢ ltype_extension) (sym e)
          (v.plain fields iter.pos))
        (λ sub item m.
          release_message-Ends (pb_release_single_field table arg pb_free depth) (current iter).ptr
            item m
            (λ inside n same.
              single-Ends depth (current iter).ptr inside n (omega (arith, lower sub, h)) same))
        mem

  -- With tables that are empty or have some fields, none of them for extensions, and in which
  -- submessages nest, a depth above the rank of a message's table is enough: `pb_release` ends with a
  -- memory, whatever the memory was.
  pub pb_release-Ends :
      (depth fields dest : ℕ) (mem : List ℕ)
      → rank fields < depth
      → Ends (pb_release table arg pb_free depth fields dest mem)
  unfolding pb_release
  pb_release-Ends depth fields dest mem h =
      release_message-Ends (pb_release_single_field table arg pb_free depth) fields dest mem
        (λ iter m e. single-Ends depth fields iter m h e)
