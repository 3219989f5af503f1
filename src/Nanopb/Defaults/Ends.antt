-- ===== src/Nanopb/Defaults/Ends.antt =====
-- How `pb_message_set_to_defaults` of CardPang/Pods/nanopb/pb_decode.c goes through a message.
use card_pang.Common.{
  ℕ, zero, suc, ◌+◌, ◌<◌, ◌≤◌, ◌≡◌, ◌≢◌, refl, sym, subst, ◌∙◌, ◌⊎◌, inl, inr, not, ◌&&◌, ◌||◌,
  Option, some, List, length, ◌==◌, ==_iff, arith, Bool-cases,
}
use card_pang.Nanopb.Types.{
  PbField, pb_ltype, pb_htype, pb_atype, ltype_extension, ltype_submessage, htype_optional,
  htype_repeated, htype_oneof, atype_static, atype_pointer,
}
use card_pang.Nanopb.Fields.{FieldIter, field_at, current, pb_field_iter_begin, pb_field_iter_next}
use card_pang.Nanopb.Fields.Find.{IsTable, IsTable-length, next-moves, next-wraps, not_zero}
use card_pang.Nanopb.Defaults.{
  clear, each_default, message_defaults, init_data, static_default, set_to_default,
  pb_field_set_to_default, pb_message_set_to_defaults,
}

-- Tables that are empty or have some fields, none of them for extensions, in which submessages nest.
pub record IsPlain (table : ℕ → List PbField) (rank : ℕ → ℕ) : Type 0 where
  pub entries :
      (fields : ℕ) → ((field_at (table fields) 0).tag ≡ 0) ⊎ ((n : ℕ) × IsTable (table fields) n)
  pub submessages :
      (fields i : ℕ)
      → pb_ltype (field_at (table fields) i).type_bits ≡ ltype_submessage
      → rank (field_at (table fields) i).ptr < rank fields
  pub plain : (fields i : ℕ) → pb_ltype (field_at (table fields) i).type_bits ≢ ltype_extension

abbrev pub Ends : Option (List ℕ) → Type 0
Ends r = (mem : List ℕ) × (r ≡ some mem)

each_default-Ends :
    (field : FieldIter → List ℕ → Option (List ℕ)) (table : List PbField) (n : ℕ)
    → IsTable table n
    → ((iter : FieldIter) (mem : List ℕ) → iter.start ≡ table → Ends (field iter mem))
    → (rounds : ℕ) (iter : FieldIter) (mem : List ℕ) → iter.start ≡ table
    → iter.pos < n
    → n ≤ rounds + iter.pos
    → Ends (each_default field rounds iter mem)
unfolding each_default
each_default-Ends field table n v total zero iter mem e h enough = absurd (omega (arith, h, enough))
each_default-Ends field table n v total (suc rounds) iter mem e h enough =
    let (set, done) = total iter mem e in
    let here : IsTable iter.start n = subst (λ t. IsTable t n) (sym e) v in
    elim (Bool-cases (suc iter.pos == n)) [
      | inl last ↦
          let (stops, _, _) = next-wraps n iter here ((==_iff _ _).0 last) in
          rw (each_default, done, stops) (set, refl)
      | inr more ↦
          let (goes, pos, start) = next-moves n iter here (ground (arith, more, h)) in
          rw (each_default, done, goes)
            (each_default-Ends field table n v total rounds (pb_field_iter_next iter).1 set
              (start ∙ e) (ground (arith, pos, more, h)) (omega (arith, pos, enough)))
    ]

module _ (table : ℕ → List PbField) (constant : ℕ → List ℕ) (arg : ℕ → ℕ) where
  pub message_defaults-Ends :
      (field : FieldIter → List ℕ → Option (List ℕ)) (fields dest : ℕ) (mem : List ℕ)
      → ((field_at (table fields) 0).tag ≡ 0) ⊎ ((n : ℕ) × IsTable (table fields) n)
      → ((iter : FieldIter) (m : List ℕ) → iter.start ≡ table fields → Ends (field iter m))
      → Ends (message_defaults table constant arg field fields dest mem)
  unfolding message_defaults pb_field_iter_begin
  message_defaults-Ends field fields dest mem (inl empty) total =
      rw ((==_iff _ _).1 empty) (mem, refl)
  message_defaults-Ends field fields dest mem (inr (n, v)) total =
      rw (not_zero (field_at (table fields) 0).tag (v.present 0 v.some_field)) (
        each_default-Ends field (table fields) n v total (length (table fields))
          (pb_field_iter_begin (table fields) dest).1 mem refl v.some_field
          (omega (arith, IsTable-length n (table fields) v)))

  module _ (field : FieldIter → List ℕ → Option (List ℕ)) (iter : FieldIter)
      (inner : pb_ltype (current iter).type_bits ≡ ltype_submessage
        → (mem : List ℕ)
        → Ends (message_defaults table constant arg field (current iter).ptr iter.p_data mem)) where
    init_data-Ends : (mem : List ℕ) → Ends (init_data table constant arg field iter mem)
    unfolding init_data
    init_data-Ends mem = elim (Bool-cases (pb_ltype (current iter).type_bits == ltype_submessage)) [
      | inl sub ↦ rw sub (inner ((==_iff _ _).0 sub) mem)
      | inr other ↦ rw other (elim (Bool-cases (not ((current iter).ptr == 0))) [
        | inl default ↦ rw default (_, refl)
        | inr none_given ↦ rw none_given (_, refl)
      ])
    ]

    static_default-Ends : (mem : List ℕ) → Ends (static_default table constant arg field iter mem)
    unfolding static_default
    static_default-Ends mem =
        elim (Bool-cases (
          pb_htype (current iter).type_bits == htype_optional
          && not (iter.p_size == iter.p_data))) [
            | inl optional ↦ rw optional (init_data-Ends (clear 1 iter.p_size mem))
            | inr other ↦
                rw other
                  (elim (Bool-cases (
                    pb_htype (current iter).type_bits == htype_repeated
                    || pb_htype (current iter).type_bits == htype_oneof)) [
                      | inl counted ↦ rw counted (_, refl)
                      | inr required ↦ rw required (init_data-Ends mem)
                    ])
          ]

    set_to_default-Ends :
        pb_ltype (current iter).type_bits ≢ ltype_extension
        → (mem : List ℕ) → Ends (set_to_default table constant arg field iter mem)
    unfolding set_to_default
    set_to_default-Ends plain mem =
        elim (Bool-cases (pb_ltype (current iter).type_bits == ltype_extension)) [
          | inl extension ↦ absurd (plain ((==_iff _ _).0 extension))
          | inr other ↦
              rw other (elim (Bool-cases (pb_atype (current iter).type_bits == atype_static)) [
                | inl static ↦ rw static (static_default-Ends mem)
                | inr dynamic ↦
                    rw dynamic
                      (elim (Bool-cases (pb_atype (current iter).type_bits == atype_pointer)) [
                        | inl pointer ↦ rw pointer (_, refl)
                        | inr callback ↦ rw callback (_, refl)
                      ])
              ])
        ]

  module _ (rank : ℕ → ℕ) (v : IsPlain table rank) where
    field-Ends :
        (depth fields : ℕ) (iter : FieldIter) (mem : List ℕ)
        → rank fields < depth
        → iter.start ≡ table fields
        → Ends (pb_field_set_to_default table constant arg depth iter mem)
    unfolding pb_field_set_to_default
    field-Ends zero fields iter mem h e = absurd (omega (arith, h))
    field-Ends (suc depth) fields iter mem h e =
        let lower : pb_ltype (current iter).type_bits ≡ ltype_submessage
            → rank (current iter).ptr < rank fields =
          subst
            (λ t.
              pb_ltype (field_at t iter.pos).type_bits ≡ ltype_submessage
              → rank (field_at t iter.pos).ptr < rank fields)
            (sym e) (v.submessages fields iter.pos) in
        set_to_default-Ends (pb_field_set_to_default table constant arg depth) iter
          (λ sub m.
            message_defaults-Ends (pb_field_set_to_default table constant arg depth)
              (current iter).ptr iter.p_data m (v.entries (current iter).ptr)
              (λ inside n same.
                field-Ends depth (current iter).ptr inside n (omega (arith, lower sub, h)) same))
          (subst (λ t. pb_ltype (field_at t iter.pos).type_bits ≢ ltype_extension) (sym e)
            (v.plain fields iter.pos))
          mem

    -- With tables that are empty or have some fields, none of them for extensions, and in which
    -- submessages nest, a depth above the rank of a message's table is enough:
    -- `pb_message_set_to_defaults` ends with a memory, whatever the memory was.
    pub pb_message_set_to_defaults-Ends :
        (depth fields dest : ℕ) (mem : List ℕ)
        → rank fields < depth
        → Ends (pb_message_set_to_defaults table constant arg depth fields dest mem)
    unfolding pb_message_set_to_defaults
    pb_message_set_to_defaults-Ends depth fields dest mem h =
        message_defaults-Ends (pb_field_set_to_default table constant arg depth) fields dest mem
          (v.entries fields) (λ iter m e. field-Ends depth fields iter m h e)
