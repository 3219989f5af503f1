-- ===== src/Nanopb/Examples/Messages/Defaults.antt =====
-- The defaults and the release of the nested message.
use card_pang.Common.{ℕ, zero, suc, ◌<◌, ◌≡◌, ◌≢◌, ◌⊎◌, refl, inr, some, List, [], ◌∷◌, arith}
use card_pang.Nanopb.Types.{pb_ltype, pb_htype, pb_atype, ltype_extension}
use card_pang.Nanopb.Output.{copy, fetch}
use card_pang.Nanopb.Fields.{field_at, pb_field_iter_begin, pb_field_iter_next}
use card_pang.Nanopb.Fields.Find.{IsTable}
use card_pang.Nanopb.Defaults.{
  each_default, message_defaults, set_to_default, pb_field_set_to_default,
  pb_message_set_to_defaults,
}
use card_pang.Nanopb.Defaults.Ends.{IsPlain, Ends, pb_message_set_to_defaults-Ends}
use card_pang.Nanopb.Message.Release.{pb_release}
use card_pang.Nanopb.Message.Release.Ends.{pb_release-Ends}
use card_pang.Nanopb.Examples.Messages.{
  two_fields, two_fields-IsTable, tables, rank, nested_submessages,
}

outer-IsTable : IsTable (tables 1) 1
outer-IsTable = record { some_field = omega arith; present = present; terminated = refl }
  where
    present : (i : ℕ) → i < 1 → (field_at (tables 1) i).tag ≢ 0
    present zero h = λ e. omega (arith, e)
    present (suc i) h = absurd (omega (arith, h))

no_extension : (i : ℕ) → pb_ltype (field_at two_fields i).type_bits ≢ ltype_extension
unfolding pb_ltype
no_extension zero = λ e. omega (arith, e)
no_extension (suc zero) = λ e. omega (arith, e)
no_extension (suc (suc zero)) = λ e. omega (arith, e)
no_extension (suc (suc (suc i))) = λ e. omega (arith, e)

nowhere_extension :
    (fields i : ℕ) → pb_ltype (field_at (tables fields) i).type_bits ≢ ltype_extension
unfolding pb_ltype
nowhere_extension zero i = no_extension i
nowhere_extension (suc zero) zero = λ e. omega (arith, e)
nowhere_extension (suc zero) (suc zero) = λ e. omega (arith, e)
nowhere_extension (suc zero) (suc (suc i)) = λ e. omega (arith, e)
nowhere_extension (suc (suc n)) i = no_extension i

tables-IsPlain : IsPlain tables rank
tables-IsPlain = record {
  entries = entries;
  submessages = nested_submessages;
  plain = nowhere_extension;
}
  where
    entries :
        (fields : ℕ)
        → ((field_at (tables fields) 0).tag ≡ 0) ⊎ ((n : ℕ) × IsTable (tables fields) n)
    entries zero = inr (2, two_fields-IsTable)
    entries (suc zero) = inr (1, outer-IsTable)
    entries (suc (suc n)) = inr (2, two_fields-IsTable)

abbrev noise : List ℕ
noise = 1 ∷ 2 ∷ 3 ∷ 4 ∷ 5 ∷ 6 ∷ 7 ∷ 8 ∷ 9 ∷ []

pb_message_set_to_defaults-run :
    pb_message_set_to_defaults tables (λ _. []) (λ _. 0) 2 1 0 noise
    ≡ some (0 ∷ 0 ∷ 0 ∷ 0 ∷ 0 ∷ 0 ∷ 0 ∷ 0 ∷ 9 ∷ [])
unfolding pb_message_set_to_defaults pb_field_set_to_default set_to_default message_defaults
    each_default pb_field_iter_begin pb_field_iter_next pb_ltype pb_htype pb_atype copy fetch
pb_message_set_to_defaults-run = refl

pb_message_set_to_defaults-Ends_example :
    Ends (pb_message_set_to_defaults tables (λ _. []) (λ _. 0) 2 1 0 noise)
pb_message_set_to_defaults-Ends_example =
    pb_message_set_to_defaults-Ends tables (λ _. []) (λ _. 0) rank tables-IsPlain 2 1 0 noise
      (omega arith)

pb_release-Ends_example : Ends (pb_release tables (λ _. 0) (λ _ mem. mem) 2 1 0 noise)
pb_release-Ends_example =
    pb_release-Ends tables (λ _. 0) (λ _ mem. mem) rank tables-IsPlain 2 1 0 noise (omega arith)
