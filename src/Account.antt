-- ===== src/Account.antt =====
-- Accounts: signing up, logging in, and what a user sees first (CardPang/CardPang/ViewModel,
-- API/Service.swift, Controller/Login, Controller/Home, Controller/OnboardingController). A text is
-- the list of its characters' codes.
pub mod Forms
pub mod Service
pub mod Home
mod Examples
use card_pang.Common.{ℕ, Bool, true, false, Option, none, some, List, [], ◌∷◌}

abbrev pub Text : Type 0
Text = List ℕ

-- `text.isEmpty == false`, and `text?.isEmpty == false`.
abbrev pub has_text : Text → Bool
has_text [] = false
has_text (c ∷ text) = true

abbrev pub is_filled : Option Text → Bool
is_filled none = false
is_filled (some text) = has_text text
