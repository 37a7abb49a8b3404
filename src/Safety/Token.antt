-- ===== src/Safety/Token.antt =====
-- services/safety-engine/src/tokenSafety.ts.
use trenches.Base.{
  ℕ, ◌≡◌, refl, List, [], ◌∷◌, ◌++◌, Option, none, some, Bool, true, false, not, ◌&&◌, ◌||◌, String,
  ◌==◌, ◌>>=◌, if◌then◌else◌, arith, subst, if_cases,
}
use trenches.Base.Sets.{same}
use trenches.Safety.Reasons.{reason_if, is_empty, is_empty-append, is_empty-reason_if}
use trenches.Safety.Chain.{
  Account, Chain, ExtensionType, transfer_hook, transfer_fee_config, default_account_state,
  other_extension,
}

pub record TokenSafetyResult : Type 0 where
  pub ok : Bool
  pub reasons : List String
  pub is_token2022 : Bool

abbrev is_extension : ExtensionType → ExtensionType → Bool
is_extension transfer_hook transfer_hook = true
is_extension transfer_fee_config transfer_fee_config = true
is_extension default_account_state default_account_state = true
is_extension other_extension other_extension = true
is_extension _ _ = false

-- `extensions.includes(x)`.
unfoldable pub includes : ExtensionType → List ExtensionType → Bool
includes x [] = false
includes x (y ∷ ys) = is_extension y x || includes x ys

abbrev first_is_two : Option (List ℕ) → Bool
first_is_two none = false
first_is_two (some []) = false
first_is_two (some (state ∷ rest)) = state == 2

-- The default state of the accounts; extension data that cannot be read count as frozen.
abbrev pub default_frozen : Option (Option (List ℕ)) → Bool
default_frozen none = true
default_frozen (some found) = first_is_two found

module _ {V : Type 0} (chain : Chain V) where
  abbrev legacy : TokenSafetyResult
  legacy = record { ok = true; reasons = []; is_token2022 = false }

  abbrev pub frozen_by_default : Account → List ExtensionType → Bool
  frozen_by_default account extensions =
      includes default_account_state extensions
      && default_frozen (chain.get_extension_data default_account_state account.bytes)

  unfoldable pub extended : Account → Bool → List ExtensionType → TokenSafetyResult
  extended account freeze extensions =
      let reasons =
        reason_if freeze "token2022_freeze_authority"
        ++ reason_if (includes transfer_hook extensions) "token2022_transfer_hook"
        ++ reason_if (includes transfer_fee_config extensions) "token2022_transfer_fee"
        ++ reason_if (frozen_by_default account extensions) "token2022_default_frozen" in
      record { ok = is_empty reasons; reasons = reasons; is_token2022 = true }

  -- A mint of Token-2022.
  unfoldable pub inspect : Account → Option TokenSafetyResult
  inspect account = do
    freeze ← chain.has_freeze_authority account
    extensions ← chain.get_extension_types account.bytes
    some (extended account freeze extensions)

  unfoldable pub check_token_safety : String → Option TokenSafetyResult
  check_token_safety mint = elim (chain.get_account_info mint) [
    | none ↦ none
    | some none ↦ some (record { ok = false; reasons = "mint_missing" ∷ []; is_token2022 = false })
    | some (some account) ↦
        if same account.owner chain.token_2022_program_id then inspect account else some legacy
  ]

  -- A Token-2022 mint whose account can be read is accepted exactly if it has no freeze authority,
  -- no transfer hook, no transfer fee and does not freeze new accounts; it gets a reason otherwise.
  pub check_token_safety-inspect :
      (mint : String) (account : Account) (freeze : Bool) (extensions : List ExtensionType)
      → chain.get_account_info mint ≡ some (some account)
      → account.owner ≡ chain.token_2022_program_id
      → chain.has_freeze_authority account ≡ some freeze
      → chain.get_extension_types account.bytes ≡ some extensions
      → (r : TokenSafetyResult) × (check_token_safety mint ≡ some r)
        × (r.ok
            ≡ not freeze
              && not (includes transfer_hook extensions)
              && not (includes transfer_fee_config extensions)
              && not (frozen_by_default account extensions))
        × (r.ok ≡ is_empty r.reasons)
  unfolding check_token_safety inspect extended
  check_token_safety-inspect mint account freeze extensions found owner reads lists = (
    extended account freeze extensions,
    rw (found, owner, check_token_safety) (ground (arith, reads, lists)),
    simp (is_empty-append, is_empty-reason_if),
    refl,
  )

  abbrev Reported : Option TokenSafetyResult → Type 0
  Reported none = Unit
  Reported (some r) = r.ok ≡ is_empty r.reasons

  inspect-Reported : (account : Account) → Reported (inspect account)
  unfolding inspect extended
  inspect-Reported account =
      elim (chain.has_freeze_authority account)
        as (λ o. Reported (
          o >>= λ freeze. chain.get_extension_types account.bytes >>= λ extensions.
          some (extended account freeze extensions))) [
            | none ↦ tt
            | some freeze ↦
                elim (chain.get_extension_types account.bytes)
                  as (λ o.
                    Reported (o >>= λ extensions. some (extended account freeze extensions))) [
                      | none ↦ tt
                      | some extensions ↦ refl
                    ]
          ]

  -- A result is an acceptance exactly if it has no reasons.
  pub check_token_safety-Reported :
      (mint : String) (r : TokenSafetyResult)
      → check_token_safety mint ≡ some r
      → r.ok ≡ is_empty r.reasons
  unfolding check_token_safety is_empty
  check_token_safety-Reported mint r e =
      subst Reported e
        (elim (chain.get_account_info mint)
          as (λ o. Reported (elim o [
            | none ↦ none
            | some none ↦
                some (record { ok = false; reasons = "mint_missing" ∷ []; is_token2022 = false })
            | some (some account) ↦
                if same account.owner chain.token_2022_program_id
                then inspect account
                else some legacy
          ])) [
            | none ↦ tt
            | some none ↦ refl
            | some (some account) ↦
                if_cases Reported (same account.owner chain.token_2022_program_id) (inspect account)
                  (some legacy) (λ h. inspect-Reported account) (λ h. refl)
          ])
