-- ===== src/Safety/Chain.antt =====
-- What the checks of services/safety-engine/src read: the answers of `@solana/web3.js` and
-- `@solana/spl-token`, and `toLowerCase`, which are parameters. `none` is a call that throws.
use trenches.Base.{ℕ, List, Option, Bool, String}

pub record Account : Type 0 where
  pub owner : String
  pub bytes : List ℕ

-- An entry of `getTokenLargestAccounts`. An address that is missing or empty is `none`.
pub record LargestAccount (V : Type 0) : Type 0 where
  pub address : Option String
  pub ui_amount : Option V

pub record TokenSupply (V : Type 0) : Type 0 where
  pub amount : V
  pub decimals : ℕ

pub data ExtensionType : Type 0 where
  transfer_hook transfer_fee_config default_account_state other_extension : ExtensionType

-- `data.parsed.info` of a parsed account.
pub record ParsedInfo : Type 0 where
  pub mint_authority : Option String
  pub freeze_authority : Option String

pub record Chain (V : Type 0) : Type 0 where
  pub get_account_info : String → Option (Option Account)
  pub get_token_largest_accounts : String → Option (List (LargestAccount V))
  pub get_token_supply : String → Option (TokenSupply V)
  pub get_parsed_account_info : String → Option (Option ParsedInfo)
  -- Whether `unpackMint` finds a freeze authority.
  pub has_freeze_authority : Account → Option Bool
  pub get_extension_types : List ℕ → Option (List ExtensionType)
  pub get_extension_data : ExtensionType → List ℕ → Option (Option (List ℕ))
  pub token_2022_program_id : String
  pub to_lower_case : String → String
