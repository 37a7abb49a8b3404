-- ===== src/Safety/Lp.antt =====
-- services/safety-engine/src/lpSafety.ts.
pub mod Locked
use trenches.Base.{
  ℕ, zero, suc, ◌+◌, ◌≡◌, refl, List, [], ◌∷◌, Option, none, some, Bool, true, false, not, ◌&&◌,
  ◌||◌, String, leb, ◌or_else◌, ◌>>=◌, if◌then◌else◌, map, take, arith,
}
use trenches.Base.Sets.{same, mem}
use trenches.Base.Sets.{truthy}
use trenches.Base.Number.{Number, whole}
use trenches.Safety.Chain.{Account, LargestAccount, TokenSupply, Chain}

pub record LpSafetyResult (V : Type 0) : Type 0 where
  pub ok : Bool
  pub reasons : List String
  pub locked_ratio : V

abbrev pub incinerator_address : String
incinerator_address = "1nc1nerator11111111111111111111111111111111"

-- What the lookup of the owner of an entry comes to.
pub data Lookup : Type 0 where
  skipped failed foreign locker : Lookup

-- The state of the loop over the largest accounts.
pub record Scan (V : Type 0) : Type 0 where
  pub locker_ratio : V
  pub locker_detected : Bool
  pub lookup_errors : ℕ

module _ {V : Type 0} ⦃d : Number V⦄ (chain : Chain V) where
  open d use {over, le, eq, pow, is_finite}

  abbrev pub supply_of : TokenSupply V → V
  supply_of supply = over supply.amount (pow (whole 10) (whole supply.decimals))

  -- `!Number.isFinite(total) || total === 0`.
  abbrev pub no_supply : V → Bool
  no_supply total = not (is_finite total) || eq total (whole 0)

  -- The share of the supply in one account.
  abbrev pub share : V → LargestAccount V → V
  share total entry = over (entry.ui_amount or_else whole 0) total

  abbrev is_incinerator : Option String → Bool
  is_incinerator none = false
  is_incinerator (some address) = same address incinerator_address

  unfoldable pub incinerator_ratio : V → List (LargestAccount V) → V
  incinerator_ratio total [] = over (whole 0) total
  incinerator_ratio total (entry ∷ rest) =
      let later = incinerator_ratio total rest in
      if is_incinerator entry.address then share total entry else later

  abbrev pub owned : List String → Option (Option Account) → Lookup
  owned lockers none = failed
  owned lockers (some none) = skipped
  owned lockers (some (some account)) =
      if mem (chain.to_lower_case account.owner) (map chain.to_lower_case lockers)
      then locker
      else foreign

  abbrev pub lookup : List String → LargestAccount V → Lookup
  lookup lockers entry = elim entry.address [
    | none ↦ skipped
    | some address ↦ owned lockers (chain.get_account_info address)
  ]

  abbrev accepted : V → LpSafetyResult V
  accepted ratio = record { ok = true; reasons = []; locked_ratio = ratio }

  abbrev refused : String → V → LpSafetyResult V
  refused reason ratio = record { ok = false; reasons = reason ∷ []; locked_ratio = ratio }

  -- After the loop.
  abbrev conclude : V → Scan V → LpSafetyResult V
  conclude burnt s =
      if leb 3 s.lookup_errors && not s.locker_detected
      then refused "lp_locker_lookup_failed" burnt
      else if s.locker_detected
      then refused "lp_locker_insufficient" s.locker_ratio
      else refused "lp_not_burned_or_locked" burnt

  -- The loop from the given entries on.
  unfoldable pub scan :
      List String → V → V → V → List (LargestAccount V) → Scan V → LpSafetyResult V
  scan lockers threshold total burnt [] s = conclude burnt s
  scan lockers threshold total burnt (entry ∷ rest) s =
      let ratio = share total entry in
      elim (lookup lockers entry) [
        | skipped ↦ scan lockers threshold total burnt rest s
        | failed ↦
            scan lockers threshold total burnt rest
              (record s { lookup_errors = suc s.lookup_errors })
        | foreign ↦ scan lockers threshold total burnt rest s
        | locker ↦ elim (le threshold ratio) [
          | true ↦ accepted ratio
          | false ↦
              scan lockers threshold total burnt rest
                (record s { locker_ratio = ratio; locker_detected = true })
        ]
      ]

  -- Once the accounts and the supply are there.
  unfoldable pub judge_lp : List String → V → List (LargestAccount V) → V → LpSafetyResult V
  judge_lp lockers threshold largest total =
      let burnt = incinerator_ratio total largest in
      if no_supply total
      then refused "lp_supply_zero" (whole 0)
      else if le threshold burnt
      then accepted burnt
      else scan lockers threshold total burnt (take 10 largest)
          (record { locker_ratio = burnt; locker_detected = false; lookup_errors = 0 })

  unfoldable pub check_lp_safety : Option String → List String → V → Option (LpSafetyResult V)
  check_lp_safety lp_mint lockers threshold = elim (truthy lp_mint) [
    | none ↦ some (refused "missing_lp_mint" (whole 0))
    | some mint ↦ do
      largest ← chain.get_token_largest_accounts mint
      supply ← chain.get_token_supply mint
      some (judge_lp lockers threshold largest (supply_of supply))
  ]
