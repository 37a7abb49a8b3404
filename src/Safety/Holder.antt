-- ===== src/Safety/Holder.antt =====
-- services/safety-engine/src/holderSafety.ts.
use trenches.Base.{
  ◌≡◌, List, [], ◌∷◌, ◌++◌, Option, none, some, Bool, false, not, String, ◌or_else◌, ◌>>=◌,
  if◌then◌else◌, map, take, filter, arith, subst,
}
use trenches.Base.Sets.{mem}
use trenches.Base.Sets.{truthy}
use trenches.Base.Number.{Number, whole}
use trenches.Safety.Reasons.{is_empty}
use trenches.Safety.Chain.{LargestAccount, Chain}
use trenches.Safety.Lp.{supply_of, no_supply}

pub record HolderSafetyResult (V : Type 0) : Type 0 where
  pub ok : Bool
  pub reasons : List String
  pub top_ten_share : V
  pub whale_flag : Bool

-- `xs.filter(Boolean)`.
unfoldable pub present : List (Option String) → List String
present [] = []
present (x ∷ xs) = elim (truthy x) [ none ↦ present xs | some s ↦ s ∷ present xs ]

module _ {V : Type 0} ⦃d : Number V⦄ (chain : Chain V) where
  open d use {plus, over, le}

  -- Whether an account counts: one with an address that is not to be ignored.
  abbrev pub counts : List String → LargestAccount V → Bool
  counts ignored entry = elim entry.address [
    | none ↦ false
    | some address ↦ not (mem (chain.to_lower_case address) ignored)
  ]

  abbrev ignore_set : List String → List (Option String) → List String
  ignore_set ignore_accounts pool_accounts =
      map chain.to_lower_case (ignore_accounts ++ present pool_accounts)

  -- `reduce((sum, item) => sum + (item.entry.uiAmount ?? 0), 0)`.
  unfoldable pub amount_from : V → List (LargestAccount V) → V
  amount_from sum [] = sum
  amount_from sum (entry ∷ rest) = amount_from (plus sum (entry.ui_amount or_else whole 0)) rest

  unfoldable pub judge_holders :
      List String → V → List (LargestAccount V) → V → HolderSafetyResult V
  judge_holders ignored holder_top_cap largest total =
      let top_ten_share =
        over (amount_from (whole 0) (take 10 (filter (counts ignored) largest))) total in
      let ok = le top_ten_share holder_top_cap in
      if no_supply chain total
      then record {
        ok = false;
        reasons = "holder_supply_zero" ∷ [];
        top_ten_share = whole 1;
        whale_flag = false;
      }
      else record {
        ok = ok;
        reasons = if ok then [] else "holder_top_concentration" ∷ [];
        top_ten_share = top_ten_share;
        whale_flag = not ok;
      }

  unfoldable pub check_holder_skew :
      String → List String → List (Option String) → V → Option (HolderSafetyResult V)
  check_holder_skew mint ignore_accounts pool_accounts holder_top_cap = do
    largest ← chain.get_token_largest_accounts mint
    supply ← chain.get_token_supply mint
    some (
        judge_holders (ignore_set ignore_accounts pool_accounts) holder_top_cap largest
          (supply_of chain supply))

  abbrev Reported : Option (HolderSafetyResult V) → Type 0
  Reported none = Unit
  Reported (some r) = r.ok ≡ is_empty r.reasons

  judge_holders-Reported :
      (ignored : List String) (cap : V) (largest : List (LargestAccount V)) (total : V)
      → Reported (some (judge_holders ignored cap largest total))
  unfolding judge_holders is_empty
  judge_holders-Reported ignored cap largest total = ground arith

  -- A result is an acceptance exactly if it has no reasons.
  pub check_holder_skew-Reported :
      (mint : String) (ignore_accounts : List String) (pool_accounts : List (Option String))
      (cap : V) (r : HolderSafetyResult V)
      → check_holder_skew mint ignore_accounts pool_accounts cap ≡ some r
      → r.ok ≡ is_empty r.reasons
  unfolding check_holder_skew
  check_holder_skew-Reported mint ignore_accounts pool_accounts cap r e =
      let ignored = ignore_set ignore_accounts pool_accounts in
      subst Reported e
        (elim (chain.get_token_largest_accounts mint)
          as (λ o. Reported (
            o >>= λ largest. chain.get_token_supply mint >>= λ supply.
            some (judge_holders ignored cap largest (supply_of chain supply)))) [
              | none ↦ tt
              | some largest ↦
                  elim (chain.get_token_supply mint)
                    as (λ o. Reported (
                      o >>= λ supply.
                      some (judge_holders ignored cap largest (supply_of chain supply)))) [
                        | none ↦ tt
                        | some supply ↦
                            judge_holders-Reported ignored cap largest (supply_of chain supply)
                      ]
            ])
