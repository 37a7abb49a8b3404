-- ===== src/Safety/Lp/Locked.antt =====
-- When the liquidity counts as burnt or locked.
use trenches.Base.{
  suc, ◌≡◌, refl, List, [], ◌∷◌, Option, none, some, Bool, true, false, not, ◌&&◌, ◌||◌, String,
  ◌>>=◌, take, arith, subst, Bool-cases, inl, inr,
}
use trenches.Base.Sets.{truthy}
use trenches.Base.Number.{Number, whole, ◌≼◌}
use trenches.Safety.Chain.{LargestAccount, TokenSupply, Chain}
use trenches.Safety.Reasons.{is_empty}
use trenches.Safety.Lp.{
  LpSafetyResult, Lookup, skipped, failed, foreign, locker, Scan, supply_of, no_supply, share,
  incinerator_ratio, lookup, scan, judge_lp, check_lp_safety,
}

abbrev pub is_locker : Lookup → Bool
is_locker locker = true
is_locker _ = false

module _ {V : Type 0} ⦃d : Number V⦄ (chain : Chain V) where
  open d use {le}

  -- Whether an account of a locker has the share that is asked for.
  abbrev pub is_locked : List String → V → V → LargestAccount V → Bool
  is_locked lockers threshold total entry =
      is_locker (lookup chain lockers entry) && le threshold (share chain total entry)

  unfoldable pub any_locked : List String → V → V → List (LargestAccount V) → Bool
  any_locked lockers threshold total [] = false
  any_locked lockers threshold total (entry ∷ rest) =
      is_locked lockers threshold total entry || any_locked lockers threshold total rest

  -- The result that a verdict has to have: no reasons and a sufficient ratio if it is positive.
  abbrev pub IsVerdict : V → Bool → LpSafetyResult V → Type 0
  IsVerdict threshold b r =
      (r.ok ≡ b) × (r.ok ≡ is_empty r.reasons) × (r.ok ≡ true → threshold ≼ r.locked_ratio)

  -- The loop at an entry, by what its lookup comes to.
  abbrev scanned :
      List String
      → V
      → V
      → V
      → LargestAccount V
      → List (LargestAccount V)
      → Scan V
      → Lookup
      → LpSafetyResult V
  scanned lockers threshold total burnt entry rest s l =
      let ratio = share chain total entry in
      elim l [
        | skipped ↦ scan chain lockers threshold total burnt rest s
        | failed ↦
            scan chain lockers threshold total burnt rest
              (record s { lookup_errors = suc s.lookup_errors })
        | foreign ↦ scan chain lockers threshold total burnt rest s
        | locker ↦ elim (le threshold ratio) [
          | true ↦ record { ok = true; reasons = []; locked_ratio = ratio }
          | false ↦
              scan chain lockers threshold total burnt rest
                (record s { locker_ratio = ratio; locker_detected = true })
        ]
      ]

  scan-IsVerdict :
      (lockers : List String) (threshold total burnt : V) (entries : List (LargestAccount V))
      (s : Scan V)
      → IsVerdict threshold
          (any_locked lockers threshold total entries)
          (scan chain lockers threshold total burnt entries s)
  unfolding scan any_locked is_empty
  scan-IsVerdict lockers threshold total burnt [] s =
      (ground arith, ground arith, (λ h. ground (arith, h)))
  scan-IsVerdict lockers threshold total burnt (entry ∷ rest) s =
      elim (lookup chain lockers entry)
        as (λ l.
          IsVerdict threshold
            ((is_locker l && le threshold (share chain total entry))
              || any_locked lockers threshold total rest)
            (scanned lockers threshold total burnt entry rest s l)) [
              | skipped ↦ scan-IsVerdict lockers threshold total burnt rest s
              | failed ↦ scan-IsVerdict lockers threshold total burnt rest _
              | foreign ↦ scan-IsVerdict lockers threshold total burnt rest s
              | locker ↦ elim (Bool-cases (le threshold (share chain total entry))) [
                | inl e ↦ rw (e, scanned) (refl, refl, λ h. e)
                | inr e ↦ rw (e, scanned) (scan-IsVerdict lockers threshold total burnt rest _)
              ]
            ]

  abbrev start : V → Scan V
  start burnt = record { locker_ratio = burnt; locker_detected = false; lookup_errors = 0 }

  -- A pool's verdict, when its supply and its largest accounts can be read, is positive exactly if
  -- there is a supply and either the burnt share or the share of one of a locker's accounts among
  -- the ten largest reaches the threshold, and then it reports a ratio that does; it has a reason
  -- exactly if it is negative.
  pub check_lp_safety-IsVerdict :
      (lp_mint : Option String) (lockers : List String) (threshold : V) (mint : String)
      (largest : List (LargestAccount V)) (supply : TokenSupply V)
      → truthy lp_mint ≡ some mint
      → chain.get_token_largest_accounts mint ≡ some largest
      → chain.get_token_supply mint ≡ some supply
      → let total = supply_of chain supply in
        (r : LpSafetyResult V) × (check_lp_safety chain lp_mint lockers threshold ≡ some r)
        × IsVerdict threshold
            (not (no_supply chain total)
              && (le threshold (incinerator_ratio chain total largest)
                  || any_locked lockers threshold total (take 10 largest)))
            r
  unfolding check_lp_safety judge_lp is_empty
  check_lp_safety-IsVerdict lp_mint lockers threshold mint largest supply named held supplied =
      let total = supply_of chain supply in
      let burnt = incinerator_ratio chain total largest in
      let rest = scan-IsVerdict lockers threshold total burnt (take 10 largest) (start burnt) in
      (
        judge_lp chain lockers threshold largest total,
        rw (check_lp_safety, named, held, supplied) refl,
        ground (arith, rest),
      )

  abbrev Reported : Option (LpSafetyResult V) → Type 0
  Reported none = Unit
  Reported (some r) = r.ok ≡ is_empty r.reasons

  judge_lp-Reported :
      (lockers : List String) (threshold : V) (largest : List (LargestAccount V)) (total : V)
      → Reported (some (judge_lp chain lockers threshold largest total))
  unfolding judge_lp is_empty
  judge_lp-Reported lockers threshold largest total =
      let burnt = incinerator_ratio chain total largest in
      let rest = scan-IsVerdict lockers threshold total burnt (take 10 largest) (start burnt) in
      ground (arith, rest)

  -- A result is an acceptance exactly if it has no reasons.
  pub check_lp_safety-Reported :
      (lp_mint : Option String) (lockers : List String) (threshold : V) (r : LpSafetyResult V)
      → check_lp_safety chain lp_mint lockers threshold ≡ some r
      → r.ok ≡ is_empty r.reasons
  unfolding check_lp_safety is_empty
  check_lp_safety-Reported lp_mint lockers threshold r e =
      let refusal : LpSafetyResult V = record {
        ok = false;
        reasons = "missing_lp_mint" ∷ [];
        locked_ratio = whole 0;
      } in
      subst Reported e
        (elim (truthy lp_mint)
          as (λ o. Reported (elim o [
            | none ↦ some refusal
            | some mint ↦ chain.get_token_largest_accounts mint >>= λ largest.
                chain.get_token_supply mint >>= λ supply.
                some (judge_lp chain lockers threshold largest (supply_of chain supply))
          ])) [
            | none ↦ refl
            | some mint ↦
                elim (chain.get_token_largest_accounts mint)
                  as (λ o. Reported (
                    o >>= λ largest. chain.get_token_supply mint >>= λ supply.
                    some (judge_lp chain lockers threshold largest (supply_of chain supply)))) [
                      | none ↦ tt
                      | some largest ↦
                          elim (chain.get_token_supply mint)
                            as (λ o. Reported (
                              o >>= λ supply. some (
                                judge_lp chain lockers threshold largest
                                  (supply_of chain supply)))) [
                                    | none ↦ tt
                                    | some supply ↦
                                        judge_lp-Reported lockers threshold largest
                                          (supply_of chain supply)
                                  ]
                    ]
          ])
