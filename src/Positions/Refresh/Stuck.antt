-- ===== src/Positions/Refresh/Stuck.antt =====
-- The price of a position that has one.
use trenches.Base.{
  ◌≡◌, refl, ap, ◌∙◌, sym, subst, List, [], ◌∷◌, map, Option, none, some, true, String, arith,
  if◌then◌else◌, if_cases,
}
use trenches.Base.Number.{Number, whole}
use trenches.Positions.Fills.{PositionState, is_truthy, update_mae}
use trenches.Positions.Exits.{Env, World}
use trenches.Positions.Evaluation.Quantity.{evaluate_position-last_price}
use trenches.Positions.Refresh.{
  Tick, mark, current_price, refresh_at, refresh_position, refresh_all,
}

module _ {V : Type 0} ⦃d : Number V⦄ where
  last_price-update_mae :
      (price : V) (s : PositionState V) → (update_mae price s).last_price ≡ s.last_price
  unfolding update_mae
  last_price-update_mae price s = ground arith

  last_price-mark : (price : V) (s : PositionState V) → (mark price s).last_price ≡ some price
  unfolding mark
  last_price-mark price s = last_price-update_mae price _

  current_price-last :
      (fetched : Option V) (p : V) (s : PositionState V)
      → s.last_price ≡ some p
      → is_truthy p ≡ true
      → current_price fetched s ≡ some p
  current_price-last fetched p s e h = rw (e, h) refl

  refresh_position-last_price :
      (fetched : Option V) (env : V → Env V) (mint : String) (w : World V) (p : V)
      → w.state.last_price ≡ some p
      → is_truthy p ≡ true
      → (refresh_position fetched env mint w).state.last_price ≡ some p
  unfolding refresh_position
  refresh_position-last_price fetched env mint w p e h =
      if_cases (λ (v : World V). v.state.last_price ≡ some p) (d.le w.state.quantity (whole 0)) w _
        (λ k. e)
        (λ k.
          subst (λ o. (refresh_at env mint w o).state.last_price ≡ some p)
            (sym (current_price-last fetched p w.state e h))
            (evaluate_position-last_price (env p) mint _ ∙ last_price-mark p w.state))

  refresh_position-fetched :
      (fetched : Option V) (env : V → Env V) (mint : String) (w : World V) (p : V)
      → w.state.last_price ≡ some p
      → is_truthy p ≡ true
      → refresh_position fetched env mint w ≡ refresh_position none env mint w
  unfolding refresh_position
  refresh_position-fetched fetched env mint w p e h =
      ap (λ o. if d.le w.state.quantity (whole 0) then w else refresh_at env mint w o)
        (current_price-last fetched p w.state e h ∙ sym (current_price-last none p w.state e h))

  -- A tick without an answer of the oracle.
  abbrev pub silent : Tick V → Tick V
  silent t = record t { fetched = none }

  -- Once a position has a last price that is neither 0 nor NaN, no tick changes that price and no
  -- answer of the oracle has any effect, whatever the number of ticks.
  pub refresh_all-last_price :
      (mint : String) (ticks : List (Tick V)) (w : World V) (p : V)
      → w.state.last_price ≡ some p
      → is_truthy p ≡ true
      → ((refresh_all mint ticks w).state.last_price ≡ some p)
        × (refresh_all mint ticks w ≡ refresh_all mint (map silent ticks) w)
  unfolding refresh_all
  refresh_all-last_price mint [] w p e h = (e, refl)
  refresh_all-last_price mint (t ∷ ts) w p e h =
      let next = refresh_position t.fetched t.env mint w in
      let (same, silenced) =
        refresh_all-last_price mint ts next p
          (refresh_position-last_price t.fetched t.env mint w p e h) h in
      (
        same,
        silenced
            ∙ ap (refresh_all mint (map silent ts))
                (refresh_position-fetched t.fetched t.env mint w p e h),
      )
