-- ===== src/Policy/Bandit/History.antt =====
-- Selections and updates in any order.
use trenches.Base.{
  ℕ, ◌≡◌, refl, ◌∙◌, sym, List, [], ◌∷◌, Bool, false, not, String, ◌or_else◌, ap, map, subst,
}
use trenches.Base.Number.{Number}
use trenches.Policy.Bandit.{BanditAction, ArmState, LinUcbBandit, create, select, update}
use trenches.Policy.Bandit.Shape.{
  AllSized, IsShaped, create-IsShaped, select-IsShaped, update-IsShaped,
}

-- What is asked of a bandit. An update comes with whether its write to the database succeeds.
pub data Call (V : Type 0) : Type 0 where
  selects : V → V → ℕ → List V → Call V
  updates : String → List V → V → Bool → Call V

module _ {V : Type 0} ⦃d : Number V⦄ where
  -- Whether the calls threw or not, each followed by the next, and the bandit at the end.
  unfoldable pub run : List (Call V) → LinUcbBandit V → List Bool × LinUcbBandit V
  run [] bandit = ([], bandit)
  run (selects floor draw pick context ∷ calls) bandit =
      let (threw, last) = run calls (select floor draw pick context bandit).1 in
      (false ∷ threw, last)
  run (updates id context reward written ∷ calls) bandit =
      let (done, next) = update id context reward written bandit in
      let (threw, last) = run calls next in (not (done or_else false) ∷ threw, last)

  -- The writes that fail.
  abbrev pub fails : Call V → Bool
  fails (selects floor draw pick context) = false
  fails (updates id context reward written) = not written

  run_from-IsShaped :
      (calls : List (Call V)) (bandit : LinUcbBandit V) (dim : ℕ)
      → bandit.dim ≡ dim
      → AllSized dim bandit.state
      → ((run calls bandit).0 ≡ map fails calls) × AllSized dim (run calls bandit).1.state
  unfolding run
  run_from-IsShaped [] bandit dim same h = (refl, h)
  run_from-IsShaped (selects floor draw pick context ∷ calls) bandit dim same h =
      let shaped : IsShaped bandit = subst (λ n. AllSized n bandit.state) (sym same) h in
      let (kept, all) = select-IsShaped floor draw pick context bandit shaped in
      let next = (select floor draw pick context bandit).1 in
      let (e, k) =
        run_from-IsShaped calls next dim (kept ∙ same)
          (subst (λ n. AllSized n next.state) same all) in
      (ap (◌∷◌ false) e, k)
  run_from-IsShaped (updates id context reward written ∷ calls) bandit dim same h =
      let shaped : IsShaped bandit = subst (λ n. AllSized n bandit.state) (sym same) h in
      let (made, kept, all) = update-IsShaped id context reward written bandit shaped in
      let next = (update id context reward written bandit).1 in
      let (e, k) =
        run_from-IsShaped calls next dim (kept ∙ same)
          (subst (λ n. AllSized n next.state) same all) in
      (
        ap (λ done. not (done or_else false) ∷ (run calls next).0) made ∙ ap (◌∷◌ (not written)) e,
        k,
      )

  -- From the constructor on, whatever rows were stored and whatever lengths the contexts have, in a
  -- sequence of selections and updates exactly the updates throw whose write to the database fails,
  -- and at the end each arm has as many rows in its matrix and as many elements in its vector as the
  -- bandit has features.
  pub run-IsShaped :
      (dim : ℕ) (dim_number : V) (actions : List (BanditAction V))
      (rows : List (String × ArmState V)) (calls : List (Call V))
      → let (threw, bandit) = run calls (create dim dim_number actions rows) in
        (threw ≡ map fails calls) × AllSized dim bandit.state
  unfolding create
  run-IsShaped dim dim_number actions rows calls =
      run_from-IsShaped calls _ dim refl (create-IsShaped dim dim_number actions rows)
