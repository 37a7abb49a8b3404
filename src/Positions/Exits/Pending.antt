-- ===== src/Positions/Exits/Pending.antt =====
-- An exit that is under way is not posted again.
use trenches.Base.{
  ℕ, ◌+◌, ◌≤◌, ◌⊎◌, inl, inr, ◌≡◌, refl, some, Bool, true, String, arith, Option-cases,
}
use trenches.Base.Dict
use trenches.Base.Number.{Number}
use trenches.Util.TtlCache
use trenches.Util.TtlCache.{TtlCache}
use trenches.Positions.Exits.{Env, World, exit_key, trigger_exit}

get-set_live :
    (key : String) (v : Bool) (now later : ℕ) (c : TtlCache Bool)
    → later ≤ now + c.ttl_ms
    → TtlCache.get key later (TtlCache.set key v now c) ≡ (some v, TtlCache.set key v now c)
unfolding TtlCache.get TtlCache.set
get-set_live key v now later c h =
    rw
      (
        TtlCache.get,
        Dict.get-put_self key (record { value = v; expires_at = now + c.ttl_ms }) c.store,
      )
      (ground arith)

get_ttl :
    (key : String) (now : ℕ) (c : TtlCache Bool) → (TtlCache.get key now c).1.ttl_ms ≡ c.ttl_ms
unfolding TtlCache.get
get_ttl key now c = elim (Option-cases (Dict.get key c.store)) [
  | inl e ↦ rw (TtlCache.get, e) refl
  | inr (entry, e) ↦ rw (TtlCache.get, e) (ground arith)
]

module _ {V : Type 0} ⦃d : Number V⦄ where
  -- An exit that was posted is not posted again for the same mint and reason, at any price and with
  -- any share, as long as the cache keeps the entry; the second trigger changes nothing at all.
  pub trigger_exit-once :
      (env : Env V) (mint reason : String) (share again_share price : V) (later : ℕ) (w : World V)
      → let w' = trigger_exit env mint reason share w in
        (w'.orders ≡ w.orders)
        ⊎ (later ≤ env.now + w.pending.ttl_ms
            → trigger_exit (record env { now = later; price = price }) mint reason again_share w'
              ≡ w')
  unfolding trigger_exit
  trigger_exit-once env mint reason share again_share price later w =
      let c = (TtlCache.get (exit_key mint reason) env.now w.pending).1 in
      let ttl = get_ttl (exit_key mint reason) env.now w.pending in
      let live = get-set_live (exit_key mint reason) true env.now later c in
      ground (arith, ttl, live)
