-- ===== src/Executor/Sender/Once.antt =====
-- How often a transaction is submitted.
use trenches.Base.{
  ℕ, suc, ◌+◌, ◌≡◌, refl, List, [], ◌∷◌, ◌++◌, Option, none, some, String, arith, Option-cases, inl,
  inr, if_cases, ltb, ◌or_else◌,
}
use trenches.Base.Sets.{same, truthy}
use trenches.Executor.Sender.{
  Transaction, SendRequest, Confirmation, SendResult, Call, gets_latest_blockhash, confirms,
  posts_bundle, sends_raw, sends, Rpc, Run, and_then, or_catch, confirmed, after_bundle, bundle_of,
  confirm, confirm_with_blockhash, accepted, tip_calls, send_via_jito, try_send_tip, send_primary,
  primary, send_and_confirm,
}

-- How often a transaction is sent by `sendTransaction`.
unfoldable pub submissions : List Call → ℕ
submissions [] = 0
submissions (sends t ∷ calls) = suc (submissions calls)
submissions (_ ∷ calls) = submissions calls

submissions-append : (xs ys : List Call) → submissions (xs ++ ys) ≡ submissions xs + submissions ys
unfolding submissions
submissions-append [] ys = omega arith
submissions-append (gets_latest_blockhash ∷ xs) ys = submissions-append xs ys
submissions-append (confirms s b h ∷ xs) ys = submissions-append xs ys
submissions-append (posts_bundle u b ∷ xs) ys = submissions-append xs ys
submissions-append (sends_raw raw ∷ xs) ys = submissions-append xs ys
submissions-append (sends t ∷ xs) ys = omega (arith, submissions-append xs ys)

module _ (rpc : Rpc) where
  -- None of the calls submits.
  abbrev IsQuiet : {A : Type 0} → Run A → Type 0
  IsQuiet x = submissions x.1 ≡ 0

  and_then-IsQuiet :
      {A B : Type 0} (x : Run A) (f : A → Run B)
      → IsQuiet x
      → ((a : A) → IsQuiet (f a))
      → IsQuiet (and_then x f)
  and_then-IsQuiet (none, calls) f h k = h
  and_then-IsQuiet (some a, calls) f h k = omega (arith, submissions-append calls (f a).1, h, k a)

  confirm_with_blockhash-IsQuiet :
      (signature : String) (blockhash : Option String) (height : Option ℕ)
      → IsQuiet (confirm_with_blockhash rpc signature blockhash height)
  unfolding confirm_with_blockhash submissions
  confirm_with_blockhash-IsQuiet signature blockhash height =
      let latest =
        and_then-IsQuiet (rpc.get_latest_blockhash, gets_latest_blockhash ∷ [])
          (λ (l : String × ℕ). confirm rpc signature l.0 l.1) refl (λ l. refl) in
      elim blockhash as (λ b. IsQuiet (confirm_with_blockhash rpc signature b height)) [
        | none ↦ latest
        | some b ↦ elim height as (λ h. IsQuiet (confirm_with_blockhash rpc signature (some b) h)) [
          | none ↦ latest
          | some h ↦
              if_cases IsQuiet (same b "") _ (confirm rpc signature b h) (λ e. latest) (λ e. refl)
        ]
      ]

  accepted-IsQuiet : (signature : String) (c : Confirmation) → IsQuiet (accepted rpc signature c)
  unfolding submissions
  accepted-IsQuiet signature c = elim (Option-cases c.err) [
    | inl n ↦ rw n refl
    | inr (err, n) ↦ rw n refl
  ]

  confirmed-IsQuiet : (r : SendRequest) (signature : String) → IsQuiet (confirmed rpc r signature)
  confirmed-IsQuiet r signature =
      and_then-IsQuiet
        (confirm_with_blockhash rpc signature r.recent_blockhash r.last_valid_block_height)
        (accepted rpc signature)
        (confirm_with_blockhash-IsQuiet signature r.recent_blockhash r.last_valid_block_height)
        (accepted-IsQuiet signature)

  send_via_jito-IsQuiet : (url : String) (r : SendRequest) → IsQuiet (send_via_jito rpc url r)
  unfolding send_via_jito submissions
  send_via_jito-IsQuiet url r =
      and_then-IsQuiet (rpc.post_bundle (bundle_of rpc r), posts_bundle url (bundle_of rpc r) ∷ [])
        (after_bundle rpc r) refl
        (λ id.
          and_then-IsQuiet (truthy id, [])
            (λ (found : String). confirmed rpc r r.transaction.signature) refl
            (λ found. confirmed-IsQuiet r r.transaction.signature))

  try_send_tip-submissions :
      (raw : String) (r : SendRequest) → submissions (try_send_tip rpc raw r) ≡ 0
  unfolding try_send_tip submissions
  try_send_tip-submissions raw r =
      and_then-IsQuiet (rpc.send_raw_transaction raw, sends_raw raw ∷ [])
        (λ signature.
          confirm_with_blockhash rpc signature r.recent_blockhash r.last_valid_block_height)
        refl
        (λ signature.
          confirm_with_blockhash-IsQuiet signature r.recent_blockhash r.last_valid_block_height)

  tip_calls-submissions :
      (tip : Option String) (r : SendRequest) → submissions (tip_calls rpc tip r) ≡ 0
  unfolding submissions
  tip_calls-submissions none r = refl
  tip_calls-submissions (some raw) r =
      if_cases (λ calls. submissions calls ≡ 0) (ltb 0 (r.jito_tip_lamports or_else 0))
        (try_send_tip rpc raw r) [] (λ e. try_send_tip-submissions raw r) (λ e. refl)

  submitted :
      (x : Option String) (t : Transaction) (f : String → Run SendResult)
      → ((s : String) → IsQuiet (f s))
      → submissions (and_then (x, sends t ∷ []) f).1 ≡ 1
  unfolding submissions
  submitted none t f h = omega arith
  submitted (some s) t f h = omega (arith, h s)

  primary-submissions : (r : SendRequest) → submissions (primary rpc r).1 ≡ 1
  unfolding send_primary
  primary-submissions r =
      let tip = tip_calls rpc (truthy r.jito_tip_tx_base64) r in
      let main =
        submitted (rpc.send_transaction r.transaction) r.transaction (confirmed rpc r)
          (confirmed-IsQuiet r) in
      omega (
        arith,
        submissions-append tip (send_primary rpc r).1,
        tip_calls-submissions (truthy r.jito_tip_tx_base64) r,
        main,
      )

  abbrev pub expected : Option SendResult → ℕ
  expected none = 1
  expected (some r) = 0

  or_catch-submissions :
      (x y : Run SendResult)
      → IsQuiet x
      → submissions y.1 ≡ 1
      → submissions (or_catch x y).1 ≡ expected x.0
  or_catch-submissions (none, calls) y h k = omega (arith, h, k, submissions-append calls y.1)
  or_catch-submissions (some r, calls) y h k = h

  -- The transaction is submitted to the RPC exactly once, except that it is not when a bundle of
  -- Jito succeeded.
  pub send_and_confirm-submissions :
      (url : String) (r : SendRequest)
      → (submissions (send_and_confirm rpc none r).1 ≡ 1)
        × (submissions (send_and_confirm rpc (some url) r).1 ≡ expected (send_via_jito rpc url r).0)
  unfolding send_and_confirm
  send_and_confirm-submissions url r = (
    primary-submissions r,
    or_catch-submissions (send_via_jito rpc url r) (primary rpc r) (send_via_jito-IsQuiet url r)
        (primary-submissions r),
  )
