-- ===== src/Executor/Sender/Confirmed.antt =====
-- What a reported success rests on.
use trenches.Base.{
  ℕ, ◌≡◌, refl, List, [], ◌∷◌, ◌++◌, Option, none, some, String, Option-cases, inl, inr, if_cases,
}
use trenches.Base.Best.{IsIn, IsIn-left, IsIn-right}
use trenches.Base.Sets.{same, truthy}
use trenches.Executor.Sender.{
  SendRequest, Confirmation, SendResult, Call, gets_latest_blockhash, confirms, posts_bundle, sends,
  Rpc, Run, and_then, or_catch, confirmed, after_bundle, bundle_of, tip_calls, confirm,
  confirm_with_blockhash, accepted, send_via_jito, send_primary, primary, send_and_confirm,
}

module _ (rpc : Rpc) where
  -- A reported signature was asked to be confirmed, the answer had no error, and its slot is reported.
  abbrev pub IsConfirmed : Run SendResult → Type 0
  IsConfirmed (none, calls) = Unit
  IsConfirmed (some r, calls) =
      (blockhash : String) × (height : ℕ) × (c : Confirmation) × IsIn
        (confirms r.signature blockhash height) calls
      × (rpc.confirm_transaction r.signature blockhash height ≡ some c)
      × (c.err ≡ none)
      × (c.slot ≡ r.slot)

  after-IsConfirmed :
      (calls : List Call) (x : Run SendResult) → IsConfirmed x → IsConfirmed (x.0, calls ++ x.1)
  after-IsConfirmed calls (none, more) h = tt
  after-IsConfirmed calls (some r, more) (blockhash, height, c, made, e, n, k) =
      (blockhash, height, c, IsIn-right _ calls more made, e, n, k)

  and_then-IsConfirmed :
      {A : Type 0} (x : Run A) (f : A → Run SendResult)
      → ((a : A) → IsConfirmed (f a))
      → IsConfirmed (and_then x f)
  and_then-IsConfirmed (none, calls) f h = tt
  and_then-IsConfirmed (some a, calls) f h = after-IsConfirmed calls (f a) (h a)

  or_catch-IsConfirmed :
      (x y : Run SendResult) → IsConfirmed x → IsConfirmed y → IsConfirmed (or_catch x y)
  or_catch-IsConfirmed (none, calls) y h k = after-IsConfirmed calls y k
  or_catch-IsConfirmed (some r, calls) y h k = h

  -- A confirmation of the signature, by one of the calls.
  abbrev IsAnswer : String → Run Confirmation → Type 0
  IsAnswer signature (none, calls) = Unit
  IsAnswer signature (some c, calls) =
      (blockhash : String) × (height : ℕ) × IsIn (confirms signature blockhash height) calls
      × (rpc.confirm_transaction signature blockhash height ≡ some c)

  confirm-IsAnswer :
      (signature blockhash : String) (height : ℕ)
      → IsAnswer signature (confirm rpc signature blockhash height)
  confirm-IsAnswer signature blockhash height =
      elim (Option-cases (rpc.confirm_transaction signature blockhash height)) [
        | inl e ↦ rw e tt
        | inr (c, e) ↦ rw e (blockhash, height, inl refl, e)
      ]

  later-IsAnswer :
      (signature : String) (calls : List Call) (x : Run Confirmation)
      → IsAnswer signature x
      → IsAnswer signature (x.0, calls ++ x.1)
  later-IsAnswer signature calls (none, more) h = tt
  later-IsAnswer signature calls (some c, more) (blockhash, height, made, e) =
      (blockhash, height, IsIn-right _ calls more made, e)

  confirm_latest-IsAnswer :
      (signature : String) (latest : Option (String × ℕ))
      → IsAnswer signature (
          and_then
            (latest, gets_latest_blockhash ∷ [])
            (λ (l : String × ℕ). confirm rpc signature l.0 l.1))
  confirm_latest-IsAnswer signature none = tt
  confirm_latest-IsAnswer signature (some l) =
      later-IsAnswer signature (gets_latest_blockhash ∷ []) (confirm rpc signature l.0 l.1)
        (confirm-IsAnswer signature l.0 l.1)

  confirm_with_blockhash-IsAnswer :
      (signature : String) (blockhash : Option String) (height : Option ℕ)
      → IsAnswer signature (confirm_with_blockhash rpc signature blockhash height)
  unfolding confirm_with_blockhash
  confirm_with_blockhash-IsAnswer signature none height =
      confirm_latest-IsAnswer signature rpc.get_latest_blockhash
  confirm_with_blockhash-IsAnswer signature (some b) none =
      confirm_latest-IsAnswer signature rpc.get_latest_blockhash
  confirm_with_blockhash-IsAnswer signature (some b) (some h) =
      if_cases (IsAnswer signature) (same b "") _ _
        (λ e. confirm_latest-IsAnswer signature rpc.get_latest_blockhash)
        (λ e. confirm-IsAnswer signature b h)

  accepted-IsConfirmed :
      (signature : String) (x : Run Confirmation)
      → IsAnswer signature x
      → IsConfirmed (and_then x (accepted rpc signature))
  accepted-IsConfirmed signature (none, calls) h = tt
  accepted-IsConfirmed signature (some c, calls) (blockhash, height, made, e) =
      elim (Option-cases c.err) [
        | inl n ↦ rw n (blockhash, height, c, IsIn-left _ calls [] made, e, n, refl)
        | inr (err, n) ↦ rw n tt
      ]

  confirmed-IsConfirmed :
      (r : SendRequest) (signature : String) → IsConfirmed (confirmed rpc r signature)
  confirmed-IsConfirmed r signature =
      accepted-IsConfirmed signature
        (confirm_with_blockhash rpc signature r.recent_blockhash r.last_valid_block_height)
        (confirm_with_blockhash-IsAnswer signature r.recent_blockhash r.last_valid_block_height)

  after_bundle-IsConfirmed :
      (r : SendRequest) (id : Option String) → IsConfirmed (after_bundle rpc r id)
  after_bundle-IsConfirmed r id =
      and_then-IsConfirmed (truthy id, [])
        (λ (found : String). confirmed rpc r r.transaction.signature)
        (λ found. confirmed-IsConfirmed r r.transaction.signature)

  send_via_jito-IsConfirmed :
      (url : String) (r : SendRequest) → IsConfirmed (send_via_jito rpc url r)
  unfolding send_via_jito
  send_via_jito-IsConfirmed url r =
      and_then-IsConfirmed
        (rpc.post_bundle (bundle_of rpc r), posts_bundle url (bundle_of rpc r) ∷ [])
        (after_bundle rpc r) (after_bundle-IsConfirmed r)

  primary-IsConfirmed : (r : SendRequest) → IsConfirmed (primary rpc r)
  unfolding send_primary
  primary-IsConfirmed r =
      after-IsConfirmed (tip_calls rpc (truthy r.jito_tip_tx_base64) r) (send_primary rpc r) (
        and_then-IsConfirmed (rpc.send_transaction r.transaction, sends r.transaction ∷ [])
          (confirmed rpc r) (confirmed-IsConfirmed r))

  -- A success is reported only of a signature that the chain confirmed without an error, in the slot
  -- that is reported, whichever way the transaction was sent.
  pub send_and_confirm-IsConfirmed :
      (jito_url : Option String) (r : SendRequest) → IsConfirmed (send_and_confirm rpc jito_url r)
  unfolding send_and_confirm
  send_and_confirm-IsConfirmed none r = primary-IsConfirmed r
  send_and_confirm-IsConfirmed (some url) r =
      or_catch-IsConfirmed (send_via_jito rpc url r) (primary rpc r)
        (send_via_jito-IsConfirmed url r) (primary-IsConfirmed r)
