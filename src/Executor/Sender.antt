-- ===== src/Executor/Sender.antt =====
-- services/executor/src/sender.ts (`TransactionSender`). What the Solana RPC and the Jito endpoint answer
-- is an argument; the calls made to them are recorded in their order. The metrics are left out.
pub mod Confirmed
pub mod Once
use trenches.Base.{
  ℕ, List, [], ◌∷◌, ◌++◌, Option, none, some, Bool, true, false, not, ◌&&◌, String, ltb, ◌or_else◌,
  if◌then◌else◌,
}
use trenches.Base.Sets.{same, truthy}

-- A transaction in base 64, and its first signature.
pub record Transaction : Type 0 where
  pub base64 : String
  pub signature : String

pub record SendRequest : Type 0 where
  pub transaction : Transaction
  pub jito_tip_lamports : Option ℕ
  pub jito_tip_tx_base64 : Option String
  pub last_valid_block_height : Option ℕ
  pub recent_blockhash : Option String

pub record Confirmation : Type 0 where
  pub err : Option String
  pub slot : ℕ

pub record SendResult : Type 0 where
  pub signature : String
  pub slot : ℕ

pub data Call : Type 0 where
  gets_latest_blockhash : Call
  confirms : String → String → ℕ → Call
  posts_bundle : String → List String → Call
  sends_raw : String → Call
  sends : Transaction → Call

-- The answers; `none` is a call that throws. A bundle is answered with its id, if there is one.
pub record Rpc : Type 0 where
  pub get_latest_blockhash : Option (String × ℕ)
  pub confirm_transaction : String → String → ℕ → Option Confirmation
  pub post_bundle : List String → Option (Option String)
  pub send_raw_transaction : String → Option String
  pub send_transaction : Transaction → Option String

-- A result, unless something threw, and the calls that were made.
abbrev pub Run : Type 0 → Type 0
Run A = Option A × List Call

-- What follows a run that did not throw.
abbrev pub and_then : {A B : Type 0} → Run A → (A → Run B) → Run B
and_then (none, calls) f = (none, calls)
and_then (some a, calls) f = ((f a).0, calls ++ (f a).1)

-- What follows a run that threw.
abbrev pub or_catch : {A : Type 0} → Run A → Run A → Run A
or_catch (none, calls) (o, more) = (o, calls ++ more)
or_catch (some a, calls) r = (some a, calls)

module _ (rpc : Rpc) where
  abbrev pub confirm : String → String → ℕ → Run Confirmation
  confirm signature blockhash height =
      (rpc.confirm_transaction signature blockhash height, confirms signature blockhash height ∷ [])

  abbrev confirm_latest : String → Run Confirmation
  confirm_latest signature =
      and_then (rpc.get_latest_blockhash, gets_latest_blockhash ∷ [])
        (λ (latest : String × ℕ). confirm signature latest.0 latest.1)

  unfoldable pub confirm_with_blockhash : String → Option String → Option ℕ → Run Confirmation
  confirm_with_blockhash signature none height = confirm_latest signature
  confirm_with_blockhash signature (some blockhash) none = confirm_latest signature
  confirm_with_blockhash signature (some blockhash) (some height) =
      if same blockhash "" then confirm_latest signature else confirm signature blockhash height

  -- `if (confirmation.value.err) throw`, and what is returned otherwise.
  abbrev pub accepted : String → Confirmation → Run SendResult
  accepted signature confirmation = elim confirmation.err [
    | none ↦ (some (record { signature = signature; slot = confirmation.slot }), [])
    | some err ↦ (none, [])
  ]

  abbrev pub extra : Option String → List String
  extra none = []
  extra (some tip) = tip ∷ []

  -- A transaction that was sent, until it is confirmed.
  abbrev pub confirmed : SendRequest → String → Run SendResult
  confirmed r signature =
      and_then (confirm_with_blockhash signature r.recent_blockhash r.last_valid_block_height)
        (accepted signature)

  -- The answer to a bundle, with its id if there is one.
  abbrev pub after_bundle : SendRequest → Option String → Run SendResult
  after_bundle r id =
      and_then (truthy id, []) (λ (found : String). confirmed r r.transaction.signature)

  abbrev pub bundle_of : SendRequest → List String
  bundle_of r = extra (truthy r.jito_tip_tx_base64) ++ (r.transaction.base64 ∷ [])

  unfoldable pub send_via_jito : String → SendRequest → Run SendResult
  send_via_jito url r =
      and_then (rpc.post_bundle (bundle_of r), posts_bundle url (bundle_of r) ∷ []) (after_bundle r)

  -- It never throws.
  unfoldable pub try_send_tip : String → SendRequest → List Call
  try_send_tip raw r =
      (and_then (rpc.send_raw_transaction raw, sends_raw raw ∷ [])
        (λ signature.
          confirm_with_blockhash signature r.recent_blockhash r.last_valid_block_height)).1

  abbrev pub tip_calls : Option String → SendRequest → List Call
  tip_calls none r = []
  tip_calls (some raw) r = if ltb 0 (r.jito_tip_lamports or_else 0) then try_send_tip raw r else []

  unfoldable pub send_primary : SendRequest → Run SendResult
  send_primary r =
      and_then (rpc.send_transaction r.transaction, sends r.transaction ∷ []) (confirmed r)

  abbrev pub primary : SendRequest → Run SendResult
  primary r = ((send_primary r).0, tip_calls (truthy r.jito_tip_tx_base64) r ++ (send_primary r).1)

  -- `jito_url` is the configured URL when Jito is enabled.
  unfoldable pub send_and_confirm : Option String → SendRequest → Run SendResult
  send_and_confirm none r = primary r
  send_and_confirm (some jito_url) r = or_catch (send_via_jito jito_url r) (primary r)
