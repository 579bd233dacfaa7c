-- ===== src/Ledger/State.antt =====
-- The ledger tables of internal/aghub/aghub.go, the records of a payment, and the answers.
-- A text (an AID, an id, a key, a marshaled value) is only compared, so it stands as a number, 0
-- for the empty text. A time is in nanoseconds, or in unix ms where the code keeps ms.
use anet_hub.Prelude.{ℕ, ◌≡◌, refl, Bool, true, false, Option, List}
use anet_hub.Prelude.Int.{ℤ}
use anet_hub.Prelude.Table.{Table}

-- The payment.Reason constants that a refusal carries.
pub data Reason : Type 0 where
  malformed invalid_requirements invalid_amount unsupported_scheme network_mismatch : Reason
  payee_mismatch payee_not_local insufficient_funds duplicate_nonce duplicate_binding : Reason
  settlement_failed expired_payment invalid_signature unknown_payer : Reason
  auth_window_too_long settlement_pending : Reason

-- What a store operation fails with: a refusal, or an error of another kind.
pub data Fault : Type 0 where
  refusal : Reason → Fault
  not_positive over_range no_receipt wrong_ledger bad_signature receipt_too_old over_due : Fault
  not_own_statement other_hub over_owed no_key nothing_to_clear own_liability : Fault

-- What an operation of the store returns.
pub data Result (A : Type 0) : Type 0 where
  err : Fault → Result A
  ok : A → Result A

-- An early return of a fault.
abbrev pub fail_if : Bool → Fault → Result (Unit {0})
fail_if false fault = ok tt
fail_if true fault = err fault

-- A fault ends the operation, and nothing after it is run.
infixl 5 ◌>>=◌ ◌>>◌
abbrev pub ◌>>=◌ : {A B : Type 0} → Result A → (A → Result B) → Result B
err fault >>= rest = err fault
ok value >>= rest = rest value

abbrev pub ◌>>◌ : {A B : Type 0} → Result A → Result B → Result B
step >> rest = step >>= λ _. rest

-- The steps of an operation that went through, went through; and a guard that let it go on is false.
pub >>=-eq-ok :
    {A B : Type 0} (step : Result A) (rest : A → Result B) {result : B}
    → (step >>= rest) ≡ ok result
    → (value : A) × (step ≡ ok value) × (rest value ≡ ok result)
>>=-eq-ok (err fault) rest through = cc
>>=-eq-ok (ok value) rest through = (value, refl, through)

pub fail_if-bind :
    {A : Type 0} (c : Bool) (e : Fault) (k : Result A) {a : A}
    → (fail_if c e >> k) ≡ ok a
    → (c ≡ false) × (k ≡ ok a)
fail_if-bind true e k h = cc
fail_if-bind false e k h = (refl, h)

-- payment.Authorization: what a payer signed. `amount` is a uint64, the times are unix ms.
pub record Authorization : Type 0 where
  pub payer : ℕ
  pub pay_to : ℕ
  pub amount : ℕ
  pub network : ℕ
  pub interaction_id : ℕ
  pub issued_at : ℤ
  pub not_after : ℤ
  pub key_state_seq : ℕ

-- payment.Receipt: a hub's signed statement of one settlement.
pub record Receipt : Type 0 where
  pub auth_id : ℕ
  pub payer : ℕ
  pub pay_to : ℕ
  pub amount : ℕ
  pub network : ℕ
  pub settle_at : ℤ

-- The reason column of an entry: a text (an authorization's id, an operator's reason), the default
-- reason of a grant, or the issuer's side of an issuance.
pub data EntryReason : Type 0 where
  text : ℕ → EntryReason
  operator_grant : EntryReason
  issued_for : EntryReason → EntryReason

-- One row of credit_entry.
pub record Entry : Type 0 where
  pub aid : ℕ
  pub delta : ℤ
  pub reason : EntryReason
  pub at : ℕ

-- One row of credit_settled, under its auth_id.
pub record SettledRow : Type 0 where
  pub payer : ℕ
  pub pay_to : ℕ
  pub amount : ℤ
  pub at : ℕ
  pub receipt : Option ℕ
  pub not_after : ℤ
  pub guard_h : Option ℕ
  pub via : ℕ

-- One row of credit_cleared, under its auth_id.
pub record ClearedRow : Type 0 where
  pub peer_aid : ℕ
  pub pay_to : ℕ
  pub amount : ℤ
  pub at : ℕ
  pub settle_at : ℤ

-- One row of x402_first_verify, under its auth_id.
pub record FirstVerify : Type 0 where
  pub payer : ℕ
  pub key_state_seq : ℕ
  pub tip_at_first : Bool
  pub first_verified_at : ℤ
  pub delete_after : ℤ

-- One row of credit_redemption, under its auth_id.
pub record RedemptionRow : Type 0 where
  pub aid : ℕ
  pub amount : ℤ
  pub reference : ℕ
  pub at : ℕ

-- The one row of supply_totals.
pub record Totals : Type 0 where
  pub issued : ℤ
  pub redeemed : ℤ
  pub events_since_publish : ℕ
  pub last_to_day : Option ℤ

-- The tables. `agents` is agent (its kel column), `guards` is settle_guard (its until column),
-- `hub_cleared` keeps its peer and amount.
pub record Ledger : Type 0 where
  pub agents : Table ℕ
  pub balances : Table ℤ
  pub entries : List Entry
  pub settled : Table SettledRow
  pub guards : Table ℤ
  pub due : Table ℤ
  pub owed : Table ℤ
  pub cleared : Table ClearedRow
  pub hub_cleared : Table (ℕ × ℤ)
  pub first_verify : Table FirstVerify
  pub redemptions : Table RedemptionRow
  pub totals : Totals

-- payment.SettlementResponse with the extensions that the code reads: `replayed`, `receipt` and
-- `original_transaction`.
pub record Response : Type 0 where
  pub success : Bool
  pub reason : Option Reason
  pub payer : ℕ
  pub transaction : ℕ
  pub network : ℕ
  pub amount : ℕ
  pub replayed : Bool
  pub receipt : Option ℕ
  pub original : Option ℕ
