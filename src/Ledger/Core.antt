-- ===== src/Ledger/Core.antt =====
-- What the ledger takes from ANetCore (packages payment, identity and evidence): a record of the
-- functions that internal/aghub calls, none of which is defined in this repository.
use anet_hub.Prelude.{ℕ, Bool, Option, List}
use anet_hub.Prelude.Int.{ℤ}
use anet_hub.Ledger.State.{Authorization, Receipt}

-- The types of a key event that the hub tells apart (identity.Inception, Rotation, Deactivation).
pub data EventType : Type 0 where
  inception rotation deactivation other_event : EventType

-- identity.SignedEvent: its type and its keys.
pub record SignedEvent : Type 0 where
  pub event_type : EventType
  pub keys : List ℕ

-- What Authorization.Verify answers.
pub data Verdict : Type 0 where
  verified expired bad_window bad_sig : Verdict

-- The last state of a replayed key history: its key_state_seq, and whether it is active.
pub record KeyState : Type 0 where
  pub seq : ℕ
  pub active : Bool

pub record Core : Type 0 where
  pub scheme_credit : ℕ  -- payment.SchemeCredit
  pub credit_network : ℕ → ℕ  -- payment.CreditNetwork
  pub parse_amount : ℕ → Option ℕ  -- payment.ParseAmount
  pub decode_authorization : ℕ → Option Authorization  -- base64, then UnmarshalAuthorization
  pub auth_id : Authorization → Option ℕ  -- Authorization.ID
  pub verify : Authorization → List SignedEvent → ℤ → Verdict  -- Authorization.Verify
  pub envelope_valid : Authorization → Bool  -- Envelope present, valid and signed by the payer
  pub preimage : Authorization → Option ℕ  -- Authorization.CanonicalPreimage
  pub sig : Authorization → ℕ  -- Envelope.Sig
  pub key_size : ℕ → ℕ  -- the length of a key in bytes
  pub ed25519_verify : ℕ → ℕ → ℕ → Bool  -- ed25519.Verify
  pub unmarshal_kel : ℕ → Option (List SignedEvent)  -- identity.UnmarshalKEL
  pub replay : List SignedEvent → Option KeyState  -- the last state of identity.Replay
  pub settle_guard : ℕ → ℕ → Option ℕ  -- evidence.SettleGuard
  pub sign_receipt : Option (Receipt → Option ℕ)  -- Receipt.Sign and Marshal; none without hubKey
  pub verify_receipt : Receipt → List SignedEvent → ℕ → ℤ → Bool  -- Receipt.Verify
