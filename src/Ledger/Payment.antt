-- ===== src/Ledger/Payment.antt =====
-- internal/aghub/facilitator.go and kelreplay.go: what is checked of a payment before any credit
-- moves. An absent pointer is `none`; every text is a number, 0 the empty text.
use anet_hub.Prelude.{
  ℕ, Bool, true, false, Option, none, some, List, [], ◌∷◌, zero, suc, ◌==◌, ◌&&◌, ◌||◌, not, ltb,
  take, if◌then◌else◌,
}
use anet_hub.Prelude.Int.{ℤ, pos, ◌-ℤ◌, ltb_ℤ}
use anet_hub.Prelude.Table.{lookup}
use anet_hub.Ledger.State.{
  Reason, malformed, invalid_requirements, invalid_amount, unsupported_scheme, network_mismatch,
  payee_mismatch, settlement_failed, expired_payment, invalid_signature, unknown_payer,
  auth_window_too_long, Authorization, Ledger,
}
use anet_hub.Ledger.Core.{
  Core, EventType, inception, rotation, deactivation, SignedEvent, Verdict, verified, expired,
  bad_window, bad_sig,
}
use anet_hub.Ledger.Rows.{amount_int64}

-- payment.PaymentPayload: its accepted option, and the authorization member, 0 where there is none.
pub record Payload : Type 0 where
  pub scheme : ℕ
  pub network : ℕ
  pub pay_to : ℕ
  pub amount : ℕ
  pub authorization : ℕ

-- payment.PaymentRequirements
pub record Requirements : Type 0 where
  pub scheme : ℕ
  pub network : ℕ
  pub pay_to : ℕ
  pub amount : ℕ

-- A check passes with `none`, and refuses with a reason. The first refusal of a row of checks counts.
abbrev pub Check : Type 0
Check = Option Reason

abbrev pub refuse_if : Bool → Reason → Check
refuse_if true r = some r
refuse_if false r = none

infixr 6 ◌then_check◌
abbrev pub ◌then_check◌ : Check → Check → Check
none then_check c = c
some r then_check c = some r

abbrev pub in_range : ℕ → Bool
in_range n = elim (amount_int64 n) [ none ↦ false | some _ ↦ true ]

-- CheckRequirements once the required amount is read.
unfoldable pub check_terms : Core → Payload → Authorization → Requirements → ℕ → Check
check_terms core p auth req want =
    refuse_if (not (in_range want)) invalid_requirements
    then_check refuse_if (req.pay_to == 0 || req.network == 0) invalid_requirements
    then_check refuse_if (not (in_range auth.amount)) invalid_amount
    then_check refuse_if (not (req.scheme == core.scheme_credit)) unsupported_scheme
    then_check refuse_if (not (p.scheme == req.scheme)) unsupported_scheme
    then_check refuse_if (not (p.network == req.network)) network_mismatch
    then_check refuse_if (not (auth.network == req.network)) network_mismatch
    then_check refuse_if (not (auth.pay_to == req.pay_to)) payee_mismatch
    then_check refuse_if (not (p.pay_to == auth.pay_to)) payee_mismatch
    then_check elim (core.parse_amount p.amount) [
      | none ↦ some invalid_amount
      | some accepted ↦ refuse_if (not (accepted == auth.amount)) invalid_amount
    ]
    then_check refuse_if (ltb auth.amount want) invalid_amount

unfoldable pub check_requirements : Core → Payload → Authorization → Requirements → Check
check_requirements core p auth req = elim (core.parse_amount req.amount) [
  | none ↦ some invalid_requirements
  | some want ↦ check_terms core p auth req want
]

-- payment.MaxAuthWindow is 24 hours, in ms.
abbrev pub max_auth_window : ℕ
max_auth_window = 86400000

unfoldable pub auth_window : Authorization → Check
auth_window a =
    refuse_if
      (ltb_ℤ a.issued_at a.not_after && ltb_ℤ (pos max_auth_window) (a.not_after -ℤ a.issued_at))
      auth_window_too_long

-- What reading an authorization gives: it, or a refusal, with it where it could be read.
pub data Parsed : Type 0 where
  parsed : Authorization → Parsed
  unparsed : Option Authorization → Reason → Parsed

abbrev pub windowed : Authorization → Check → Parsed
windowed auth none = parsed auth
windowed auth (some r) = unparsed (some auth) r

unfoldable pub parse_auth : Core → Payload → Parsed
parse_auth core p =
    if p.authorization == 0
    then unparsed none malformed
    else elim (core.decode_authorization p.authorization) [
      | none ↦ unparsed none malformed
      | some auth ↦
          if in_range auth.amount
          then windowed auth (auth_window auth)
          else unparsed none invalid_amount
    ]

-- kelreplay.go plausibleSignature: the key of the last inception or rotation at or before `seq`.
abbrev pub names_key : EventType → Bool
names_key inception = true
names_key rotation = true
names_key _ = false

unfoldable pub last_key : List SignedEvent → Option ℕ → Option ℕ
last_key [] key = key
last_key (e ∷ es) key =
    last_key es (if names_key e.event_type then elim e.keys [ [] ↦ key | k ∷ ks ↦ some k ] else key)

abbrev pub event_at : List SignedEvent → ℕ → Option SignedEvent
event_at [] i = none
event_at (e ∷ es) zero = some e
event_at (e ∷ es) (suc i) = event_at es i

abbrev pub is_deactivation : EventType → Bool
is_deactivation deactivation = true
is_deactivation _ = false

-- ed25519.PublicKeySize
abbrev pub public_key_size : ℕ
public_key_size = 32

-- Whether the signature is refused before the key history is replayed.
unfoldable pub implausible_signature : Core → List SignedEvent → ℕ → ℕ → ℕ → Bool
implausible_signature core kel seq pre sig = elim (event_at kel seq) [
  | none ↦ true
  | some e ↦ is_deactivation e.event_type || elim (last_key (take (suc seq) kel) none) [
    | none ↦ true
    | some key ↦ not (core.key_size key == public_key_size) || not (core.ed25519_verify key pre sig)
  ]
]

-- kelreplay.go plausibleEnvelope
unfoldable pub implausible_envelope : Core → Authorization → List SignedEvent → Bool
implausible_envelope core auth kel = core.envelope_valid auth && elim (core.preimage auth) [
  | none ↦ false
  | some pre ↦ implausible_signature core kel auth.key_state_seq pre (core.sig auth)
]

-- verifyReason of what Authorization.Verify answered.
abbrev pub verify_check : Verdict → Check
verify_check verified = none
verify_check expired = some expired_payment
verify_check bad_window = some expired_payment
verify_check bad_sig = some invalid_signature

-- A payment on this hub's ledger whose signature verifies at its own time: the authorization, its
-- id and its payer's key history.
pub data Vetted : Type 0 where
  vetted : Authorization → ℕ → List SignedEvent → Vetted
  unvetted : Option Authorization → Reason → Vetted

abbrev pub vet : Authorization → ℕ → List SignedEvent → Check → Vetted
vet auth id kel none = vetted auth id kel
vet auth id kel (some r) = unvetted (some auth) r

-- verifiedAuth from the stored key history on.
unfoldable pub verify_signed : Core → Authorization → ℕ → Ledger → Vetted
verify_signed core auth id l = elim (lookup auth.payer l.agents) [
  | none ↦ unvetted (some auth) unknown_payer
  | some raw ↦ elim (core.unmarshal_kel raw) [
    | none ↦ unvetted (some auth) settlement_failed
    | some kel ↦ vet auth id kel (
        refuse_if
          (ltb_ℤ (pos 0) auth.issued_at
            && ltb_ℤ auth.issued_at auth.not_after
            && implausible_envelope core auth kel)
          invalid_signature
        then_check verify_check (core.verify auth kel auth.issued_at))
  ]
]

unfoldable pub verified_auth : Core → ℕ → Payload → Ledger → Vetted
verified_auth core hub p l =
    if not (p.scheme == core.scheme_credit)
    then unvetted none unsupported_scheme
    else if not (p.network == core.credit_network hub)
    then unvetted none network_mismatch
    else elim (parse_auth core p) [
      | unparsed a r ↦ unvetted a r
      | parsed auth ↦
          if not (auth.network == core.credit_network hub)
          then unvetted (some auth) network_mismatch
          else elim (core.auth_id auth) [
            | none ↦ unvetted (some auth) malformed
            | some id ↦ verify_signed core auth id l
          ]
    ]

-- currentAuth
abbrev pub current_auth : Core → Authorization → List SignedEvent → ℤ → Check
current_auth core auth kel now_ms = verify_check (core.verify auth kel now_ms)
