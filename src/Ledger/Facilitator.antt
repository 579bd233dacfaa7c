-- ===== src/Ledger/Facilitator.antt =====
-- internal/aghub/facilitator.go and redemption.go: the doors onto a settlement, for an account
-- here, for a peer hub, and for a redemption; and the record of first verifications.
pub mod Doors
pub mod Keeps
pub mod Spent
pub mod Refusals
use anet_hub.Prelude.{
  ℕ, Bool, true, false, Option, none, some, List, [], ◌∷◌, suc, ◌==◌, ◌&&◌, ◌||◌, not, leb, ltb,
  length, take, if◌then◌else◌, ◌+◌,
}
use anet_hub.Prelude.Int.{ℤ, pos, ◌+ℤ◌, ◌-ℤ◌, ltb_ℤ, max_int64, max_ℤ64}
use anet_hub.Prelude.Table.{Table, lookup, contains, insert, value_of}
use anet_hub.Ledger.State.{
  malformed, invalid_requirements, payee_mismatch, payee_not_local, settlement_failed,
  Authorization, FirstVerify, Ledger, Response,
}
use anet_hub.Ledger.Core.{Core, SignedEvent, KeyState}
use anet_hub.Ledger.Rows.{amount_int64}
use anet_hub.Ledger.Issue.{unix_milli}
use anet_hub.Ledger.Settle.{refused_unread, refused_settlement, repeat_of, settle_auth}
use anet_hub.Ledger.Payment.{
  Payload, Requirements, Check, check_requirements, parsed, unparsed, parse_auth, Vetted, vetted,
  unvetted, verified_auth, verify_check, current_auth,
}

-- settledKeptAfter in ms.
abbrev pub settled_kept_after : ℤ
settled_kept_after = pos 604800000

unfoldable pub first_verify_delete_after : ℤ → ℤ
first_verify_delete_after not_after =
    if ltb_ℤ (max_ℤ64 -ℤ settled_kept_after) not_after
    then max_ℤ64
    else not_after +ℤ settled_kept_after

abbrev pub max_first_verify_per_payer : ℕ
max_first_verify_per_payer = 5000

abbrev pub max_first_verify_unfunded : ℕ
max_first_verify_unfunded = 20

-- COUNT(*) of one payer's records.
unfoldable pub count_of_payer : ℕ → Table FirstVerify → ℕ
count_of_payer payer [] = 0
count_of_payer payer (e ∷ d) = (if e.1.payer == payer then 1 else 0) + count_of_payer payer d

abbrev pub first_verify_says : FirstVerify → Authorization → Bool
first_verify_says row auth =
    row.tip_at_first && row.payer == auth.payer && row.key_state_seq == auth.key_state_seq

-- How a first verification ends: with an error, or with whether the signing key was the active tip
-- and the ledger with the record.
pub data Recorded : Type 0 where
  unreadable : Recorded
  recorded : Bool → Ledger → Recorded

-- The record is bounded per payer.
abbrev pub record_full : Authorization → ℕ → Ledger → Bool
record_full auth amt l =
    let n = count_of_payer auth.payer l.first_verify in
    (ltb_ℤ (value_of auth.payer l.balances) (pos amt) && leb max_first_verify_unfunded n)
    || leb max_first_verify_per_payer n

unfoldable pub write_first_verify : Authorization → ℕ → Bool → ℤ → Ledger → Ledger
write_first_verify auth id tip now_ms l = elim (amount_int64 auth.amount) [
  | none ↦ l
  | some amt ↦ if record_full auth amt l then l else record l {
    first_verify =
        insert id
          (record {
            payer = auth.payer;
            key_state_seq = auth.key_state_seq;
            tip_at_first = tip;
            first_verified_at = now_ms;
            delete_after = first_verify_delete_after auth.not_after;
          })
          l.first_verify;
  }
]

abbrev pub is_tip : KeyState → ℕ → Bool
is_tip s seq = s.seq == seq && s.active

-- recordFirstVerify for an authorization with no record yet.
unfoldable pub new_first_verify : Core → Authorization → ℕ → ℤ → Ledger → Recorded
new_first_verify core auth id now_ms l = elim (lookup auth.payer l.agents) [
  | none ↦ unreadable
  | some raw ↦ elim (core.unmarshal_kel raw) [
    | none ↦ unreadable
    | some kel ↦ elim (core.replay kel) [
      | none ↦ unreadable
      | some last ↦
          let tip = is_tip last auth.key_state_seq in
          if ltb max_int64 auth.key_state_seq
          then unreadable
          else recorded tip (write_first_verify auth id tip now_ms l)
    ]
  ]
]

unfoldable pub record_first_verify : Core → Authorization → ℕ → ℤ → Ledger → Recorded
record_first_verify core auth id now_ms l = elim (lookup id l.first_verify) [
  | some row ↦ recorded (first_verify_says row auth) l
  | none ↦ new_first_verify core auth id now_ms l
]

abbrev pub after_record :
    Core → Authorization → List SignedEvent → ℤ → Ledger → Recorded → Check × Ledger
after_record core auth kel now_ms l unreadable = (some settlement_failed, l)
after_record core auth kel now_ms l (recorded true l') = (none, l')
after_record core auth kel now_ms l (recorded false l') = (current_auth core auth kel now_ms, l')

unfoldable pub key_at_first_verify :
    Core → Authorization → ℕ → List SignedEvent → ℤ → Ledger → Check × Ledger
key_at_first_verify core auth id kel now_ms l =
    if leb (length kel) auth.key_state_seq
    then (current_auth core auth kel now_ms, l)
    else elim (verify_check (core.verify auth (take (suc auth.key_state_seq) kel) now_ms)) [
      | some r ↦ (some r, l)
      | none ↦ after_record core auth kel now_ms l (record_first_verify core auth id now_ms l)
    ]

-- SettleWithRequirements and SettleForPeer from the signature on: the terms, an earlier settlement,
-- the window and the key, and then the settlement.
unfoldable pub settle_current :
    Core → ℕ → ℕ → Authorization → ℕ → ℕ → Check × Ledger → Response × Ledger
settle_current core hub now auth id via (some r, l) =
    (refused_settlement core r (some auth) (core.credit_network hub), l)
settle_current core hub now auth id via (none, l) = settle_auth core hub now auth id via l

unfoldable pub settle_vetted :
    Core → ℕ → ℕ → Payload → Requirements → ℕ → Vetted → Ledger → Response × Ledger
settle_vetted core hub now p req via (unvetted a r) l =
    (refused_settlement core r a (core.credit_network hub), l)
settle_vetted core hub now p req via (vetted auth id kel) l =
    elim (check_requirements core p auth req) [
      | some r ↦ (refused_settlement core r (some auth) (core.credit_network hub), l)
      | none ↦ elim (repeat_of core hub id auth via l) [
        | some out ↦ (out, l)
        | none ↦
            settle_current core hub now auth id via
              (key_at_first_verify core auth id kel (unix_milli now) l)
      ]
    ]

-- payeeIsThisHub
abbrev pub payee_is_this_hub : ℕ → ℕ → Bool
payee_is_this_hub hub pay_to = not (hub == 0) && pay_to == hub

-- PeerSettler: forwards a settlement to the hub that owns its ledger. It may clear the result here,
-- so it is handed the ledger; no answer where this hub does not clear against that ledger.
abbrev pub PeerSettler : Type 0
PeerSettler = Payload → Requirements → Authorization → Ledger → Option (Response × Ledger)

-- A payment on another hub's ledger, where this hub forwards settlements: an answer, or none where it
-- goes on as a payment on this ledger.
unfoldable pub forward :
    Core → PeerSettler → Payload → Requirements → Ledger → Option (Response × Ledger)
forward core settler p req l = elim (parse_auth core p) [
  | unparsed a r ↦ some (refused_settlement core r a p.network, l)
  | parsed auth ↦ elim (check_requirements core p auth req) [
    | some r ↦ some (refused_settlement core r (some auth) p.network, l)
    | none ↦ settler p req auth l
  ]
]

abbrev pub forwarded :
    Core → ℕ → Option PeerSettler → Payload → Requirements → Ledger → Option (Response × Ledger)
forwarded core hub none p req l = none
forwarded core hub (some settler) p req l =
    if p.network == core.credit_network hub then none else forward core settler p req l

unfoldable pub settle_with_requirements :
    Core
    → Option PeerSettler
    → ℕ
    → ℕ
    → Option Payload
    → Option Requirements
    → Ledger
    → Response × Ledger
settle_with_requirements core settler hub now p none l =
    (refused_unread invalid_requirements (core.credit_network hub), l)
settle_with_requirements core settler hub now none (some req) l =
    (refused_unread malformed (core.credit_network hub), l)
settle_with_requirements core settler hub now (some p) (some req) l =
    if payee_is_this_hub hub req.pay_to
    then (refused_unread payee_mismatch (core.credit_network hub), l)
    else if not (contains req.pay_to l.agents)
    then (refused_unread payee_not_local (core.credit_network hub), l)
    else elim (forwarded core hub settler p req l) [
      | some answered ↦ answered
      | none ↦ settle_vetted core hub now p req 0 (verified_auth core hub p l) l
    ]

unfoldable pub settle_for_peer :
    Core → ℕ → ℕ → ℕ → Option Payload → Option Requirements → Ledger → Response × Ledger
settle_for_peer core hub now peer p none l =
    (refused_unread invalid_requirements (core.credit_network hub), l)
settle_for_peer core hub now peer none (some req) l =
    (refused_unread malformed (core.credit_network hub), l)
settle_for_peer core hub now peer (some p) (some req) l =
    if payee_is_this_hub hub req.pay_to || req.pay_to == peer || contains req.pay_to l.agents
    then (refused_unread payee_mismatch (core.credit_network hub), l)
    else settle_vetted core hub now p req peer (verified_auth core hub p l) l
