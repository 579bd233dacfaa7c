-- ===== src/Ledger/Peers.antt =====
-- internal/aghub/facilitator.go ClearPeerSettlement with its answers, and cmd/anet-hub/
-- wire_federation.go peerSettler: a payment on the ledger of a peer hub, settled there and cleared here.
-- The network requests, JSON, base64 and the receipt's encoding are parameters.
pub mod Clears
pub mod Keeps
mod Tests
use anet_hub.Prelude.{
  ℕ, Bool, false, Option, none, some, List, ◌==◌, ◌||◌, not, ltb, length, if◌then◌else◌,
}
use anet_hub.Ledger.State.{
  Reason, malformed, invalid_requirements, invalid_amount, payee_mismatch, settlement_failed,
  settlement_pending, receipt_too_old, Result, ok, err, Authorization, Receipt, Ledger, Response,
}
use anet_hub.Ledger.Core.{Core, SignedEvent}
use anet_hub.Ledger.Rows.{amount_int64}
use anet_hub.Ledger.Settle.{refused_settlement}
use anet_hub.Ledger.Clear.{clear_from_peer}
use anet_hub.Ledger.Payment.{Payload, Requirements, refuse_if, ◌then_check◌, Check}
use anet_hub.Ledger.Facilitator.{PeerSettler}

-- What the hub reads a peer's receipt with: base64, then UnmarshalReceipt; receiptSeq of it.
pub record Receipts : Type 0 where
  pub from_base64 : ℕ → Option ℕ
  pub unmarshal : ℕ → Option Receipt
  pub seq : Receipt → ℕ

-- peerKELFor: the pinned history `get`, and where it does not reach the key state, the one that
-- `refresh` fetches. An error is `none`.
unfoldable pub peer_kel_for :
    (ℕ → Option (List SignedEvent))
    → Option (ℕ → Option (List SignedEvent))
    → ℕ
    → ℕ
    → Option (List SignedEvent)
peer_kel_for get refresh aid seq =
    let reaches : Bool = elim (get aid) [ none ↦ false | some kel ↦ ltb seq (length kel) ] in
    if reaches then get aid else elim refresh [
      | none ↦ get aid
      | some fetch ↦ elim (fetch aid) [ none ↦ get aid | some fresh ↦ some fresh ]
    ]

-- SettlementPending: the peer's receipt is kept.
unfoldable pub settlement_unknown : Core → Authorization → ℕ → Option Response → Response
settlement_unknown core auth network none =
    refused_settlement core settlement_pending (some auth) network
settlement_unknown core auth network (some peer) =
    record (refused_settlement core settlement_pending (some auth) network) {
      receipt = peer.receipt;
    }

-- withReceipt
unfoldable pub with_receipt : Core → Reason → Authorization → ℕ → Response → Response
with_receipt core r auth network out = record (refused_settlement core r (some auth) network) {
  receipt = out.receipt;
}

-- The receipt against what was forwarded.
unfoldable pub check_receipt : Core → Receipt → Authorization → Requirements → Check
check_receipt core rec auth req = elim (core.auth_id auth) [
  | none ↦ some malformed
  | some id ↦ elim (core.parse_amount req.amount) [
    | none ↦ some invalid_requirements
    | some want ↦ elim (amount_int64 rec.amount) [
      | none ↦ some invalid_amount
      | some _ ↦
          refuse_if
            (not (rec.auth_id == id)
              || not (rec.payer == auth.payer)
              || not (rec.network == req.network))
            settlement_failed
          then_check refuse_if (not (rec.pay_to == req.pay_to)) payee_mismatch
          then_check refuse_if (ltb rec.amount want) invalid_amount
          then_check refuse_if (not (rec.amount == auth.amount)) invalid_amount
    ]
  ]
]

-- Once ClearFromPeer has answered.
unfoldable pub after_clear :
    Core → Authorization → ℕ → Response → Ledger → Result Ledger → Response × Ledger
after_clear core auth network out l (ok l') = (out, l')
after_clear core auth network out l (err receipt_too_old) =
    (with_receipt core settlement_failed auth network out, l)
after_clear core auth network out l (err _) = (settlement_unknown core auth network (some out), l)

-- From the receipt on.
unfoldable pub clear_receipt :
    Core
    → (Receipt → Option (List SignedEvent))
    → ℕ
    → ℕ
    → ℕ
    → ℕ
    → Response
    → Authorization
    → Requirements
    → Receipt
    → Ledger
    → Response × Ledger
clear_receipt core kel_for max_skew hub now peer out auth req rec l =
    elim (check_receipt core rec auth req) [
      | some r ↦ (with_receipt core r auth req.network out, l)
      | none ↦ elim (kel_for rec) [
        | none ↦ (settlement_unknown core auth req.network (some out), l)
        | some kel ↦
            after_clear core auth req.network out l
              (clear_from_peer core max_skew hub now peer kel (some rec) l)
      ]
    ]

-- The receipt that an answer carries.
abbrev pub carried_text : Option ℕ → ℕ
carried_text none = 0
carried_text (some b64) = b64

unfoldable pub receipt_in : Receipts → Response → Option Receipt
receipt_in rs out =
    let b64 = carried_text out.receipt in
    if b64 == 0
    then none
    else elim (rs.from_base64 b64) [ none ↦ none | some raw ↦ rs.unmarshal raw ]

unfoldable pub clear_peer_settlement :
    Core
    → Receipts
    → (Receipt → Option (List SignedEvent))
    → ℕ
    → ℕ
    → ℕ
    → ℕ
    → Response
    → Authorization
    → Requirements
    → Ledger
    → Response × Ledger
clear_peer_settlement core rs kel_for max_skew hub now peer out auth req l =
    elim (receipt_in rs out) [
      | none ↦ (with_receipt core settlement_failed auth req.network out, l)
      | some rec ↦ clear_receipt core kel_for max_skew hub now peer out auth req rec l
    ]

pub record Reply : Type 0 where
  pub status : ℕ
  pub body : ℕ
  pub from : ℕ

-- What peerSettler calls: the peer that a network names where it is in PeerAIDs, the encoded body,
-- SettleAtPeer's status, body and peer, whether the body is a refusal of notSettledReasons, and the
-- decoded answer.
pub record PeerCalls : Type 0 where
  pub peer_of : ℕ → Option ℕ
  pub encode : Payload → Requirements → Option ℕ
  pub settle_at : ℕ → ℕ → Option Reply
  pub not_settled : ℕ → Bool
  pub decode : ℕ → Option Response

abbrev pub status_ok : ℕ
status_ok = 200

-- The answer where nothing was sent.
abbrev pub not_encoded : Authorization → ℕ → Response
not_encoded auth network = record {
  success = false;
  reason = some settlement_failed;
  payer = auth.payer;
  transaction = 0;
  network = network;
  amount = 0;
  replayed = false;
  receipt = none;
  original = none;
}

-- A decoded answer with 200.
unfoldable pub on_answer :
    Core
    → (Response → Ledger → Response × Ledger)
    → Authorization
    → ℕ
    → Option Response
    → Ledger
    → Response × Ledger
on_answer core clear auth network none l = (settlement_unknown core auth network none, l)
on_answer core clear auth network (some out) l =
    if out.success then clear out l else elim out.reason [
      | none ↦ (settlement_unknown core auth network none, l)
      | some r ↦ (out, l)
    ]

-- peerSettler, with SettlementRefusedByPeer.
unfoldable pub peer_settler :
    Core
    → PeerCalls
    → Receipts
    → (ℕ → Option (List SignedEvent))
    → Option (ℕ → Option (List SignedEvent))
    → ℕ
    → ℕ
    → ℕ
    → PeerSettler
peer_settler core calls rs get refresh max_skew hub now p req auth l =
    elim (calls.peer_of p.network) [
      | none ↦ none
      | some _ ↦ elim (calls.encode p req) [
        | none ↦ some (not_encoded auth p.network, l)
        | some body ↦ elim (calls.settle_at p.network body) [
          | none ↦ some (settlement_unknown core auth p.network none, l)
          | some reply ↦
              if reply.status == status_ok
              then some (
                  on_answer core
                    (λ out l'.
                      clear_peer_settlement core rs
                        (λ rec. peer_kel_for get refresh reply.from (rs.seq rec)) max_skew hub now
                        reply.from out auth req l')
                    auth p.network (calls.decode reply.body) l)
              else if calls.not_settled reply.body
              then some (refused_settlement core settlement_failed (some auth) p.network, l)
              else some (settlement_unknown core auth p.network none, l)
        ]
      ]
    ]
