-- ===== src/Ledger/Peers/Keeps.antt =====
-- Forwarded settlements and the invariant (internal/aghub/facilitator.go SettleWithRequirements and
-- ClearPeerSettlement, cmd/anet-hub/wire_federation.go peerSettler).
use anet_hub.Prelude.{
  ℕ, ◌≡◌, ◌≢◌, refl, sym, ◌∙◌, ◌⊎◌, inl, inr, Option, none, some, List, ◌==◌, arith, Bool-cases,
  Option-cases,
}
use anet_hub.Prelude.Table.{contains}
use anet_hub.Ledger.State.{ok, Reason, settlement_failed, Authorization, Receipt, Ledger, Response}
use anet_hub.Ledger.Core.{Core, SignedEvent}
use anet_hub.Ledger.Sound.{IsSound}
use anet_hub.Ledger.Settle.{refused_settlement}
use anet_hub.Ledger.Clear.{clear_from_peer}
use anet_hub.Ledger.Clear.Keeps.{clear_from_peer-IsSound}
use anet_hub.Ledger.Payment.{
  Payload, Requirements, check_requirements, Parsed, parsed, unparsed, parse_auth, verified_auth,
}
use anet_hub.Ledger.Facilitator.{
  PeerSettler, payee_is_this_hub, forward, forwarded, settle_vetted, settle_with_requirements,
}
use anet_hub.Ledger.Facilitator.Keeps.{settle_vetted-IsSound}
use anet_hub.Ledger.Peers.{
  Receipts, PeerCalls, status_ok, settlement_unknown, not_encoded, on_answer, clear_peer_settlement,
  peer_settler, peer_kel_for,
}
use anet_hub.Ledger.Peers.Clears.{clear_peer_settlement-cases}

-- What an answer of a peer leaves: the ledger as it was, or a receipt of a peer cleared.
pub data Moves (core : Core) (skew hub now : ℕ) (l l' : Ledger) : Type 0 where
  stays : l' ≡ l → Moves core skew hub now l l'
  clears :
      (peer : ℕ) (kel : List SignedEvent) (rec : Receipt)
      → clear_from_peer core skew hub now peer kel (some rec) l ≡ ok l'
      → Moves core skew hub now l l'

clear_peer_settlement-Moves :
    (core : Core) (rs : Receipts) (kel_for : Receipt → Option (List SignedEvent))
    (skew hub now peer : ℕ) (out : Response) (auth : Authorization) (req : Requirements)
    (l : Ledger)
    → Moves core skew hub now l
        (clear_peer_settlement core rs kel_for skew hub now peer out auth req l).1
clear_peer_settlement-Moves core rs kel_for skew hub now peer out auth req l =
    elim (clear_peer_settlement-cases core rs kel_for skew hub now peer out auth req l) [
      | inl same ↦ stays same
      | inr (l', c, done) ↦ rw done (clears peer c.kel c.rec c.cleared)
    ]

on_answer-Moves :
    (core : Core) (clear : Response → Ledger → Response × Ledger) (skew hub now : ℕ)
    (auth : Authorization) (network : ℕ) (a : Option Response) (l : Ledger)
    → ((out : Response) → Moves core skew hub now l (clear out l).1)
    → Moves core skew hub now l (on_answer core clear auth network a l).1
unfolding on_answer
on_answer-Moves core clear skew hub now auth network none l h = stays refl
on_answer-Moves core clear skew hub now auth network (some out) l h =
    elim (Bool-cases out.success) [
      | inl went ↦
          let e : (on_answer core clear auth network (some out) l).1 ≡ (clear out l).1 =
            ground (arith, went) in
          rw e (h out)
      | inr failed ↦ stays (ground (arith, failed))
    ]

-- A settler whose answers change the ledger in that way alone.
abbrev pub OnlyMoves : Core → ℕ → ℕ → ℕ → PeerSettler → Type 0
OnlyMoves core skew hub now settler =
    (p : Payload) (req : Requirements) (auth : Authorization) (l : Ledger) (x : Response × Ledger)
    → settler p req auth l ≡ some x
    → Moves core skew hub now l x.1

peer_settler-OnlyMoves :
    (core : Core) (calls : PeerCalls) (rs : Receipts) (get : ℕ → Option (List SignedEvent))
    (refresh : Option (ℕ → Option (List SignedEvent))) (skew hub now : ℕ)
    → OnlyMoves core skew hub now (peer_settler core calls rs get refresh skew hub now)
unfolding peer_settler
peer_settler-OnlyMoves core calls rs get refresh skew hub now p req auth l x e =
    elim (Option-cases (calls.peer_of p.network)) [
      | inl q ↦
          let h : peer_settler core calls rs get refresh skew hub now p req auth l ≡ none =
            rw (q, peer_settler) refl in
          absurd cc
      | inr (peer, named) ↦ elim (Option-cases (calls.encode p req)) [
        | inl q ↦
            let h : peer_settler core calls rs get refresh skew hub now p req auth l
                ≡ some (not_encoded auth p.network, l) =
              rw (named, q, peer_settler) refl in
            let hx : x ≡ (not_encoded auth p.network, l) = cc in rw hx (stays refl)
        | inr (body, coded) ↦ elim (Option-cases (calls.settle_at p.network body)) [
          | inl q ↦
              let h : peer_settler core calls rs get refresh skew hub now p req auth l
                  ≡ some (settlement_unknown core auth p.network none, l) =
                rw (named, coded, q, peer_settler) refl in
              let hx : x ≡ (settlement_unknown core auth p.network none, l) = cc in
              rw hx (stays refl)
          | inr (reply, q) ↦
              let clear : Response → Ledger → Response × Ledger = λ out l'.
                clear_peer_settlement core rs
                  (λ rec. peer_kel_for get refresh reply.from (rs.seq rec)) skew hub now reply.from
                  out auth req l' in
              elim (Bool-cases (reply.status == status_ok)) [
                | inl fine ↦
                    let h : peer_settler core calls rs get refresh skew hub now p req auth l
                        ≡ some (on_answer core clear auth p.network (calls.decode reply.body) l) =
                      rw (named, coded, q, fine, peer_settler) refl in
                    let hx : x ≡ on_answer core clear auth p.network (calls.decode reply.body) l =
                      cc in
                    rw hx (
                      on_answer-Moves core clear skew hub now auth p.network
                        (calls.decode reply.body) l
                        (λ out.
                          clear_peer_settlement-Moves core rs
                            (λ rec. peer_kel_for get refresh reply.from (rs.seq rec)) skew hub now
                            reply.from out auth req l))
                | inr other ↦ elim (Bool-cases (calls.not_settled reply.body)) [
                  | inl never ↦
                      let h : peer_settler core calls rs get refresh skew hub now p req auth l
                          ≡ some
                              (refused_settlement core settlement_failed (some auth) p.network, l) =
                        rw (named, coded, q, other, never, peer_settler) refl in
                      let hx : x
                          ≡ (refused_settlement core settlement_failed (some auth) p.network, l) =
                        cc in
                      rw hx (stays refl)
                  | inr maybe ↦
                      let h : peer_settler core calls rs get refresh skew hub now p req auth l
                          ≡ some (settlement_unknown core auth p.network none, l) =
                        rw (named, coded, q, other, maybe, peer_settler) refl in
                      let hx : x ≡ (settlement_unknown core auth p.network none, l) = cc in
                      rw hx (stays refl)
                ]
              ]
        ]
      ]
    ]

Parsed-cases :
    (v : Parsed)
    → ((a : Option Authorization) × (r : Reason) × (v ≡ unparsed a r))
      ⊎ ((auth : Authorization) × (v ≡ parsed auth))
Parsed-cases (unparsed a r) = inl (a, r, refl)
Parsed-cases (parsed auth) = inr (auth, refl)

forwarded-Moves :
    (core : Core) (skew hub now : ℕ) (settler : PeerSettler) (p : Payload) (req : Requirements)
    (l : Ledger) (x : Response × Ledger)
    → OnlyMoves core skew hub now settler
    → forwarded core hub (some settler) p req l ≡ some x
    → Moves core skew hub now l x.1
unfolding forward
forwarded-Moves core skew hub now settler p req l x keeps e =
    elim (Bool-cases (p.network == core.credit_network hub)) [
      | inl own ↦
          let h : forwarded core hub (some settler) p req l ≡ none = rw own refl in absurd cc
      | inr other ↦ elim (Parsed-cases (parse_auth core p)) [
        | inl (a, r, q) ↦
            let h : forwarded core hub (some settler) p req l
                ≡ some (refused_settlement core r a p.network, l) =
              rw (other, q, forward) refl in
            let hx : x ≡ (refused_settlement core r a p.network, l) = cc in rw hx (stays refl)
        | inr (auth, q) ↦ elim (Option-cases (check_requirements core p auth req)) [
          | inr (r, refused) ↦
              let h : forwarded core hub (some settler) p req l
                  ≡ some (refused_settlement core r (some auth) p.network, l) =
                rw (other, q, refused, forward) refl in
              let hx : x ≡ (refused_settlement core r (some auth) p.network, l) = cc in
              rw hx (stays refl)
          | inl fine ↦
              let h : forwarded core hub (some settler) p req l ≡ settler p req auth l =
                rw (other, q, fine, forward) refl in
              keeps p req auth l x (sym h ∙ e)
        ]
      ]
    ]

-- A settlement with payments forwarded ends as an answer of a peer does, or here.
pub settle_through_peers-cases :
    (core : Core) (calls : PeerCalls) (rs : Receipts) (get : ℕ → Option (List SignedEvent))
    (refresh : Option (ℕ → Option (List SignedEvent))) (skew hub now : ℕ) (p : Option Payload)
    (req : Option Requirements) (l l' : Ledger)
    → l'
      ≡ (settle_with_requirements core
          (some (peer_settler core calls rs get refresh skew hub now))
          hub
          now
          p
          req
          l).1
    → Moves core skew hub now l l'
      ⊎ ((q : Payload) × (r : Requirements) × (l'
            ≡ (settle_vetted core hub now q r 0 (verified_auth core hub q l) l).1))
unfolding settle_with_requirements
settle_through_peers-cases core calls rs get refresh skew hub now p none l l' e = inl (stays e)
settle_through_peers-cases core calls rs get refresh skew hub now none (some req) l l' e =
    inl (stays e)
settle_through_peers-cases core calls rs get refresh skew hub now (some p) (some req) l l' e =
    let settler = peer_settler core calls rs get refresh skew hub now in
    elim (Bool-cases (payee_is_this_hub hub req.pay_to)) [
      | inl own ↦ inl (stays (e ∙ rw own refl))
      | inr away ↦ elim (Bool-cases (contains req.pay_to l.agents)) [
        | inr out ↦ inl (stays (e ∙ rw (away, out) refl))
        | inl banks ↦ elim (Option-cases (forwarded core hub (some settler) p req l)) [
          | inr (x, q) ↦
              let same : l' ≡ x.1 = e ∙ rw (away, banks, q) refl in
              inl (
                rw same (
                  forwarded-Moves core skew hub now settler p req l x
                    (peer_settler-OnlyMoves core calls rs get refresh skew hub now) q))
          | inl q ↦ inr (p, req, e ∙ rw (away, banks, q) refl)
        ]
      ]
    ]

pub Moves-IsSound :
    (core : Core) (skew hub now : ℕ) (l l' : Ledger)
    → hub ≢ 0
    → IsSound hub l
    → Moves core skew hub now l l'
    → IsSound hub l'
Moves-IsSound core skew hub now l l' set s (stays e) = rw e s
Moves-IsSound core skew hub now l l' set s (clears peer kel rec e) =
    clear_from_peer-IsSound core skew hub now peer kel (some rec) l l' set s e

-- /x402/settle keeps a sound ledger sound where it forwards the payments on another ledger through
-- peerSettler, whatever the peer hubs answer. The hub has an identity.
pub settle_through_peers-IsSound :
    (core : Core) (calls : PeerCalls) (rs : Receipts) (get : ℕ → Option (List SignedEvent))
    (refresh : Option (ℕ → Option (List SignedEvent))) (skew hub now : ℕ) (p : Option Payload)
    (req : Option Requirements) (l : Ledger)
    → hub ≢ 0
    → IsSound hub l
    → IsSound hub
        (settle_with_requirements core
          (some (peer_settler core calls rs get refresh skew hub now))
          hub
          now
          p
          req
          l).1
settle_through_peers-IsSound core calls rs get refresh skew hub now p req l set s =
    elim (settle_through_peers-cases core calls rs get refresh skew hub now p req l _ refl) [
      | inl moves ↦ Moves-IsSound core skew hub now l _ set s moves
      | inr (q, r, e) ↦
          rw e (settle_vetted-IsSound core hub now q r 0 (verified_auth core hub q l) l s)
    ]
