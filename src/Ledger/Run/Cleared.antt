-- ===== src/Ledger/Run/Cleared.antt =====
-- Repeats of a peer's receipt, in every run after it was cleared (internal/aghub/facilitator.go
-- ClearFromPeer, janitor.go PruneLedger).
use anet_hub.Prelude.{ℕ, ◌≤◌, ◌≡◌, refl, ap, ◌∙◌, inl, inr, false, Option, none, some, List, arith}
use anet_hub.Prelude.Int.{ℤ}
use anet_hub.Prelude.Table.{contains}
use anet_hub.Ledger.State.{ok, Authorization, EntryReason, Receipt, Ledger}
use anet_hub.Ledger.Core.{Core, SignedEvent}
use anet_hub.Ledger.Issue.{unix_milli, grant_credit, issue_tx, credit_tx, issuer_side}
use anet_hub.Ledger.Settle.{move_credit, owe_peer, settle_auth}
use anet_hub.Ledger.Settle.Outcomes.{settle_auth-cases, settle_tx-committed}
use anet_hub.Ledger.Clear.{cleared_row, clear_from_peer, discharge_due, settle_owed, reduce_owed}
use anet_hub.Ledger.Clear.Keeps.{clear_amount-ok, clear_from_peer-ok}
use anet_hub.Ledger.Clear.Once.{
  IsClosed, on_record, too_old, clear_tx-row, clear_from_peer-keeps, prune-IsClosed, later-IsClosed,
  IsClosed-refuses,
}
use anet_hub.Ledger.Payment.{Payload, Requirements, Check, Vetted, verified_auth}
use anet_hub.Ledger.Facilitator.{
  key_at_first_verify, settle_current, settle_vetted, settle_with_requirements, settle_for_peer,
}
use anet_hub.Ledger.Facilitator.Doors.{
  OnlyFirstVerify, key_at_first_verify_frame, settle_vetted-cases,
}
use anet_hub.Ledger.Redeem.{Reference, redeem}
use anet_hub.Ledger.Redeem.Keeps.{unbound, redeem_current_frame, redeem-cases}
use anet_hub.Ledger.Verify.Frame.{verify_with_requirements_frame}
use anet_hub.Ledger.Peers.Keeps.{stays, clears, settle_through_peers-cases}
use anet_hub.Ledger.Run.{
  Step, settle, fed_settle, entry_settle, verify, publish, redeem_credit, clear, grant, discharge,
  fed_clear, janitor, Run, here, next,
}

-- The rows of cleared receipts are the same.
abbrev SameCleared : Ledger → Ledger → Type 0
SameCleared l l' = l'.cleared ≡ l.cleared

move_credit-SameCleared :
    (hub now : ℕ) (auth : Authorization) (id via amt : ℕ) (l l' : Ledger)
    → move_credit hub now auth id via amt l ≡ ok l'
    → SameCleared l l'
unfolding move_credit owe_peer
move_credit-SameCleared hub now auth id via amt l l' e = ground arith

settle_auth-SameCleared :
    (core : Core) (hub now : ℕ) (auth : Authorization) (id via : ℕ) (l : Ledger)
    → SameCleared l (settle_auth core hub now auth id via l).1
settle_auth-SameCleared core hub now auth id via l =
    elim (settle_auth-cases core hub now auth id via l) [
      | inl c ↦
          let (_, _, _, moved) =
            settle_tx-committed hub now auth id via c.amt c.receipt c.guard l c.result c.tables in
          rw c.answers (move_credit-SameCleared hub now auth id via c.amt _ c.result moved)
      | inr k ↦ rw k.same refl
    ]

settle_current-SameCleared :
    (core : Core) (hub now : ℕ) (auth : Authorization) (id via : ℕ) (c : Check × Ledger)
    (l : Ledger)
    → OnlyFirstVerify l c.1
    → SameCleared l (settle_current core hub now auth id via c).1
unfolding settle_current
settle_current-SameCleared core hub now auth id via (some r, l') l f =
    ap (λ (x : Ledger). x.cleared) f
settle_current-SameCleared core hub now auth id via (none, l') l f =
    settle_auth-SameCleared core hub now auth id via l' ∙ ap (λ (x : Ledger). x.cleared) f

settle_vetted-SameCleared :
    (core : Core) (hub now : ℕ) (p : Payload) (req : Requirements) (via : ℕ) (v : Vetted)
    (l : Ledger)
    → SameCleared l (settle_vetted core hub now p req via v l).1
settle_vetted-SameCleared core hub now p req via v l =
    elim (settle_vetted-cases core hub now p req via v l) [
      | inl same ↦ rw same refl
      | inr (auth, id, kel, _, e) ↦ rw e (
          settle_current-SameCleared core hub now auth id via
            (key_at_first_verify core auth id kel (unix_milli now) l) l
            (key_at_first_verify_frame core auth id kel (unix_milli now) l))
    ]

settle_with_requirements-SameCleared :
    (core : Core) (hub now : ℕ) (p : Option Payload) (req : Option Requirements) (l : Ledger)
    → SameCleared l (settle_with_requirements core none hub now p req l).1
unfolding settle_with_requirements
settle_with_requirements-SameCleared core hub now p none l = refl
settle_with_requirements-SameCleared core hub now none (some req) l = refl
settle_with_requirements-SameCleared core hub now (some p) (some req) l =
    ground (arith, settle_vetted-SameCleared core hub now p req 0 (verified_auth core hub p l) l)

settle_for_peer-SameCleared :
    (core : Core) (hub now peer : ℕ) (p : Option Payload) (req : Option Requirements) (l : Ledger)
    → SameCleared l (settle_for_peer core hub now peer p req l).1
unfolding settle_for_peer
settle_for_peer-SameCleared core hub now peer p none l = refl
settle_for_peer-SameCleared core hub now peer none (some req) l = refl
settle_for_peer-SameCleared core hub now peer (some p) (some req) l =
    ground (arith, settle_vetted-SameCleared core hub now p req peer (verified_auth core hub p l) l)

redeem-SameCleared :
    (core : Core) (hub now : ℕ) (p : Option Payload) (reference : Reference) (l : Ledger)
    → SameCleared l (redeem core hub now p reference l).1
unfolding redeem
redeem-SameCleared core hub now none reference l = refl
redeem-SameCleared core hub now (some p) reference l =
    elim (redeem-cases core hub now p reference l) [
      | inl same ↦ rw same refl
      | inr r ↦
          let c = key_at_first_verify core r.auth r.id r.kel (unix_milli now) l in
          rw r.ends (
            ap (λ (x : Ledger). x.cleared)
              (redeem_current_frame core hub now r.auth r.id r.amt reference c)
            ∙ settle_current-SameCleared core hub now (unbound r.auth) r.id 0 c l
                (key_at_first_verify_frame core r.auth r.id r.kel (unix_milli now) l))
    ]

grant_credit-SameCleared :
    (hub aid now : ℕ) (amount : ℤ) (why : EntryReason) (l l' : Ledger)
    → grant_credit hub aid amount why now l ≡ ok l'
    → SameCleared l l'
unfolding grant_credit issue_tx credit_tx issuer_side
grant_credit-SameCleared hub aid now amount why l l' e = ground arith

discharge_due-SameCleared :
    (peer : ℕ) (amount : ℤ) (l l' : Ledger) → discharge_due peer amount l ≡ ok l' → SameCleared l l'
unfolding discharge_due
discharge_due-SameCleared peer amount l l' e = ground arith

settle_owed-SameCleared :
    (core : Core) (hub peer : ℕ) (kel : List SignedEvent) (rec : Option Receipt) (l l' : Ledger)
    → settle_owed core hub peer kel rec l ≡ ok l'
    → SameCleared l l'
unfolding settle_owed reduce_owed
settle_owed-SameCleared core hub peer kel rec l l' e = ground arith

same-IsClosed :
    (id : ℕ) (at : ℤ) (now : ℕ) (l l' : Ledger)
    → SameCleared l l'
    → IsClosed id at now l
    → IsClosed id at now l'
same-IsClosed id at now l l' same (on_record row h e) = on_record row (rw same h) e
same-IsClosed id at now l l' same (too_old e) = too_old e

clear-IsClosed :
    (core : Core) (skew hub now peer : ℕ) (kel : List SignedEvent) (rec : Option Receipt) (id : ℕ)
    (at : ℤ) (l l' : Ledger)
    → clear_from_peer core skew hub now peer kel rec l ≡ ok l'
    → IsClosed id at now l
    → IsClosed id at now l'
clear-IsClosed core skew hub now peer kel rec id at l l' done (on_record row h e) =
    on_record row (clear_from_peer-keeps core skew hub now peer kel rec id row l l' done h) e
clear-IsClosed core skew hub now peer kel rec id at l l' done (too_old e) = too_old e

-- A closed receipt stays closed under every operation.
Step-IsClosed :
    (core : Core) (skew hub now id : ℕ) (at : ℤ) (l l' : Ledger)
    → Step core skew hub now l l'
    → IsClosed id at now l
    → IsClosed id at now l'
Step-IsClosed core skew hub now id at l l' (settle p req e) s =
    same-IsClosed id at now l l' (rw e (settle_with_requirements-SameCleared core hub now p req l))
      s
Step-IsClosed core skew hub now id at l l' (fed_settle peer p req e) s =
    same-IsClosed id at now l l' (rw e (settle_for_peer-SameCleared core hub now peer p req l)) s
Step-IsClosed core skew hub now id at l l' (entry_settle calls rs get refresh p req e) s =
    elim (settle_through_peers-cases core calls rs get refresh skew hub now p req l l' e) [
      | inl (stays same) ↦ same-IsClosed id at now l l' (ap (λ (x : Ledger). x.cleared) same) s
      | inl (clears peer kel rec done) ↦
          clear-IsClosed core skew hub now peer kel (some rec) id at l l' done s
      | inr (q, r, same) ↦
          same-IsClosed id at now l l'
            (rw same (settle_vetted-SameCleared core hub now q r 0 (verified_auth core hub q l) l))
            s
    ]
Step-IsClosed core skew hub now id at l l' (verify p req e) s =
    same-IsClosed id at now l l'
      (rw e (ap (λ (x : Ledger). x.cleared) (verify_with_requirements_frame core hub now p req l)))
      s
Step-IsClosed core skew hub now id at l l' (publish rec p p' e t w same) s =
    same-IsClosed id at now l l' (ap (λ (x : Ledger). x.cleared) same) s
Step-IsClosed core skew hub now id at l l' (redeem_credit p reference e) s =
    same-IsClosed id at now l l' (rw e (redeem-SameCleared core hub now p reference l)) s
Step-IsClosed core skew hub now id at l l' (clear peer kel rec e) s =
    clear-IsClosed core skew hub now peer kel rec id at l l' e s
Step-IsClosed core skew hub now id at l l' (grant aid amount why away e) s =
    same-IsClosed id at now l l' (grant_credit-SameCleared hub aid now amount why l l' e) s
Step-IsClosed core skew hub now id at l l' (discharge peer amount e) s =
    same-IsClosed id at now l l' (discharge_due-SameCleared peer amount l l' e) s
Step-IsClosed core skew hub now id at l l' (fed_clear peer kel rec e) s =
    same-IsClosed id at now l l' (settle_owed-SameCleared core hub peer kel rec l l' e) s
Step-IsClosed core skew hub now id at l l' (janitor e) s = rw e (prune-IsClosed id at now l s)

Run-IsClosed :
    (core : Core) (skew hub t₀ id : ℕ) (at : ℤ) (start : Ledger) {t : ℕ} {l : Ledger}
    → IsClosed id at t₀ start
    → Run core skew hub t₀ start t l
    → IsClosed id at t l
Run-IsClosed core skew hub t₀ id at start s here = s
Run-IsClosed core skew hub t₀ id at start s (next {t} {l = m} t' l' r le st) =
    Step-IsClosed core skew hub t' id at m l' st
      (later-IsClosed id at t t' m le (Run-IsClosed core skew hub t₀ id at start s r))

-- A peer's receipt is cleared at most once: after it was cleared here as new, in every run of the
-- ledger, by any operations at clocks that do not step back, none and any number of the janitor's
-- runs included, the same receipt taken again, from whatever peer and key history, leaves every
-- table as it is.
pub clear_from_peer_once :
    (core : Core) (skew hub t₀ peer peer' : ℕ) (kel kel' : List SignedEvent) (rec : Receipt)
    (l₀ l₁ : Ledger) {t : ℕ} {l : Ledger} (now : ℕ) (l' : Ledger)
    → contains rec.auth_id l₀.cleared ≡ false
    → clear_from_peer core skew hub t₀ peer kel (some rec) l₀ ≡ ok l₁
    → Run core skew hub t₀ l₁ t l
    → t ≤ now
    → clear_from_peer core skew hub now peer' kel' (some rec) l ≡ ok l'
    → l' ≡ l
clear_from_peer_once core skew hub t₀ peer peer' kel kel' rec l₀ l₁ {t} {l} now l' new e r le
      again =
    let (amt, _, cleared) = clear_from_peer-ok core skew hub t₀ peer kel rec l₀ l₁ e in
    elim (clear_amount-ok core skew hub t₀ peer kel rec amt l₀ l₁ cleared) [
      | inl (old, _) ↦ absurd (ground arith)
      | inr (_, _, done) ↦
          IsClosed-refuses core skew hub now peer' kel' rec l l' t
            (Run-IsClosed core skew hub t₀ rec.auth_id rec.settle_at l₁
              (on_record (cleared_row peer amt t₀ rec) (clear_tx-row hub t₀ peer rec amt l₀ l₁ done)
                refl)
              r)
            le again
    ]
