-- ===== src/Ledger/Run/Laws.antt =====
-- What holds in every run of the ledger.
use anet_hub.Prelude.{
  ℕ, ◌≤◌, ◌≡◌, ◌≢◌, refl, ap, ◌∙◌, ◌⊎◌, inl, inr, true, false, Option, none, some, List, arith,
}
use anet_hub.Prelude.Int.{ℤ, ltb_ℤ}
use anet_hub.Prelude.Table.{lookup}
use anet_hub.Ledger.State.{Authorization, SettledRow, Ledger}
use anet_hub.Ledger.Core.{Core, SignedEvent}
use anet_hub.Ledger.Issue.{unix_milli}
use anet_hub.Ledger.Sound.{IsSound}
use anet_hub.Ledger.Clear.Keeps.{
  clear_from_peer-IsSound, discharge_due-IsSound, settle_owed-IsSound,
}
use anet_hub.Ledger.Issue.Keeps.{grant_credit-IsSound}
use anet_hub.Ledger.Settle.{settle_auth}
use anet_hub.Ledger.Settle.Outcomes.{settle_auth-cases}
use anet_hub.Ledger.Settle.Once.{Commits-row}
use anet_hub.Ledger.Payment.{Payload, Requirements, vetted, verified_auth}
use anet_hub.Ledger.Facilitator.{key_at_first_verify, settle_vetted}
use anet_hub.Ledger.Facilitator.Doors.{OnlyFirstVerify, RefusesExpired, key_at_first_verify_frame}
use anet_hub.Ledger.Facilitator.Keeps.{
  settle_with_requirements-IsSound, settle_for_peer-IsSound, OnlyFirstVerify-IsSound,
}
use anet_hub.Ledger.Facilitator.Spent.{IsSpent, settled, expired, FixesWindow, settle_vetted_spent}
use anet_hub.Ledger.Redeem.{Reference, redeem}
use anet_hub.Ledger.Redeem.Keeps.{unbound, redeem_current_frame, redeem-cases, redeem-IsSound}
use anet_hub.Ledger.Verify.Frame.{verify_with_requirements_frame}
use anet_hub.Ledger.Peers.Keeps.{settle_through_peers-IsSound}
use anet_hub.Ledger.Janitor.{settled_past}
use anet_hub.Ledger.Epochs.Publication.{publish_due-IsSound}
use anet_hub.Ledger.Run.{
  Step, settle, fed_settle, entry_settle, verify, publish, redeem_credit, clear, grant, discharge,
  fed_clear, janitor, Run, here, next,
}
use anet_hub.Ledger.Run.Rows.{
  KeepsRow, settle_current-KeepsRow, settle_with_requirements-KeepsRow, settle_for_peer-KeepsRow,
  prune_ledger-KeepsRow, settled_past-late, prune_ledger-IsSound, grant_credit-KeepsRow,
  clear_from_peer-KeepsRow, discharge_due-KeepsRow, settle_owed-KeepsRow,
  settle_through_peers-KeepsRow,
}

Step-IsSound :
    (core : Core) (skew hub now : ℕ) (l l' : Ledger)
    → hub ≢ 0
    → Step core skew hub now l l'
    → IsSound hub l
    → IsSound hub l'
Step-IsSound core skew hub now l l' set (settle p req e) s =
    rw e (settle_with_requirements-IsSound core hub now p req l s)
Step-IsSound core skew hub now l l' set (fed_settle peer p req e) s =
    rw e (settle_for_peer-IsSound core hub now peer p req l s)
Step-IsSound core skew hub now l l' set (entry_settle calls rs get refresh p req e) s =
    rw e (settle_through_peers-IsSound core calls rs get refresh skew hub now p req l set s)
Step-IsSound core skew hub now l l' set (verify p req e) s =
    rw e (OnlyFirstVerify-IsSound hub l _ (verify_with_requirements_frame core hub now p req l) s)
Step-IsSound core skew hub now l l' set (publish rec p p' e k w same) s =
    rw same (publish_due-IsSound rec hub now l p e k p' w s)
Step-IsSound core skew hub now l l' set (redeem_credit p reference e) s =
    rw e (redeem-IsSound core hub now p reference l s)
Step-IsSound core skew hub now l l' set (clear peer kel rec e) s =
    clear_from_peer-IsSound core skew hub now peer kel rec l l' set s e
Step-IsSound core skew hub now l l' set (grant aid amount why away e) s =
    grant_credit-IsSound hub aid now amount why l l' set away s e
Step-IsSound core skew hub now l l' set (discharge peer amount e) s =
    discharge_due-IsSound hub peer amount l l' s e
Step-IsSound core skew hub now l l' set (fed_clear peer kel rec e) s =
    settle_owed-IsSound core hub peer kel rec l l' s e
Step-IsSound core skew hub now l l' set (janitor e) s = rw e (prune_ledger-IsSound hub now l s)

-- On a hub with an identity, in every run from a sound ledger, by any operations with any arguments but
-- a grant to the hub's own row, whatever its peers answer, the accounts hold what was issued and not
-- redeemed, the hub's row holds the negative of it, no account is below zero, what was
-- issued fits an int64, and what the hub owes its peers is no more than what was redeemed.
pub Run-IsSound :
    (core : Core) (skew hub t₀ : ℕ) (start : Ledger) {t : ℕ} {l : Ledger}
    → hub ≢ 0
    → IsSound hub start
    → Run core skew hub t₀ start t l
    → IsSound hub l
Run-IsSound core skew hub t₀ start set s here = s
Run-IsSound core skew hub t₀ start set s (next {l = m} t' l' r le st) =
    Step-IsSound core skew hub t' m l' set st (Run-IsSound core skew hub t₀ start set s r)

redeem-KeepsRow :
    (core : Core) (hub now : ℕ) (p : Option Payload) (reference : Reference) (k : ℕ)
    (row : SettledRow) (l : Ledger)
    → KeepsRow k row l (redeem core hub now p reference l).1
unfolding redeem
redeem-KeepsRow core hub now none reference k row l held = held
redeem-KeepsRow core hub now (some p) reference k row l held =
    elim (redeem-cases core hub now p reference l) [
      | inl same ↦ rw same held
      | inr r ↦
          let c = key_at_first_verify core r.auth r.id r.kel (unix_milli now) l in
          rw r.ends (
            ap (λ (x : Ledger). lookup k x.settled)
              (redeem_current_frame core hub now r.auth r.id r.amt reference c)
            ∙ settle_current-KeepsRow core hub now (unbound r.auth) r.id 0 c k row l
                (key_at_first_verify_frame core r.auth r.id r.kel (unix_milli now) l) held)
    ]

-- A settled row is there after an operation, or is past its time.
pub Step-row :
    (core : Core) (skew hub now k : ℕ) (row : SettledRow) (l l' : Ledger)
    → Step core skew hub now l l'
    → lookup k l.settled ≡ some row
    → (lookup k l'.settled ≡ some row) ⊎ (settled_past now (k, row) ≡ true)
Step-row core skew hub now k row l l' (settle p req e) h =
    inl (rw e (settle_with_requirements-KeepsRow core hub now p req k row l h))
Step-row core skew hub now k row l l' (fed_settle peer p req e) h =
    inl (rw e (settle_for_peer-KeepsRow core hub now peer p req k row l h))
Step-row core skew hub now k row l l' (entry_settle calls rs get refresh p req e) h =
    inl (settle_through_peers-KeepsRow core calls rs get refresh skew hub now p req k row l l' e h)
Step-row core skew hub now k row l l' (verify p req e) h = inl (
    rw e (
      ap (λ (x : Ledger). lookup k x.settled) (verify_with_requirements_frame core hub now p req l)
      ∙ h))
Step-row core skew hub now k row l l' (publish rec p p' e t w same) h = inl (rw same h)
Step-row core skew hub now k row l l' (redeem_credit p reference e) h =
    inl (rw e (redeem-KeepsRow core hub now p reference k row l h))
Step-row core skew hub now k row l l' (clear peer kel rec e) h =
    inl (clear_from_peer-KeepsRow core skew hub now peer kel rec k row l l' e h)
Step-row core skew hub now k row l l' (grant aid amount why away e) h =
    inl (grant_credit-KeepsRow hub aid now amount why k row l l' e h)
Step-row core skew hub now k row l l' (discharge peer amount e) h =
    inl (discharge_due-KeepsRow peer amount k row l l' e h)
Step-row core skew hub now k row l l' (fed_clear peer kel rec e) h =
    inl (settle_owed-KeepsRow core hub peer kel rec k row l l' e h)
Step-row core skew hub now k row l l' (janitor e) h = rw e (prune_ledger-KeepsRow now k row l h)

later_late :
    (t t' : ℕ) (na : ℤ) → t ≤ t' → ltb_ℤ na (unix_milli t) ≡ true → ltb_ℤ na (unix_milli t') ≡ true
later_late t t' na le h = ground arith

pub later-IsSpent :
    (id : ℕ) (na : ℤ) (t t' : ℕ) (l : Ledger) → t ≤ t' → IsSpent id na t l → IsSpent id na t' l
later-IsSpent id na t t' l le (settled row h e) = settled row h e
later-IsSpent id na t t' l le (expired late) = expired (later_late t t' na le late)

Step-IsSpent :
    (core : Core) (skew hub t t' id : ℕ) (na : ℤ) (l l' : Ledger)
    → t ≤ t'
    → Step core skew hub t' l l'
    → IsSpent id na t l
    → IsSpent id na t' l'
Step-IsSpent core skew hub t t' id na l l' le st (expired late) =
    expired (later_late t t' na le late)
Step-IsSpent core skew hub t t' id na l l' le st (settled row h e) =
    elim (Step-row core skew hub t' id row l l' st h) [
      | inl kept ↦ settled row kept e
      | inr past ↦ expired (rw (← e) (settled_past-late t' id row past))
    ]

pub Run-IsSpent :
    (core : Core) (skew hub t₀ id : ℕ) (na : ℤ) (start : Ledger) {t : ℕ} {l : Ledger}
    → IsSpent id na t₀ start
    → Run core skew hub t₀ start t l
    → IsSpent id na t l
Run-IsSpent core skew hub t₀ id na start s here = s
Run-IsSpent core skew hub t₀ id na start s (next {t} {l = m} t' l' r le st) =
    Step-IsSpent core skew hub t t' id na m l' le st (Run-IsSpent core skew hub t₀ id na start s r)

-- An authorization that settled as new never moves credit again, in any run of the ledger after it, the
-- janitor's deletions included, however late and on whatever terms it is presented: presented at
-- /x402/settle's or /fed/v3/settle's check it leaves every table as it is but the records of first
-- verifications. The signature check is taken to refuse an authorization past its window, and the
-- content id to fix the window.
pub settled_never_again :
    (core : Core) (skew hub t₀ via via' : ℕ) (paid : Authorization) (id : ℕ) (l₀ : Ledger) {t : ℕ}
    {l : Ledger} (t' : ℕ) (p : Payload) (req : Requirements)
    → RefusesExpired core
    → FixesWindow core
    → core.auth_id paid ≡ some id
    → (settle_auth core hub t₀ paid id via l₀).0.success ≡ true
    → (settle_auth core hub t₀ paid id via l₀).0.replayed ≡ false
    → Run core skew hub t₀ (settle_auth core hub t₀ paid id via l₀).1 t l
    → t ≤ t'
    → ((auth : Authorization) (kel : List SignedEvent) (id' : ℕ)
        → verified_auth core hub p l ≡ vetted auth id' kel
        → id' ≡ id)
    → OnlyFirstVerify l (settle_vetted core hub t' p req via' (verified_auth core hub p l) l).1
settled_never_again core skew hub t₀ via via' paid id l₀ {t} {l} t' p req refuses fixes named done
      fresh r le presents =
    settle_vetted_spent core hub t' p req via' l paid id refuses fixes named
      (later-IsSpent id paid.not_after t t' l le (
        Run-IsSpent core skew hub t₀ id paid.not_after (settle_auth core hub t₀ paid id via l₀).1
          first r))
      presents
  where
    first : IsSpent id paid.not_after t₀ (settle_auth core hub t₀ paid id via l₀).1
    first = elim (settle_auth-cases core hub t₀ paid id via l₀) [
      | inl c ↦ rw c.answers (settled _ (Commits-row core hub t₀ paid id via l₀ c) refl)
      | inr u ↦ absurd (ground (arith, u.told))
    ]
