-- ===== src/Ledger/Redeem/Keeps.antt =====
-- Redemptions and the invariant (internal/aghub/redemption.go Redeem).
use anet_hub.Prelude.{
  ℕ, ◌≡◌, refl, ap, ◌⊎◌, inl, inr, Option, none, some, List, arith, Option-cases,
}
use anet_hub.Ledger.State.{Authorization, Ledger, Response}
use anet_hub.Ledger.Core.{Core, SignedEvent}
use anet_hub.Ledger.Rows.{amount_int64}
use anet_hub.Ledger.Issue.{unix_milli}
use anet_hub.Ledger.Sound.{IsSound}
use anet_hub.Ledger.Settle.{settle_auth}
use anet_hub.Ledger.Settle.Outcomes.{settle_auth-IsSound}
use anet_hub.Ledger.Payment.{Payload, Check, Vetted, vetted, unvetted, verified_auth}
use anet_hub.Ledger.Facilitator.{key_at_first_verify, settle_current}
use anet_hub.Ledger.Facilitator.Doors.{key_at_first_verify_frame}
use anet_hub.Ledger.Facilitator.Keeps.{OnlyFirstVerify-IsSound}
use anet_hub.Ledger.Redeem.{
  Reference, note_redemption, redeem_current, redeem_amount, redeem_vetted, redeem,
}

-- Only the notes of redemptions differ.
abbrev pub OnlyRedemptions : Ledger → Ledger → Type 0
OnlyRedemptions l l' = l' ≡ record l { redemptions = l'.redemptions }

-- The authorization that a redemption settles: without its interaction id.
abbrev pub unbound : Authorization → Authorization
unbound auth = record auth { interaction_id = 0 }

note_redemption_frame :
    (auth : Authorization) (id amt : ℕ) (reference : Reference) (now : ℕ) (out : Response × Ledger)
    → OnlyRedemptions out.1 (note_redemption auth id amt reference now out).1
unfolding note_redemption
note_redemption_frame auth id amt reference now (out, l) = ground arith

pub redeem_current_frame :
    (core : Core) (hub now : ℕ) (auth : Authorization) (id amt : ℕ) (reference : Reference)
    (c : Check × Ledger)
    → OnlyRedemptions
        (settle_current core hub now (unbound auth) id 0 c).1
        (redeem_current core hub now auth id amt reference c).1
unfolding settle_current
redeem_current_frame core hub now auth id amt reference (some r, l) = refl
redeem_current_frame core hub now auth id amt reference (none, l) =
    note_redemption_frame auth id amt reference now (settle_auth core hub now (unbound auth) id 0 l)

-- A redemption ends with the ledger as it was, or with the settlement of a vetted authorization.
pub record Redeems (core : Core) (hub now : ℕ) (p : Payload) (reference : Reference) (l : Ledger)
    : Type 0 where
  pub auth : Authorization
  pub id : ℕ
  pub kel : List SignedEvent
  pub amt : ℕ
  pub presented : verified_auth core hub p l ≡ vetted auth id kel
  pub ends :
      (redeem core hub now (some p) reference l).1
      ≡ (redeem_current core hub now auth id amt reference
          (key_at_first_verify core auth id kel (unix_milli now) l)).1

redeem_amount-cases :
    (core : Core) (hub now : ℕ) (reference : Reference) (auth : Authorization) (id : ℕ)
    (kel : List SignedEvent) (amt : ℕ) (l : Ledger)
    → ((redeem_amount core hub now reference auth id kel amt l).1 ≡ l)
      ⊎ (redeem_amount core hub now reference auth id kel amt l
          ≡ redeem_current core hub now auth id amt reference
              (key_at_first_verify core auth id kel (unix_milli now) l))
unfolding redeem_amount
redeem_amount-cases core hub now reference auth id kel amt l = ground arith

redeem_vetted-cases :
    (core : Core) (hub now : ℕ) (p : Payload) (reference : Reference) (l : Ledger) (v : Vetted)
    → verified_auth core hub p l ≡ v
    → (redeem core hub now (some p) reference l ≡ redeem_vetted core hub now reference v l)
    → ((redeem core hub now (some p) reference l).1 ≡ l) ⊎ Redeems core hub now p reference l
unfolding redeem_vetted
redeem_vetted-cases core hub now p reference l (unvetted a r) e q = inl (rw q refl)
redeem_vetted-cases core hub now p reference l (vetted auth id kel) e q =
    elim (Option-cases (amount_int64 auth.amount)) [
      | inl none_amt ↦ inl (rw (q, none_amt, redeem_vetted) refl)
      | inr (amt, some_amt) ↦ elim (redeem_amount-cases core hub now reference auth id kel amt l) [
        | inl same ↦ inl (rw (q, some_amt, redeem_vetted) same)
        | inr goes ↦ inr (record {
          auth = auth;
          id = id;
          kel = kel;
          amt = amt;
          presented = e;
          ends = rw (q, some_amt, redeem_vetted, goes) refl;
        })
      ]
    ]

pub redeem-cases :
    (core : Core) (hub now : ℕ) (p : Payload) (reference : Reference) (l : Ledger)
    → ((redeem core hub now (some p) reference l).1 ≡ l) ⊎ Redeems core hub now p reference l
unfolding redeem
redeem-cases core hub now p reference l =
    redeem_vetted-cases core hub now p reference l (verified_auth core hub p l) refl refl

OnlyRedemptions-IsSound :
    (hub : ℕ) (l l' : Ledger) → OnlyRedemptions l l' → IsSound hub l → IsSound hub l'
OnlyRedemptions-IsSound hub l l' f s =
    let eb : l'.balances ≡ l.balances = ap (λ (x : Ledger). x.balances) f in
    let ek : l'.totals ≡ l.totals = ap (λ (x : Ledger). x.totals) f in
    let ed : l'.due ≡ l.due = ap (λ (x : Ledger). x.due) f in
    record { backed = rw (eb, ek) s.backed; covered = rw (ed, ek) s.covered }

settled_current-IsSound :
    (core : Core) (hub now : ℕ) (auth : Authorization) (id : ℕ) (c : Check × Ledger)
    → IsSound hub c.1
    → IsSound hub (settle_current core hub now auth id 0 c).1
unfolding settle_current
settled_current-IsSound core hub now auth id (some r, l) s = s
settled_current-IsSound core hub now auth id (none, l) s =
    settle_auth-IsSound core hub now auth id 0 l s

-- Redeeming keeps a sound ledger sound, for any payload and reference.
pub redeem-IsSound :
    (core : Core) (hub now : ℕ) (p : Option Payload) (reference : Reference) (l : Ledger)
    → IsSound hub l
    → IsSound hub (redeem core hub now p reference l).1
unfolding redeem
redeem-IsSound core hub now none reference l s = s
redeem-IsSound core hub now (some p) reference l s =
    elim (redeem-cases core hub now p reference l) [
      | inl same ↦ rw same s
      | inr r ↦
          let c = key_at_first_verify core r.auth r.id r.kel (unix_milli now) l in
          rw r.ends (
            OnlyRedemptions-IsSound hub (settle_current core hub now (unbound r.auth) r.id 0 c).1
              (redeem_current core hub now r.auth r.id r.amt reference c).1
              (redeem_current_frame core hub now r.auth r.id r.amt reference c)
              (settled_current-IsSound core hub now (unbound r.auth) r.id c (
                OnlyFirstVerify-IsSound hub l c.1
                  (key_at_first_verify_frame core r.auth r.id r.kel (unix_milli now) l) s)))
    ]
