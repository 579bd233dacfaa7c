-- ===== src/Ledger/Epochs/Publication.antt =====
-- What a publication writes (internal/aghub/supply.go publishDueAt, closeEpochTx).
use anet_hub.Prelude.{
  ℕ, ◌≡◌, refl, sym, ◌∙◌, inl, inr, true, Option, some, ◌∷◌, ◌==◌, ◌&&◌, not, Bool-cases,
  Option-cases, arith,
}
use anet_hub.Prelude.Int.{ℤ, pos, ◌+ℤ◌, ◌-ℤ◌, ltb_ℤ}
use anet_hub.Prelude.Table.{value_of}
use anet_hub.Ledger.State.{Ledger, Totals}
use anet_hub.Ledger.Issue.{utc_day}
use anet_hub.Ledger.Sound.{IsSound}
use anet_hub.Ledger.Epochs.{
  Tree, Epoch, Recorder, Published, stays, publishes, unsigned, not_unique, supply_mismatch,
  no_signing_key, not_due, leaves_of, supply_head, next_seq, prev_of, has_id, has_day, adds_up,
  draft, write_epoch, close_epoch, is_due_after, publish_due,
}

-- What an epoch's publication writes.
pub record IsPublication (rec : Recorder) (now : ℕ) (l : Ledger) (p : Published) (e : Epoch)
    (k : Totals) (p' : Published) (last : ℤ) : Type 0 where
  pub counted : l.totals.last_to_day ≡ some last
  pub numbered : e.seq ≡ next_seq (supply_head p.chain)
  pub linked : e.prev_id ≡ prev_of rec.genesis_prev (supply_head p.chain)
  pub from : e.from_day ≡ last +ℤ pos 1
  pub to : e.to_day ≡ utc_day now -ℤ pos 1
  pub after : ltb_ℤ last (utc_day now -ℤ pos 1) ≡ true
  pub states : pos e.outstanding ≡ l.totals.issued -ℤ l.totals.redeemed
  pub chain : p'.chain ≡ e ∷ p.chain
  pub covered : k.last_to_day ≡ some e.to_day
  pub issued : k.issued ≡ l.totals.issued
  pub redeemed : k.redeemed ≡ l.totals.redeemed

abbrev pub Written :
    (Epoch → Option ℕ) → Epoch → Tree → Totals → Published → Epoch → Totals → Published → Type 0
Written sign d t k p e k' p' =
    (id : ℕ) × (e ≡ record d { id = id })
    × (k' ≡ record k { events_since_publish = 0; last_to_day = some d.to_day })
    × (p' ≡ record {
      chain = record d { id = id } ∷ p.chain;
      leaves = (d.to_day, t.entries) ∷ p.leaves;
    })

write_epoch-Written :
    (sign : Epoch → Option ℕ) (d : Epoch) (t : Tree) (k : Totals) (p : Published) (e : Epoch)
    (k' : Totals) (p' : Published)
    → write_epoch sign d t k p ≡ publishes e k' p'
    → Written sign d t k p e k' p'
unfolding write_epoch
write_epoch-Written sign d t k p e k' p' w = elim (Option-cases (sign d)) [
  | inl no_id ↦
      let h : write_epoch sign d t k p ≡ stays unsigned = rw (no_id, write_epoch) refl in absurd cc
  | inr (id, signed) ↦ elim (Bool-cases (has_id id p.chain)) [
    | inl taken ↦
        let h : write_epoch sign d t k p ≡ stays not_unique =
          rw (signed, taken, write_epoch) refl in
        absurd cc
    | inr new ↦
        let h : write_epoch sign d t k p
            ≡ publishes (record d { id = id })
                (record k { events_since_publish = 0; last_to_day = some d.to_day })
                (record {
                  chain = record d { id = id } ∷ p.chain;
                  leaves = (d.to_day, t.entries) ∷ p.leaves;
                }) =
          rw (signed, new, write_epoch) refl in
        (id, cc, cc, cc)
  ]
]

abbrev at_head : Recorder → ℕ → ℤ → ℤ → Tree → Published → Epoch
at_head rec now from to t p =
    draft (next_seq (supply_head p.chain)) (prev_of rec.genesis_prev (supply_head p.chain)) from to
      t now

close_epoch-Written :
    (rec : Recorder) (sign : Epoch → Option ℕ) (hub now : ℕ) (from to : ℤ) (l : Ledger)
    (p : Published) (e : Epoch) (k' : Totals) (p' : Published)
    → close_epoch rec sign hub now from to l p ≡ publishes e k' p'
    → (t : Tree) × (adds_up t (l.totals.issued -ℤ l.totals.redeemed) (value_of hub l.balances)
        ≡ true)
      × Written sign (at_head rec now from to t p) t l.totals p e k' p'
unfolding close_epoch
close_epoch-Written rec sign hub now from to l p e k' p' w = elim (Option-cases (leaves_of hub l)) [
  | inl debt ↦
      let h : close_epoch rec sign hub now from to l p ≡ stays supply_mismatch =
        rw (debt, close_epoch) refl in
      absurd cc
  | inr (xs, leaves) ↦ elim (Option-cases (rec.build xs to)) [
    | inl bad ↦
        let h : close_epoch rec sign hub now from to l p ≡ stays supply_mismatch =
          rw (leaves, bad, close_epoch) refl in
        absurd cc
    | inr (t, built) ↦
        elim (Bool-cases
          (adds_up t (l.totals.issued -ℤ l.totals.redeemed) (value_of hub l.balances))) [
            | inl fine ↦
                let h : close_epoch rec sign hub now from to l p
                    ≡ write_epoch sign (at_head rec now from to t p) t l.totals p =
                  rw (leaves, built, fine, close_epoch) refl in
                (t, fine, write_epoch-Written sign _ t l.totals p e k' p' (sym h ∙ w))
            | inr differs ↦
                let h : close_epoch rec sign hub now from to l p ≡ stays supply_mismatch =
                  rw (leaves, built, differs, close_epoch) refl in
                absurd cc
          ]
  ]
]

adds_up_states : (t : Tree) (o r : ℤ) → adds_up t o r ≡ true → pos t.outstanding ≡ o
adds_up_states t o r e = ground (arith, e)

of_close :
    (rec : Recorder) (sign : Epoch → Option ℕ) (hub now : ℕ) (l : Ledger) (p : Published)
    (e : Epoch) (k : Totals) (p' : Published) (last : ℤ)
    → l.totals.last_to_day ≡ some last
    → (is_due_after (utc_day now -ℤ pos 1) last l.totals.events_since_publish
        && not (has_day (utc_day now -ℤ pos 1) p.chain))
      ≡ true
    → close_epoch rec sign hub now (last +ℤ pos 1) (utc_day now -ℤ pos 1) l p ≡ publishes e k p'
    → IsPublication rec now l p e k p' last
of_close rec sign hub now l p e k p' last counted due w =
    let (t, fine, w') =
      close_epoch-Written rec sign hub now (last +ℤ pos 1) (utc_day now -ℤ pos 1) l p e k p' w in
    let (id, is, kept, put) = w' in
    record {
      counted = counted;
      numbered = rw is refl;
      linked = rw is refl;
      from = rw is refl;
      to = rw is refl;
      after = ground (arith, due);
      states = rw is (adds_up_states t _ (value_of hub l.balances) fine);
      chain = rw (is, put) refl;
      covered = rw (is, kept) refl;
      issued = rw kept refl;
      redeemed = rw kept refl;
    }

pub publish_due-IsPublication :
    (rec : Recorder) (hub now : ℕ) (l : Ledger) (p : Published) (e : Epoch) (k : Totals)
    (p' : Published)
    → publish_due rec hub now l p ≡ publishes e k p'
    → (last : ℤ) × IsPublication rec now l p e k p' last
unfolding publish_due close_epoch write_epoch leaves_of
publish_due-IsPublication rec hub now l p e k p' w = elim (Option-cases rec.sign) [
  | inl unsigned_hub ↦
      let h : publish_due rec hub now l p ≡ stays no_signing_key =
        rw (unsigned_hub, publish_due) refl in
      absurd cc
  | inr (sign, signs) ↦ elim (Bool-cases (hub == 0)) [
    | inl unnamed ↦
        let h : publish_due rec hub now l p ≡ stays no_signing_key =
          rw (signs, unnamed, publish_due) refl in
        absurd cc
    | inr named ↦ elim (Option-cases l.totals.last_to_day) [
      | inl never ↦
          let h : publish_due rec hub now l p ≡ stays not_due =
            rw (signs, named, never, publish_due) refl in
          absurd cc
      | inr (last, counted) ↦
          elim (Bool-cases (
            is_due_after (utc_day now -ℤ pos 1) last l.totals.events_since_publish
            && not (has_day (utc_day now -ℤ pos 1) p.chain))) [
              | inl due ↦
                  let h : publish_due rec hub now l p
                      ≡ close_epoch rec sign hub now (last +ℤ pos 1) (utc_day now -ℤ pos 1) l p =
                    rw (signs, named, counted, due, publish_due) refl in
                  (last, of_close rec sign hub now l p e k p' last counted due (sym h ∙ w))
              | inr early ↦
                  let h : publish_due rec hub now l p ≡ stays not_due =
                    rw (signs, named, counted, early, publish_due) refl in
                  absurd cc
            ]
    ]
  ]
]

-- A publication moves no credit.
pub publish_due-IsSound :
    (rec : Recorder) (hub now : ℕ) (l : Ledger) (p : Published) (e : Epoch) (k : Totals)
    (p' : Published)
    → publish_due rec hub now l p ≡ publishes e k p'
    → IsSound hub l
    → IsSound hub (record l { totals = k })
publish_due-IsSound rec hub now l p e k p' w s =
    let (last, is) = publish_due-IsPublication rec hub now l p e k p' w in
    record {
      backed = record {
        add_up = rw (is.issued, is.redeemed) s.backed.add_up;
        hub_row = rw (is.issued, is.redeemed) s.backed.hub_row;
        no_debt = s.backed.no_debt;
        issued_max = rw is.issued s.backed.issued_max;
        redeemed_nonneg = rw is.redeemed s.backed.redeemed_nonneg;
      };
      covered = record {
        due_nonneg = s.covered.due_nonneg;
        due_bound = rw is.redeemed s.covered.due_bound;
      };
    }
