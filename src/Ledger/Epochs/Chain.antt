-- ===== src/Ledger/Epochs/Chain.antt =====
-- The chain of published epochs over supply events, publications and pruning
-- (internal/aghub/supply.go publishDueAt, supplyEventTx, pruneLiabilityProofsAt).
use anet_hub.Prelude.{
  ℕ, ⊤, ◌≡◌, refl, ap, sym, ◌∙◌, true, Option, none, some, List, [], ◌∷◌, ltb, arith,
}
use anet_hub.Prelude.Int.{ℤ, pos, ◌+ℤ◌, ◌-ℤ◌, ◌≤ℤ◌, int_laws}
use anet_hub.Ledger.State.{Ledger, Totals, ok}
use anet_hub.Ledger.Issue.{SupplyKind, supply_issued, supply_redeemed, supply_event}
use anet_hub.Ledger.Epochs.Publication.{publish_due-IsPublication}
use anet_hub.Ledger.Epochs.{
  Epoch, Recorder, Published, publishes, later, supply_head, next_seq, prev_of, publish_due,
  prune_proofs,
}

-- The two tables that the publication changes.
pub record Books : Type 0 where
  pub totals : Totals
  pub published : Published

pub data Change (rec : Recorder) (hub : ℕ) (b : Books) : Books → Type 0 where
  event :
      (kind : SupplyKind) (amt : ℤ) (now : ℕ) (k : Totals)
      → supply_event kind amt now b.totals ≡ ok k
      → Change rec hub b (record { totals = k; published = b.published })
  publish :
      (now : ℕ) (l : Ledger) (e : Epoch) (k : Totals) (p : Published)
      → l.totals ≡ b.totals
      → publish_due rec hub now l b.published ≡ publishes e k p
      → Change rec hub b (record { totals = k; published = p })
  prune : (now : ℕ) → Change rec hub b (record b { published = prune_proofs now b.published })

pub data History (rec : Recorder) (hub : ℕ) : Books → Type 0 where
  fresh :
      (k : Totals)
      → History rec hub (record { totals = k; published = record { chain = []; leaves = [] } })
  change : (b b' : Books) → History rec hub b → Change rec hub b b' → History rec hub b'

-- The first day after an epoch's.
abbrev pub StartsAfter : Option Epoch → ℤ → Type 0
StartsAfter none from = ⊤
StartsAfter (some e) from = from ≡ e.to_day +ℤ pos 1

-- An epoch, in its place after the epochs `es`.
pub record Follows (genesis : ℕ) (es : List Epoch) (e : Epoch) : Type 0 where
  pub numbered : e.seq ≡ next_seq (supply_head es)
  pub linked : e.prev_id ≡ prev_of genesis (supply_head es)
  pub adjacent : StartsAfter (supply_head es) e.from_day
  pub forward : e.from_day ≤ℤ e.to_day

abbrev pub IsChain : ℕ → List Epoch → Type 0
IsChain genesis [] = ⊤
IsChain genesis (e ∷ es) = Follows genesis es e × IsChain genesis es

head_of_chain :
    (genesis : ℕ) (e : Epoch) (es : List Epoch)
    → Follows genesis es e
    → later e (supply_head es) ≡ some e
head_of_chain genesis e es f = go (supply_head es) f.numbered
  where
    go : (o : Option Epoch) → e.seq ≡ next_seq o → later e o ≡ some e
    go none q = refl
    go (some g) q = let h : ltb g.seq e.seq ≡ true = rw q (ground arith) in rw h refl

-- The totals' last day is the end of the chain's last epoch.
abbrev pub Covered : Option Epoch → Option ℤ → Type 0
Covered none last = ⊤
Covered (some e) last = last ≡ some e.to_day

pub record IsLinked (genesis : ℕ) (b : Books) : Type 0 where
  pub chain : IsChain genesis b.published.chain
  pub covered : Covered (supply_head b.published.chain) b.totals.last_to_day

starts_after :
    (o : Option Epoch) (d : Option ℤ) (last from : ℤ)
    → Covered o d
    → d ≡ some last
    → from ≡ last +ℤ pos 1
    → StartsAfter o from
starts_after none d last from c q f = tt
starts_after (some e) d last from c q f = let same : last ≡ e.to_day = cc in rw (← same) f

publish-IsLinked :
    (rec : Recorder) (hub now : ℕ) (b : Books) (l : Ledger) (e : Epoch) (k : Totals) (p : Published)
    → l.totals ≡ b.totals
    → publish_due rec hub now l b.published ≡ publishes e k p
    → IsLinked rec.genesis_prev b
    → IsLinked rec.genesis_prev (record { totals = k; published = p })
publish-IsLinked rec hub now b l e k p same w i =
    let (last, is) = publish_due-IsPublication rec hub now l b.published e k p w in
    let f : Follows rec.genesis_prev b.published.chain e = record {
      numbered = is.numbered;
      linked = is.linked;
      adjacent =
          starts_after (supply_head b.published.chain) b.totals.last_to_day last e.from_day
            i.covered (ap (λ t. t.last_to_day) (sym same) ∙ is.counted) is.from;
      forward = rw (is.from, is.to) (grind (int_laws, is.after));
    } in
    record {
      chain = rw is.chain (f, i.chain);
      covered = rw (is.chain, head_of_chain rec.genesis_prev e b.published.chain f) is.covered;
    }

event_keeps_last :
    (kind : SupplyKind) (amt : ℤ) (now : ℕ) (k k' : Totals) (last : ℤ)
    → supply_event kind amt now k ≡ ok k'
    → k.last_to_day ≡ some last
    → k'.last_to_day ≡ some last
unfolding supply_event
event_keeps_last supply_issued amt now k k' last e q = ground (arith, q)
event_keeps_last supply_redeemed amt now k k' last e q = ground (arith, q)

event-Covered :
    (kind : SupplyKind) (amt : ℤ) (now : ℕ) (k k' : Totals) (o : Option Epoch)
    → supply_event kind amt now k ≡ ok k'
    → Covered o k.last_to_day
    → Covered o k'.last_to_day
event-Covered kind amt now k k' none e c = tt
event-Covered kind amt now k k' (some x) e c = event_keeps_last kind amt now k k' x.to_day e c

change-IsLinked :
    (rec : Recorder) (hub : ℕ) (b b' : Books)
    → Change rec hub b b'
    → IsLinked rec.genesis_prev b
    → IsLinked rec.genesis_prev b'
unfolding prune_proofs
change-IsLinked rec hub b _ (event kind amt now k e) i = record {
  chain = i.chain;
  covered = event-Covered kind amt now b.totals k (supply_head b.published.chain) e i.covered;
}
change-IsLinked rec hub b _ (publish now l e k p same w) i =
    publish-IsLinked rec hub now b l e k p same w i
change-IsLinked rec hub b _ (prune now) i = record { chain = i.chain; covered = i.covered }

-- The published epochs are a chain in every history of supply events, publications and prunings from
-- an empty chain: each epoch has the next number and names the one before, its days start the day
-- after and do not end before they start.
pub History-IsLinked :
    (rec : Recorder) (hub : ℕ) {b : Books} → History rec hub b → IsLinked rec.genesis_prev b
History-IsLinked rec hub (fresh k) = record { chain = tt; covered = tt }
History-IsLinked rec hub (change b b' h c) =
    change-IsLinked rec hub b b' c (History-IsLinked rec hub h)

-- Every epoch that is published states exactly what was issued and not redeemed.
pub publish_due_states :
    (rec : Recorder) (hub now : ℕ) (l : Ledger) (p : Published) (e : Epoch) (k : Totals)
    (p' : Published)
    → publish_due rec hub now l p ≡ publishes e k p'
    → (pos e.outstanding ≡ l.totals.issued -ℤ l.totals.redeemed) × (p'.chain ≡ e ∷ p.chain)
publish_due_states rec hub now l p e k p' w =
    let (last, is) = publish_due-IsPublication rec hub now l p e k p' w in (is.states, is.chain)
