-- ===== src/Registry/Departs/Laws.antt =====
-- Departures that went through (internal/aghub/deregister.go).
use anet_hub.Prelude.{
  ℕ, ◌≡◌, ◌≢◌, refl, ap, ◌∙◌, inl, inr, none, some, List, [], ◌∷◌, Bool-cases, Option-cases, ◌&&◌,
  if◌then◌else◌, arith,
}
use anet_hub.Prelude.Table.{Table, lookup, erase, contains, lookup-insert, lookup-erase, value_of}
use anet_hub.Ledger.Issue.{unix_milli}
use anet_hub.Registry.{
  Account, AidTable, agent_cap, agent_keys, agent_skill, agent_tag, relay_message, cap_revocation,
  notice_cache, restore_released, Store, Kels, fails, done, >>=-eq-done, stop_if-bind,
  tombstone_shrinks, agent_a2a_card,
}
use anet_hub.Registry.Departs.{
  Departure, DeregResult, is_unknown, by_operator, put_tombstone, delete_all, dereg_tables, grows,
  write_tombstone, federates, withdraw, dereg_steps, drop_decisions, note_departure, leaving,
  agent_row, deregister_tx, undelivered_of, delete_rows,
}

pub agent_row-eq :
    (aid : ℕ) (s : Store) (row : ℕ × Account)
    → agent_row aid s ≡ done row
    → lookup aid s.ledger.agents ≡ some row.0
agent_row-eq aid s row e = ground (arith, e)

-- A tombstone that was written.
write_tombstone-eq :
    (kels : Kels) (aid kel now : ℕ) (s s' : Store)
    → write_tombstone kels aid kel now s ≡ done s'
    → s' ≡ put_tombstone aid kel now s
unfolding write_tombstone
write_tombstone-eq kels aid kel now s s' e = elim (Option-cases (lookup aid s.tombstones)) [
  | inl absent ↦
      let h : done (put_tombstone aid kel now s) ≡ done s' =
        rw (← e, absent, write_tombstone) refl in
      ground (arith, h)
  | inr (held, present) ↦ elim (Bool-cases (grows kels held.0 kel)) [
    | inl grown ↦
        let h : done (put_tombstone aid kel now s) ≡ done s' =
          rw (← e, present, grown, write_tombstone) refl in
        ground (arith, h)
    | inr shrinks ↦
        let h : fails tombstone_shrinks ≡ done s' =
          rw (← e, present, shrinks, write_tombstone) refl in
        absurd (ground (arith, h))
  ]
]

-- What a departure that went through has done.
pub deregister_tx-eq :
    (kels : Kels) (why : Departure) (aid now : ℕ) (s s' : Store) (r : DeregResult)
    → deregister_tx kels why aid now s ≡ done (r, s')
    → (row : ℕ × Account) × (agent_row aid s ≡ done row)
      × ((r, s') ≡ leaving why aid now row.1 (put_tombstone aid row.0 now s))
unfolding deregister_tx
deregister_tx-eq kels why aid now s s' r e =
    let (reason, e1) = stop_if-bind (is_unknown why) _ _ e in
    let (row, there, e2) = >>=-eq-done (agent_row aid s) _ e1 in
    let (t, entombed, e3) = >>=-eq-done (write_tombstone kels aid row.0 now s) _ e2 in
    let same : t ≡ put_tombstone aid row.0 now s =
      write_tombstone-eq kels aid row.0 now s t entombed in
    (row, there, ground (arith, e3, same))

pub withdraw_ledger :
    (aid now : ℕ) (a : Account) (s : Store)
    → ((withdraw aid now a s).ledger ≡ s.ledger)
      × ((withdraw aid now a s).windows ≡ s.windows)
      × ((withdraw aid now a s).tombstones ≡ s.tombstones)
withdraw_ledger aid now a s =
    elim (Bool-cases (federates a.visibility && contains aid (s.rows agent_a2a_card))) [
      | inl stated ↦ rw (stated, withdraw) (refl, refl, refl)
      | inr unstated ↦ rw (unstated, withdraw) (refl, refl, refl)
    ]

-- The tables of an AID, and what is left of them.
delete_all_own :
    (aid : ℕ) (rows : AidTable → Table (List ℕ)) (t : AidTable)
    → lookup aid (delete_all dereg_tables aid rows t) ≡ none
delete_all_own aid rows agent_cap = ground (arith, lookup-erase aid aid (rows agent_cap))
delete_all_own aid rows agent_keys = ground (arith, lookup-erase aid aid (rows agent_keys))
delete_all_own aid rows agent_a2a_card = ground (arith, lookup-erase aid aid (rows agent_a2a_card))
delete_all_own aid rows agent_skill = ground (arith, lookup-erase aid aid (rows agent_skill))
delete_all_own aid rows agent_tag = ground (arith, lookup-erase aid aid (rows agent_tag))
delete_all_own aid rows relay_message = ground (arith, lookup-erase aid aid (rows relay_message))
delete_all_own aid rows cap_revocation = ground (arith, lookup-erase aid aid (rows cap_revocation))
delete_all_own aid rows notice_cache = ground (arith, lookup-erase aid aid (rows notice_cache))
delete_all_own aid rows restore_released =
    ground (arith, lookup-erase aid aid (rows restore_released))

delete_all_other :
    (us : List AidTable) (aid other : ℕ) (rows : AidTable → Table (List ℕ)) (t : AidTable)
    → other ≢ aid
    → lookup other (delete_all us aid rows t) ≡ lookup other (rows t)
delete_all_other [] aid other rows t ne = refl
delete_all_other (u ∷ us) aid other rows t ne =
    delete_all_other us aid other (delete_rows u aid rows) t ne
    ∙ ground (arith, lookup-erase other aid (rows t), ne)

-- What a departure leaves: nothing of the AID in the registry but its key history as its tombstone,
-- its credit where it was, and every other AID's rows.
pub record IsGone (why : Departure) (aid now : ℕ) (s s' : Store) (r : DeregResult) : Type 0 where
  pub no_rows : (t : AidTable) → lookup aid (s'.rows t) ≡ none
  pub no_agent : lookup aid s'.ledger.agents ≡ none
  pub no_account : lookup aid s'.accounts ≡ none
  pub entombed :
      (kel : ℕ) × (lookup aid s.ledger.agents ≡ some kel)
      × (lookup aid s'.tombstones ≡ some (kel, now))
  pub same_ledger : s'.ledger ≡ record s.ledger { agents = erase aid s.ledger.agents }
  pub balance_told : r.balance ≡ value_of aid s.ledger.balances
  pub mail_told : r.undelivered ≡ undelivered_of aid s
  pub waiting : lookup aid s'.dereg_events ≡ some (unix_milli now)
  pub list_decision :
      lookup aid s'.admitted ≡ (if by_operator why then none else lookup aid s.admitted)
  pub quota_decision :
      lookup aid s'.quotas ≡ (if by_operator why then none else lookup aid s.quotas)
  pub others :
      (other : ℕ) (t : AidTable) → other ≢ aid → lookup other (s'.rows t) ≡ lookup other (s.rows t)

withdraw_rows :
    (aid now : ℕ) (a : Account) (s : Store)
    → ((withdraw aid now a s).rows ≡ s.rows)
      × ((withdraw aid now a s).accounts ≡ s.accounts)
      × ((withdraw aid now a s).admitted ≡ s.admitted)
      × ((withdraw aid now a s).quotas ≡ s.quotas)
withdraw_rows aid now a s =
    elim (Bool-cases (federates a.visibility && contains aid (s.rows agent_a2a_card))) [
      | inl stated ↦ rw (stated, withdraw) (refl, refl, refl, refl)
      | inr unstated ↦ rw (unstated, withdraw) (refl, refl, refl, refl)
    ]

lookup-erase_own : {V : Type 0} (aid : ℕ) (d : Table V) → lookup aid (erase aid d) ≡ none
lookup-erase_own aid d = ground (arith, lookup-erase aid aid d)

-- What the operator's decision does to the two tables, and that it does no more.
drop_decisions_lem :
    (why : Departure) (aid : ℕ) (s : Store)
    → (lookup aid (drop_decisions why aid s).admitted
        ≡ (if by_operator why then none else lookup aid s.admitted))
      × (lookup aid (drop_decisions why aid s).quotas
          ≡ (if by_operator why then none else lookup aid s.quotas))
      × ((drop_decisions why aid s).rows ≡ s.rows)
      × ((drop_decisions why aid s).accounts ≡ s.accounts)
      × ((drop_decisions why aid s).ledger ≡ s.ledger)
      × ((drop_decisions why aid s).tombstones ≡ s.tombstones)
drop_decisions_lem why aid s = elim (Bool-cases (by_operator why)) [
  | inl operator ↦
      rw (operator, drop_decisions)
        (lookup-erase_own aid s.admitted, lookup-erase_own aid s.quotas, refl, refl, refl, refl)
  | inr other ↦ rw (other, drop_decisions) (refl, refl, refl, refl, refl, refl)
]

-- A departure that went through, for whatever reason, leaves nothing of the AID in the registry's
-- tables, makes the key history that it had its tombstone, leaves its credit and the rest of the
-- ledger where they were and every other AID's rows in the AIDs' tables, tells the balance and the
-- mail that it had, waits as an event for the hub process, and takes its admission and its quota
-- only where the operator decided it.
pub deregister_tx-IsGone :
    (kels : Kels) (why : Departure) (aid now : ℕ) (s s' : Store) (r : DeregResult)
    → deregister_tx kels why aid now s ≡ done (r, s')
    → IsGone why aid now s s' r
deregister_tx-IsGone kels why aid now s s' r e =
    let (row, there, done_so) = deregister_tx-eq kels why aid now s s' r e in
    let t = put_tombstone aid row.0 now s in
    let u = dereg_steps aid now row.1 t in
    let same : s' ≡ note_departure aid now (drop_decisions why aid u) = ap (λ p. p.1) done_so in
    let told : r
        ≡ record { undelivered = undelivered_of aid t; balance = value_of aid t.ledger.balances } =
      ap (λ p. p.0) done_so in
    let (l, w, tomb) = withdraw_ledger aid now row.1 t in
    let (rows, accounts, admitted, quotas) = withdraw_rows aid now row.1 t in
    let (listing, quota, rows', accounts', ledger', tomb') = drop_decisions_lem why aid u in
    record {
      no_rows = λ x. rw (same, rows', rows) (delete_all_own aid s.rows x);
      no_agent = rw (same, ledger', l) (lookup-erase_own aid s.ledger.agents);
      no_account = rw (same, accounts', accounts) (lookup-erase_own aid s.accounts);
      entombed = (
        row.0,
        agent_row-eq aid s row there,
        rw (same, tomb', tomb) (ground (arith, lookup-insert aid aid (row.0, now) s.tombstones)),
      );
      same_ledger = rw (same, ledger', l) refl;
      balance_told = rw told refl;
      mail_told = rw told refl;
      waiting = rw same (
          ground (
            arith,
            lookup-insert aid aid (unix_milli now) (drop_decisions why aid u).dereg_events,
          ));
      list_decision = rw (same, listing, admitted) refl;
      quota_decision = rw (same, quota, quotas) refl;
      others = λ other x ne.
          rw (same, rows', rows) (delete_all_other dereg_tables aid other s.rows x ne);
    }
