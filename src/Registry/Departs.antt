-- ===== src/Registry/Departs.antt =====
-- internal/aghub/deregister.go: how an AID leaves the hub. The argument `now` is the time that the
-- code reads by time.Now where it stamps a tombstone, a withdrawn card and a departure.
pub mod Laws
use anet_hub.Prelude.{
  ℕ, ◌+◌, Bool, true, false, Option, none, some, List, [], ◌∷◌, ◌++◌, ◌&&◌, length, if◌then◌else◌,
}
use anet_hub.Prelude.Int.{ℤ}
use anet_hub.Prelude.Table.{Table, lookup, insert, erase, contains, value_of}
use anet_hub.Ledger.Issue.{unix_milli}
use anet_hub.Registry.{
  Visibility, hub_local, federated, public, Account, AidTable, agent_cap, agent_keys,
  agent_a2a_card, agent_skill, agent_tag, relay_message, cap_revocation, notice_cache,
  restore_released, same_table, Store, Kels, Outcome, fails, done, stop_if, ◌>>=◌, ◌>>◌,
  not_registered, tombstone_shrinks, unknown_reason,
}

-- The Dereg* constants, and any other text.
pub data Departure : Type 0 where
  dereg_self dereg_dip dereg_revoked dereg_inactive dereg_operator : Departure
  dereg_other : ℕ → Departure

abbrev pub is_unknown : Departure → Bool
is_unknown (dereg_other _) = true
is_unknown _ = false

-- The operator's own decisions.
abbrev pub by_operator : Departure → Bool
by_operator dereg_revoked = true
by_operator dereg_operator = true
by_operator _ = false

pub record DeregResult : Type 0 where
  pub undelivered : ℕ
  pub balance : ℤ

-- countKELChangeTx
abbrev pub count_kel_change : Store → Store
count_kel_change s = record s { kel_changes = s.kel_changes + 1 }

abbrev pub put_tombstone : ℕ → ℕ → ℕ → Store → Store
put_tombstone aid kel now s =
    count_kel_change (record s { tombstones = insert aid (kel, now) s.tombstones })

abbrev pub extends_decoded : Kels → Option (List ℕ) → Option (List ℕ) → Bool
extends_decoded kels none next = false
extends_decoded kels (some old) none = false
extends_decoded kels (some old) (some next) = kels.extends old next

-- Whether the key history `kel` extends what is held, as bytes.
abbrev pub grows : Kels → ℕ → ℕ → Bool
grows kels held kel = extends_decoded kels (kels.decode held) (kels.decode kel)

unfoldable pub write_tombstone : Kels → ℕ → ℕ → ℕ → Store → Outcome Store
write_tombstone kels aid kel now s = elim (lookup aid s.tombstones) [
  | none ↦ done (put_tombstone aid kel now s)
  | some held ↦
      if grows kels held.0 kel then done (put_tombstone aid kel now s) else fails tombstone_shrinks
]

abbrev pub federates : Visibility → Bool
federates hub_local = false
federates federated = true
federates public = true

-- withdrawA2ACard, where the AID federates.
abbrev pub withdraw : ℕ → ℕ → Account → Store → Store
withdraw aid now a s =
    if federates a.visibility && contains aid (s.rows agent_a2a_card)
    then record s { withdrawn = erase aid s.withdrawn ++ ((aid, now) ∷ []) }
    else s

abbrev pub delete_rows : AidTable → ℕ → (AidTable → Table (List ℕ)) → AidTable → Table (List ℕ)
delete_rows u aid rows t = if same_table u t then erase aid (rows t) else rows t

-- execAID of each table of deregSteps, in order.
abbrev pub delete_all : List AidTable → ℕ → (AidTable → Table (List ℕ)) → AidTable → Table (List ℕ)
delete_all [] aid rows = rows
delete_all (u ∷ us) aid rows = delete_all us aid (delete_rows u aid rows)

abbrev pub dereg_tables : List AidTable
dereg_tables =
    agent_cap ∷ agent_keys ∷ agent_a2a_card ∷ agent_skill ∷ agent_tag ∷ relay_message
    ∷ cap_revocation ∷ notice_cache ∷ restore_released ∷ []

-- deregSteps
abbrev pub dereg_steps : ℕ → ℕ → Account → Store → Store
dereg_steps aid now a s =
    let s' = withdraw aid now a s in
    record s' {
      rows = delete_all dereg_tables aid s'.rows;
      accounts = erase aid s'.accounts;
      ledger = record s'.ledger { agents = erase aid s'.ledger.agents };
    }

abbrev pub drop_decisions : Departure → ℕ → Store → Store
drop_decisions why aid s =
    if by_operator why
    then record s { admitted = erase aid s.admitted; quotas = erase aid s.quotas }
    else s

abbrev pub note_departure : ℕ → ℕ → Store → Store
note_departure aid now s = record s { dereg_events = insert aid (unix_milli now) s.dereg_events }

abbrev rows_of : Option (List ℕ) → ℕ
rows_of none = 0
rows_of (some ms) = length ms

abbrev pub undelivered_of : ℕ → Store → ℕ
undelivered_of aid s = rows_of (lookup aid (s.rows relay_message))

abbrev pub leaving : Departure → ℕ → ℕ → Account → Store → DeregResult × Store
leaving why aid now a s = (
  record { undelivered = undelivered_of aid s; balance = value_of aid s.ledger.balances },
  note_departure aid now (drop_decisions why aid (dereg_steps aid now a s)),
)

-- The row under the AID: its key history and its other columns.
abbrev pub both : Option ℕ → Option Account → Outcome (ℕ × Account)
both (some kel) (some a) = done (kel, a)
both _ _ = fails not_registered

abbrev pub agent_row : ℕ → Store → Outcome (ℕ × Account)
agent_row aid s = both (lookup aid s.ledger.agents) (lookup aid s.accounts)

unfoldable pub deregister_tx : Kels → Departure → ℕ → ℕ → Store → Outcome (DeregResult × Store)
deregister_tx kels why aid now s = do
  stop_if (is_unknown why) unknown_reason
  row ← agent_row aid s
  s' ← write_tombstone kels aid row.0 now s
  done (leaving why aid now row.1 s')

-- afterDereg on the tables: the hub process has run the callbacks, and the row goes.
abbrev pub after_dereg : Bool → ℕ → Store → Store
after_dereg in_process aid s =
    if in_process then record s { dereg_events = erase aid s.dereg_events } else s

abbrev pub commit : {A : Type 0} → Store → Outcome (A × Store) → Outcome A × Store
commit s (fails failure) = (fails failure, s)
commit s (done (value, s')) = (done value, s')

abbrev pub after : {A : Type 0} → (Store → Store) → Outcome A × Store → Outcome A × Store
after f (fails failure, s) = (fails failure, s)
after f (done value, s) = (done value, f s)

unfoldable pub deregister : Kels → Bool → Departure → ℕ → ℕ → Store → Outcome DeregResult × Store
deregister kels in_process why aid now s =
    after (after_dereg in_process aid) (commit s (deregister_tx kels why aid now s))
