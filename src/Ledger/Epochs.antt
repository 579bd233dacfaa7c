-- ===== src/Ledger/Epochs.antt =====
-- internal/aghub/supply.go: the supply epochs that the hub publishes, and the operator's view.
-- The tree of ANetCore's liabtree and the signed record of ael are parameters. The column ledger_hw
-- of an epoch, the database's own counter of entries, is left out.
pub mod Closes
pub mod Publication
pub mod Chain
mod Tests
use anet_hub.Prelude.{
  ℕ, ◌+◌, Bool, true, false, Option, none, some, List, [], ◌∷◌, ◌==◌, ◌&&◌, ◌||◌, not, ltb,
  if◌then◌else◌,
}
use anet_hub.Prelude.Int.{ℤ, pos, negsuc, ◌+ℤ◌, ◌-ℤ◌, ltb_ℤ, leb_ℤ, eqb_ℤ}
use anet_hub.Prelude.Table.{Table, contains, value_of, sum_except, sum}
use anet_hub.Ledger.State.{Totals, Ledger}
use anet_hub.Ledger.Issue.{unix_milli, utc_day}

-- liabtree.Leaf, and what a built tree states.
pub record Leaf : Type 0 where
  pub aid : ℕ
  pub balance : ℕ

pub record Tree : Type 0 where
  pub root : ℕ
  pub depth : ℕ
  pub outstanding : ℕ
  pub entries : List Leaf

-- A row of supply_chain, with the time its record was signed at.
pub record Epoch : Type 0 where
  pub seq : ℕ
  pub id : ℕ
  pub prev_id : ℕ
  pub from_day : ℤ
  pub to_day : ℤ
  pub root : ℕ
  pub outstanding : ℕ
  pub depth : ℕ
  pub published_at : ℤ

-- What the hub calls: liabtree.Build of the leaves for a day, the signing of a record (its id; none
-- without hubKey), and ael.GenesisPrev.
pub record Recorder : Type 0 where
  pub build : List Leaf → ℤ → Option Tree
  pub sign : Option (Epoch → Option ℕ)
  pub genesis_prev : ℕ

-- supply_chain, and liab_leaf by to_day with its count in liab_meta.
pub record Published : Type 0 where
  pub chain : List Epoch
  pub leaves : List (ℤ × List Leaf)

-- Why nothing is published.
pub data NotPublished : Type 0 where
  no_signing_key not_due supply_mismatch unsigned not_unique : NotPublished

pub data Closing : Type 0 where
  stays : NotPublished → Closing
  publishes : Epoch → Totals → Published → Closing

-- The rows of closeEpochTx's query: the balances but the hub's own row, and 0 for the registered
-- without one. A negative balance ends it.
abbrev pub add_leaf : Leaf → Option (List Leaf) → Option (List Leaf)
add_leaf x none = none
add_leaf x (some xs) = some (x ∷ xs)

abbrev pub balance_leaf : ℕ → ℤ → Option (List Leaf) → Option (List Leaf)
balance_leaf aid (pos n) rest = add_leaf (record { aid = aid; balance = n }) rest
balance_leaf aid (negsuc n) rest = none

unfoldable pub balance_leaves : ℕ → Table ℤ → Option (List Leaf)
balance_leaves hub [] = some []
balance_leaves hub (e ∷ d) =
    let rest = balance_leaves hub d in if e.0 == hub then rest else balance_leaf e.0 e.1 rest

unfoldable pub agent_leaves : ℕ → Table ℤ → Table ℕ → Option (List Leaf) → Option (List Leaf)
agent_leaves hub balances [] rest = rest
agent_leaves hub balances (e ∷ d) rest =
    let more = agent_leaves hub balances d rest in
    if e.0 == hub || contains e.0 balances
    then more
    else add_leaf (record { aid = e.0; balance = 0 }) more

unfoldable pub leaves_of : ℕ → Ledger → Option (List Leaf)
leaves_of hub l = agent_leaves hub l.balances l.agents (balance_leaves hub l.balances)

-- supplyHead: the epoch with the largest seq.
abbrev pub later : Epoch → Option Epoch → Option Epoch
later e none = some e
later e (some f) = if ltb f.seq e.seq then some e else some f

abbrev pub supply_head : List Epoch → Option Epoch
supply_head [] = none
supply_head (e ∷ es) = later e (supply_head es)

abbrev pub next_seq : Option Epoch → ℕ
next_seq none = 0
next_seq (some e) = e.seq + 1

abbrev pub prev_of : ℕ → Option Epoch → ℕ
prev_of genesis none = genesis
prev_of genesis (some e) = e.id

abbrev pub has_id : ℕ → List Epoch → Bool
has_id id [] = false
has_id id (e ∷ es) = if id == e.id then true else has_id id es

abbrev pub has_day : ℤ → List Epoch → Bool
has_day d [] = false
has_day d (e ∷ es) = if eqb_ℤ e.to_day d then true else has_day d es

-- epochEvents, epochDays, and proofKeptFor in ms.
abbrev pub epoch_events : ℕ
epoch_events = 20

abbrev pub epoch_days : ℤ
epoch_days = pos 7

abbrev pub proof_kept_for : ℤ
proof_kept_for = pos 1209600000

-- The tree's sum against issued − redeemed and the hub's row.
abbrev pub adds_up : Tree → ℤ → ℤ → Bool
adds_up t outstanding hub_row =
    not (ltb_ℤ outstanding (pos 0))
    && eqb_ℤ (pos t.outstanding) outstanding
    && eqb_ℤ hub_row (pos 0 -ℤ outstanding)

abbrev pub draft : ℕ → ℕ → ℤ → ℤ → Tree → ℕ → Epoch
draft seq prev from to t now = record {
  seq = seq;
  id = 0;
  prev_id = prev;
  from_day = from;
  to_day = to;
  root = t.root;
  outstanding = t.outstanding;
  depth = t.depth;
  published_at = unix_milli now;
}

-- closeEpochTx and the commit, once the tree is built.
unfoldable pub write_epoch : (Epoch → Option ℕ) → Epoch → Tree → Totals → Published → Closing
write_epoch sign e t k p = elim (sign e) [
  | none ↦ stays unsigned
  | some id ↦
      let e' : Epoch = record e { id = id } in
      if has_id id p.chain
      then stays not_unique
      else publishes e' (record k { events_since_publish = 0; last_to_day = some e.to_day })
          (record { chain = e' ∷ p.chain; leaves = (e.to_day, t.entries) ∷ p.leaves })
]

unfoldable pub close_epoch :
    Recorder → (Epoch → Option ℕ) → ℕ → ℕ → ℤ → ℤ → Ledger → Published → Closing
close_epoch rec sign hub now from to l p = elim (leaves_of hub l) [
  | none ↦ stays supply_mismatch
  | some leaves ↦ elim (rec.build leaves to) [
    | none ↦ stays supply_mismatch
    | some t ↦
        let head = supply_head p.chain in
        if adds_up t (l.totals.issued -ℤ l.totals.redeemed) (value_of hub l.balances)
        then write_epoch sign (draft (next_seq head) (prev_of rec.genesis_prev head) from to t now)
            t l.totals p
        else stays supply_mismatch
  ]
]

-- Whether an epoch up to the day `d` is due after the day `last`.
abbrev pub is_due_after : ℤ → ℤ → ℕ → Bool
is_due_after d last events =
    ltb_ℤ last d
    && not (ltb_ℤ d (pos 0))
    && not (ltb events epoch_events && ltb_ℤ (d -ℤ last) epoch_days)

-- publishDueAt
unfoldable pub publish_due : Recorder → ℕ → ℕ → Ledger → Published → Closing
publish_due rec hub now l p = elim rec.sign [
  | none ↦ stays no_signing_key
  | some sign ↦ if hub == 0 then stays no_signing_key else elim l.totals.last_to_day [
    | none ↦ stays not_due
    | some last ↦
        let d = utc_day now -ℤ pos 1 in
        if is_due_after d last l.totals.events_since_publish && not (has_day d p.chain)
        then close_epoch rec sign hub now (last +ℤ pos 1) d l p
        else stays not_due
  ]
]

-- pruneLiabilityProofsAt: the leaves of the epochs published 14 days ago or more.
abbrev pub is_old : ℤ → List Epoch → ℤ → Bool
is_old now [] day = false
is_old now (e ∷ es) day =
    if eqb_ℤ e.to_day day && leb_ℤ proof_kept_for (now -ℤ e.published_at)
    then true
    else is_old now es day

abbrev pub prune_leaves : ℤ → List Epoch → List (ℤ × List Leaf) → List (ℤ × List Leaf)
prune_leaves now chain [] = []
prune_leaves now chain (x ∷ xs) =
    let rest = prune_leaves now chain xs in if is_old now chain x.0 then rest else x ∷ rest

unfoldable pub prune_proofs : ℕ → Published → Published
prune_proofs now p = record p { leaves = prune_leaves (unix_milli now) p.chain p.leaves }

-- Supply, as far as it is checked, and Consistent.
pub record Supply : Type 0 where
  pub issued : ℤ
  pub redeemed : ℤ
  pub outstanding : ℤ
  pub balances : ℤ
  pub hub_row : ℤ
  pub events_since_publish : ℕ
  pub owed : ℤ
  pub due : ℤ
  pub latest : Option Epoch

unfoldable pub supply : ℕ → Ledger → Published → Supply
supply hub l p = record {
  issued = l.totals.issued;
  redeemed = l.totals.redeemed;
  outstanding = l.totals.issued -ℤ l.totals.redeemed;
  balances = sum_except hub l.balances;
  hub_row = value_of hub l.balances;
  events_since_publish = l.totals.events_since_publish;
  owed = sum l.owed;
  due = sum l.due;
  latest = supply_head p.chain;
}

unfoldable pub consistent : Supply → Bool
consistent s = eqb_ℤ s.balances s.outstanding && eqb_ℤ s.hub_row (pos 0 -ℤ s.outstanding)
