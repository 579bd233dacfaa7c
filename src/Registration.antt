-- ===== src/Registration.antt =====
-- internal/aghub/aghub.go putAgent and registerAgent, and hRegister of server.go around them: how an
-- AID's row is written. The directory entry of refreshDirTx is left out.
pub mod Laws
pub mod Flow
use anet_hub.Prelude.{
  ℕ, ◌/◌, Bool, true, false, Option, none, some, List, [], ◌∷◌, ◌++◌, ◌==◌, ◌&&◌, ◌||◌, not, ltb,
  length, if◌then◌else◌,
}
use anet_hub.Prelude.Table.{Table, lookup, insert, contains}
use anet_hub.Registry.{
  Via, via_list, via_registered, trial_none, hub_local, Account, AidTable, agent_cap, agent_keys,
  notice_cache, restore_released, Store, Kels, Outcome, fails, done, stop_if, ◌>>=◌, ◌>>◌,
  deregistered_meanwhile, kel_not_extended, kel_undecodable, too_many_caps,
}
use anet_hub.Registry.Departs.{delete_rows, count_kel_change}
use anet_hub.Admission.{AdmissionWrite, write_admission_tx}

-- A declared capability: its text, the text without the spaces around it, and its length in bytes.
pub record Cap : Type 0 where
  pub declared : ℕ
  pub trimmed : ℕ
  pub size : ℕ

-- What a registration carries: `events` is the key history `kel` decoded, none for PutAgent.
pub record Entry : Type 0 where
  pub aid : ℕ
  pub name : ℕ
  pub caps : List Cap
  pub kel : ℕ
  pub events : Option (List ℕ)

abbrev max_cap_id_len : ℕ
max_cap_id_len = 256

abbrev max_caps_per_agent : ℕ
max_caps_per_agent = 256

abbrev any_long : List Cap → Bool
any_long [] = false
any_long (c ∷ cs) = ltb max_cap_id_len c.size || any_long cs

-- validateCaps
unfoldable pub over_bounds : List Cap → Bool
over_bounds cs = ltb max_caps_per_agent (length cs) || any_long cs

abbrev has : ℕ → List ℕ → Bool
has c [] = false
has c (d ∷ ds) = (c == d) || has c ds

-- The loop of INSERT OR IGNORE.
abbrev index_caps : List Cap → List ℕ → List ℕ
index_caps [] done_so_far = done_so_far
index_caps (c ∷ cs) done_so_far = index_caps cs (
    if (c.trimmed == 0) || has c.trimmed done_so_far
    then done_so_far
    else done_so_far ++ (c.trimmed ∷ []))

abbrev texts : List Cap → List ℕ
texts [] = []
texts (c ∷ cs) = c.declared ∷ texts cs

-- knownKEL: the row's history, or the tombstone's.
abbrev pub first_of : Option ℕ → Option (ℕ × ℕ) → Option ℕ
first_of (some kel) t = some kel
first_of none none = none
first_of none (some t) = some t.0

abbrev pub known_raw : ℕ → Store → Option ℕ
known_raw aid s = first_of (lookup aid s.ledger.agents) (lookup aid s.tombstones)

abbrev pub decoded : Kels → Option ℕ → Outcome (Option (List ℕ))
decoded kels none = done none
decoded kels (some raw) = elim (kels.decode raw) [
  | none ↦ fails kel_undecodable
  | some held ↦ done (some held)
]

unfoldable pub known_kel : Kels → ℕ → Store → Outcome (Option (List ℕ))
known_kel kels aid s = decoded kels (known_raw aid s)

abbrev pub if_extends : Kels → List ℕ → Option (List ℕ) → Outcome Bool
if_extends kels events none = done false
if_extends kels events (some held) =
    if kels.extends held events
    then done (ltb (length held) (length events))
    else fails kel_not_extended

-- Whether the history is longer than the one held, which it extends.
abbrev pub check_extends : Kels → Entry → Store → Outcome Bool
check_extends kels e s = elim e.events [
  | none ↦ done false
  | some events ↦ known_kel kels e.aid s >>= if_extends kels events
]

abbrev new_account : Entry → ℕ → Account
new_account e now = record {
  name = e.name;
  caps = texts e.caps;
  registered_at = now / 1000000000;
  visibility = hub_local;
  last_seen_at = none;
  admitted_via = via_list;
  probation_until = none;
  trial = trial_none;
}

abbrev pub account_row : Entry → ℕ → Option Account → Account
account_row e now none = new_account e now
account_row e now (some a) = record a { name = e.name; caps = texts e.caps }

abbrev put_caps : ℕ → List ℕ → (AidTable → Table (List ℕ)) → AidTable → Table (List ℕ)
put_caps aid [] rows t = delete_rows agent_cap aid rows t
put_caps aid (c ∷ cs) rows agent_cap = insert aid (c ∷ cs) (rows agent_cap)
put_caps aid (c ∷ cs) rows t = rows t

-- The upsert of the row, and the capability index.
abbrev pub write_row : Entry → ℕ → Store → Store
write_row e now s = record s {
  ledger = record s.ledger { agents = insert e.aid e.kel s.ledger.agents };
  accounts = insert e.aid (account_row e now (lookup e.aid s.accounts)) s.accounts;
  rows = put_caps e.aid (index_caps e.caps []) s.rows;
}

abbrev pub is_registered_before : Via → Bool
is_registered_before via_registered = true
is_registered_before v = false

-- What admission writes beside the row, and whether it did.
abbrev pub admit_entry : ℕ → ℕ → Bool → Option AdmissionWrite → ℕ → Store → Outcome (Bool × Store)
admit_entry hub aid existed none now s = done (false, s)
admit_entry hub aid existed (some adm) now s =
    if is_registered_before adm.via
    then (if existed then done (false, s) else fails deregistered_meanwhile)
    else if existed
    then done (false, s)
    else (write_admission_tx hub aid adm now s >>= λ s'. done (true, s'))

abbrev tip_seq : Kels → List ℕ → Option ℕ
tip_seq kels [] = none
tip_seq kels (e ∷ []) = some (kels.seq_of e)
tip_seq kels (e ∷ es) = tip_seq kels es

abbrev tip_of : Kels → Option (List ℕ) → Option ℕ
tip_of kels none = none
tip_of kels (some es) = tip_seq kels es

abbrev drop_rows : AidTable → ℕ → Store → Store
drop_rows u aid s = record s { rows = delete_rows u aid s.rows }

abbrev same_seq : ℕ → Option ℕ → Bool
same_seq n none = false
same_seq n (some m) = n == m

abbrev keys_stand : Kels → ℕ → Option (List ℕ) → Bool
keys_stand kels tip none = true
keys_stand kels tip (some []) = true
keys_stand kels tip (some (raw ∷ more)) = same_seq tip (kels.keys_seq raw)

-- kelChangedTx: the key set of an older key, and the notice, go.
abbrev pub kel_changed_tx : Kels → ℕ → ℕ → Store → Outcome Store
kel_changed_tx kels aid kel s = elim (tip_of kels (kels.decode kel)) [
  | none ↦ fails kel_undecodable
  | some tip ↦ done (
      drop_rows notice_cache aid (
        if keys_stand kels tip (lookup aid (s.rows agent_keys))
        then s
        else drop_rows agent_keys aid s))
]

-- releaseTx, of the row for a longer history.
abbrev put_release : ℕ → (AidTable → Table (List ℕ)) → AidTable → Table (List ℕ)
put_release aid rows restore_released = insert aid (0 ∷ []) (rows restore_released)
put_release aid rows t = rows t

abbrev pub release_tx : ℕ → Store → Store
release_tx aid s =
    if s.restoring && not (contains aid (s.rows restore_released))
    then drop_rows notice_cache aid (record s { rows = put_release aid s.rows })
    else s

abbrev pub is_changed : ℕ → Option ℕ → Bool
is_changed kel none = false
is_changed kel (some held) = not (held == kel)

abbrev pub note_change : Kels → Entry → Option ℕ → Store → Outcome Store
note_change kels e held s = do
  s' ← if is_changed e.kel held then kel_changed_tx kels e.aid e.kel s else done s
  done (elim held [
    | none ↦ count_kel_change s'
    | some k ↦ if k == e.kel then s' else count_kel_change s'
  ])

unfoldable pub put_agent :
    Kels → ℕ → Entry → Option AdmissionWrite → ℕ → Store → Outcome (Bool × Store)
put_agent kels hub e adm now s = do
  stop_if (over_bounds e.caps) too_many_caps
  longer ← check_extends kels e s
  wrote ← admit_entry hub e.aid (contains e.aid s.ledger.agents) adm now (write_row e now s)
  s' ← note_change kels e (lookup e.aid s.ledger.agents) wrote.1
  done (wrote.0, if longer then release_tx e.aid s' else s')

abbrev pub is_empty : Option (List ℕ) → Bool
is_empty none = true
is_empty (some []) = true
is_empty (some es) = false

unfoldable pub register_agent :
    Kels → ℕ → Entry → Option AdmissionWrite → ℕ → Store → Outcome (Bool × Store)
register_agent kels hub e adm now s = do
  stop_if (is_empty e.events) kel_not_extended
  put_agent kels hub e adm now s
