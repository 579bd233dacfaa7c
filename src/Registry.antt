-- ===== src/Registry.antt =====
-- The registry's tables (internal/aghub/aghub.go coreSchema, admission.go admissionSchema), and what
-- its operations fail with. The kel column of agent is the ledger's `agents`; `accounts` has the
-- row's other columns, less summary, readme, tip_seq, tip_head, dir_hash and dir_box.
pub mod Departs
use anet_hub.Prelude.{ℕ, ◌≡◌, refl, ◌⊎◌, inl, inr, Bool, true, false, Option, List, ◌==◌, arith}
use anet_hub.Prelude.Int.{ℤ}
use anet_hub.Prelude.Table.{Table}
use anet_hub.Ledger.State.{Fault, Ledger, Result, err, ok}
use anet_hub.Quota.{Quota}

-- How an account came in, and where its trial credit stands. `via_registered` is never written.
pub data Via : Type 0 where
  via_list via_window via_open via_registered : Via

pub data Trial : Type 0 where
  trial_none trial_pending trial_granted : Trial

pub data Visibility : Type 0 where
  hub_local federated public : Visibility

-- A row of agent. The times of registered_at and last_seen_at are in seconds.
pub record Account : Type 0 where
  pub name : ℕ
  pub caps : List ℕ
  pub registered_at : ℕ
  pub visibility : Visibility
  pub last_seen_at : Option ℕ
  pub admitted_via : Via
  pub probation_until : Option ℤ
  pub trial : Trial

-- A row of admitted.
pub record Admission : Type 0 where
  pub label : ℕ
  pub grant : ℤ
  pub granted : Bool
  pub created_at : ℤ

-- A row of admission_window, under its id.
pub record Window : Type 0 where
  pub opens_at : ℤ
  pub closes_at : ℤ
  pub max_places : ℤ
  pub used : ℤ
  pub label : ℕ

-- The value under metaAdmissionMode.
pub data Mode : Type 0 where
  mode_closed mode_open : Mode
  mode_other : ℕ → Mode

-- The tables whose rows belong to one AID.
pub data AidTable : Type 0 where
  agent_cap agent_keys agent_a2a_card agent_skill agent_tag relay_message : AidTable
  cap_revocation notice_cache restore_released : AidTable

abbrev table_number : AidTable → ℕ
table_number agent_cap = 0
table_number agent_keys = 1
table_number agent_a2a_card = 2
table_number agent_skill = 3
table_number agent_tag = 4
table_number relay_message = 5
table_number cap_revocation = 6
table_number notice_cache = 7
table_number restore_released = 8

abbrev pub same_table : AidTable → AidTable → Bool
same_table t u = table_number t == table_number u

-- The database. `rows` has what the tables of an AID hold for it, `withdrawn` is
-- a2a_card_withdrawal in the order of fed_seq, `tombstones` departed_kel, `kel_changes` kel_hwm.n,
-- `restoring` whether restore_state has a row, `reviewed` whether a review is about the AID.
pub record Store : Type 0 where
  pub ledger : Ledger
  pub accounts : Table Account
  pub rows : AidTable → Table (List ℕ)
  pub withdrawn : Table ℕ
  pub admitted : Table Admission
  pub windows : Table Window
  pub last_window : ℕ
  pub mode : Option Mode
  pub tombstones : Table (ℕ × ℕ)
  pub quotas : Table Quota
  pub dereg_events : Table ℤ
  pub kel_changes : ℕ
  pub restoring : Bool
  pub reviewed : ℕ → Bool

-- What the package identity of ANetCore, and seal, say: UnmarshalKEL (the ids of the events),
-- ExtendsKEL, an event's seq, the seq a signed key set states, and ValidAID.
pub record Kels : Type 0 where
  pub decode : ℕ → Option (List ℕ)
  pub extends : List ℕ → List ℕ → Bool
  pub seq_of : ℕ → ℕ
  pub keys_seq : ℕ → Option ℕ
  pub valid_aid : ℕ → Bool

-- What an operation fails with.
pub data Failure : Type 0 where
  ledger_fault : Fault → Failure
  window_exists : ℕ × Window → Failure
  bad_aid not_listed window_too_big negative_grant unknown_mode window_filled : Failure
  not_admitted deregistered_meanwhile not_registered tombstone_shrinks : Failure
  unknown_reason unknown_route kel_not_extended kel_undecodable too_many_caps : Failure

pub data Outcome (A : Type 0) : Type 0 where
  fails : Failure → Outcome A
  done : A → Outcome A

abbrev pub stop_if : Bool → Failure → Outcome (Unit {0})
stop_if false failure = done tt
stop_if true failure = fails failure

abbrev pub in_ledger : {A : Type 0} → Result A → Outcome A
in_ledger (err fault) = fails (ledger_fault fault)
in_ledger (ok value) = done value

-- A failure ends the transaction.
infixl 5 ◌>>=◌ ◌>>◌
abbrev pub ◌>>=◌ : {A B : Type 0} → Outcome A → (A → Outcome B) → Outcome B
fails failure >>= rest = fails failure
done value >>= rest = rest value

abbrev pub ◌>>◌ : {A B : Type 0} → Outcome A → Outcome B → Outcome B
step >> rest = step >>= λ _. rest

pub >>=-eq-done :
    {A B : Type 0} (step : Outcome A) (rest : A → Outcome B) {result : B}
    → (step >>= rest) ≡ done result
    → (value : A) × (step ≡ done value) × (rest value ≡ done result)
>>=-eq-done (fails failure) rest through = cc
>>=-eq-done (done value) rest through = (value, refl, through)

pub stop_if-bind :
    {A : Type 0} (c : Bool) (e : Failure) (k : Outcome A) {a : A}
    → (stop_if c e >> k) ≡ done a
    → (c ≡ false) × (k ≡ done a)
stop_if-bind true e k h = cc
stop_if-bind false e k h = (refl, h)

pub in_ledger-eq-done : {A : Type 0} (r : Result A) {a : A} → in_ledger r ≡ done a → r ≡ ok a
in_ledger-eq-done (err fault) h = cc
in_ledger-eq-done (ok value) h = ground (arith, h)

pub done_store :
    {A : Type 0} {x y : A} {s t : Store}
    → ◌≡◌ {A = Outcome (A × Store)} (done (x, s)) (done (y, t))
    → t ≡ s
done_store h = ground (arith, h)

pub Outcome-cases :
    {A : Type 0} (o : Outcome A) → ((e : Failure) × (o ≡ fails e)) ⊎ ((a : A) × (o ≡ done a))
Outcome-cases (fails e) = inl (e, refl)
Outcome-cases (done a) = inr (a, refl)
