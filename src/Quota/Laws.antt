-- ===== src/Quota/Laws.antt =====
-- Quotas in force, and changes of them (internal/aghub/quota.go).
use anet_hub.Prelude.{
  ℕ, ◌≡◌, refl, sym, ◌∙◌, Bool, true, false, Option, none, some, [], ◌∷◌, inl, inr, Bool-cases,
  ◌==◌, ◌&&◌, if◌then◌else◌, arith,
}
use anet_hub.Prelude.Int.{pos, ◌≤ℤ◌, int_laws}
use anet_hub.Prelude.Table.{Table, lookup, lookup-insert, lookup-erase}
use anet_hub.Quota.{
  Quota, QuotaChange, check, change, is_default, or_default, quota_of, Store, write_quota,
  set_quota, raised, read_overrides, quota_for, default_quota, is_due,
}

-- No value is below its default.
pub record IsFloored (q : Quota) : Type 0 where
  pub contacts : pos 30 ≤ℤ q.first_contacts_per_min
  pub msgs : pos 500 ≤ℤ q.non_contact_msgs
  pub bytes : pos 67108864 ≤ℤ q.non_contact_bytes

default_quota-IsFloored : IsFloored default_quota
default_quota-IsFloored = record { contacts = omega arith; msgs = omega arith; bytes = omega arith }

raised-IsFloored : (q : Quota) → IsFloored (raised q)
raised-IsFloored q = record { contacts = ground arith; msgs = ground arith; bytes = ground arith }

-- A floored quota is what the hub process reads of it.
raised_floored : (q : Quota) → IsFloored q → raised q ≡ q
raised_floored q f = ground (arith, f.contacts, f.msgs, f.bytes)

change-IsFloored :
    (ch : QuotaChange) (q : Quota) → check ch ≡ none → IsFloored q → IsFloored (change ch q)
unfolding check change
change-IsFloored ch q ok f = record {
  contacts = ground (arith, f.contacts);
  msgs = ground (arith, f.msgs);
  bytes = ground (arith, f.bytes);
}

read_overrides-IsFloored :
    (aid : ℕ) (d : Table Quota) → IsFloored (or_default (lookup aid (read_overrides d)))
read_overrides-IsFloored aid [] = default_quota-IsFloored
read_overrides-IsFloored aid (e ∷ d) = elim (Bool-cases (aid == e.0)) [
  | inl own ↦ rw own (raised-IsFloored e.1)
  | inr other ↦ rw other (read_overrides-IsFloored aid d)
]

own_branch : (aid : ℕ) (q r : Quota) → (if aid == aid then q else r) ≡ q
own_branch aid q r = ground arith

first_row :
    (c : Bool) (x : Quota) (o : Option Quota) {q : Quota}
    → c ≡ true
    → or_default (if c then some x else o) ≡ q
    → x ≡ q
first_row true x o own e = e
first_row false x o own e = cc

later_row :
    (c : Bool) (x : Quota) (o : Option Quota) {q : Quota}
    → c ≡ false
    → or_default (if c then some x else o) ≡ q
    → or_default o ≡ q
later_row true x o other e = cc
later_row false x o other e = e

-- What is read of a floored quota is that quota.
read_floored :
    (aid : ℕ) (q : Quota) (d : Table Quota)
    → quota_of aid d ≡ q
    → IsFloored q
    → or_default (lookup aid (read_overrides d)) ≡ q
unfolding quota_of
read_floored aid q [] e f = e
read_floored aid q (x ∷ d) e f = elim (Bool-cases (aid == x.0)) [
  | inl own ↦
      let same : x.1 ≡ q = first_row (aid == x.0) x.1 (lookup aid d) own e in
      rw own (rw same (raised_floored q f))
  | inr other ↦
      rw other (read_floored aid q d (later_row (aid == x.0) x.1 (lookup aid d) other e) f)
]

set_quota_cache :
    (aid : ℕ) (ch : QuotaChange) (s : Store)
    → check ch ≡ none
    → (set_quota aid ch s).1.cache.valid ≡ false
unfolding set_quota
set_quota_cache aid ch s ok = rw (ok, set_quota) refl

-- Whatever is in the table, written by hand or not, and whether or not it can be read, no quota in
-- force is below its default, and what is kept for the next lookup is not either, where nothing kept
-- before was.
pub quota_for-IsFloored :
    (now : ℕ) (readable : Bool) (aid : ℕ) (s : Store)
    → ((other : ℕ) → IsFloored (or_default (lookup other s.cache.rows)))
    → IsFloored (quota_for now readable aid s).0
      × ((other : ℕ)
          → IsFloored (or_default (lookup other (quota_for now readable aid s).1.cache.rows)))
unfolding quota_for
quota_for-IsFloored now readable aid s f = elim (Bool-cases (is_due now s.cache && readable)) [
  | inl reads ↦ rw reads (
    read_overrides-IsFloored aid s.overrides,
    λ other. read_overrides-IsFloored other s.overrides,
  )
  | inr keeps ↦ rw keeps (f aid, f)
]

is_default_eq : (q : Quota) → is_default q ≡ true → q ≡ default_quota
is_default_eq q h = grind int_laws

quota_of-write_quota :
    (aid other : ℕ) (q : Quota) (d : Table Quota)
    → quota_of other (write_quota aid q d) ≡ (if other == aid then q else quota_of other d)
unfolding quota_of write_quota
quota_of-write_quota aid other q d = elim (Bool-cases (is_default q)) [
  | inl same ↦ elim (Bool-cases (other == aid)) [
    | inl own ↦ rw (same, lookup-erase, own) (sym (is_default_eq q same))
    | inr else_one ↦ rw (same, lookup-erase, else_one) refl
  ]
  | inr other_one ↦ ground (arith, lookup-insert other aid q d)
]

-- An accepted change is what the database then holds for the account, and no other account's quota
-- changes, whether the row is written or, back at every default, deleted.
pub quota_of-set_quota :
    (aid other : ℕ) (ch : QuotaChange) (s : Store)
    → check ch ≡ none
    → quota_of other (set_quota aid ch s).1.overrides
      ≡ (if other == aid then change ch (quota_of aid s.overrides) else quota_of other s.overrides)
unfolding set_quota
quota_of-set_quota aid other ch s ok =
    rw (ok, set_quota)
      (quota_of-write_quota aid other (change ch (quota_of aid s.overrides)) s.overrides)

-- A change made in this process is in force at its next lookup, where the table can be read and
-- held no value below its default for the account.
pub quota_for-set_quota :
    (now aid : ℕ) (ch : QuotaChange) (s : Store)
    → check ch ≡ none
    → IsFloored (quota_of aid s.overrides)
    → (quota_for now true aid (set_quota aid ch s).1).0 ≡ change ch (quota_of aid s.overrides)
unfolding quota_for
quota_for-set_quota now aid ch s ok f =
    let q = change ch (quota_of aid s.overrides) in
    let held : quota_of aid (set_quota aid ch s).1.overrides ≡ q =
      quota_of-set_quota aid aid ch s ok ∙ own_branch aid q _ in
    rw (set_quota_cache aid ch s ok)
      (read_floored aid q (set_quota aid ch s).1.overrides held (change-IsFloored ch _ ok f))
