-- ===== src/Quota.antt =====
-- internal/aghub/quota.go: what one recipient takes from senders that are not its contacts, and the
-- cache of the raised values in the hub process.
pub mod Laws
mod Tests
use anet_hub.Prelude.{
  ℕ, ◌+◌, ◌-◌, ◌*◌, suc, Bool, true, false, Option, none, some, [], ◌∷◌, ◌&&◌, ◌||◌, not, ltb, leb,
  if◌then◌else◌,
}
use anet_hub.Prelude.Int.{ℤ, pos, negsuc, ltb_ℤ, eqb_ℤ}
use anet_hub.Prelude.Table.{Table, lookup, insert, erase}

-- Quota
pub record Quota : Type 0 where
  pub first_contacts_per_min : ℤ
  pub non_contact_msgs : ℤ
  pub non_contact_bytes : ℤ

-- DefaultQuota, with 64 MiB of bytes.
abbrev pub default_quota : Quota
default_quota = record {
  first_contacts_per_min = pos 30;
  non_contact_msgs = pos 500;
  non_contact_bytes = pos 67108864;
}

-- QuotaChange
pub record QuotaChange : Type 0 where
  pub first_contacts_per_min : Option ℤ
  pub non_contact_msgs : Option ℤ
  pub non_contact_mib : Option ℤ

-- The names of the values, and SetQuota's refusals.
pub data Field : Type 0 where
  first_contacts msgs mib : Field

pub data Refused : Type 0 where
  below_default : Field → ℤ → Refused
  too_large : Refused

abbrev pub max_quota_value : ℤ
max_quota_value = pos 2147483647

-- One turn of Check's loop.
abbrev pub check_value : Field → Option ℤ → ℤ → Option Refused
check_value f none least = none
check_value f (some v) least =
    if ltb_ℤ v least
    then some (below_default f least)
    else if ltb_ℤ max_quota_value v
    then some too_large
    else none

abbrev pub or_else : Option Refused → Option Refused → Option Refused
or_else none r = r
or_else (some e) r = some e

unfoldable pub check : QuotaChange → Option Refused
check ch = or_else (check_value first_contacts ch.first_contacts_per_min (pos 30)) (
    or_else (check_value msgs ch.non_contact_msgs (pos 500))
      (check_value mib ch.non_contact_mib (pos 64)))

-- v << 20
abbrev pub mib_bytes : ℤ → ℤ
mib_bytes (pos n) = pos (n * 1048576)
mib_bytes (negsuc n) = negsuc (suc n * 1048576 - 1)

abbrev pub or_kept : Option ℤ → ℤ → ℤ
or_kept none v = v
or_kept (some v) _ = v

abbrev pub or_kept_mib : Option ℤ → ℤ → ℤ
or_kept_mib none v = v
or_kept_mib (some v) _ = mib_bytes v

unfoldable pub change : QuotaChange → Quota → Quota
change ch q = record {
  first_contacts_per_min = or_kept ch.first_contacts_per_min q.first_contacts_per_min;
  non_contact_msgs = or_kept ch.non_contact_msgs q.non_contact_msgs;
  non_contact_bytes = or_kept_mib ch.non_contact_mib q.non_contact_bytes;
}

abbrev pub is_default : Quota → Bool
is_default q =
    eqb_ℤ q.first_contacts_per_min (pos 30)
    && eqb_ℤ q.non_contact_msgs (pos 500)
    && eqb_ℤ q.non_contact_bytes (pos 67108864)

-- QuotaOf, on the rows of quota_override.
abbrev pub or_default : Option Quota → Quota
or_default none = default_quota
or_default (some q) = q

unfoldable pub quota_of : ℕ → Table Quota → Quota
quota_of aid rows = or_default (lookup aid rows)

-- quotaCache, and the store with it.
pub record Cache : Type 0 where
  pub rows : Table Quota
  pub read_at : ℕ
  pub valid : Bool

pub record Store : Type 0 where
  pub overrides : Table Quota
  pub cache : Cache

pub data Answer : Type 0 where
  refused : Refused → Answer
  changed : Quota → Answer

-- The write of SetQuota: a quota back at every default leaves no row.
unfoldable pub write_quota : ℕ → Quota → Table Quota → Table Quota
write_quota aid q rows = if is_default q then erase aid rows else insert aid q rows

unfoldable pub set_quota : ℕ → QuotaChange → Store → Answer × Store
set_quota aid ch s = elim (check ch) [
  | some r ↦ (refused r, s)
  | none ↦
      let q = change ch (quota_of aid s.overrides) in
      (
        changed q,
        record {
          overrides = write_quota aid q s.overrides;
          cache = record s.cache { valid = false };
        },
      )
]

abbrev pub max_ℤ : ℤ → ℤ → ℤ
max_ℤ a b = if ltb_ℤ a b then b else a

abbrev pub raised : Quota → Quota
raised q = record {
  first_contacts_per_min = max_ℤ q.first_contacts_per_min (pos 30);
  non_contact_msgs = max_ℤ q.non_contact_msgs (pos 500);
  non_contact_bytes = max_ℤ q.non_contact_bytes (pos 67108864);
}

-- readQuotaOverrides
abbrev pub read_overrides : Table Quota → Table Quota
read_overrides [] = []
read_overrides (e ∷ d) = (e.0, raised e.1) ∷ read_overrides d

-- quotaRefresh, in ns.
abbrev pub quota_refresh : ℕ
quota_refresh = 30000000000

abbrev pub is_due : ℕ → Cache → Bool
is_due now c = not c.valid || leb (c.read_at + quota_refresh) now || ltb now c.read_at

-- QuotaFor at the time `now`; whether the table can be read is the database's to say.
unfoldable pub quota_for : ℕ → Bool → ℕ → Store → Quota × Store
quota_for now readable aid s =
    let c =
      (if is_due now s.cache && readable
        then record { rows = read_overrides s.overrides; read_at = now; valid = true }
        else s.cache) in
    (or_default (lookup aid c.rows), record s { cache = c })
