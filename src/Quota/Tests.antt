-- ===== src/Quota/Tests.antt =====
-- Quotas set and read.
use anet_hub.Prelude.{ℕ, ◌≡◌, refl, true, false, none, some, [], ◌∷◌, ◌==◌, if◌then◌else◌, arith}
use anet_hub.Prelude.Int.{pos}
use anet_hub.Prelude.Table.{lookup}
use anet_hub.Quota.{
  QuotaChange, Store, check, change, or_default, quota_of, set_quota, quota_for, below_default,
  msgs, write_quota,
}
use anet_hub.Quota.Laws.{IsFloored, quota_for-IsFloored, quota_of-set_quota, quota_for-set_quota}

-- The operator raised 2 to 600 messages, and somebody wrote 5 for 3 by hand.
abbrev store : Store
store = record {
  overrides =
      (
        2,
        record {
          first_contacts_per_min = pos 30;
          non_contact_msgs = pos 600;
          non_contact_bytes = pos 67108864;
        },
      )
      ∷ (
        3,
        record {
          first_contacts_per_min = pos 5;
          non_contact_msgs = pos 600;
          non_contact_bytes = pos 67108864;
        },
      )
      ∷ [];
  cache = record { rows = []; read_at = 0; valid = false };
}

abbrev hundred_mib : QuotaChange
hundred_mib = record {
  first_contacts_per_min = none;
  non_contact_msgs = none;
  non_contact_mib = some (pos 100);
}

takes_hundred : check hundred_mib ≡ none
unfolding check
takes_hundred = refl

too_few :
    check (record hundred_mib { non_contact_msgs = some (pos 499) })
    ≡ some (below_default msgs (pos 500))
unfolding check
too_few = refl

-- Back at the defaults, the row goes.
abbrev back : QuotaChange
back = record {
  first_contacts_per_min = none;
  non_contact_msgs = some (pos 500);
  non_contact_mib = none;
}

back_at_default : lookup 2 (set_quota 2 back store).1.overrides ≡ none
unfolding set_quota check change quota_of write_quota
back_at_default = refl

nothing_cached : (other : ℕ) → IsFloored (or_default (lookup other store.cache.rows))
nothing_cached other = record { contacts = omega arith; msgs = omega arith; bytes = omega arith }

quota_for-IsFloored_example :
    IsFloored (quota_for 7 true 3 store).0
    × ((other : ℕ) → IsFloored (or_default (lookup other (quota_for 7 true 3 store).1.cache.rows)))
quota_for-IsFloored_example = quota_for-IsFloored 7 true 3 store nothing_cached

quota_of-set_quota_example : quota_of 3 (set_quota 2 hundred_mib store).1.overrides ≡ (
    if 3 == 2 then change hundred_mib (quota_of 2 store.overrides) else quota_of 3 store.overrides)
quota_of-set_quota_example = quota_of-set_quota 2 3 hundred_mib store takes_hundred

two-IsFloored : IsFloored (quota_of 2 store.overrides)
unfolding quota_of
two-IsFloored = record { contacts = omega arith; msgs = omega arith; bytes = omega arith }

quota_for-set_quota_example :
    (quota_for 9 true 2 (set_quota 2 hundred_mib store).1).0
    ≡ change hundred_mib (quota_of 2 store.overrides)
quota_for-set_quota_example = quota_for-set_quota 9 2 hundred_mib store takes_hundred two-IsFloored
