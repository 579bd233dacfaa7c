-- ===== src/Revoke/Tests.antt =====
-- An owner revokes a credential while a send asks about it.
use anet_hub.Prelude.{ℕ, ◌+◌, ◌≤◌, ◌<◌, ◌≡◌, refl, true, some, [], ◌∷◌, arith}
use anet_hub.Revoke.{
  cap_revoked, Key, Rows, find, live_row, count_live, key_of, revoke_caps, revoked, max_per_owner,
  put, add, World, asked, read, untold, told, misses, reads, puts, commits, tells, here, next,
}
use anet_hub.Revoke.Count.{count_live-revoke_caps, revoke_caps_all}
use anet_hub.Revoke.Refuses.{started, cap_revoked_refuses}

-- The owner 1 revoked 7 long ago, and 8 lately.
abbrev rows : Rows
rows = (key_of 1 7, 5) ∷ (key_of 1 8, 2678400100) ∷ []

abbrev rows_after : Rows
rows_after = (key_of 1 7, 2678400200) ∷ (key_of 1 8, 2678400100) ∷ (key_of 1 9, 2678400200) ∷ []

batch :
    revoke_caps (λ _. 16) 1 2678400200 (7 ∷ 8 ∷ 9 ∷ 7 ∷ []) rows
    ≡ revoked 2 3 (7 ∷ 9 ∷ []) rows_after
unfolding revoke_caps count_live
batch = refl

count_live-revoke_caps_example :
    (count_live 1 2678400200 rows_after ≡ 3)
    × (3 ≡ count_live 1 2678400200 rows + 2)
    × (3 ≤ max_per_owner)
count_live-revoke_caps_example =
    count_live-revoke_caps (λ _. 16) 1 2678400200 (7 ∷ 8 ∷ 9 ∷ 7 ∷ []) (7 ∷ 9 ∷ []) 2 3 rows
      rows_after batch

revoke_caps_all_example : live_row 2678400200 (find (key_of 1 8) rows_after) ≡ true
revoke_caps_all_example =
    revoke_caps_all (λ _. 16) 1 2678400200 8 (7 ∷ 8 ∷ 9 ∷ 7 ∷ []) (7 ∷ 9 ∷ []) 2 3 rows rows_after
      batch refl

-- A send misses the cache, reads the table and caches what it read; then 9 is revoked.
abbrev asked_once : World
asked_once = record (started rows) { readers = (3, asked 0 (key_of 1 9)) ∷ [] }

abbrev read_once : World
read_once = record asked_once { readers = (3, read 0 (key_of 1 9) 0) ∷ [] }

abbrev cached_once : World
cached_once = record read_once { cache = put 0 (key_of 1 9) 0 read_once.cache }

abbrev committed_once : World
committed_once = record cached_once {
  rows = rows_after;
  pending = untold 1 (7 ∷ 9 ∷ []) 2678400200;
}

abbrev revoked_once : World
revoked_once = record committed_once {
  cache = add 1 (7 ∷ 9 ∷ []) 2678400200 committed_once.cache;
  pending = told;
}

rows_dated : (j : Key) (at : ℕ) → find j rows ≡ some at → 0 < at
rows_dated j at e = ground arith

cap_revoked_refuses_example :
    (cap_revoked (key_of 1 9) 2678400300 revoked_once.rows revoked_once.cache).0 ≡ true
cap_revoked_refuses_example =
    cap_revoked_refuses rows (key_of 1 9) 2678400300 rows_dated
      (next revoked_once
        (next committed_once
          (next cached_once
            (next read_once (next asked_once here (misses 3 (key_of 1 9) refl))
              (reads 3 0 (key_of 1 9) refl refl))
            (puts 3 0 (key_of 1 9) 0 refl refl))
          (commits (λ _. 16) 1 2678400200 (7 ∷ 8 ∷ 9 ∷ 7 ∷ []) (7 ∷ 9 ∷ []) 2 3 rows_after
            (omega arith) refl batch refl))
        (tells 1 (7 ∷ 9 ∷ []) 2678400200 refl refl))
      refl refl
