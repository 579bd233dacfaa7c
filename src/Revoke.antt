-- ===== src/Revoke.antt =====
-- internal/aghub/revoke.go: the revocations of delivery credentials, and the cache in front of them.
-- Times are unix ms. A capability id is a text; `length_of` is the length of its bytes.
pub mod Rows
pub mod Count
pub mod Cache
pub mod Refuses
mod Tests
use anet_hub.Prelude.{
  ℕ, ◌+◌, ◌≡◌, ◌<◌, max, Bool, true, false, Option, none, some, List, [], ◌∷◌, ◌==◌, ◌&&◌, not, ltb,
  length, take, if◌then◌else◌,
}
use anet_hub.Prelude.Table.{Table, lookup, insert}

-- The primary key of cap_revocation, which is the cache's key too (revokedKey).
pub record Key : Type 0 where
  pub owner : ℕ
  pub cap : ℕ

abbrev pub same_key : Key → Key → Bool
same_key a b = a.owner == b.owner && a.cap == b.cap

-- cap_revocation: each key's revoked_at. The cache keeps the same pairs.
abbrev pub Rows : Type 0
Rows = List (Key × ℕ)

abbrev pub find : Key → Rows → Option ℕ
find k [] = none
find k (e ∷ d) = if same_key k e.0 then some e.1 else find k d

abbrev pub upsert : Key → ℕ → Rows → Rows
upsert k at [] = (k, at) ∷ []
upsert k at (e ∷ d) = if same_key k e.0 then (k, at) ∷ d else e ∷ upsert k at d

abbrev pub remove : Key → Rows → Rows
remove k [] = []
remove k (e ∷ d) = let rest = remove k d in if same_key k e.0 then rest else e ∷ rest

-- RevocationKeep, MaxRevocationsPerOwner, seal.CapIDLen, revokedCacheSize
abbrev pub revocation_keep : ℕ
revocation_keep = 2678400000

abbrev pub max_per_owner : ℕ
max_per_owner = 100000

abbrev pub cap_id_len : ℕ
cap_id_len = 16

abbrev pub cache_size : ℕ
cache_size = 65536

-- revoked_at > revocationCutoff(now)
abbrev pub is_live : ℕ → ℕ → Bool
is_live now at = ltb now (at + revocation_keep)

abbrev pub live_row : ℕ → Option ℕ → Bool
live_row now none = false
live_row now (some at) = is_live now at

-- SELECT COUNT(*) … WHERE owner=? AND revoked_at>?, which is RevocationCount too.
unfoldable pub count_live : ℕ → ℕ → Rows → ℕ
count_live owner now [] = 0
count_live owner now (e ∷ d) =
    (if e.0.owner == owner && is_live now e.1 then 1 else 0) + count_live owner now d

abbrev pub key_of : ℕ → ℕ → Key
key_of owner cap = record { owner = owner; cap = cap }

-- The loops of RevokeCaps: each id once, and those that are not revoked or whose revocation expired.
abbrev pub listed : ℕ → List ℕ → Bool
listed id [] = false
listed id (x ∷ xs) = if id == x then true else listed id xs

abbrev pub uniq : List ℕ → List ℕ → List ℕ
uniq seen [] = []
uniq seen (id ∷ ids) = elim (listed id seen) [
  | true ↦ uniq seen ids
  | false ↦ id ∷ uniq (id ∷ seen) ids
]

abbrev pub fresh : ℕ → ℕ → Rows → List ℕ → List ℕ
fresh owner now rows [] = []
fresh owner now rows (id ∷ ids) =
    let rest = fresh owner now rows ids in
    if live_row now (find (key_of owner id) rows) then rest else id ∷ rest

abbrev pub write_all : ℕ → ℕ → List ℕ → Rows → Rows
write_all owner at [] rows = rows
write_all owner at (id ∷ ids) rows = write_all owner at ids (upsert (key_of owner id) at rows)

abbrev pub all_sized : (ℕ → ℕ) → List ℕ → Bool
all_sized length_of [] = true
all_sized length_of (id ∷ ids) = length_of id == cap_id_len && all_sized length_of ids

-- What RevokeCaps answers, with what it committed.
pub data Revoked : Type 0 where
  bad_id : Revoked
  list_full : ℕ → Revoked
  revoked : (count total : ℕ) → (fresh_ids : List ℕ) → Rows → Revoked

unfoldable pub revoke_caps : (ℕ → ℕ) → ℕ → ℕ → List ℕ → Rows → Revoked
revoke_caps length_of owner now ids rows =
    let total = count_live owner now rows in
    let new = fresh owner now rows (uniq [] ids) in
    if not (all_sized length_of ids)
    then bad_id
    else if ltb max_per_owner (total + length new)
    then list_full total
    else revoked (length new) (total + length new) new (write_all owner now new rows)

-- revokedCache: `entries` is its list with the most recently used in front.
pub record Cached : Type 0 where
  pub gen : ℕ
  pub entries : Rows

abbrev pub to_front : Key → ℕ → Rows → Rows
to_front k at d = (k, at) ∷ remove k d

abbrev pub answer : ℕ → ℕ → Bool
answer now at = not (at == 0) && is_live now at

unfoldable pub get : Key → ℕ → Cached → Option Bool × Cached
get k now c = elim (find k c.entries) [
  | none ↦ (none, c)
  | some at ↦ (some (answer now at), record c { entries = to_front k at c.entries })
]

-- put, with set: past the size the least recently used goes.
unfoldable pub put : ℕ → Key → ℕ → Cached → Cached
put gen k at c =
    if gen == c.gen
    then record c {
      entries = elim (find k c.entries) [
        | some _ ↦ to_front k at c.entries
        | none ↦ take cache_size ((k, at) ∷ c.entries)
      ];
    }
    else c

abbrev pub covers : ℕ → List ℕ → Key → Bool
covers owner ids k = k.owner == owner && listed k.cap ids

abbrev pub mark : ℕ → List ℕ → ℕ → Rows → Rows
mark owner ids at [] = []
mark owner ids at (e ∷ d) =
    (e.0, if covers owner ids e.0 then max at 1 else e.1) ∷ mark owner ids at d

unfoldable pub add : ℕ → List ℕ → ℕ → Cached → Cached
add owner ids at c = record { gen = c.gen + 1; entries = mark owner ids at c.entries }

abbrev pub forget : Cached → Cached
forget c = record { gen = c.gen + 1; entries = [] }

-- The hub process between its steps: the table, the cache, the calls of CapRevoked that missed the
-- cache (with the generation each took, and then the row it read), and the one RevokeCaps, holding
-- the store's mutex, that has committed and not yet told the cache.
pub data Reader : Type 0 where
  asked : (gen : ℕ) → Key → Reader
  read : (gen : ℕ) → Key → (at : ℕ) → Reader

pub data Pending : Type 0 where
  told : Pending
  untold : (owner : ℕ) → (ids : List ℕ) → (at : ℕ) → Pending

pub record World : Type 0 where
  pub rows : Rows
  pub cache : Cached
  pub readers : Table Reader
  pub pending : Pending

abbrev pub row_at : Option ℕ → ℕ
row_at none = 0
row_at (some at) = at

-- The rows that stay when some go: a purge, a deregistration or a new mailbox epoch.
abbrev pub keep_rows : (Key × ℕ → Bool) → Rows → Rows
keep_rows kept [] = []
keep_rows kept (e ∷ d) = let rest = keep_rows kept d in if kept e then e ∷ rest else remove e.0 rest

-- PurgeExpiredRevocations
unfoldable pub purge : ℕ → Rows → Rows
purge now rows = keep_rows (λ e. is_live now e.1) rows

-- CapRevoked, where no other step comes between its own.
unfoldable pub cap_revoked : Key → ℕ → Rows → Cached → Bool × Cached
cap_revoked k now rows c = elim ((get k now c).0) [
  | some b ↦ (b, (get k now c).1)
  | none ↦
      let found = find k rows in
      (live_row now found, put (get k now c).1.gen k (row_at found) (get k now c).1)
]

pub data Step (w w' : World) : Type 0 where
  asks : (k : Key) (now : ℕ) → w' ≡ record w { cache = (get k now w.cache).1 } → Step w w'
  misses :
      (r : ℕ) (k : Key)
      → w' ≡ record w { readers = insert r (asked w.cache.gen k) w.readers }
      → Step w w'
  reads :
      (r gen : ℕ) (k : Key)
      → lookup r w.readers ≡ some (asked gen k)
      → w' ≡ record w { readers = insert r (read gen k (row_at (find k w.rows))) w.readers }
      → Step w w'
  puts :
      (r gen : ℕ) (k : Key) (at : ℕ)
      → lookup r w.readers ≡ some (read gen k at)
      → w' ≡ record w { cache = put gen k at w.cache }
      → Step w w'
  commits :
      (length_of : ℕ → ℕ) (owner now : ℕ) (ids new : List ℕ) (count total : ℕ) (rows' : Rows)
      → 0 < now
      → w.pending ≡ told
      → revoke_caps length_of owner now ids w.rows ≡ revoked count total new rows'
      → w' ≡ record w { rows = rows'; pending = untold owner new now }
      → Step w w'
  tells :
      (owner : ℕ) (ids : List ℕ) (at : ℕ)
      → w.pending ≡ untold owner ids at
      → w' ≡ record w { cache = add owner ids at w.cache; pending = told }
      → Step w w'
  purges : (now : ℕ) → w' ≡ record w { rows = purge now w.rows } → Step w w'
  deletes : (kept : Key × ℕ → Bool) → w' ≡ record w { rows = keep_rows kept w.rows } → Step w w'
  forgets : w' ≡ record w { cache = forget w.cache } → Step w w'

pub data Run (start : World) : World → Type 0 where
  here : Run start start
  next : {w : World} (w' : World) → Run start w → Step w w' → Run start w'
