-- ===== src/Revoke/Rows.antt =====
-- The rows of cap_revocation and of its cache, by their keys.
use anet_hub.Prelude.{
  ℕ, zero, suc, ◌≡◌, refl, Bool, true, Option, none, some, List, [], ◌∷◌, take, max, inl, inr,
  Bool-cases, if◌then◌else◌, arith,
}
use anet_hub.Revoke.{
  Key, same_key, Rows, find, upsert, remove, to_front, covers, mark, keep_rows, write_all, key_of,
}

pub find-upsert :
    (j k : Key) (at : ℕ) (d : Rows)
    → find j (upsert k at d) ≡ (if same_key j k then some at else find j d)
find-upsert j k at [] = refl
find-upsert j k at (e ∷ d) = ground (arith, find-upsert j k at d)

pub find-remove :
    (j k : Key) (d : Rows) → find j (remove k d) ≡ (if same_key j k then none else find j d)
find-remove j k [] = ground arith
find-remove j k (e ∷ d) = ground (arith, find-remove j k d)

pub find-to_front :
    (j k : Key) (at : ℕ) (d : Rows)
    → find j (to_front k at d) ≡ (if same_key j k then some at else find j d)
find-to_front j k at d = ground (arith, find-remove j k d)

pub find-take :
    (n : ℕ) (j : Key) (d : Rows) (at : ℕ) → find j (take n d) ≡ some at → find j d ≡ some at
find-take zero j d at e = cc
find-take (suc n) j [] at e = cc
find-take (suc n) j (x ∷ d) at e = ground (arith, find-take n j d at)

same_key-eq : (j k : Key) → same_key j k ≡ true → (j.owner ≡ k.owner) × (j.cap ≡ k.cap)
same_key-eq j k h = ground arith

pub same_key-covers :
    (j k : Key) (owner : ℕ) (ids : List ℕ)
    → same_key j k ≡ true
    → covers owner ids j ≡ covers owner ids k
same_key-covers j k owner ids h = let (p, q) = same_key-eq j k h in rw (p, q) refl

-- What a mark makes of an entry.
abbrev pub marked : Bool → ℕ → Option ℕ → Option ℕ
marked c at none = none
marked c at (some u) = some (if c then max at 1 else u)

pub find-mark :
    (j : Key) (owner : ℕ) (ids : List ℕ) (at : ℕ) (d : Rows)
    → find j (mark owner ids at d) ≡ marked (covers owner ids j) at (find j d)
find-mark j owner ids at [] = refl
find-mark j owner ids at (x ∷ d) = elim (Bool-cases (same_key j x.0)) [
  | inl own ↦ rw (own, same_key-covers j x.0 owner ids own) refl
  | inr other ↦ rw other (find-mark j owner ids at d)
]

pub find-same : (j k : Key) (d : Rows) → same_key j k ≡ true → find j d ≡ find k d
find-same j k [] h = refl
find-same j k (e ∷ d) h =
    let (p, q) = same_key-eq j k h in let rest = find-same j k d h in rw (p, q, rest) refl

-- What stays is what was there.
pub find-keep_rows :
    (j : Key) (kept : Key × ℕ → Bool) (d : Rows) (at : ℕ)
    → find j (keep_rows kept d) ≡ some at
    → find j d ≡ some at
find-keep_rows j kept [] at e = cc
find-keep_rows j kept (x ∷ d) at e =
    ground (arith, find-keep_rows j kept d at, find-remove j x.0 (keep_rows kept d))

pub find-write_all :
    (j : Key) (owner at : ℕ) (ids : List ℕ) (d : Rows)
    → find j (write_all owner at ids d) ≡ (if covers owner ids j then some at else find j d)
find-write_all j owner at [] d = ground arith
find-write_all j owner at (id ∷ ids) d = ground (
  arith,
  find-write_all j owner at ids (upsert (key_of owner id) at d),
  find-upsert j (key_of owner id) at d,
)
