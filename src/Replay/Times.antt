-- ===== src/Replay/Times.antt =====
-- The accepted times of one signer (internal/aghub/auth2.go, rc1Signer).
use anet_hub.Prelude.{
  ℕ, ◌+◌, ◌-◌, ◌&&◌, ◌≤◌, ◌<◌, ◌≡◌, ◌⊎◌, inl, inr, max, zero, suc, true, false, List, [], ◌∷◌,
  length, Bool-cases, ltb, arith,
}
use anet_hub.Replay.{
  Signer, found, from_time, insert_time, raise_floor, trim, top, window, seen_at, note_time,
}

-- Strictly ascending from `lo`.
abbrev pub IsAscending : ℕ → List ℕ → Type 0
IsAscending lo [] = Unit
IsAscending lo (x ∷ xs) = lo ≤ x × IsAscending (suc x) xs

insert_time-IsAscending :
    (lo ts : ℕ) (xs : List ℕ)
    → lo ≤ ts
    → found ts xs ≡ false
    → IsAscending lo xs
    → IsAscending lo (insert_time ts xs)
insert_time-IsAscending lo ts [] le f a = (le, tt)
insert_time-IsAscending lo ts (x ∷ xs) le f (b, a) = elim (Bool-cases (ltb x ts)) [
  | inl below ↦ rw below (b, insert_time-IsAscending (suc x) ts xs (ground arith) (ground arith) a)
  | inr above ↦ rw above (le, (ground arith, a))
]

from_time-IsAscending :
    (lo f : ℕ) (xs : List ℕ) → IsAscending lo xs → IsAscending (suc f) (from_time (f + 1) xs)
from_time-IsAscending lo f [] a = tt
from_time-IsAscending lo f (x ∷ xs) (b, a) = elim (Bool-cases (ltb x (f + 1))) [
  | inl below ↦ rw below (from_time-IsAscending (suc x) f xs a)
  | inr above ↦ rw above (ground arith, a)
]

pub found-insert_time : (ts : ℕ) (xs : List ℕ) → found ts (insert_time ts xs) ≡ true
found-insert_time ts [] = ground arith
found-insert_time ts (x ∷ xs) = ground (arith, found-insert_time ts xs)

found-insert_time_kept :
    (t ts : ℕ) (xs : List ℕ) → found t xs ≡ true → found t (insert_time ts xs) ≡ true
found-insert_time_kept t ts [] h = ground arith
found-insert_time_kept t ts (x ∷ xs) h = ground (arith, found-insert_time_kept t ts xs)

found-from_time :
    (t f : ℕ) (xs : List ℕ) → f ≤ t → found t xs ≡ true → found t (from_time f xs) ≡ true
found-from_time t f [] le h = ground arith
found-from_time t f (x ∷ xs) le h = ground (arith, found-from_time t f xs)

length-from_time : (f : ℕ) (xs : List ℕ) → length (from_time f xs) ≤ length xs
length-from_time f [] = omega arith
length-from_time f (x ∷ xs) = ground (arith, length-from_time f xs)

-- The times are ascending above the floor, and the time is not accepted again: it is at or below
-- the floor, or among the recent ones.
pub record Holds (ts : ℕ) (s : Signer) : Type 0 where
  pub ordered : IsAscending (suc s.floor) s.recent
  pub covered : (ts ≤ s.floor) ⊎ (found ts s.recent ≡ true)
  pub below_top : ts ≤ top s

raise_floor-Holds : (t f : ℕ) (s : Signer) → s.floor ≤ f → Holds t s → Holds t (raise_floor f s)
raise_floor-Holds t f s up h = record {
  ordered = from_time-IsAscending (suc s.floor) f s.recent h.ordered;
  covered = elim (Bool-cases (ltb f t)) [
    | inl above ↦ elim h.covered [
      | inl low ↦ inl (ground arith)
      | inr there ↦ inr (found-from_time t (f + 1) s.recent (ground arith) there)
    ]
    | inr below ↦ inl (ground arith)
  ];
  below_top = ground (arith, h.below_top);
}

abbrev signer : ℕ → ℕ → List ℕ → Signer
signer f m xs = record { floor = f; max_seen = m; recent = xs }

-- With the new time in, before any floor rises.
abbrev with_time : ℕ → Signer → Signer
with_time ts s = record s { max_seen = max s.max_seen ts; recent = insert_time ts s.recent }

with_time-Holds :
    (t ts : ℕ) (s : Signer)
    → s.floor < ts
    → found ts s.recent ≡ false
    → Holds t s
    → Holds t (with_time ts s)
with_time-Holds t ts s up new h = record {
  ordered = insert_time-IsAscending (suc s.floor) ts s.recent up new h.ordered;
  covered = elim h.covered [
    | inl low ↦ inl low
    | inr there ↦ inr (found-insert_time_kept t ts s.recent there)
  ];
  below_top = ground (arith, h.below_top);
}

with_time-Holds_new :
    (t ts : ℕ) (s : Signer)
    → s.floor < ts
    → found ts s.recent ≡ false
    → Holds t s
    → Holds ts (with_time ts s)
with_time-Holds_new t ts s up new h = record {
  ordered = insert_time-IsAscending (suc s.floor) ts s.recent up new h.ordered;
  covered = inr (found-insert_time ts s.recent);
  below_top = ground arith;
}

seen_at-Holds : (t ts : ℕ) (s : Signer) → Holds t (with_time ts s) → Holds t (seen_at ts s)
unfolding seen_at
seen_at-Holds t ts s h =
    elim (Bool-cases (ltb window (max s.max_seen ts) && ltb s.floor (max s.max_seen ts - window))) [
      | inl higher ↦
          rw higher
            (raise_floor-Holds t (max s.max_seen ts - window) (with_time ts s) (ground arith) h)
      | inr lower ↦ rw lower h
    ]

trim_parts-Holds :
    (t k n f m : ℕ) (xs : List ℕ) → Holds t (signer f m xs) → Holds t (trim k n (signer f m xs))
trim_parts-Holds t k zero f m xs h = h
trim_parts-Holds t k (suc n) f m [] h = h
trim_parts-Holds t k (suc n) f m (x ∷ xs) h = elim (Bool-cases (ltb (max k 1) (length (x ∷ xs)))) [
  | inl full ↦ rw full (
      trim_parts-Holds t k n x m (from_time (x + 1) (x ∷ xs))
        (raise_floor-Holds t x (signer f m (x ∷ xs)) (ground (arith, h.ordered)) h))
  | inr fits ↦ rw fits h
]

trim-Holds : (t k n : ℕ) (s : Signer) → Holds t s → Holds t (trim k n s)
trim-Holds t k n s h = trim_parts-Holds t k n s.floor s.max_seen s.recent h

pub note_time-Holds :
    (t ts k : ℕ) (s : Signer)
    → s.floor < ts
    → found ts s.recent ≡ false
    → Holds t s
    → Holds t (note_time ts k s) × Holds ts (note_time ts k s)
unfolding note_time
note_time-Holds t ts k s up new h =
    let n = length (seen_at ts s).recent in
    (
      trim-Holds t k n (seen_at ts s) (seen_at-Holds t ts s (with_time-Holds t ts s up new h)),
      trim-Holds ts k n (seen_at ts s)
          (seen_at-Holds ts ts s (with_time-Holds_new t ts s up new h)),
    )

-- As many turns as there are times leave at most k, and at least one may stay.
trim_parts-length :
    (k n f m : ℕ) (xs : List ℕ) → length xs ≤ n → length (trim k n (signer f m xs)).recent ≤ max k 1
trim_parts-length k zero f m xs h = ground arith
trim_parts-length k (suc n) f m [] h = ground arith
trim_parts-length k (suc n) f m (x ∷ xs) h = elim (Bool-cases (ltb (max k 1) (length (x ∷ xs)))) [
  | inl full ↦ rw full (
      trim_parts-length k n x m (from_time (x + 1) (x ∷ xs))
        (ground (arith, length-from_time (x + 1) xs)))
  | inr fits ↦ rw fits (ground arith)
]

trim-length : (k n : ℕ) (s : Signer) → length s.recent ≤ n → length (trim k n s).recent ≤ max k 1
trim-length k n s h = trim_parts-length k n s.floor s.max_seen s.recent h

-- The loop of a request ends within as many turns as the signer has times: the signer then keeps at
-- most k times, and at most one where k is 0.
pub note_time-length : (ts k : ℕ) (s : Signer) → length (note_time ts k s).recent ≤ max k 1
unfolding note_time
note_time-length ts k s = trim-length k (length (seen_at ts s).recent) (seen_at ts s) (omega arith)
