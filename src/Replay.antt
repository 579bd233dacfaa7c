-- ===== src/Replay.antt =====
-- internal/aghub/auth2.go, RC1: the replay protection of signed requests. One part of the state
-- (rc1Shard), which its lock makes one sequence of steps; an AID's requests all go to one part.
-- Times are unix ms. What the valve (relieve) does to a part is `flatten` and `sweep`; which signers
-- it picks, by estimates of memory over all the parts, is left open.
pub mod Times
pub mod Keeps
pub mod Once
mod Tests
use anet_hub.Prelude.{
  ℕ, ◌≡◌, ◌+◌, ◌-◌, ◌^◌, max, zero, suc, Bool, false, none, some, List, [], ◌∷◌, ◌==◌, ◌&&◌, ltb,
  leb, length, if◌then◌else◌,
}
use anet_hub.Prelude.Table.{Table, lookup, insert, erase}

-- rc1W, rc1SweepEvery
abbrev pub window : ℕ
window = 30000

abbrev pub sweep_every : ℕ
sweep_every = 10000

-- rc1Verdict, with the floor of a stale time.
pub data Verdict : Type 0 where
  accepted outside replayed : Verdict
  stale : ℕ → Verdict

-- rc1Signer
pub record Signer : Type 0 where
  pub floor : ℕ
  pub max_seen : ℕ
  pub recent : List ℕ

-- rc1Shard
pub record Shard : Type 0 where
  pub signers : Table Signer
  pub gone : ℕ
  pub swept : ℕ

-- rc1InWindow; relayauth.MaxSkewMillis is the parameter `max_skew`.
abbrev pub in_window : ℕ → ℕ → ℕ → Bool
in_window max_skew ts now = leb ts (2 ^ 62) && leb (now - ts) max_skew && leb (ts - now) max_skew

-- slices.BinarySearch and slices.Insert on an ascending list: whether the time is there, the times
-- from its place on, and the list with it put there.
abbrev pub found : ℕ → List ℕ → Bool
found ts [] = false
found ts (x ∷ xs) = if ltb x ts then found ts xs else ts == x

abbrev pub from_time : ℕ → List ℕ → List ℕ
from_time f [] = []
from_time f (x ∷ xs) = if ltb x f then from_time f xs else x ∷ xs

abbrev pub insert_time : ℕ → List ℕ → List ℕ
insert_time ts [] = ts ∷ []
insert_time ts (x ∷ xs) = if ltb x ts then x ∷ insert_time ts xs else ts ∷ x ∷ xs

abbrev pub raise_floor : ℕ → Signer → Signer
raise_floor f s = record s { floor = f; recent = from_time (f + 1) s.recent }

-- The loop that raises the floor to the smallest time while there are more than k. Each turn drops
-- a time, so as many turns as there are times are enough (trim-length).
abbrev pub trim : ℕ → ℕ → Signer → Signer
trim k zero s = s
trim k (suc n) s = elim s.recent [
  | [] ↦ s
  | x ∷ xs ↦
      let rest = trim k n (raise_floor x s) in if ltb (max k 1) (length s.recent) then rest else s
]

-- The time inserted, and the floor W below the largest time where that is higher.
unfoldable pub seen_at : ℕ → Signer → Signer
seen_at ts s =
    let s' = record s { max_seen = max s.max_seen ts; recent = insert_time ts s.recent } in
    if ltb window s'.max_seen && ltb s'.floor (s'.max_seen - window)
    then raise_floor (s'.max_seen - window) s'
    else s'

unfoldable pub note_time : ℕ → ℕ → Signer → Signer
note_time ts k s = let s' = seen_at ts s in trim k (length s'.recent) s'

-- acceptLocked for a signer with state.
unfoldable pub accept_signer : ℕ → ℕ → ℕ → Signer → Verdict × Signer
accept_signer aid ts k s =
    if leb ts s.floor
    then (stale s.floor, s)
    else if found ts s.recent
    then (replayed, s)
    else (accepted, note_time ts k s)

abbrev pub put_signer : ℕ → Shard → Verdict × Signer → Verdict × Shard
put_signer aid sh (v, s) = (v, record sh { signers = insert aid s sh.signers })

unfoldable pub accept_locked : ℕ → ℕ → ℕ → ℕ → ℕ → Shard → Verdict × Shard
accept_locked max_skew aid ts k now sh =
    if in_window max_skew ts now
    then elim (lookup aid sh.signers) [
      | some s ↦ put_signer aid sh (accept_signer aid ts k s)
      | none ↦
          if leb ts sh.gone
          then (stale sh.gone, sh)
          else put_signer aid sh
              (accept_signer aid ts k (record { floor = sh.gone; max_seen = 0; recent = [] }))
    ]
    else (outside, sh)

abbrev pub top : Signer → ℕ
top s = max s.floor s.max_seen

-- The signers whose top is below the limit are dropped, and raise gone.
abbrev pub sweep_signers : ℕ → ℕ → Table Signer → Table Signer × ℕ
sweep_signers limit gone [] = ([], gone)
sweep_signers limit gone (e ∷ d) =
    let (kept, g) = sweep_signers limit gone d in
    if ltb (top e.1) limit then (erase e.0 kept, max g (top e.1)) else (e ∷ kept, g)

-- sweepLocked
unfoldable pub sweep : ℕ → ℕ → Shard → Shard
sweep max_skew now sh =
    if leb now max_skew
    then record sh { swept = now }
    else let (kept, g) = sweep_signers (now - max_skew) sh.gone sh.signers in
      record { signers = kept; gone = g; swept = now }

-- accept, in the signer's part.
unfoldable pub accept : ℕ → ℕ → ℕ → ℕ → ℕ → Shard → Verdict × Shard
accept max_skew aid ts k now sh =
    let (v, sh') = accept_locked max_skew aid ts k now sh in
    (v, if leb (sh'.swept + sweep_every) now then sweep max_skew now sh' else sh')

-- What the valve does to one signer: strictly monotonic from here on.
unfoldable pub flatten : ℕ → Shard → Shard
flatten aid sh = elim (lookup aid sh.signers) [
  | none ↦ sh
  | some s ↦ record sh { signers = insert aid (record s { floor = top s; recent = [] }) sh.signers }
]

-- One step of a part, and a run of steps. The clock may step back.
pub data Step (max_skew : ℕ) (sh sh' : Shard) : Type 0 where
  request : (aid ts k now : ℕ) → sh' ≡ (accept max_skew aid ts k now sh).1 → Step max_skew sh sh'
  swept : (now : ℕ) → sh' ≡ sweep max_skew now sh → Step max_skew sh sh'
  relieved : (aid : ℕ) → sh' ≡ flatten aid sh → Step max_skew sh sh'

pub data Run (max_skew : ℕ) (start : Shard) : Shard → Type 0 where
  here : Run max_skew start start
  next :
      {sh : Shard} (sh' : Shard)
      → Run max_skew start sh
      → Step max_skew sh sh'
      → Run max_skew start sh'
