-- ===== src/Sessions.antt =====
-- internal/aghub/session.go: the table of open sessions of a hub process (sessionTable).
-- Times are in nanoseconds. A session id is a text, and `length_of` the length of its bytes. Two
-- pointers are the same session where all their fields agree.
pub mod Rows
pub mod Keeps
pub mod Bounds
pub mod Ends
mod Tests
use anet_hub.Prelude.{
  ℕ, ◌+◌, ◌-◌, Bool, true, false, Option, none, some, List, [], ◌∷◌, ◌++◌, ◌==◌, ◌&&◌, not, zero,
  suc, ltb, leb, length, if◌then◌else◌,
}
use anet_hub.Prelude.Table.{Table, lookup, insert, erase}

abbrev pub session_lifetime : ℕ
session_lifetime = 3600000000000

abbrev pub hour : ℕ
hour = 3600000000000

abbrev pub minute : ℕ
minute = 60000000000

abbrev pub max_sessions : ℕ
max_sessions = 4

abbrev pub max_opens : ℕ
max_opens = 30

-- relayauth.SessionIDLen
abbrev pub session_id_len : ℕ
session_id_len = 16

-- hubSession
pub record Session : Type 0 where
  pub sid : ℕ
  pub aid : ℕ
  pub key : ℕ
  pub exp : ℕ

abbrev pub same_session : Session → Session → Bool
same_session a b = a.sid == b.sid && a.aid == b.aid && a.key == b.key && a.exp == b.exp

pub record Sessions : Type 0 where
  pub by_sid : Table Session
  pub by_aid : Table (List Session)
  pub opens : Table (List ℕ)
  pub swept : ℕ

abbrev pub no_sessions : Sessions
no_sessions = record { by_sid = []; by_aid = []; opens = []; swept = 0 }

-- A map of lists: a missing key is the empty list, and an empty list is deleted.
module _ {ℓ} {A : Type ℓ} where
  abbrev pub or_empty : Option (List A) → List A
  or_empty none = []
  or_empty (some xs) = xs

  abbrev pub list_at : ℕ → Table (List A) → List A
  list_at k d = or_empty (lookup k d)

  abbrev pub put_list : ℕ → List A → Table (List A) → Table (List A)
  put_list k [] d = erase k d
  put_list k (x ∷ xs) d = insert k (x ∷ xs) d

-- pruneLocked
abbrev pub live_of : ℕ → List Session → List Session
live_of now [] = []
live_of now (s ∷ ss) = let rest = live_of now ss in if ltb now s.exp then s ∷ rest else rest

abbrev pub ended_of : ℕ → List Session → List Session
ended_of now [] = []
ended_of now (s ∷ ss) = let rest = ended_of now ss in if ltb now s.exp then rest else s ∷ rest

abbrev pub erase_all : List Session → Table Session → Table Session
erase_all [] d = d
erase_all (s ∷ ss) d = erase s.sid (erase_all ss d)

unfoldable pub prune_aid : ℕ → ℕ → Sessions → Sessions
prune_aid aid now t =
    let held = list_at aid t.by_aid in
    record t {
      by_sid = erase_all (ended_of now held) t.by_sid;
      by_aid = put_list aid (live_of now held) t.by_aid;
    }

-- recentOpensLocked
abbrev pub recent_of : ℕ → List ℕ → List ℕ
recent_of now [] = []
recent_of now (at ∷ rest) =
    let more = recent_of now rest in if ltb now (at + hour) then at ∷ rest else more

unfoldable pub recent_opens : ℕ → ℕ → Sessions → Sessions
recent_opens aid now t = record t {
  opens = put_list aid (recent_of now (list_at aid t.opens)) t.opens;
}

-- sweepLocked
abbrev pub prune_all : Table (List Session) → ℕ → Sessions → Sessions
prune_all [] now t = t
prune_all (e ∷ es) now t = prune_all es now (prune_aid e.0 now t)

abbrev pub recent_all : Table (List ℕ) → ℕ → Sessions → Sessions
recent_all [] now t = t
recent_all (e ∷ es) now t = recent_all es now (recent_opens e.0 now t)

unfoldable pub sweep : ℕ → Sessions → Sessions
sweep now t =
    if ltb now (t.swept + minute)
    then t
    else let t' : Sessions = prune_all t.by_aid now (record t { swept = now }) in
      recent_all t'.opens now t'

-- openWaitLocked: the time from now to an hour after the open that has to pass.
abbrev pub open_at : ℕ → List ℕ → ℕ
open_at i [] = 0
open_at zero (at ∷ rest) = at
open_at (suc i) (at ∷ rest) = open_at i rest

abbrev pub wait_of : ℕ → List ℕ → ℕ
wait_of now recent =
    if ltb (length recent) max_opens
    then 0
    else open_at (length recent - max_opens) recent + hour - now

unfoldable pub open_wait : ℕ → ℕ → Sessions → ℕ × Sessions
open_wait aid now t =
    let t' : Sessions = recent_opens aid now t in (wait_of now (list_at aid t'.opens), t')

-- The loop of open that ends the oldest: those that stay, and those that end.
abbrev pub newest : List Session → List Session
newest [] = []
newest (s ∷ ss) =
    let rest = newest ss in if leb max_sessions (length (s ∷ ss)) then rest else s ∷ ss

abbrev pub oldest : List Session → List Session
oldest [] = []
oldest (s ∷ ss) =
    let rest = oldest ss in if leb max_sessions (length (s ∷ ss)) then s ∷ rest else []

pub data Opened : Type 0 where
  refused_for : ℕ → Opened
  opened : Session → Opened

unfoldable pub record_session : ℕ → Session → Sessions → Sessions
record_session now s t =
    let held = list_at s.aid t.by_aid in
    record t {
      by_sid = insert s.sid s (erase_all (oldest held) t.by_sid);
      by_aid = insert s.aid (newest held ++ (s ∷ [])) t.by_aid;
      opens = insert s.aid (list_at s.aid t.opens ++ (now ∷ [])) t.opens;
    }

abbrev pub new_session : ℕ → ℕ → ℕ → ℕ → Session
new_session aid sid key now = record {
  sid = sid;
  aid = aid;
  key = key;
  exp = now + session_lifetime;
}

unfoldable pub open_session : ℕ → ℕ → ℕ → ℕ → Sessions → Opened × Sessions
open_session aid sid key now t =
    let (wait, t') = open_wait aid now (sweep now t) in
    if ltb 0 wait
    then (refused_for wait, t')
    else let s = new_session aid sid key now in
      (opened s, record_session now s (prune_aid aid now t'))

unfoldable pub get : (ℕ → ℕ) → ℕ → ℕ → Sessions → Option Session × Sessions
get length_of sid now t =
    if not (length_of sid == session_id_len)
    then (none, t)
    else let t' : Sessions = sweep now t in
      (
        elim (lookup sid t'.by_sid) [
          | none ↦ none
          | some s ↦ if ltb now s.exp then some s else none
        ],
        t',
      )

-- cancel
abbrev pub without : Session → List Session → List Session
without s [] = []
without s (x ∷ xs) = if same_session x s then xs else x ∷ without s xs

-- The last of the opens at that time.
abbrev pub has_open : ℕ → List ℕ → Bool
has_open at [] = false
has_open at (x ∷ xs) = if x == at then true else has_open at xs

abbrev pub without_open : ℕ → List ℕ → List ℕ
without_open at [] = []
without_open at (x ∷ xs) =
    let rest = without_open at xs in
    if has_open at xs then x ∷ rest else if x == at then xs else x ∷ xs

abbrev pub end_named : Session → Table Session → Table Session
end_named s d = elim (lookup s.sid d) [
  | none ↦ d
  | some x ↦ if same_session x s then erase s.sid d else d
]

unfoldable pub cancel : Session → Sessions → Sessions
cancel s t = record t {
  by_sid = end_named s t.by_sid;
  by_aid = put_list s.aid (without s (list_at s.aid t.by_aid)) t.by_aid;
  opens = put_list s.aid (without_open (s.exp - session_lifetime) (list_at s.aid t.opens)) t.opens;
}

unfoldable pub drop : ℕ → Sessions → Sessions
drop aid t = record t {
  by_sid = erase_all (list_at aid t.by_aid) t.by_sid;
  by_aid = erase aid t.by_aid;
}

-- One call on the table, at any clock.
pub data Step (t : Sessions) : Sessions → Type 0 where
  opens_session : (aid sid key now : ℕ) → Step t (open_session aid sid key now t).1
  gets : (length_of : ℕ → ℕ) (sid now : ℕ) → Step t (get length_of sid now t).1
  waits : (aid now : ℕ) → Step t (open_wait aid now t).1
  cancels : (s : Session) → Step t (cancel s t)
  drops : (aid : ℕ) → Step t (drop aid t)
  counts : (aid now : ℕ) → Step t (prune_aid aid now t)

-- A run from an empty table.
pub data Run : Sessions → Type 0 where
  started : Run no_sessions
  next : (t t' : Sessions) → Run t → Step t t' → Run t'
