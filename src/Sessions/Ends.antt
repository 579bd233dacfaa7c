-- ===== src/Sessions/Ends.antt =====
-- Every run of the session table, and a session that is ended (internal/aghub/session.go).
use anet_hub.Prelude.{
  ℕ, ◌+◌, ◌<◌, ◌≡◌, ◌≢◌, refl, ap, ◌∙◌, inl, inr, true, none, some, List, [], ◌∷◌, ◌==◌, ltb, arith,
  Bool-cases, Option-cases,
}
use anet_hub.Prelude.Table.{Table, lookup, lookup-erase}
use anet_hub.Sessions.{
  minute, Session, Sessions, list_at, prune_aid, sweep, open_wait, new_session, open_session, get,
  drop, prune_all, recent_all, recent_opens, Step, opens_session, gets, waits, cancels, drops,
  counts, Run, started, next, session_id_len,
}
use anet_hub.Sessions.Rows.{Holds, list_at-put_list}
use anet_hub.Sessions.Keeps.{IsBounded, prune_aid-IsBounded, sweep-IsBounded}
use anet_hub.Sessions.Bounds.{
  record_session-IsBounded, open_wait-IsBounded, open_wait-room, cancel-IsBounded, drop-IsBounded,
}

open_session-IsBounded :
    (aid sid key now : ℕ) (t : Sessions)
    → IsBounded t
    → IsBounded (open_session aid sid key now t).1
unfolding open_session prune_aid
open_session-IsBounded aid sid key now t b =
    let swept = sweep-IsBounded now t b in
    let after = open_wait-IsBounded aid now (sweep now t) swept in
    elim (Bool-cases (ltb 0 (open_wait aid now (sweep now t)).0)) [
      | inl waits_now ↦ rw waits_now after
      | inr may ↦ rw may (
          record_session-IsBounded now (new_session aid sid key now)
            (prune_aid aid now (open_wait aid now (sweep now t)).1)
            (open_wait-room aid now (sweep now t) swept may)
            (prune_aid-IsBounded aid now (open_wait aid now (sweep now t)).1 after))
    ]

get-IsBounded :
    (length_of : ℕ → ℕ) (sid now : ℕ) (t : Sessions)
    → IsBounded t
    → IsBounded (get length_of sid now t).1
unfolding get
get-IsBounded length_of sid now t b = elim (Bool-cases (length_of sid == session_id_len)) [
  | inl sized ↦ rw sized (sweep-IsBounded now t b)
  | inr bad ↦ rw bad b
]

Step-IsBounded : (t t' : Sessions) → Step t t' → IsBounded t → IsBounded t'
Step-IsBounded t _ (opens_session aid sid key now) b = open_session-IsBounded aid sid key now t b
Step-IsBounded t _ (gets length_of sid now) b = get-IsBounded length_of sid now t b
Step-IsBounded t _ (waits aid now) b = open_wait-IsBounded aid now t b
Step-IsBounded t _ (cancels s) b = cancel-IsBounded s t b
Step-IsBounded t _ (drops aid) b = drop-IsBounded aid t b
Step-IsBounded t _ (counts aid now) b = prune_aid-IsBounded aid now t b

-- In every run of the table an AID holds at most 4 sessions and 30 recorded opens, whatever the
-- clock reads, and a session that is found under an id has that id and is held by its AID.
pub Run-IsBounded : {t : Sessions} → Run t → IsBounded t
Run-IsBounded started = record {
  few = λ aid. omega arith;
  slow = λ aid. omega arith;
  named = λ k s e. absurd cc;
  held = λ k s e. absurd cc;
}
Run-IsBounded (next t t' r s) = Step-IsBounded t t' s (Run-IsBounded r)

prune_aid-none :
    (aid j now : ℕ) (t : Sessions)
    → list_at aid t.by_aid ≡ []
    → list_at aid (prune_aid j now t).by_aid ≡ []
unfolding prune_aid
prune_aid-none aid j now t e = elim (Bool-cases (aid == j)) [
  | inl own ↦ let same : aid ≡ j = ground arith in rw (list_at-put_list, own, ← same, e) refl
  | inr other ↦ rw (list_at-put_list, other) e
]

prune_all-none :
    (aid : ℕ) (d : Table (List Session)) (now : ℕ) (t : Sessions)
    → list_at aid t.by_aid ≡ []
    → list_at aid (prune_all d now t).by_aid ≡ []
prune_all-none aid [] now t e = e
prune_all-none aid (x ∷ xs) now t e =
    prune_all-none aid xs now (prune_aid x.0 now t) (prune_aid-none aid x.0 now t e)

recent_all-by_aid :
    (d : Table (List ℕ)) (now : ℕ) (t : Sessions) → (recent_all d now t).by_aid ≡ t.by_aid
unfolding recent_opens
recent_all-by_aid [] now t = refl
recent_all-by_aid (x ∷ xs) now t = recent_all-by_aid xs now (recent_opens x.0 now t)

sweep-none :
    (aid now : ℕ) (t : Sessions) → list_at aid t.by_aid ≡ [] → list_at aid (sweep now t).by_aid ≡ []
unfolding sweep
sweep-none aid now t e = elim (Bool-cases (ltb now (t.swept + minute))) [
  | inl early ↦ rw early e
  | inr due ↦
      let t' : Sessions = prune_all t.by_aid now (record t { swept = now }) in
      rw (due, recent_all-by_aid t'.opens now t')
        (prune_all-none aid t.by_aid now (record t { swept = now }) e)
]

found_session :
    (length_of : ℕ → ℕ) (sid now : ℕ) (t t' : Sessions) (s : Session)
    → get length_of sid now t ≡ (some s, t')
    → (lookup sid (sweep now t).by_sid ≡ some s) × (ltb now s.exp ≡ true)
unfolding get
found_session length_of sid now t t' s e = elim (Bool-cases (length_of sid == session_id_len)) [
  | inr bad ↦ let h : get length_of sid now t ≡ (none, t) = rw (bad, get) refl in absurd cc
  | inl sized ↦ elim (Option-cases (lookup sid (sweep now t).by_sid)) [
    | inl q ↦
        let h : get length_of sid now t ≡ (none, sweep now t) = rw (sized, q, get) refl in absurd cc
    | inr (x, q) ↦ elim (Bool-cases (ltb now x.exp)) [
      | inr past ↦
          let h : get length_of sid now t ≡ (none, sweep now t) = rw (sized, q, past, get) refl in
          absurd cc
      | inl live ↦
          let h : get length_of sid now t ≡ (some x, sweep now t) = rw (sized, q, live, get) refl in
          let same : x ≡ s = cc in (q ∙ ap some same, rw (← same) live)
    ]
  ]
]

Holds-empty : (s : Session) (xs : List Session) → xs ≡ [] → Holds s xs → ⊥
Holds-empty s [] e h = h
Holds-empty s (x ∷ xs) e h = absurd cc

none_held :
    (aid now sid : ℕ) (t : Sessions) (s : Session)
    → IsBounded t
    → list_at aid t.by_aid ≡ []
    → lookup sid (sweep now t).by_sid ≡ some s
    → s.aid ≢ aid
none_held aid now sid t s b e found own =
    let h = (sweep-IsBounded now t b).held sid s found in
    let empty : list_at s.aid (sweep now t).by_aid ≡ [] = rw own (sweep-none aid now t e) in
    Holds-empty s (list_at s.aid (sweep now t).by_aid) empty h

-- In every run: once the sessions of an AID are dropped, no id gives a session of that AID, and what
-- an id gives is a session of that id which has not ended.
pub get-drop :
    (length_of : ℕ → ℕ) (aid sid now : ℕ) (t t' : Sessions) (s : Session)
    → Run t
    → get length_of sid now (drop aid t) ≡ (some s, t')
    → (s.aid ≢ aid) × (s.sid ≡ sid) × (now < s.exp)
unfolding drop
get-drop length_of aid sid now t t' s r e =
    let b = drop-IsBounded aid t (Run-IsBounded r) in
    let (found, live) = found_session length_of sid now (drop aid t) t' s e in
    let empty : list_at aid (drop aid t).by_aid ≡ [] =
      ground (arith, lookup-erase aid aid t.by_aid) in
    (
      none_held aid now sid (drop aid t) s b empty found,
      (sweep-IsBounded now (drop aid t) b).named sid s found,
      ground (arith, live),
    )
