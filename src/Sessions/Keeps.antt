-- ===== src/Sessions/Keeps.antt =====
-- The invariant of the session table (internal/aghub/session.go).
use anet_hub.Prelude.{
  ℕ, ◌+◌, ◌≤◌, ◌≡◌, ◌≢◌, inl, inr, Bool, true, false, some, List, [], ◌∷◌, ◌==◌, ltb, length, arith,
  Bool-cases, if◌then◌else◌,
}
use anet_hub.Prelude.Table.{Table, lookup}
use anet_hub.Sessions.{
  minute, Session, Sessions, list_at, put_list, live_of, ended_of, prune_aid, recent_of,
  recent_opens, prune_all, recent_all, sweep,
}
use anet_hub.Sessions.Rows.{
  list_at-put_list, Holds, erase_all-kept, live_or_ended, length-live_of, length-recent_of,
}

-- No AID holds more than 4 sessions or 30 opens, and each session is under its id and is held by its
-- AID.
pub record IsBounded (t : Sessions) : Type 0 where
  pub few : (aid : ℕ) → length (list_at aid t.by_aid) ≤ 4
  pub slow : (aid : ℕ) → length (list_at aid t.opens) ≤ 30
  pub named : (k : ℕ) (s : Session) → lookup k t.by_sid ≡ some s → s.sid ≡ k
  pub held : (k : ℕ) (s : Session) → lookup k t.by_sid ≡ some s → Holds s (list_at s.aid t.by_aid)

if_le : (c : Bool) (a b n : ℕ) → a ≤ n → b ≤ n → (if c then a else b) ≤ n
if_le true a b n p q = p
if_le false a b n p q = q

-- A list of the map replaced by one that is no longer than the bound.
pub put_list-bound {ℓ} :
    {A : Type ℓ} (n k : ℕ) (xs : List A) (d : Table (List A))
    → length xs ≤ n
    → ((j : ℕ) → length (list_at j d) ≤ n)
    → (j : ℕ) → length (list_at j (put_list k xs d)) ≤ n
put_list-bound n k xs d le h j = elim (Bool-cases (j == k)) [
  | inl own ↦ rw (list_at-put_list, own) le
  | inr other ↦ rw (list_at-put_list, other) (h j)
]

pub prune_aid-IsBounded :
    (aid now : ℕ) (t : Sessions) → IsBounded t → IsBounded (prune_aid aid now t)
unfolding prune_aid
prune_aid-IsBounded aid now t b = record {
  few =
      put_list-bound 4 aid (live_of now (list_at aid t.by_aid)) t.by_aid
        (omega (arith, length-live_of now (list_at aid t.by_aid), b.few aid)) b.few;
  slow = b.slow;
  named =
      λ k s e. b.named k s (erase_all-kept k s (ended_of now (list_at aid t.by_aid)) t.by_sid e).0;
  held = λ k s e. stays k s (erase_all-kept k s (ended_of now (list_at aid t.by_aid)) t.by_sid e);
}
  where
    stays :
        (k : ℕ) (s : Session)
        → (lookup k t.by_sid ≡ some s)
          × ((x : Session) → Holds x (ended_of now (list_at aid t.by_aid)) → x.sid ≢ k)
        → Holds s (list_at s.aid (put_list aid (live_of now (list_at aid t.by_aid)) t.by_aid))
    stays k s (old, out) = elim (Bool-cases (s.aid == aid)) [
      | inr other ↦ rw (list_at-put_list, other) (b.held k s old)
      | inl own ↦
          let same : s.aid ≡ aid = ground arith in
          let h : Holds s (list_at aid t.by_aid) = rw (← same) (b.held k s old) in
          elim (live_or_ended now s (list_at aid t.by_aid) h) [
            | inl live ↦ rw (list_at-put_list, own) live
            | inr ended ↦ absurd (out s ended (b.named k s old))
          ]
    ]

pub recent_opens-IsBounded :
    (aid now : ℕ) (t : Sessions) → IsBounded t → IsBounded (recent_opens aid now t)
unfolding recent_opens
recent_opens-IsBounded aid now t b = record {
  few = b.few;
  slow =
      put_list-bound 30 aid (recent_of now (list_at aid t.opens)) t.opens
        (omega (arith, length-recent_of now (list_at aid t.opens), b.slow aid)) b.slow;
  named = b.named;
  held = b.held;
}

prune_all-IsBounded :
    (d : Table (List Session)) (now : ℕ) (t : Sessions)
    → IsBounded t
    → IsBounded (prune_all d now t)
prune_all-IsBounded [] now t b = b
prune_all-IsBounded (e ∷ es) now t b =
    prune_all-IsBounded es now (prune_aid e.0 now t) (prune_aid-IsBounded e.0 now t b)

recent_all-IsBounded :
    (d : Table (List ℕ)) (now : ℕ) (t : Sessions) → IsBounded t → IsBounded (recent_all d now t)
recent_all-IsBounded [] now t b = b
recent_all-IsBounded (e ∷ es) now t b =
    recent_all-IsBounded es now (recent_opens e.0 now t) (recent_opens-IsBounded e.0 now t b)

pub sweep-IsBounded : (now : ℕ) (t : Sessions) → IsBounded t → IsBounded (sweep now t)
unfolding sweep
sweep-IsBounded now t b = elim (Bool-cases (ltb now (t.swept + minute))) [
  | inl early ↦ rw early b
  | inr due ↦
      let t' : Sessions = prune_all t.by_aid now (record t { swept = now }) in
      rw due (
        recent_all-IsBounded t'.opens now t' (
          prune_all-IsBounded t.by_aid now (record t { swept = now })
            (record { few = b.few; slow = b.slow; named = b.named; held = b.held })))
]
