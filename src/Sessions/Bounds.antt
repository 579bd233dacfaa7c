-- ===== src/Sessions/Bounds.antt =====
-- The session table over every call (internal/aghub/session.go open, get, cancel, drop).
use anet_hub.Prelude.{
  ℕ, ◌+◌, ◌-◌, ◌≤◌, ◌<◌, ◌≡◌, ◌≢◌, refl, sym, ◌∙◌, ◌⊎◌, inl, inr, true, false, some, List, [], ◌∷◌,
  ◌++◌, ◌==◌, ltb, length, length-append, arith, Bool-cases, if◌then◌else◌,
}
use anet_hub.Prelude.Table.{Table, lookup, insert, lookup-insert}
use anet_hub.Sessions.{
  hour, max_opens, Session, same_session, Sessions, list_at, put_list, erase_all, recent_of,
  recent_opens, wait_of, open_wait, newest, oldest, record_session, without, without_open, cancel,
  drop, session_lifetime,
}
use anet_hub.Sessions.Rows.{
  list_at-put_list, Holds, Holds-append, Holds-last, erase_all-kept, newest_or_oldest,
  without_or_same, length-newest, length-without, length-without_open, end_named-kept,
}
use anet_hub.Sessions.Keeps.{IsBounded, put_list-bound, recent_opens-IsBounded}

list_at-insert {ℓ} :
    {A : Type ℓ} (j k : ℕ) (xs : List A) (d : Table (List A))
    → list_at j (insert k xs d) ≡ (if j == k then xs else list_at j d)
list_at-insert j k xs d = ground (arith, lookup-insert j k xs d)

insert-bound {ℓ} :
    {A : Type ℓ} (n k : ℕ) (xs : List A) (d : Table (List A))
    → length xs ≤ n
    → ((j : ℕ) → length (list_at j d) ≤ n)
    → (j : ℕ) → length (list_at j (insert k xs d)) ≤ n
insert-bound n k xs d le h j = elim (Bool-cases (j == k)) [
  | inl own ↦ rw (list_at-insert, own) le
  | inr other ↦ rw (list_at-insert, other) (h j)
]

pub record_session-IsBounded :
    (now : ℕ) (s : Session) (t : Sessions)
    → length (list_at s.aid t.opens) < 30
    → IsBounded t
    → IsBounded (record_session now s t)
unfolding record_session
record_session-IsBounded now s t room b = record {
  few =
      insert-bound 4 s.aid (newest before ++ (s ∷ [])) t.by_aid
        (omega (arith, length-append (newest before) (s ∷ []), length-newest before)) b.few;
  slow =
      insert-bound 30 s.aid (list_at s.aid t.opens ++ (now ∷ [])) t.opens
        (omega (arith, length-append (list_at s.aid t.opens) (now ∷ []), room)) b.slow;
  named = λ k x e. elim (found k x e) [
    | inl (own, is) ↦ rw (is, own) refl
    | inr (old, out) ↦ b.named k x old
  ];
  held = λ k x e. elim (found k x e) [
    | inl (own, is) ↦ rw (is, list_at-insert) (ground (arith, Holds-last s (newest before)))
    | inr (old, out) ↦ stays k x old out
  ];
}
  where
    before : List Session
    before = list_at s.aid t.by_aid

    found :
        (k : ℕ) (x : Session)
        → lookup k (insert s.sid s (erase_all (oldest before) t.by_sid)) ≡ some x
        → ((k ≡ s.sid) × (x ≡ s))
          ⊎ ((lookup k t.by_sid ≡ some x) × ((y : Session) → Holds y (oldest before) → y.sid ≢ k))
    found k x e = elim (Bool-cases (k == s.sid)) [
      | inl own ↦ inl (
        ground arith,
        ground (arith, lookup-insert k s.sid s (erase_all (oldest before) t.by_sid)),
      )
      | inr other ↦ inr (
          erase_all-kept k x (oldest before) t.by_sid
            (ground (arith, lookup-insert k s.sid s (erase_all (oldest before) t.by_sid))))
    ]

    stays :
        (k : ℕ) (x : Session)
        → lookup k t.by_sid ≡ some x
        → ((y : Session) → Holds y (oldest before) → y.sid ≢ k)
        → Holds x (list_at x.aid (insert s.aid (newest before ++ (s ∷ [])) t.by_aid))
    stays k x old out = elim (Bool-cases (x.aid == s.aid)) [
      | inr other ↦ rw (list_at-insert, other) (b.held k x old)
      | inl own ↦
          let same : x.aid ≡ s.aid = ground arith in
          let h : Holds x before = rw (← same) (b.held k x old) in
          elim (newest_or_oldest x before h) [
            | inl new ↦ rw (list_at-insert, own) (Holds-append x (newest before) (s ∷ []) new)
            | inr old_one ↦ absurd (out x old_one (b.named k x old))
          ]
    ]

full :
    (now x : ℕ) (xs : List ℕ)
    → length (x ∷ xs) ≤ 30
    → ltb now (x + hour) ≡ true
    → wait_of now (x ∷ xs) ≡ 0
    → length (x ∷ xs) < 30
full now x xs le live e = elim (Bool-cases (ltb (length (x ∷ xs)) max_opens)) [
  | inl few ↦ ground (arith, few)
  | inr many ↦
      let first : length (x ∷ xs) - max_opens ≡ 0 = omega (arith, le) in
      let h : wait_of now (x ∷ xs) ≡ x + hour - now = rw (many, first) refl in
      absurd (ground (arith, h, e, live))
]

-- Where nothing has to be waited for, fewer than 30 opens are recent.
wait_of-room :
    (now : ℕ) (xs : List ℕ)
    → length (recent_of now xs) ≤ 30
    → wait_of now (recent_of now xs) ≡ 0
    → length (recent_of now xs) < 30
wait_of-room now [] le e = omega arith
wait_of-room now (x ∷ xs) le e = elim (Bool-cases (ltb now (x + hour))) [
  | inl live ↦ rw live (full now x xs (ground arith) (ground arith) (ground arith))
  | inr past ↦ rw past (wait_of-room now xs (ground arith) (ground arith))
]

pub open_wait-IsBounded :
    (aid now : ℕ) (t : Sessions) → IsBounded t → IsBounded (open_wait aid now t).1
unfolding open_wait
open_wait-IsBounded aid now t b = recent_opens-IsBounded aid now t b

pub open_wait-room :
    (aid now : ℕ) (t : Sessions)
    → IsBounded t
    → ltb 0 (open_wait aid now t).0 ≡ false
    → length (list_at aid (open_wait aid now t).1.opens) < 30
unfolding open_wait recent_opens
open_wait-room aid now t b e =
    let xs = list_at aid t.opens in
    let same : list_at aid (put_list aid (recent_of now xs) t.opens) ≡ recent_of now xs =
      ground (arith, list_at-put_list aid aid (recent_of now xs) t.opens) in
    let bound = (recent_opens-IsBounded aid now t b).slow aid in
    rw same (wait_of-room now xs (rw (← same) bound) (rw (← same) (ground (arith, e))))

pub cancel-IsBounded : (s : Session) (t : Sessions) → IsBounded t → IsBounded (cancel s t)
unfolding cancel
cancel-IsBounded s t b = record {
  few =
      put_list-bound 4 s.aid (without s (list_at s.aid t.by_aid)) t.by_aid
        (omega (arith, length-without s (list_at s.aid t.by_aid), b.few s.aid)) b.few;
  slow =
      put_list-bound 30 s.aid (without_open (s.exp - session_lifetime) (list_at s.aid t.opens))
        t.opens
        (omega (
          arith,
          length-without_open (s.exp - session_lifetime) (list_at s.aid t.opens),
          b.slow s.aid,
        ))
        b.slow;
  named = λ k x e. b.named k x (end_named-kept k s x t.by_sid e).0;
  held = λ k x e. stays k x (end_named-kept k s x t.by_sid e);
}
  where
    stays :
        (k : ℕ) (x : Session)
        → (lookup k t.by_sid ≡ some x) × (k ≡ s.sid → same_session x s ≡ false)
        → Holds x (list_at x.aid (put_list s.aid (without s (list_at s.aid t.by_aid)) t.by_aid))
    stays k x (old, differs) = elim (Bool-cases (x.aid == s.aid)) [
      | inr other ↦ rw (list_at-put_list, other) (b.held k x old)
      | inl own ↦
          let same : x.aid ≡ s.aid = ground arith in
          let h : Holds x (list_at s.aid t.by_aid) = rw (← same) (b.held k x old) in
          elim (without_or_same s x (list_at s.aid t.by_aid) h) [
            | inr left ↦ rw (list_at-put_list, own) left
            | inl is ↦
                let sids : x.sid ≡ s.sid = ground arith in
                let no_more = differs (sym (b.named k x old) ∙ sids) in
                absurd (ground (arith, is, no_more))
          ]
    ]

pub drop-IsBounded : (aid : ℕ) (t : Sessions) → IsBounded t → IsBounded (drop aid t)
unfolding drop
drop-IsBounded aid t b = record {
  few = put_list-bound 4 aid [] t.by_aid (omega arith) b.few;
  slow = b.slow;
  named = λ k x e. b.named k x (erase_all-kept k x (list_at aid t.by_aid) t.by_sid e).0;
  held = λ k x e. stays k x (erase_all-kept k x (list_at aid t.by_aid) t.by_sid e);
}
  where
    stays :
        (k : ℕ) (x : Session)
        → (lookup k t.by_sid ≡ some x)
          × ((y : Session) → Holds y (list_at aid t.by_aid) → y.sid ≢ k)
        → Holds x (list_at x.aid (put_list aid [] t.by_aid))
    stays k x (old, out) = elim (Bool-cases (x.aid == aid)) [
      | inr other ↦ rw (list_at-put_list x.aid aid [] t.by_aid, other) (b.held k x old)
      | inl own ↦
          let same : x.aid ≡ aid = ground arith in
          let h : Holds x (list_at aid t.by_aid) = rw (← same) (b.held k x old) in
          absurd (out x h (b.named k x old))
    ]
