-- ===== src/Sessions/Rows.antt =====
-- The maps of the session table (internal/aghub/session.go sessionTable).
use anet_hub.Prelude.{
  ℕ, ◌≤◌, ◌≡◌, ◌≢◌, refl, sym, ap, ◌∙◌, ◌⊎◌, inl, inr, true, false, none, some, List, [], ◌∷◌, ◌++◌,
  ◌==◌, ltb, leb, length, arith, Bool-cases, Option-cases, if◌then◌else◌,
}
use anet_hub.Prelude.Table.{Table, lookup, erase, lookup-insert, lookup-erase}
use anet_hub.Sessions.{
  Session, same_session, list_at, put_list, live_of, ended_of, erase_all, recent_of, newest, oldest,
  without, without_open, end_named, max_sessions,
}

pub list_at-put_list {ℓ} :
    {A : Type ℓ} (j k : ℕ) (xs : List A) (d : Table (List A))
    → list_at j (put_list k xs d) ≡ (if j == k then xs else list_at j d)
list_at-put_list j k [] d = ground (arith, lookup-erase j k d)
list_at-put_list j k (x ∷ xs) d = ground (arith, lookup-insert j k (x ∷ xs) d)

-- The session stands in the list.
abbrev pub Holds : Session → List Session → Type 0
Holds s [] = ⊥
Holds s (x ∷ xs) = (x ≡ s) ⊎ Holds s xs

pub Holds-append : (s : Session) (xs ys : List Session) → Holds s xs → Holds s (xs ++ ys)
Holds-append s [] ys h = absurd h
Holds-append s (x ∷ xs) ys (inl e) = inl e
Holds-append s (x ∷ xs) ys (inr h) = inr (Holds-append s xs ys h)

pub Holds-last : (s : Session) (xs : List Session) → Holds s (xs ++ (s ∷ []))
Holds-last s [] = inl refl
Holds-last s (x ∷ xs) = inr (Holds-last s xs)

-- What is left in the map was there, and is none of the ended.
pub erase_all-kept :
    (k : ℕ) (s : Session) (ss : List Session) (d : Table Session)
    → lookup k (erase_all ss d) ≡ some s
    → (lookup k d ≡ some s) × ((x : Session) → Holds x ss → x.sid ≢ k)
erase_all-kept k s [] d e = (e, λ x h. absurd h)
erase_all-kept k s (y ∷ ys) d e =
    let same = lookup-erase k y.sid (erase_all ys d) in
    elim (Bool-cases (k == y.sid)) [
      | inl own ↦ absurd (ground arith)
      | inr other ↦
          let before : lookup k (erase_all ys d) ≡ some s = ground arith in
          let (old, out) = erase_all-kept k s ys d before in
          (
            old,
            λ x h. elim h [
              | inl q ↦ λ r. absurd (ground (arith, ap (λ (z : Session). z.sid) q))
              | inr h' ↦ out x h'
            ],
          )
    ]

pub live_or_ended :
    (now : ℕ) (s : Session) (ss : List Session)
    → Holds s ss
    → Holds s (live_of now ss) ⊎ Holds s (ended_of now ss)
live_or_ended now s [] h = absurd h
live_or_ended now s (x ∷ xs) h = elim (Bool-cases (ltb now x.exp)) [
  | inl live ↦ elim h [
    | inl e ↦ inl (rw live (inl e))
    | inr h' ↦ elim (live_or_ended now s xs h') [
      | inl stays ↦ inl (rw live (inr stays))
      | inr ends ↦ inr (rw live ends)
    ]
  ]
  | inr past ↦ elim h [
    | inl e ↦ inr (rw past (inl e))
    | inr h' ↦ elim (live_or_ended now s xs h') [
      | inl stays ↦ inl (rw past stays)
      | inr ends ↦ inr (rw past (inr ends))
    ]
  ]
]

pub newest_or_oldest :
    (s : Session) (ss : List Session) → Holds s ss → Holds s (newest ss) ⊎ Holds s (oldest ss)
newest_or_oldest s [] h = absurd h
newest_or_oldest s (x ∷ xs) h = elim (Bool-cases (leb max_sessions (length (x ∷ xs)))) [
  | inr few ↦ inl (rw few h)
  | inl many ↦ elim h [
    | inl e ↦ inr (rw many (inl e))
    | inr h' ↦ elim (newest_or_oldest s xs h') [
      | inl stays ↦ inl (rw many stays)
      | inr ends ↦ inr (rw many (inr ends))
    ]
  ]
]

pub without_or_same :
    (s x : Session) (ss : List Session)
    → Holds x ss
    → (same_session x s ≡ true) ⊎ Holds x (without s ss)
without_or_same s x [] h = absurd h
without_or_same s x (y ∷ ys) h = elim (Bool-cases (same_session y s)) [
  | inl is ↦ elim h [ inl e ↦ inl (rw (← e) is) | inr h' ↦ inr (rw is h') ]
  | inr other ↦ elim h [
    | inl e ↦ inr (rw other (inl e))
    | inr h' ↦ elim (without_or_same s x ys h') [
      | inl same ↦ inl same
      | inr stays ↦ inr (rw other (inr stays))
    ]
  ]
]

pub length-live_of : (now : ℕ) (ss : List Session) → length (live_of now ss) ≤ length ss
length-live_of now [] = omega arith
length-live_of now (s ∷ ss) = ground (arith, length-live_of now ss)

pub length-newest : (ss : List Session) → length (newest ss) ≤ 3
length-newest [] = omega arith
length-newest (s ∷ ss) = ground (arith, length-newest ss)

pub length-without : (s : Session) (ss : List Session) → length (without s ss) ≤ length ss
length-without s [] = omega arith
length-without s (x ∷ xs) = ground (arith, length-without s xs)

pub length-recent_of : (now : ℕ) (xs : List ℕ) → length (recent_of now xs) ≤ length xs
length-recent_of now [] = omega arith
length-recent_of now (x ∷ xs) = ground (arith, length-recent_of now xs)

pub length-without_open : (at : ℕ) (xs : List ℕ) → length (without_open at xs) ≤ length xs
length-without_open at [] = omega arith
length-without_open at (x ∷ xs) = ground (arith, length-without_open at xs)

pub end_named-kept :
    (k : ℕ) (s x : Session) (d : Table Session)
    → lookup k (end_named s d) ≡ some x
    → (lookup k d ≡ some x) × (k ≡ s.sid → same_session x s ≡ false)
end_named-kept k s x d e = elim (Option-cases (lookup s.sid d)) [
  | inl q ↦
      let whole : end_named s d ≡ d = rw (q, end_named) refl in
      let old : lookup k d ≡ some x = ap (λ z. lookup k z) (sym whole) ∙ e in
      (old, λ own. let h : lookup k d ≡ none = rw own q in absurd cc)
  | inr (y, q) ↦ elim (Bool-cases (same_session y s)) [
    | inl is ↦
        let whole : end_named s d ≡ erase s.sid d = rw (q, is, end_named) refl in
        let left : lookup k (erase s.sid d) ≡ some x = ap (λ z. lookup k z) (sym whole) ∙ e in
        let (old, other) = erased k s.sid x d left in (old, λ own. absurd (other own))
    | inr differs ↦
        let whole : end_named s d ≡ d = rw (q, differs, end_named) refl in
        let old : lookup k d ≡ some x = ap (λ z. lookup k z) (sym whole) ∙ e in
        (
          old,
          λ own. let h : lookup k d ≡ some y = rw own q in let same : x ≡ y = cc in rw same differs,
        )
  ]
]
  where
    erased :
        (k j : ℕ) (x : Session) (d : Table Session)
        → lookup k (erase j d) ≡ some x
        → (lookup k d ≡ some x) × (k ≢ j)
    erased k j x d e = elim (Bool-cases (k == j)) [
      | inl own ↦ absurd (ground (arith, lookup-erase k j d))
      | inr other ↦ (ground (arith, lookup-erase k j d), ground arith)
    ]
