-- ===== src/Replay/Keeps.antt =====
-- What one part of the state knows of a signer's times, and the steps (internal/aghub/auth2.go).
use anet_hub.Prelude.{
  ℕ, ◌≡◌, sym, ap, ◌∙◌, Bool, ◌≢◌, ◌≤◌, ◌-◌, ◌+◌, ◌⊎◌, inl, inr, max, true, false, Option, none,
  some, [], ◌∷◌, ◌==◌, Bool-cases, Option-cases, ltb, leb, if◌then◌else◌, arith,
}
use anet_hub.Prelude.Table.{Table, lookup, insert, lookup-insert, lookup-erase}
use anet_hub.Replay.{
  Verdict, accepted, Signer, Shard, found, accept_signer, put_signer, accept_locked, top,
  sweep_signers, sweep_every, sweep, accept, flatten, Step, request, swept, relieved, Run, here,
  next,
}
use anet_hub.Replay.Times.{Holds, note_time-Holds}

-- A signer without state has its times below gone.
abbrev pub KnownIn : ℕ → ℕ → Option Signer → Type 0
KnownIn ts gone none = ts ≤ gone
KnownIn ts gone (some s) = Holds ts s

abbrev pub Known : ℕ → ℕ → Shard → Type 0
Known aid ts sh = KnownIn ts sh.gone (lookup aid sh.signers)

accept_signer-Holds :
    (t aid ts k : ℕ) (s : Signer) → Holds t s → Holds t (accept_signer aid ts k s).1
unfolding accept_signer
accept_signer-Holds t aid ts k s h = elim (Bool-cases (leb ts s.floor)) [
  | inl low ↦ rw low h
  | inr high ↦ elim (Bool-cases (found ts s.recent)) [
    | inl old ↦ rw (high, old) h
    | inr new ↦ let (kept, _) = note_time-Holds t ts k s (ground arith) new h in rw (high, new) kept
  ]
]

accept_signer-Holds_accepted :
    (t aid ts k : ℕ) (s : Signer)
    → Holds t s
    → (accept_signer aid ts k s).0 ≡ accepted
    → Holds ts (accept_signer aid ts k s).1
unfolding accept_signer
accept_signer-Holds_accepted t aid ts k s h e = elim (Bool-cases (leb ts s.floor)) [
  | inl low ↦ absurd (ground arith)
  | inr high ↦ elim (Bool-cases (found ts s.recent)) [
    | inl old ↦ absurd (ground arith)
    | inr new ↦
        let (_, there) = note_time-Holds t ts k s (ground arith) new h in rw (high, new) there
  ]
]

-- The row of another signer stays, and that of the signer becomes the one put there.
put_signer-KnownIn :
    (aid by ts : ℕ) (s : Signer) (d : Table Signer) (gone : ℕ)
    → KnownIn ts gone (lookup aid d)
    → (aid ≡ by → Holds ts s)
    → KnownIn ts gone (lookup aid (insert by s d))
put_signer-KnownIn aid by ts s d gone h put = elim (Bool-cases (aid == by)) [
  | inl same ↦ rw (lookup-insert, same) (put (ground arith))
  | inr other ↦ rw (lookup-insert, other) h
]

-- A signer with no state yet.
abbrev new_signer : ℕ → Signer
new_signer gone = record { floor = gone; max_seen = 0; recent = [] }

new_signer-Holds : (ts gone : ℕ) → ts ≤ gone → Holds ts (new_signer gone)
new_signer-Holds ts gone h = record { ordered = tt; covered = inl h; below_top = ground arith }

-- The state that a request of `by` is checked against.
abbrev state_of : ℕ → Shard → Signer
state_of by sh = elim (lookup by sh.signers) [ none ↦ new_signer sh.gone | some s ↦ s ]

unknown_below : {ts gone : ℕ} {o : Option Signer} → o ≡ none → KnownIn ts gone o → ts ≤ gone
unknown_below {o = none} q h = h
unknown_below {o = some s} q h = cc

some-Holds :
    (ts gone : ℕ) {o : Option Signer} {s : Signer} → o ≡ some s → KnownIn ts gone o → Holds ts s
some-Holds ts gone {o = none} q h = cc
some-Holds ts gone {o = some s'} {s} q h = let e : s' ≡ s = cc in rw (← e) h

known_here :
    (ts gone : ℕ) (c : Bool) (s : Signer) (o : Option Signer)
    → c ≡ true
    → KnownIn ts gone (if c then some s else o)
    → Holds ts s
known_here ts gone true s o q h = h
known_here ts gone false s o q h = cc

known_else :
    (ts gone : ℕ) (c : Bool) (s : Signer) (o : Option Signer)
    → c ≡ false
    → KnownIn ts gone (if c then some s else o)
    → KnownIn ts gone o
known_else ts gone true s o q h = cc
known_else ts gone false s o q h = h

state_of-Holds : (by ts : ℕ) (sh : Shard) → Known by ts sh → Holds ts (state_of by sh)
state_of-Holds by ts sh h = elim (Option-cases (lookup by sh.signers)) [
  | inl q ↦ rw (state_of, q) (new_signer-Holds ts sh.gone (unknown_below q h))
  | inr (s, q) ↦ rw (state_of, q) (some-Holds ts sh.gone q h)
]

self_eq : (n : ℕ) → (n == n) ≡ true
self_eq n = ground arith

answers :
    (by : ℕ) (sh : Shard) (r : Verdict × Shard) (c : Verdict × Signer)
    → r ≡ put_signer by sh c
    → r.0 ≡ accepted
    → c.0 ≡ accepted
answers by sh r c puts e = ap (λ (r : Verdict × Shard). r.0) (sym puts) ∙ e

-- A request leaves the part as it was, or puts the signer's state there, as it answers.
accept_locked-cases :
    (max_skew by ts k now : ℕ) (sh : Shard)
    → ((accept_locked max_skew by ts k now sh).1 ≡ sh
        × ((accept_locked max_skew by ts k now sh).0 ≢ accepted))
      ⊎ (accept_locked max_skew by ts k now sh
          ≡ put_signer by sh (accept_signer by ts k (state_of by sh)))
unfolding accept_locked
accept_locked-cases max_skew by ts k now sh = ground arith

accept_locked-Known :
    (max_skew aid t by ts k now : ℕ) (sh : Shard)
    → Known aid t sh
    → Known aid t (accept_locked max_skew by ts k now sh).1
accept_locked-Known max_skew aid t by ts k now sh h =
    elim (accept_locked-cases max_skew by ts k now sh) [
      | inl (same, _) ↦ rw same h
      | inr puts ↦ rw puts (
          put_signer-KnownIn aid by t (accept_signer by ts k (state_of by sh)).1 sh.signers sh.gone
            h
            (λ e.
              accept_signer-Holds t by ts k (state_of by sh) (state_of-Holds by t sh (rw (← e) h))))
    ]

accept_locked-Known_accepted :
    (max_skew by ts k now : ℕ) (sh : Shard)
    → Known by 0 sh
    → (accept_locked max_skew by ts k now sh).0 ≡ accepted
    → Known by ts (accept_locked max_skew by ts k now sh).1
accept_locked-Known_accepted max_skew by ts k now sh h e =
    elim (accept_locked-cases max_skew by ts k now sh) [
      | inl (_, refused) ↦ absurd (refused e)
      | inr puts ↦
          let s' =
            accept_signer-Holds_accepted 0 by ts k (state_of by sh) (state_of-Holds by 0 sh h)
              (answers by sh _ (accept_signer by ts k (state_of by sh)) puts e) in
          rw (puts, lookup-insert, self_eq by) s'
    ]

-- A time that is known is refused.
accept_signer_refuses :
    (by ts k : ℕ) (s : Signer) → Holds ts s → (accept_signer by ts k s).0 ≢ accepted
unfolding accept_signer
accept_signer_refuses by ts k s h e = elim h.covered [
  | inl low ↦ absurd (ground arith)
  | inr there ↦ absurd (ground arith)
]

pub accept_locked_refuses :
    (max_skew by ts k now : ℕ) (sh : Shard)
    → Known by ts sh
    → (accept_locked max_skew by ts k now sh).0 ≢ accepted
accept_locked_refuses max_skew by ts k now sh h e =
    elim (accept_locked-cases max_skew by ts k now sh) [
      | inl (_, refused) ↦ absurd (refused e)
      | inr puts ↦ absurd (
          accept_signer_refuses by ts k (state_of by sh) (state_of-Holds by ts sh h)
            (answers by sh _ (accept_signer by ts k (state_of by sh)) puts e))
    ]

-- Gone rises, and what is dropped is below it.
gone_rises-KnownIn :
    (ts gone gone' : ℕ) (o : Option Signer) → gone ≤ gone' → KnownIn ts gone o → KnownIn ts gone' o
gone_rises-KnownIn ts gone gone' none le h = omega arith
gone_rises-KnownIn ts gone gone' (some s) le h = h

sweep_signers-KnownIn :
    (aid ts limit gone : ℕ) (d : Table Signer)
    → KnownIn ts gone (lookup aid d)
    → KnownIn ts (sweep_signers limit gone d).1 (lookup aid (sweep_signers limit gone d).0)
sweep_signers-KnownIn aid ts limit gone [] h = h
sweep_signers-KnownIn aid ts limit gone (e ∷ d) h = elim (Bool-cases (ltb (top e.1) limit)) [
  | inl old ↦ elim (Bool-cases (aid == e.0)) [
    | inl same ↦
        let held : Holds ts e.1 = known_here ts gone (aid == e.0) e.1 (lookup aid d) same h in
        rw (old, lookup-erase, same) (ground (arith, held.below_top))
    | inr other ↦
        let rest =
          sweep_signers-KnownIn aid ts limit gone d
            (known_else ts gone (aid == e.0) e.1 (lookup aid d) other h) in
        rw (old, lookup-erase, other)
          (gone_rises-KnownIn ts (sweep_signers limit gone d).1
            (max (sweep_signers limit gone d).1 (top e.1))
            (lookup aid (sweep_signers limit gone d).0) (omega arith) rest)
  ]
  | inr young ↦ elim (Bool-cases (aid == e.0)) [
    | inl same ↦ rw (young, same) (known_here ts gone (aid == e.0) e.1 (lookup aid d) same h)
    | inr other ↦
        rw (young, other)
          (sweep_signers-KnownIn aid ts limit gone d
            (known_else ts gone (aid == e.0) e.1 (lookup aid d) other h))
  ]
]

-- Every step keeps what is known.
sweep-Known :
    (max_skew aid t now : ℕ) (sh : Shard) → Known aid t sh → Known aid t (sweep max_skew now sh)
unfolding sweep
sweep-Known max_skew aid t now sh h = elim (Bool-cases (leb now max_skew)) [
  | inl early ↦ rw early h
  | inr late ↦ rw late (sweep_signers-KnownIn aid t (now - max_skew) sh.gone sh.signers h)
]

due_sweep-Known :
    (c : Bool) (max_skew aid t now : ℕ) (sh : Shard)
    → Known aid t sh
    → Known aid t (if c then sweep max_skew now sh else sh)
due_sweep-Known true max_skew aid t now sh h = sweep-Known max_skew aid t now sh h
due_sweep-Known false max_skew aid t now sh h = h

accept-Known :
    (max_skew aid t by ts k now : ℕ) (sh : Shard)
    → Known aid t sh
    → Known aid t (accept max_skew by ts k now sh).1
unfolding accept
accept-Known max_skew aid t by ts k now sh h =
    let sh' = (accept_locked max_skew by ts k now sh).1 in
    due_sweep-Known (leb (sh'.swept + sweep_every) now) max_skew aid t now sh'
      (accept_locked-Known max_skew aid t by ts k now sh h)

-- An accepted time is known.
pub accept-Known_accepted :
    (max_skew by ts k now : ℕ) (sh : Shard)
    → Known by 0 sh
    → (accept max_skew by ts k now sh).0 ≡ accepted
    → Known by ts (accept max_skew by ts k now sh).1
unfolding accept
accept-Known_accepted max_skew by ts k now sh h e =
    let sh' = (accept_locked max_skew by ts k now sh).1 in
    due_sweep-Known (leb (sh'.swept + sweep_every) now) max_skew by ts now sh'
      (accept_locked-Known_accepted max_skew by ts k now sh h e)

pub accept_refuses :
    (max_skew by ts k now : ℕ) (sh : Shard)
    → Known by ts sh
    → (accept max_skew by ts k now sh).0 ≢ accepted
unfolding accept
accept_refuses max_skew by ts k now sh h = accept_locked_refuses max_skew by ts k now sh h

flatten_signer-Holds :
    (t : ℕ) (s : Signer) → Holds t s → Holds t (record s { floor = top s; recent = [] })
flatten_signer-Holds t s h = record {
  ordered = tt;
  covered = inl h.below_top;
  below_top = ground (arith, h.below_top);
}

flatten-Known : (aid t by : ℕ) (sh : Shard) → Known aid t sh → Known aid t (flatten by sh)
unfolding flatten
flatten-Known aid t by sh h = elim (Option-cases (lookup by sh.signers)) [
  | inl q ↦ rw (q, flatten) h
  | inr (s, q) ↦
      rw (q, flatten)
        (put_signer-KnownIn aid by t (record s { floor = top s; recent = [] }) sh.signers sh.gone h
          (λ e.
            flatten_signer-Holds t s
              (some-Holds t sh.gone (ap (λ x. lookup x sh.signers) e ∙ q) h)))
]

Step-Known :
    (max_skew aid t : ℕ) (sh sh' : Shard) → Step max_skew sh sh' → Known aid t sh → Known aid t sh'
Step-Known max_skew aid t sh sh' (request by ts k now e) h =
    rw e (accept-Known max_skew aid t by ts k now sh h)
Step-Known max_skew aid t sh sh' (swept now e) h = rw e (sweep-Known max_skew aid t now sh h)
Step-Known max_skew aid t sh sh' (relieved by e) h = rw e (flatten-Known aid t by sh h)

pub Run-Known :
    (max_skew aid t : ℕ) (start : Shard) {sh : Shard}
    → Known aid t start
    → Run max_skew start sh
    → Known aid t sh
Run-Known max_skew aid t start h here = h
Run-Known max_skew aid t start h (next {sh} sh' r st) =
    Step-Known max_skew aid t sh sh' st (Run-Known max_skew aid t start h r)
