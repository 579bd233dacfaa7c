-- ===== src/Revoke/Refuses.antt =====
-- Every run of the sends and the revocations (internal/aghub/revoke.go CapRevoked, RevokeCaps).
use anet_hub.Prelude.{
  ℕ, ◌<◌, ◌≡◌, refl, ap, sym, ◌∙◌, Bool, true, false, none, some, List, [], inl, inr, ◌⊎◌,
  Bool-cases, Option-cases, arith,
}
use anet_hub.Revoke.{
  Key, Rows, find, covers, keep_rows, live_row, is_live, answer, write_all, get, forget, asked,
  read, told, untold, World, row_at, revoke_caps, revoked, Step, asks, misses, reads, puts, commits,
  tells, purges, purge, cap_revoked, deletes, forgets, Run, here, next,
}
use anet_hub.Revoke.Rows.{find-keep_rows, find-write_all}
use anet_hub.Revoke.Cache.{
  waits, Safe, Remembered, IsCoherent, asks-IsCoherent, puts-IsCoherent, tells-IsCoherent,
  with_reader-IsCoherent, read_row-Safe, Fits-stays, Fits-behind,
}

-- Only what a commit writes changes, and all of that waits.
committed :
    (length_of : ℕ → ℕ) (owner now : ℕ) (ids new : List ℕ) (count total : ℕ) (rows rows' : Rows)
    → revoke_caps length_of owner now ids rows ≡ revoked count total new rows'
    → rows' ≡ write_all owner now new rows
unfolding revoke_caps
committed length_of owner now ids new count total rows rows' e = ground arith

commits-IsCoherent :
    (owner now : ℕ) (new : List ℕ) (w : World)
    → 0 < now
    → w.pending ≡ told
    → IsCoherent w
    → IsCoherent
        (record w { rows = write_all owner now new w.rows; pending = untold owner new now })
commits-IsCoherent owner now new w up p c = record {
  positive = λ k at e. elim (written k at e) [
    | inl (cov, same) ↦ rw same up
    | inr (out, old) ↦ c.positive k at old
  ];
  cached = λ k v e. carried k v (c.cached k v e);
  in_flight = λ r x e. Fits-stays x w _ refl carried (c.in_flight r x e);
  waiting = λ k at cov e. elim (written k at e) [
    | inl (_, same) ↦ rw same (omega arith)
    | inr (out, _) ↦ absurd cc
  ];
}
  where
    written :
        (k : Key) (at : ℕ)
        → find k (write_all owner now new w.rows) ≡ some at
        → ((covers owner new k ≡ true) × (at ≡ now))
          ⊎ ((covers owner new k ≡ false) × (find k w.rows ≡ some at))
    written k at e = elim (Bool-cases (covers owner new k)) [
      | inl cov ↦
          let t : find k (write_all owner now new w.rows) ≡ some now =
            rw (find-write_all, cov) refl in
          inl (cov, cc)
      | inr out ↦
          let t : find k (write_all owner now new w.rows) ≡ find k w.rows =
            rw (find-write_all, out) refl in
          inr (out, sym t ∙ e)
    ]

    carried :
        (k : Key) (v : ℕ)
        → Remembered k v w
        → Remembered k v
            (record w { rows = write_all owner now new w.rows; pending = untold owner new now })
    carried k v (inr waits_still) =
        let h : false ≡ true = ap (λ q. waits q k) (sym p) ∙ waits_still in absurd cc
    carried k v (inl safe) = elim (Bool-cases (covers owner new k)) [
      | inl cov ↦ inr cov
      | inr out ↦
          inl (λ at e. elim (written k at e) [
            | inl (cov, _) ↦ absurd cc
            | inr (_, old) ↦ safe at old
          ])
    ]

deletes-IsCoherent :
    (kept : Key × ℕ → Bool) (w : World)
    → IsCoherent w
    → IsCoherent (record w { rows = keep_rows kept w.rows })
deletes-IsCoherent kept w c = record {
  positive = λ k at e. c.positive k at (find-keep_rows k kept w.rows at e);
  cached = λ k v e. carried k v (c.cached k v e);
  in_flight = λ r x e. Fits-stays x w _ refl carried (c.in_flight r x e);
  waiting = λ k at cov e. c.waiting k at cov (find-keep_rows k kept w.rows at e);
}
  where
    carried :
        (k : Key) (v : ℕ)
        → Remembered k v w
        → Remembered k v (record w { rows = keep_rows kept w.rows })
    carried k v (inr waits_still) = inr waits_still
    carried k v (inl safe) = inl (λ at e. safe at (find-keep_rows k kept w.rows at e))

forgets-IsCoherent : (w : World) → IsCoherent w → IsCoherent (record w { cache = forget w.cache })
forgets-IsCoherent w c = record {
  positive = c.positive;
  cached = λ k v e. absurd cc;
  in_flight = λ r x e. Fits-behind x w _ (omega arith) (c.in_flight r x e);
  waiting = c.waiting;
}

Step-IsCoherent : (w w' : World) → Step w w' → IsCoherent w → IsCoherent w'
unfolding purge
Step-IsCoherent w w' (asks k now e) c = rw e (asks-IsCoherent k now w c)
Step-IsCoherent w w' (misses r k e) c =
    rw e (with_reader-IsCoherent r (asked w.cache.gen k) w (omega arith) c)
Step-IsCoherent w w' (reads r gen k held e) c = rw e (
    with_reader-IsCoherent r (read gen k (row_at (find k w.rows))) w
      (c.in_flight r (asked gen k) held, λ g. inl (read_row-Safe k w c)) c)
Step-IsCoherent w w' (puts r gen k at held e) c = rw e (puts-IsCoherent r gen k at w held c)
Step-IsCoherent w w' (commits length_of owner now ids new count total rows' up p done e) c =
    rw (e, committed length_of owner now ids new count total w.rows rows' done)
      (commits-IsCoherent owner now new w up p c)
Step-IsCoherent w w' (tells owner ids at p e) c = rw e (tells-IsCoherent owner ids at w p c)
Step-IsCoherent w w' (purges now e) c = rw e (deletes-IsCoherent (λ x. is_live now x.1) w c)
Step-IsCoherent w w' (deletes kept e) c = rw e (deletes-IsCoherent kept w c)
Step-IsCoherent w w' (forgets e) c = rw e (forgets-IsCoherent w c)

-- The hub process at its start: an empty cache.
abbrev pub started : Rows → World
started rows = record {
  rows = rows;
  cache = record { gen = 0; entries = [] };
  readers = [];
  pending = told;
}

started-IsCoherent :
    (rows : Rows)
    → ((k : Key) (at : ℕ) → find k rows ≡ some at → 0 < at)
    → IsCoherent (started rows)
started-IsCoherent rows h = record {
  positive = h;
  cached = λ k v e. absurd cc;
  in_flight = λ r x e. absurd cc;
  waiting = λ k at e. absurd cc;
}

Run-IsCoherent : (start : World) {w : World} → IsCoherent start → Run start w → IsCoherent w
Run-IsCoherent start c here = c
Run-IsCoherent start c (next {w} w' r st) = Step-IsCoherent w w' st (Run-IsCoherent start c r)

answer_live :
    (k : Key) (v now : ℕ) (rows : Rows)
    → Safe k v rows
    → live_row now (find k rows) ≡ true
    → answer now v ≡ true
answer_live k v now rows safe live = elim (Option-cases (find k rows)) [
  | inl q ↦ absurd (ground arith)
  | inr (at, q) ↦ let (le, up) = safe at q in ground (arith, live)
]

get_refuses :
    (rows : Rows) (k : Key) (now : ℕ) {w : World} {b : Bool}
    → ((j : Key) (at : ℕ) → find j rows ≡ some at → 0 < at)
    → Run (started rows) w
    → w.pending ≡ told
    → live_row now (find k w.rows) ≡ true
    → (get k now w.cache).0 ≡ some b
    → b ≡ true
unfolding get
get_refuses rows k now {w} {b} dated r p live e = elim (Option-cases (find k w.cache.entries)) [
  | inl q ↦ let t : (get k now w.cache).0 ≡ none = rw (q, get) refl in absurd cc
  | inr (v, q) ↦
      let t : (get k now w.cache).0 ≡ some (answer now v) = rw (q, get) refl in
      let same : answer now v ≡ b = cc in
      let c = Run-IsCoherent (started rows) (started-IsCoherent rows dated) r in
      elim (c.cached k v q) [
        | inl safe ↦ sym same ∙ answer_live k v now w.rows safe live
        | inr waits_still ↦
            let h : false ≡ true = ap (λ x. waits x k) (sym p) ∙ waits_still in absurd cc
      ]
]

-- However the sends that ask the cache or read the table, the revocations, the purges, the
-- deregistrations and the evictions interleave: while no RevokeCaps is between its commit and its call
-- of the cache, CapRevoked refuses every credential whose revocation in the table has not expired,
-- whether the cache answers or the table. The rows at the start are dated after 1970.
pub cap_revoked_refuses :
    (rows : Rows) (k : Key) (now : ℕ) {w : World}
    → ((j : Key) (at : ℕ) → find j rows ≡ some at → 0 < at)
    → Run (started rows) w
    → w.pending ≡ told
    → live_row now (find k w.rows) ≡ true
    → (cap_revoked k now w.rows w.cache).0 ≡ true
unfolding cap_revoked
cap_revoked_refuses rows k now {w} dated r p live = elim (Option-cases (get k now w.cache).0) [
  | inl q ↦
      let t : (cap_revoked k now w.rows w.cache).0 ≡ live_row now (find k w.rows) =
        rw (cap_revoked, q) refl in
      t ∙ live
  | inr (b, q) ↦
      let t : (cap_revoked k now w.rows w.cache).0 ≡ b = rw (cap_revoked, q) refl in
      t ∙ get_refuses rows k now dated r p live q
]
