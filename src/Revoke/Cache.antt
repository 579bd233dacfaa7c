-- ===== src/Revoke/Cache.antt =====
-- What the cache answers, against the table (internal/aghub/revoke.go CapRevoked, RevokeCaps).
use anet_hub.Prelude.{
  ℕ, ◌≤◌, ◌<◌, ◌≡◌, refl, ap, sym, ◌∙◌, Bool, true, false, none, some, List, ◌∷◌, ◌==◌, max, inl,
  inr, ◌⊎◌, Bool-cases, Option-cases, take, arith,
}
use anet_hub.Prelude.Table.{Table, lookup, insert, lookup-insert}
use anet_hub.Revoke.{
  Key, same_key, Rows, find, to_front, covers, mark, Cached, get, put, add, cache_size, Reader,
  asked, read, Pending, told, untold, World, row_at,
}
use anet_hub.Revoke.Rows.{find-to_front, find-take, find-mark, find-same, same_key-covers}

-- The key waits for the cache to be told of its revocation, and when that was.
abbrev pub waits : Pending → Key → Bool
waits told k = false
waits (untold owner ids at) k = covers owner ids k

abbrev pub since : Pending → ℕ
since told = 0
since (untold owner ids at) = at

-- A revocation in the table is no younger than the remembered time.
abbrev pub Safe : Key → ℕ → Rows → Type 0
Safe k v rows = (at : ℕ) → find k rows ≡ some at → (at ≤ v) × (0 < v)

abbrev pub Remembered : Key → ℕ → World → Type 0
Remembered k v w = Safe k v w.rows ⊎ (waits w.pending k ≡ true)

abbrev pub Fits : Reader → World → Type 0
Fits (asked gen k) w = gen ≤ w.cache.gen
Fits (read gen k v) w = (gen ≤ w.cache.gen) × (gen ≡ w.cache.gen → Remembered k v w)

pub record IsCoherent (w : World) : Type 0 where
  pub positive : (k : Key) (at : ℕ) → find k w.rows ≡ some at → 0 < at
  pub cached : (k : Key) (v : ℕ) → find k w.cache.entries ≡ some v → Remembered k v w
  pub in_flight : (r : ℕ) (x : Reader) → lookup r w.readers ≡ some x → Fits x w
  pub waiting :
      (k : Key) (at : ℕ) → waits w.pending k ≡ true → find k w.rows ≡ some at → at ≤ since w.pending

insert_reader :
    (r r' : ℕ) (x y : Reader) (d : Table Reader)
    → lookup r' (insert r x d) ≡ some y
    → (x ≡ y) ⊎ (lookup r' d ≡ some y)
insert_reader r r' x y d e = elim (Bool-cases (r' == r)) [
  | inl own ↦ let t : lookup r' (insert r x d) ≡ some x = rw (lookup-insert, own) refl in inl cc
  | inr other ↦
      let t : lookup r' (insert r x d) ≡ lookup r' d = rw (lookup-insert, other) refl in inr cc
]

-- A reader stays sound where the generation stays and what was remembered is.
pub Fits-stays :
    (x : Reader) (w w' : World)
    → w'.cache.gen ≡ w.cache.gen
    → ((k : Key) (v : ℕ) → Remembered k v w → Remembered k v w')
    → Fits x w
    → Fits x w'
Fits-stays (asked gen k) w w' g f h = rw g h
Fits-stays (read gen k v) w w' g f (le, h) = (rw g le, λ e. f k v (h (e ∙ g)))

-- A reader that is behind the generation is not heard.
pub Fits-behind : (x : Reader) (w w' : World) → w.cache.gen < w'.cache.gen → Fits x w → Fits x w'
Fits-behind (asked gen k) w w' lt h = omega arith
Fits-behind (read gen k v) w w' lt (le, h) = (omega arith, λ e. absurd (omega arith))

pub asks-IsCoherent :
    (k : Key) (now : ℕ) (w : World)
    → IsCoherent w
    → IsCoherent (record w { cache = (get k now w.cache).1 })
unfolding get
asks-IsCoherent k now w c = elim (Option-cases (find k w.cache.entries)) [
  | inl q ↦ rw (q, get) c
  | inr (at, q) ↦
      rw (q, get)
        (record {
          positive = c.positive;
          cached = λ j v e. c.cached j v (moved j at q e);
          in_flight = λ r x e. Fits-stays x w _ refl (λ j v h. h) (c.in_flight r x e);
          waiting = c.waiting;
        })
]
  where
    moved :
        (j : Key) (at : ℕ) {v : ℕ}
        → find k w.cache.entries ≡ some at
        → find j (to_front k at w.cache.entries) ≡ some v
        → find j w.cache.entries ≡ some v
    moved j at q e = elim (Bool-cases (same_key j k)) [
      | inl own ↦
          let t : find j (to_front k at w.cache.entries) ≡ some at = rw (find-to_front, own) refl in
          find-same j k w.cache.entries own ∙ q ∙ sym t ∙ e
      | inr other ↦
          let t : find j (to_front k at w.cache.entries) ≡ find j w.cache.entries =
            rw (find-to_front, other) refl in
          sym t ∙ e
    ]

pub with_reader-IsCoherent :
    (r : ℕ) (x : Reader) (w : World)
    → Fits x w
    → IsCoherent w
    → IsCoherent (record w { readers = insert r x w.readers })
with_reader-IsCoherent r x w h c = record {
  positive = c.positive;
  cached = c.cached;
  in_flight = λ r' y e. elim (insert_reader r r' x y w.readers e) [
    | inl same ↦ Fits-stays y w _ refl (λ j v q. q) (rw (← same) h)
    | inr old ↦ Fits-stays y w _ refl (λ j v q. q) (c.in_flight r' y old)
  ];
  waiting = c.waiting;
}

pub read_row-Safe : (k : Key) (w : World) → IsCoherent w → Safe k (row_at (find k w.rows)) w.rows
read_row-Safe k w c at e = let p = c.positive k at e in rw (e, row_at) (omega arith, p)

put-find :
    (gen : ℕ) (k j : Key) (at v : ℕ) (c : Cached)
    → find j (put gen k at c).entries ≡ some v
    → (find j c.entries ≡ some v) ⊎ ((gen ≡ c.gen) × (same_key j k ≡ true) × (v ≡ at))
unfolding put
put-find gen k j at v c e = elim (Bool-cases (gen == c.gen)) [
  | inr stale ↦ inl (ground arith)
  | inl current ↦ elim (Option-cases (find k c.entries)) [
    | inl new ↦
        let t : find j (take cache_size ((k, at) ∷ c.entries)) ≡ some v = ground arith in
        let u = find-take cache_size j ((k, at) ∷ c.entries) v t in
        elim (Bool-cases (same_key j k)) [
          | inl own ↦ inr (ground arith)
          | inr other ↦ inl (ground arith)
        ]
    | inr (old, q) ↦
        let t : find j (to_front k at c.entries) ≡ some v = ground arith in
        elim (Bool-cases (same_key j k)) [
          | inl own ↦ inr (ground (arith, find-to_front j k at c.entries))
          | inr other ↦ inl (ground (arith, find-to_front j k at c.entries))
        ]
  ]
]

waits_same : (p : Pending) (j k : Key) → same_key j k ≡ true → waits p j ≡ waits p k
waits_same told j k own = refl
waits_same (untold owner ids at) j k own = same_key-covers j k owner ids own

kept_again :
    (j k : Key) (at : ℕ) (w : World) → same_key j k ≡ true → Remembered k at w → Remembered j at w
kept_again j k at w own (inl safe) =
    inl (λ at' row. safe at' (sym (find-same j k w.rows own) ∙ row))
kept_again j k at w own (inr waits_still) = inr (waits_same w.pending j k own ∙ waits_still)

put_gen : (gen : ℕ) (k : Key) (at : ℕ) (c : Cached) → (put gen k at c).gen ≡ c.gen
unfolding put
put_gen gen k at c = ground arith

pub puts-IsCoherent :
    (r gen : ℕ) (k : Key) (at : ℕ) (w : World)
    → lookup r w.readers ≡ some (read gen k at)
    → IsCoherent w
    → IsCoherent (record w { cache = put gen k at w.cache })
puts-IsCoherent r gen k at w held c = record {
  positive = c.positive;
  cached = λ j v e. elim (put-find gen k j at v w.cache e) [
    | inl old ↦ c.cached j v old
    | inr (current, own, same) ↦
        let (_, known) = c.in_flight r (read gen k at) held in
        rw same (kept_again j k at w own (known current))
  ];
  in_flight =
      λ r' x e. Fits-stays x w _ (put_gen gen k at w.cache) (λ j v q. q) (c.in_flight r' x e);
  waiting = c.waiting;
}

pub tells-IsCoherent :
    (owner : ℕ) (ids : List ℕ) (at : ℕ) (w : World)
    → w.pending ≡ untold owner ids at
    → IsCoherent w
    → IsCoherent (record w { cache = add owner ids at w.cache; pending = told })
unfolding add
tells-IsCoherent owner ids at w p c = record {
  positive = c.positive;
  cached = λ k v e. inl (settled k v e);
  in_flight = λ r x e. Fits-behind x w _ (omega arith) (c.in_flight r x e);
  waiting = λ k at' e. cc;
}
  where
    due : (k : Key) (at' : ℕ) → covers owner ids k ≡ true → find k w.rows ≡ some at' → at' ≤ at
    due k at' cov row =
        let h = c.waiting k at' (rw p cov) row in
        let s : since w.pending ≡ at = rw p refl in omega (arith, h, s)

    settled :
        (k : Key) (v : ℕ) → find k (mark owner ids at w.cache.entries) ≡ some v → Safe k v w.rows
    settled k v e at' row = elim (Option-cases (find k w.cache.entries)) [
      | inl q ↦
          let t : find k (mark owner ids at w.cache.entries) ≡ none = rw (find-mark, q) refl in
          absurd cc
      | inr (u, q) ↦ elim (Bool-cases (covers owner ids k)) [
        | inl cov ↦
            let t : find k (mark owner ids at w.cache.entries) ≡ some (max at 1) =
              rw (find-mark, q, cov) refl in
            let same : max at 1 ≡ v = cc in omega (arith, due k at' cov row, same)
        | inr out ↦
            let t : find k (mark owner ids at w.cache.entries) ≡ some u =
              rw (find-mark, q, out) refl in
            let same : u ≡ v = cc in
            elim (c.cached k u q) [
              | inl safe ↦ rw (← same) (safe at' row)
              | inr waits_still ↦
                  let h : covers owner ids k ≡ true = ap (λ q. waits q k) (sym p) ∙ waits_still in
                  absurd cc
            ]
      ]
    ]
