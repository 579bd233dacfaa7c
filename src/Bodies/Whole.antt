-- ===== src/Bodies/Whole.antt =====
-- What the requests hold of the budget (internal/federation/bodybudget.go).
use anet_hub.Prelude.{
  ℕ, ◌≤◌, ◌-◌, ◌+◌, ◌≡◌, refl, ap, ◌∙◌, true, List, [], ◌∷◌, ◌⊎◌, inl, inr, Bool-cases, ◌==◌, leb,
  leb→le, if◌then◌else◌, arith,
}
use anet_hub.Prelude.Int.{ℤ, pos, ◌+ℤ◌, ◌-ℤ◌, ◌≤ℤ◌, int_laws, pos_part, neg_part}
use anet_hub.Prelude.Table.{Table, insert, value_of, sum, sum-insert, lookup-insert}
use anet_hub.Bodies.{
  Budget, take, hold_take, release, read, End, eof, timeout, broken, body, read_all, read_peer_body,
  Step, reads, reads_piece, returns, Run, here, next,
}

pub record IsWithin (b : Budget) : Type 0 where
  pub all_held : b.used ≡ sum b.holds
  pub no_debt : (r : ℕ) → pos 0 ≤ℤ value_of r b.holds
  pub in_limit : b.used ≤ℤ b.limit

value_of-insert :
    (j k : ℕ) (v : ℤ) (d : Table ℤ)
    → value_of j (insert k v d) ≡ (if j == k then v else value_of j d)
value_of-insert j k v d = ground (arith, lookup-insert j k v d)

abbrev grown : ℕ → ℤ → Budget → Budget
grown r n b = record b { used = b.used +ℤ n; holds = insert r (value_of r b.holds +ℤ n) b.holds }

grown-IsWithin :
    (r : ℕ) (n : ℤ) (b : Budget)
    → pos 0 ≤ℤ n
    → n ≤ℤ b.limit -ℤ b.used
    → IsWithin b
    → IsWithin (grown r n b)
grown-IsWithin r n b gain fits w = record {
  all_held =
      let s = sum-insert r (value_of r b.holds +ℤ n) b.holds in
      omega
        (int_laws, ap pos_part s, ap neg_part s, ap pos_part w.all_held, ap neg_part w.all_held);
  no_debt = λ j. elim (Bool-cases (j == r)) [
    | inl own ↦ rw (value_of-insert, own) (omega (int_laws, w.no_debt r))
    | inr other ↦ rw (value_of-insert, other) (w.no_debt j)
  ];
  in_limit = omega int_laws;
}

-- Taking leaves the budget as it is, or grows it by what fits.
read-cases :
    (r n : ℕ) (b : Budget)
    → ((read r n b).1 ≡ b) ⊎ (((read r n b).1 ≡ grown r (pos n) b) × (pos n ≤ℤ b.limit -ℤ b.used))
unfolding read hold_take take
read-cases r n b = ground arith

read-IsWithin : (r n : ℕ) (b : Budget) → IsWithin b → IsWithin (read r n b).1
read-IsWithin r n b w = elim (read-cases r n b) [
  | inl same ↦ rw same w
  | inr (grows, fits) ↦ rw grows (grown-IsWithin r (pos n) b (omega arith) fits w)
]

-- The pieces that read_all takes, and which of its ends it reaches.
read_all-IsWithin :
    (r total left : ℕ) (ns : List ℕ) (end : End) (b : Budget)
    → IsWithin b
    → IsWithin (read_all r total left ns end b).1
read_all-IsWithin r total left [] end b w = w
read_all-IsWithin r total left (n ∷ ns) end b w =
    let m = if leb n left then n else left in
    let b' = (read r m b).1 in
    let w' = read-IsWithin r m b w in
    let rest = read_all-IsWithin r (total + n) (left - n) ns end b' w' in
    elim (Bool-cases (read r m b).0) [
      | inl fits ↦ elim (Bool-cases (leb n left)) [
        | inl inside ↦ ground (arith, rest)
        | inr beyond ↦ ground (arith, w')
      ]
      | inr full ↦ ground (arith, w')
    ]

read_peer_body-IsWithin :
    (r : ℕ) (stated : ℤ) (limit : ℕ) (ns : List ℕ) (end : End) (b : Budget)
    → IsWithin b
    → IsWithin (read_peer_body r stated limit ns end b).1
unfolding read_peer_body
read_peer_body-IsWithin r stated limit ns end b w =
    ground (arith, w, read_all-IsWithin r 0 limit ns end b w)

released : (u v : ℤ) → pos 0 ≤ℤ v → (l : ℤ) → u ≤ℤ l → u -ℤ v ≤ℤ l
released u v h l k = omega int_laws

release-IsWithin : (r : ℕ) (b : Budget) → IsWithin b → IsWithin (release r b)
unfolding release
release-IsWithin r b w = record {
  all_held =
      let s = sum-insert r (pos 0) b.holds in
      omega
        (int_laws, ap pos_part s, ap neg_part s, ap pos_part w.all_held, ap neg_part w.all_held);
  no_debt = λ j. elim (Bool-cases (j == r)) [
    | inl own ↦ rw (value_of-insert, own) (omega arith)
    | inr other ↦ rw (value_of-insert, other) (w.no_debt j)
  ];
  in_limit = released b.used (value_of r b.holds) (w.no_debt r) b.limit w.in_limit;
}

Step-IsWithin : (b b' : Budget) → Step b b' → IsWithin b → IsWithin b'
Step-IsWithin b b' (reads r stated limit ns end e) w =
    rw e (read_peer_body-IsWithin r stated limit ns end b w)
Step-IsWithin b b' (reads_piece r n e) w = rw e (read-IsWithin r n b w)
Step-IsWithin b b' (returns r e) w = rw e (release-IsWithin r b w)

-- From a budget where this holds, however the requests' reads and returns interleave, the budget in use is the sum of what the
-- requests hold, no request holds less than nothing, and the limit is not passed.
pub Run-IsWithin : (start : Budget) {b : Budget} → IsWithin start → Run start b → IsWithin b
Run-IsWithin start w here = w
Run-IsWithin start w (next {b} b' r st) = Step-IsWithin b b' st (Run-IsWithin start w r)

self_eq : (n : ℕ) → (n == n) ≡ true
self_eq n = ground arith

-- What is in use without one request.
abbrev others : ℕ → Budget → ℤ
others r b = b.used -ℤ value_of r b.holds

grown-others : (r : ℕ) (n : ℤ) (b : Budget) → others r (grown r n b) ≡ others r b
grown-others r n b = rw (value_of-insert, self_eq r) (omega int_laws)

read-others : (r n : ℕ) (b : Budget) → others r (read r n b).1 ≡ others r b
read-others r n b = elim (read-cases r n b) [
  | inl same ↦ rw same refl
  | inr (grows, fits) ↦ rw grows (grown-others r (pos n) b)
]

read_all-others :
    (r total left : ℕ) (ns : List ℕ) (end : End) (b : Budget)
    → others r (read_all r total left ns end b).1 ≡ others r b
read_all-others r total left [] end b = refl
read_all-others r total left (n ∷ ns) end b =
    let m = if leb n left then n else left in
    let b' = (read r m b).1 in
    let one = read-others r m b in
    let rest = read_all-others r (total + n) (left - n) ns end b' ∙ one in
    elim (Bool-cases (read r m b).0) [
      | inl fits ↦ elim (Bool-cases (leb n left)) [
        | inl inside ↦ ground (arith, rest)
        | inr beyond ↦ ground (arith, one)
      ]
      | inr full ↦ ground (arith, one)
    ]

-- When a request returns, its whole hold is given back, whether its body was read, too large, over
-- the budget, late or broken: the budget in use is what it was without the request.
pub release-read_peer_body :
    (r : ℕ) (stated : ℤ) (limit : ℕ) (ns : List ℕ) (end : End) (b : Budget)
    → (release r (read_peer_body r stated limit ns end b).1).used ≡ b.used -ℤ value_of r b.holds
unfolding release read_peer_body
release-read_peer_body r stated limit ns end b = ground (arith, read_all-others r 0 limit ns end b)

abbrev pub sum_of : List ℕ → ℕ
sum_of [] = 0
sum_of (n ∷ ns) = n + sum_of ns

read_all-body :
    (r total left : ℕ) (ns : List ℕ) (end : End) (b : Budget) {k : ℕ}
    → (read_all r total left ns end b).0 ≡ body k
    → (k ≡ total + sum_of ns) × (sum_of ns ≤ left)
read_all-body r total left [] eof b e = ground arith
read_all-body r total left [] timeout b e = cc
read_all-body r total left [] broken b e = cc
read_all-body r total left (n ∷ ns) end b {k} e =
    let m = if leb n left then n else left in
    let b' = (read r m b).1 in
    elim (Bool-cases (read r m b).0) [
      | inl fits ↦ elim (Bool-cases (leb n left)) [
        | inl inside ↦
            let go : (read_all r (total + n) (left - n) ns end b').0 ≡ body k = ground arith in
            let (s, le) = read_all-body r (total + n) (left - n) ns end b' go in
            (omega (arith, s), omega (arith, le, leb→le n left inside))
        | inr beyond ↦ absurd (ground arith)
      ]
      | inr full ↦ absurd (ground arith)
    ]

-- A body that is handed on has every byte that was sent, and is within the route's limit.
pub read_peer_body-body :
    (r : ℕ) (stated : ℤ) (limit : ℕ) (ns : List ℕ) (end : End) (b : Budget) {k : ℕ}
    → (read_peer_body r stated limit ns end b).0 ≡ body k
    → (k ≡ sum_of ns) × (k ≤ limit)
unfolding read_peer_body
read_peer_body-body r stated limit ns end b {k} e =
    let whole : (read_all r 0 limit ns end b).0 ≡ body k = ground arith in
    let (s, le) = read_all-body r 0 limit ns end b whole in (omega (arith, s), omega (arith, s, le))
