-- ===== src/Admission/Gate/Limits.antt =====
-- The daily limits of each network (internal/aghub/admission.go signupQuota, trialBudget).
use anet_hub.Prelude.{
  ℕ, ◌+◌, ◌≤◌, ◌<◌, ◌≡◌, ◌⊎◌, refl, sym, ◌∙◌, not, Bool, true, Option, none, some, List, [], ◌∷◌,
  inl, inr, Bool-cases, ◌==◌, ◌&&◌, leb, if◌then◌else◌, All, arith,
}
use anet_hub.Prelude.Table.{Table}
use anet_hub.Admission.Gate.{
  Ip, NetLimit, Kind, Hashes, count_at, take_key, free_keys, net_key, masked, take_all, ip_v4,
  ip_v6, ip_other,
}
use anet_hub.Admission.Gate.Counts.{times, count_at-take_all}

-- The 16 bytes of HMAC-SHA256 tell two levels apart: no two of them share a counter.
pub record SeparatesLevels (hashes : Hashes) : Type 0 where
  pub level :
      (key : ℕ) (kind : Kind) (v v' : Bool) (b b' a a' : ℕ)
      → hashes.mac key kind v b a ≡ hashes.mac key kind v' b' a'
      → (v ≡ v') × (b ≡ b')

-- The two limits are of the same level.
abbrev pub SameLevel : NetLimit → NetLimit → Type 0
SameLevel l m = (l.v6 ≡ m.v6) × (l.bits ≡ m.bits)

net_key-mac :
    (hashes : Hashes) (key : ℕ) (kind : Kind) (l : NetLimit) (ip : Ip) (k : ℕ)
    → net_key hashes key kind l ip ≡ some k
    → (a : ℕ) × (hashes.mac key kind l.v6 l.bits a ≡ k)
net_key-mac hashes key kind l ip_other k e = absurd cc
net_key-mac hashes key kind l (ip_v4 a) k e = elim (Bool-cases l.v6) [
  | inl six ↦ absurd (ground (arith, e, six))
  | inr four ↦ (masked 32 l.bits a, ground (arith, e, four))
]
net_key-mac hashes key kind l (ip_v6 a) k e = elim (Bool-cases l.v6) [
  | inl six ↦ (masked 128 l.bits a, ground (arith, e, six))
  | inr four ↦ absurd (ground (arith, e, four))
]

net_key-SameLevel :
    (hashes : Hashes) (key : ℕ) (kind : Kind) (l m : NetLimit) (ip jp : Ip) (k : ℕ)
    → SeparatesLevels hashes
    → net_key hashes key kind l ip ≡ some k
    → net_key hashes key kind m jp ≡ some k
    → SameLevel l m
net_key-SameLevel hashes key kind l m ip jp k sep e f =
    let (a, p) = net_key-mac hashes key kind l ip k e in
    let (b, q) = net_key-mac hashes key kind m jp k f in
    sep.level key kind l.v6 m.v6 l.bits m.bits a b (p ∙ sym q)

take_key-eq :
    (most : ℕ) (o : Option ℕ) (d : Table ℕ) (rest : Option (List ℕ)) (ks : List ℕ)
    → take_key most o d rest ≡ some ks
    → ((o ≡ none) × (rest ≡ some ks))
      ⊎ ((k : ℕ) × (js : List ℕ) × (o ≡ some k)
          × (rest ≡ some js)
          × (ks ≡ k ∷ js)
          × (count_at k d < most))
take_key-eq most none d rest ks e = inl (refl, e)
take_key-eq most (some k) d none ks e = cc
take_key-eq most (some k) d (some js) ks e =
    inr (k, js, refl, refl, ground (arith, e), ground (arith, e))

abbrev same_level : NetLimit → NetLimit → Bool
same_level l m = (l.bits == m.bits) && (if l.v6 then m.v6 else not m.v6)

same_level_of : (l m : NetLimit) → SameLevel l m → same_level l m ≡ true
same_level_of l m (v, b) = ground (arith, v, b)

-- How often the level is in the table, and that its limit there is the one given.
abbrev pub level_times : NetLimit → List NetLimit → ℕ
level_times l [] = 0
level_times l (m ∷ ms) = (if same_level l m then 1 else 0) + level_times l ms

abbrev pub HasLimit : NetLimit → List NetLimit → Type 0
HasLimit l ms = All (λ m. same_level l m ≡ true → m.most ≤ l.most) ms

-- What a reservation takes of one level of any network.
module _ (hashes : Hashes) (sep : SeparatesLevels hashes) (key : ℕ) (kind : Kind) (ip jp : Ip)
    (d : Table ℕ) (l : NetLimit) (k : ℕ) (own : net_key hashes key kind l jp ≡ some k) where
  level_here :
      (m : NetLimit) (j : ℕ) → net_key hashes key kind m ip ≡ some j → k ≡ j → same_level l m ≡ true
  level_here m j e same =
      same_level_of l m
        (net_key-SameLevel hashes key kind l m jp ip k sep own (ground (arith, e, same)))

  times-le-level_times :
      (ls : List NetLimit) (ks : List ℕ)
      → free_keys hashes key kind ip d ls ≡ some ks
      → times k ks ≤ level_times l ls
  times-le-level_times [] ks e = ground (arith, e)
  times-le-level_times (m ∷ ms) ks e =
      elim (take_key-eq m.most (net_key hashes key kind m ip) d (free_keys hashes key kind ip d ms)
        ks e) [
          | inl (o, rest) ↦ omega (arith, times-le-level_times ms ks rest)
          | inr (j, js, o, rest, whole, room) ↦
              let later = times-le-level_times ms js rest in
              elim (Bool-cases (k == j)) [
                | inl same ↦
                    let level = level_here m j o (ground (arith, same)) in
                    rw (whole, same, level) (omega (arith, later))
                | inr other ↦ rw (whole, other) (omega (arith, later))
              ]
        ]

  times-room :
      (ls : List NetLimit) (ks : List ℕ)
      → free_keys hashes key kind ip d ls ≡ some ks
      → HasLimit l ls
      → 0 < times k ks
      → count_at k d < l.most
  times-room [] ks e limits some_time = absurd (ground (arith, e, some_time))
  times-room (m ∷ ms) ks e limits some_time =
      elim (take_key-eq m.most (net_key hashes key kind m ip) d (free_keys hashes key kind ip d ms)
        ks e) [
          | inl (o, rest) ↦ times-room ms ks rest limits.1 some_time
          | inr (j, js, o, rest, whole, room) ↦ elim (Bool-cases (k == j)) [
            | inl same ↦
                let eq : k ≡ j = ground (arith, same) in
                let most = limits.0 (level_here m j o eq) in ground (arith, most, room, eq)
            | inr other ↦ times-room ms js rest limits.1 (ground (arith, whole, other, some_time))
          ]
        ]

  -- After the reservation, the level holds no more than its limit.
  pub within_after :
      (ls : List NetLimit) (ks : List ℕ)
      → free_keys hashes key kind ip d ls ≡ some ks
      → HasLimit l ls
      → level_times l ls ≤ 1
      → count_at k d ≤ l.most
      → count_at k (take_all ks d) ≤ l.most
  within_after ls ks e limits once before = elim (Bool-cases (leb 1 (times k ks))) [
    | inl taken ↦ omega (
      arith,
      count_at-take_all k ks d,
      times-le-level_times ls ks e,
      times-room ls ks e limits (ground (arith, taken)),
    )
    | inr untaken ↦ ground (arith, count_at-take_all k ks d, untaken, before)
  ]
