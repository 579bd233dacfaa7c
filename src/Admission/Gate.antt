-- ===== src/Admission/Gate.antt =====
-- internal/aghub/admission.go: the counters of the admission gate, in the memory of the hub process. The regpow and HMAC computations are parameters, as are the bytes of a day's key.
pub mod Counts
pub mod Steps
pub mod Runs
pub mod Limits
pub mod Within
use anet_hub.Prelude.{
  ℕ, ◌+◌, ◌-◌, ◌*◌, ◌/◌, ◌^◌, Bool, true, false, Option, none, some, List, [], ◌∷◌, ◌==◌, ◌&&◌,
  ◌||◌, ltb, leb, if◌then◌else◌,
}
use anet_hub.Prelude.Int.{ℤ, pos, negsuc, leb_ℤ, eqb_ℤ, ◌+ℤ◌}
use anet_hub.Prelude.Table.{Table, lookup, insert, erase}
use anet_hub.Ledger.Issue.{unix_milli, utc_day}
use anet_hub.Registry.{Window}

-- A net.IP: what To4 takes, what only To16 takes, or bytes of another length.
pub data Ip : Type 0 where
  ip_v4 ip_v6 : ℕ → Ip
  ip_other : Ip

-- netLimit, with signupQuota and trialBudget.
pub record NetLimit : Type 0 where
  pub v6 : Bool
  pub bits : ℕ
  pub most : ℕ

abbrev limit : Bool → ℕ → ℕ → NetLimit
limit v6 bits most = record { v6 = v6; bits = bits; most = most }

abbrev pub signup_quota : List NetLimit
signup_quota =
    limit false 32 20
    ∷ limit false 24 200
    ∷ limit true 64 20
    ∷ limit true 48 200
    ∷ limit true 32 1000
    ∷ []

abbrev pub trial_budget : List NetLimit
trial_budget = limit false 24 3 ∷ limit true 48 3 ∷ limit true 32 10 ∷ []

abbrev pub trial_budget_hub : ℕ
trial_budget_hub = 100

pub data Kind : Type 0 where
  kind_signup kind_trial : Kind

-- HMAC-SHA256 of a kind, a level and a prefix under a day's key, cut to 16 bytes; regpow.Seed of
-- an hour, regpow.Hour, and regpow.Check for this hub, an AID, a seed and a nonce.
pub record Hashes : Type 0 where
  pub mac : ℕ → Kind → Bool → ℕ → ℕ → ℕ
  pub seed : ℕ → ℕ
  pub hour_of : ℤ → ℕ
  pub pow_holds : ℕ → ℕ → ℕ → Bool

-- gateHold and admissionGate. The zero of a count is no entry.
pub record GateHold : Type 0 where
  pub day : ℤ
  pub signup : List ℕ
  pub trials : List ℕ
  pub trial_n : Bool
  pub window : ℕ

pub record Gate : Type 0 where
  pub day : ℤ
  pub day_key : ℕ
  pub signup : Table ℕ
  pub trials : Table ℕ
  pub trial_n : ℕ
  pub window : Table ℕ

abbrev pub count_at : ℕ → Table ℕ → ℕ
count_at k d = elim (lookup k d) [ none ↦ 0 | some n ↦ n ]

abbrev pub new_gate : Gate
new_gate = record {
  day = negsuc 0;
  day_key = 0;
  signup = [];
  trials = [];
  trial_n = 0;
  window = [];
}

unfoldable pub roll_day : ℕ → ℕ → Gate → Gate
roll_day fresh now g =
    if eqb_ℤ (utc_day now) g.day
    then g
    else record g { day = utc_day now; day_key = fresh; signup = []; trials = []; trial_n = 0 }

-- Mask(CIDRMask(bits, width))
abbrev pub masked : ℕ → ℕ → ℕ → ℕ
masked width bits a = a / 2 ^ (width - bits) * 2 ^ (width - bits)

abbrev pub net_key : Hashes → ℕ → Kind → NetLimit → Ip → Option ℕ
net_key hashes key kind l (ip_v4 a) =
    if l.v6 then none else some (hashes.mac key kind l.v6 l.bits (masked 32 l.bits a))
net_key hashes key kind l (ip_v6 a) =
    if l.v6 then some (hashes.mac key kind l.v6 l.bits (masked 128 l.bits a)) else none
net_key hashes key kind l ip_other = none

abbrev or_zero : Option Ip → Ip
or_zero none = ip_v4 0
or_zero (some ip) = ip

-- The keys of every level of a network, or none where a level is full.
abbrev pub take_key : ℕ → Option ℕ → Table ℕ → Option (List ℕ) → Option (List ℕ)
take_key most none d rest = rest
take_key most (some k) d none = none
take_key most (some k) d (some ks) = if leb most (count_at k d) then none else some (k ∷ ks)

abbrev pub free_keys : Hashes → ℕ → Kind → Ip → Table ℕ → List NetLimit → Option (List ℕ)
free_keys hashes key kind ip d [] = some []
free_keys hashes key kind ip d (l ∷ ls) =
    take_key l.most (net_key hashes key kind l ip) d (free_keys hashes key kind ip d ls)

abbrev pub take_all : List ℕ → Table ℕ → Table ℕ
take_all [] d = d
take_all (k ∷ ks) d = take_all ks (insert k (count_at k d + 1) d)

abbrev pub less_one : ℕ → Table ℕ → Table ℕ
less_one k d = if leb (count_at k d) 1 then erase k d else insert k (count_at k d - 1) d

abbrev pub give_all : List ℕ → Table ℕ → Table ℕ
give_all [] d = d
give_all (k ∷ ks) d = give_all ks (less_one k d)

abbrev pub signup_hold : ℤ → List ℕ → GateHold
signup_hold day ks = record { day = day; signup = ks; trials = []; trial_n = false; window = 0 }

abbrev pub trial_hold : ℤ → List ℕ → GateHold
trial_hold day ks = record { day = day; signup = []; trials = ks; trial_n = true; window = 0 }

abbrev pub window_hold : ℕ → GateHold
window_hold id = record { day = negsuc 0; signup = []; trials = []; trial_n = false; window = id }

abbrev pub hold_signup : Gate → Option (List ℕ) → Option GateHold × Gate
hold_signup g none = (none, g)
hold_signup g (some ks) = (some (signup_hold g.day ks), record g { signup = take_all ks g.signup })

abbrev pub signup_keys : Hashes → Option Ip → Gate → Option (List ℕ)
signup_keys hashes ip g = free_keys hashes g.day_key kind_signup (or_zero ip) g.signup signup_quota

unfoldable pub reserve_signup : Hashes → ℕ → Option Ip → ℕ → Gate → Option GateHold × Gate
reserve_signup hashes fresh ip now g =
    let g' = roll_day fresh now g in hold_signup g' (signup_keys hashes ip g')

abbrev pub hold_trial : Gate → Option (List ℕ) → Option GateHold × Gate
hold_trial g none = (none, g)
hold_trial g (some ks) = (
  some (trial_hold g.day ks),
  record g { trials = take_all ks g.trials; trial_n = g.trial_n + 1 },
)

abbrev pub trial_keys : Hashes → Option Ip → Gate → Option (List ℕ)
trial_keys hashes ip g =
    if leb trial_budget_hub g.trial_n
    then none
    else free_keys hashes g.day_key kind_trial (or_zero ip) g.trials trial_budget

unfoldable pub reserve_trial : Hashes → ℕ → Option Ip → ℕ → Gate → Option GateHold × Gate
reserve_trial hashes fresh ip now g =
    let g' = roll_day fresh now g in hold_trial g' (trial_keys hashes ip g')

unfoldable pub reserve_window : ℕ × Window → Gate → Option GateHold × Gate
reserve_window w g =
    if leb_ℤ w.1.max_places (w.1.used +ℤ pos (count_at w.0 g.window)) then (none, g) else (
      some (window_hold w.0),
      record g { window = insert w.0 (count_at w.0 g.window + 1) g.window },
    )

abbrev pub give_window : ℕ → Gate → Gate
give_window id g = if id == 0 then g else record g { window = less_one id g.window }

unfoldable pub release : GateHold → Gate → Gate
release h g =
    let g' = give_window h.window g in
    if eqb_ℤ h.day g.day
    then record g' {
      signup = give_all h.signup g'.signup;
      trials = give_all h.trials g'.trials;
      trial_n = if h.trial_n then g'.trial_n - 1 else g'.trial_n;
    }
    else g'

unfoldable pub committed : GateHold → Gate → Gate
committed h g = give_window h.window g

-- checkPow, on the seed of 32 bytes, if there is one.
unfoldable pub check_pow : Hashes → ℕ → Option ℕ → ℕ → ℕ → Bool
check_pow hashes aid none nonce now = false
check_pow hashes aid (some seed) nonce now =
    let h = hashes.hour_of (unix_milli now) in
    (seed == hashes.seed h || (ltb 0 h && seed == hashes.seed (h - 1)))
    && hashes.pow_holds aid seed nonce
