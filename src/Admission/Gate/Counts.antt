-- ===== src/Admission/Gate/Counts.antt =====
-- The counters of the gate against the holds that they stand for (internal/aghub/admission.go).
use anet_hub.Prelude.{ℕ, ◌+◌, ◌-◌, ◌≡◌, ◌≢◌, List, [], ◌∷◌, ◌++◌, ◌==◌, if◌then◌else◌, All, arith}
use anet_hub.Prelude.Int.{ℤ, negsuc, ◌≤ℤ◌, eqb_ℤ}
use anet_hub.Prelude.Table.{Table, insert, erase, lookup-insert, lookup-erase}
use anet_hub.Admission.Gate.{Gate, GateHold, count_at, take_all, less_one, give_all}

pub count_at-insert :
    (k j n : ℕ) (d : Table ℕ) → count_at k (insert j n d) ≡ (if k == j then n else count_at k d)
count_at-insert k j n d = ground (arith, lookup-insert k j n d)

count_at-erase :
    (k j : ℕ) (d : Table ℕ) → count_at k (erase j d) ≡ (if k == j then 0 else count_at k d)
count_at-erase k j d = ground (arith, lookup-erase k j d)

pub count_at-less_one :
    (k j : ℕ) (d : Table ℕ) → count_at k (less_one j d) ≡ count_at k d - (if k == j then 1 else 0)
count_at-less_one k j d =
    ground (arith, count_at-insert k j (count_at j d - 1) d, count_at-erase k j d)

-- How often a key is on the list.
abbrev pub times : ℕ → List ℕ → ℕ
times k [] = 0
times k (j ∷ js) = (if k == j then 1 else 0) + times k js

pub count_at-take_all :
    (k : ℕ) (ks : List ℕ) (d : Table ℕ) → count_at k (take_all ks d) ≡ count_at k d + times k ks
count_at-take_all k [] d = omega arith
count_at-take_all k (j ∷ js) d = ground (
  arith,
  count_at-take_all k js (insert j (count_at j d + 1) d),
  count_at-insert k j (count_at j d + 1) d,
)

pub count_at-give_all :
    (k : ℕ) (ks : List ℕ) (d : Table ℕ) → count_at k (give_all ks d) ≡ count_at k d - times k ks
count_at-give_all k [] d = omega arith
count_at-give_all k (j ∷ js) d =
    ground (arith, count_at-give_all k js (less_one j d), count_at-less_one k j d)

-- What a hold counts for: its keys on its day, its place of the hub's budget, its window place.
abbrev pub on_day : ℤ → ℤ → ℕ → ℕ
on_day d e n = if eqb_ℤ d e then n else 0

abbrev pub signup_use : ℤ → ℕ → GateHold → ℕ
signup_use day k h = on_day h.day day (times k h.signup)

abbrev pub trial_use : ℤ → ℕ → GateHold → ℕ
trial_use day k h = on_day h.day day (times k h.trials)

abbrev pub hub_use : ℤ → GateHold → ℕ
hub_use day h = on_day h.day day (if h.trial_n then 1 else 0)

abbrev pub window_use : ℕ → GateHold → ℕ
window_use id h = if id == h.window then 1 else 0

abbrev pub total : (GateHold → ℕ) → List GateHold → ℕ
total f [] = 0
total f (h ∷ hs) = f h + total f hs

total-append :
    (f : GateHold → ℕ) (hs is : List GateHold) → total f (hs ++ is) ≡ total f hs + total f is
total-append f [] is = omega arith
total-append f (h ∷ hs) is = omega (arith, total-append f hs is)

pub total_one :
    (f : GateHold → ℕ) (pre : List GateHold) (h : GateHold) (post : List GateHold)
    → total f (pre ++ h ∷ post) ≡ f h + total f (pre ++ post)
total_one f pre h post = omega (arith, total-append f pre (h ∷ post), total-append f pre post)

-- No hold is of a later day.
abbrev pub IsPast : ℤ → GateHold → Type 0
IsPast day h = h.day ≤ℤ day

pub IsPast-one :
    (day : ℤ) (pre : List GateHold) (h : GateHold) (post : List GateHold)
    → All (IsPast day) (pre ++ h ∷ post)
    → IsPast day h × All (IsPast day) (pre ++ post)
IsPast-one day [] h post a = a
IsPast-one day (g ∷ pre) h post (first, a) =
    let (own, rest) = IsPast-one day pre h post a in (own, (first, rest))

pub IsPast-later : (d e : ℤ) (hs : List GateHold) → d ≤ℤ e → All (IsPast d) hs → All (IsPast e) hs
IsPast-later d e [] le a = tt
IsPast-later d e (h ∷ hs) le (first, a) = (omega (arith, first, le), IsPast-later d e hs le a)

-- The state of the gate, with the holds in progress and those that are kept for good.
pub record Held : Type 0 where
  pub gate : Gate
  pub going : List GateHold
  pub kept : List GateHold

-- Every counter is the number of holds that it stands for.
pub record IsCounted (s : Held) : Type 0 where
  pub signup :
      (k : ℕ)
      → count_at k s.gate.signup
        ≡ total (signup_use s.gate.day k) s.going + total (signup_use s.gate.day k) s.kept
  pub trials :
      (k : ℕ)
      → count_at k s.gate.trials
        ≡ total (trial_use s.gate.day k) s.going + total (trial_use s.gate.day k) s.kept
  pub trial_n :
      s.gate.trial_n ≡ total (hub_use s.gate.day) s.going + total (hub_use s.gate.day) s.kept
  pub window : (id : ℕ) → id ≢ 0 → count_at id s.gate.window ≡ total (window_use id) s.going
  pub clock : negsuc 0 ≤ℤ s.gate.day
  pub going_past : All (IsPast s.gate.day) s.going
  pub kept_past : All (IsPast s.gate.day) s.kept
