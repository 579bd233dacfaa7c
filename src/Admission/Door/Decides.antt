-- ===== src/Admission/Door/Decides.antt =====
-- What the gate of /register decides (internal/aghub/server.go admissionGate).
use anet_hub.Prelude.{
  ℕ, ◌≡◌, ◌⊎◌, ◌↔◌, refl, sym, ap, ◌∙◌, inl, inr, true, false, Option, none, some, List, Bool-cases,
  Option-cases, arith,
}
use anet_hub.Prelude.Int.{pos, ◌+ℤ◌, leb_ℤ}
use anet_hub.Prelude.Table.{contains}
use anet_hub.Ledger.Issue.{unix_milli}
use anet_hub.Registry.{
  via_list, via_window, via_open, Window, Mode, mode_closed, mode_open, mode_other, Store,
}
use anet_hub.Admission.{AdmissionWrite, mode_of}
use anet_hub.Admission.Windows.{open_window}
use anet_hub.Admission.Gate.{
  Hashes, Gate, GateHold, count_at, roll_day, signup_keys, signup_hold, window_hold, reserve_signup,
  reserve_window,
}
use anet_hub.Admission.Door.{
  Request, GateAnswer, refused, passes, CheckStatus, Entrance, by_quota, by_window, by_open_window,
  entrance, through_quota, through_window, reserve, is_shut, has_worked, admission_gate,
  admission_required, pow_required, registration_quota, check_admitted, check_open,
}

-- What lets an AID write: it is on the list; or it has worked and, in open mode, every level of its
-- network has room; or, closed, it has worked and the open window has a place neither taken nor held.
abbrev pub Listed : Request → ℕ → Store → AdmissionWrite → Option GateHold → Type 0
Listed req now s adm hold =
    (contains req.aid s.admitted ≡ true)
    × (adm ≡ record { via = via_list; window = 0; now = now })
    × (hold ≡ none)

abbrev pub HasWorked : Hashes → Request → ℕ → Store → Type 0
HasWorked hashes req now s =
    (contains req.aid s.admitted ≡ false)
    × (req.check_only ≡ false)
    × (has_worked hashes req now ≡ true)

abbrev pub InQuota : Hashes → ℕ → Request → ℕ → Gate → AdmissionWrite → Option GateHold → Type 0
InQuota hashes fresh req now g adm hold =
    (adm ≡ record { via = via_open; window = 0; now = now })
    × ((ks : List ℕ) × (signup_keys hashes req.address (roll_day fresh now g) ≡ some ks)
        × (hold ≡ some (signup_hold (roll_day fresh now g).day ks)))

abbrev pub InWindow : ℕ → Store → Gate → AdmissionWrite → Option GateHold → Type 0
InWindow now s g adm hold =
    (w : ℕ × Window) × (open_window (unix_milli now) s.windows ≡ some w)
    × (leb_ℤ w.1.max_places w.1.used ≡ false)
    × (leb_ℤ w.1.max_places (w.1.used +ℤ pos (count_at w.0 g.window)) ≡ false)
    × (adm ≡ record { via = via_window; window = w.0; now = now })
    × (hold ≡ some (window_hold w.0))

abbrev pub LetIn :
    Hashes → ℕ → Request → ℕ → Store → Gate → AdmissionWrite → Option GateHold → Type 0
LetIn hashes fresh req now s g adm hold =
    Listed req now s adm hold
    ⊎ (HasWorked hashes req now s
        × (((mode_of s.mode ≡ mode_open) × InQuota hashes fresh req now g adm hold)
            ⊎ ((mode_of s.mode ≡ mode_closed) × InWindow now s g adm hold)))

abbrev pub Passes : GateAnswer → AdmissionWrite → Option GateHold → Type 0
Passes a adm hold = (st : CheckStatus) × (a ≡ passes (some adm) hold st)

mode_of-cases : (m : Option Mode) → (mode_of m ≡ mode_open) ⊎ (mode_of m ≡ mode_closed)
mode_of-cases none = inr refl
mode_of-cases (some mode_open) = inl refl
mode_of-cases (some mode_closed) = inr refl
mode_of-cases (some (mode_other t)) = inr refl

-- The reservations.
through_quota-InQuota :
    (hashes : Hashes) (fresh : ℕ) (req : Request) (now : ℕ) (g : Gate) (adm : AdmissionWrite)
    (hold : Option GateHold)
    → Passes (through_quota now (reserve_signup hashes fresh req.address now g)).0 adm hold
    → InQuota hashes fresh req now g adm hold
unfolding reserve_signup
through_quota-InQuota hashes fresh req now g adm hold (st, e) =
    let g' = roll_day fresh now g in
    elim (Option-cases (signup_keys hashes req.address g')) [
      | inl full ↦
          let h : refused registration_quota ≡ passes (some adm) hold st =
            rw (← e, full, reserve_signup) refl in
          absurd cc
      | inr (ks, free) ↦
          let h : passes (some (record { via = via_open; window = 0; now = now }))
                (some (signup_hold g'.day ks)) check_open
              ≡ passes (some adm) hold st =
            rw (← e, free, reserve_signup) refl in
          (ground (arith, h), (ks, free, ground (arith, h)))
    ]

through_window-InWindow :
    (now : ℕ) (w : ℕ × Window) (s : Store) (g : Gate) (adm : AdmissionWrite)
    (hold : Option GateHold)
    → open_window (unix_milli now) s.windows ≡ some w
    → leb_ℤ w.1.max_places w.1.used ≡ false
    → Passes (through_window now w.0 (reserve_window w g)).0 adm hold
    → InWindow now s g adm hold
unfolding reserve_window
through_window-InWindow now w s g adm hold found free (st, e) =
    elim (Bool-cases (leb_ℤ w.1.max_places (w.1.used +ℤ pos (count_at w.0 g.window)))) [
      | inl full ↦
          let h : refused admission_required ≡ passes (some adm) hold st =
            rw (← e, full, reserve_window) refl in
          absurd cc
      | inr room ↦
          let h : passes (some (record { via = via_window; window = w.0; now = now }))
                (some (window_hold w.0)) check_open
              ≡ passes (some adm) hold st =
            rw (← e, room, reserve_window) refl in
          (w, found, free, room, ground (arith, h), ground (arith, h))
    ]

-- The two entrances, and that one that is not shut is one of them.
open-entrance : (now : ℕ) (s : Store) → mode_of s.mode ≡ mode_open → entrance now s ≡ by_quota
open-entrance now s m = rw m refl

closed-entrance :
    (now : ℕ) (s : Store)
    → mode_of s.mode ≡ mode_closed
    → entrance now s ≡ by_open_window (open_window (unix_milli now) s.windows)
closed-entrance now s m = rw m refl

window-entrance :
    (now : ℕ) (s : Store) (w : ℕ × Window)
    → mode_of s.mode ≡ mode_closed
    → open_window (unix_milli now) s.windows ≡ some w
    → leb_ℤ w.1.max_places w.1.used ≡ false
    → entrance now s ≡ by_window w
window-entrance now s w m found free = closed-entrance now s m ∙ ground (arith, found, free)

reserve-enters :
    (hashes : Hashes) (fresh : ℕ) (req : Request) (now : ℕ) (s : Store) (g : Gate)
    (adm : AdmissionWrite) (hold : Option GateHold)
    → Passes (reserve hashes fresh req now (entrance now s) g).0 adm hold
    → ((mode_of s.mode ≡ mode_open) × InQuota hashes fresh req now g adm hold)
      ⊎ ((mode_of s.mode ≡ mode_closed) × InWindow now s g adm hold)
reserve-enters hashes fresh req now s g adm hold (st, e) =
    let at : (en : Entrance)
        → entrance now s ≡ en
        → (reserve hashes fresh req now en g).0 ≡ passes (some adm) hold st =
      λ en q. ap (λ x. (reserve hashes fresh req now x g).0) (sym q) ∙ e in
    elim (mode_of-cases s.mode) [
      | inl m ↦ inl (
        m,
        through_quota-InQuota hashes fresh req now g adm hold
            (st, at by_quota (open-entrance now s m)),
      )
      | inr m ↦ elim (Option-cases (open_window (unix_milli now) s.windows)) [
        | inl none_open ↦
            let h : refused admission_required ≡ passes (some adm) hold st =
              rw (← e, closed-entrance now s m, none_open) refl in
            absurd cc
        | inr (w, found) ↦ elim (Bool-cases (leb_ℤ w.1.max_places w.1.used)) [
          | inl full ↦
              let h : refused admission_required ≡ passes (some adm) hold st =
                rw (← e, closed-entrance now s m, found, full) refl in
              absurd cc
          | inr free ↦ inr (
            m,
            through_window-InWindow now w s g adm hold found free
                (st, at (by_window w) (window-entrance now s w m found free)),
          )
        ]
      ]
    ]

gate-LetIn :
    (hashes : Hashes) (fresh : ℕ) (req : Request) (now : ℕ) (s : Store) (g : Gate)
    (adm : AdmissionWrite) (hold : Option GateHold)
    → Passes (admission_gate hashes fresh req now s g).0 adm hold
    → LetIn hashes fresh req now s g adm hold
unfolding admission_gate
gate-LetIn hashes fresh req now s g adm hold (st, e) =
    elim (Bool-cases (contains req.aid s.admitted)) [
      | inl listed ↦
          let h : passes (some (record { via = via_list; window = 0; now = now })) none
                check_admitted
              ≡ passes (some adm) hold st =
            rw (← e, listed, admission_gate) refl in
          inl (listed, ground (arith, h), ground (arith, h))
      | inr newcomer ↦ elim (Bool-cases (is_shut (entrance now s))) [
        | inl closed ↦
            let h : refused admission_required ≡ passes (some adm) hold st =
              rw (← e, newcomer, closed, admission_gate) refl in
            absurd cc
        | inr opened ↦ elim (Bool-cases req.check_only) [
          | inl asks ↦
              let h : passes none none check_open ≡ passes (some adm) hold st =
                rw (← e, newcomer, opened, asks, admission_gate) refl in
              absurd (ground (arith, h))
          | inr real ↦ elim (Bool-cases (has_worked hashes req now)) [
            | inl worked ↦
                let h : (reserve hashes fresh req now (entrance now s) g).0
                    ≡ passes (some adm) hold st =
                  rw (← e, newcomer, opened, real, worked, admission_gate) refl in
                inr (
                  (newcomer, real, worked),
                  reserve-enters hashes fresh req now s g adm hold (st, h),
                )
            | inr idle ↦
                let h : refused pow_required ≡ passes (some adm) hold st =
                  rw (← e, newcomer, opened, real, idle, admission_gate) refl in
                absurd cc
          ]
        ]
      ]
    ]

LetIn-gate :
    (hashes : Hashes) (fresh : ℕ) (req : Request) (now : ℕ) (s : Store) (g : Gate)
    (adm : AdmissionWrite) (hold : Option GateHold)
    → LetIn hashes fresh req now s g adm hold
    → Passes (admission_gate hashes fresh req now s g).0 adm hold
unfolding admission_gate reserve_signup reserve_window
LetIn-gate hashes fresh req now s g adm hold (inl (listed, a, h)) =
    (check_admitted, rw (a, h, listed, admission_gate) refl)
LetIn-gate hashes fresh req now s g adm hold
      (inr ((newcomer, real, worked), inl (m, (a, (ks, free, h))))) =
    let way : entrance now s ≡ by_quota = open-entrance now s m in
    (check_open, rw (a, h, newcomer, real, worked, way, free, admission_gate, reserve_signup) refl)
LetIn-gate hashes fresh req now s g adm hold
      (inr ((newcomer, real, worked), inr (m, (w, found, free, room, a, h)))) =
    let way : entrance now s ≡ by_window w = window-entrance now s w m found free in
    (check_open, rw (a, h, newcomer, real, worked, way, room, admission_gate, reserve_window) refl)

-- The gate lets an AID that is not registered write, by a way in and with a hold, exactly where that
-- is its due: by the list where it is on it; else, where this is no enquiry and its work is good, by
-- open registration in open mode where every level of its network has room, or, closed, by the open
-- window where a place is neither taken nor held.
pub gate_iff :
    (hashes : Hashes) (fresh : ℕ) (req : Request) (now : ℕ) (s : Store) (g : Gate)
    (adm : AdmissionWrite) (hold : Option GateHold)
    → Passes (admission_gate hashes fresh req now s g).0 adm hold
      ↔ LetIn hashes fresh req now s g adm hold
gate_iff hashes fresh req now s g adm hold =
    (gate-LetIn hashes fresh req now s g adm hold, LetIn-gate hashes fresh req now s g adm hold)
