-- ===== src/Hub/Changes.antt =====
-- The kinds of change that the registry's operations are made of.
use anet_hub.Prelude.{
  ℕ, ◌≡◌, ◌≢◌, ◌⊎◌, refl, ◌∙◌, inl, inr, true, Option, none, some, Bool-cases, ◌==◌, if◌then◌else◌,
  All, arith,
}
use anet_hub.Prelude.Int.{ℤ, ◌≤ℤ◌}
use anet_hub.Prelude.Table.{Table, lookup, insert, erase, lookup-insert, lookup-erase}
use anet_hub.Ledger.State.{ok, EntryReason}
use anet_hub.Ledger.Issue.{issue_tx}
use anet_hub.Ledger.Issue.Keeps.{issue_tx-IsSound, issue_tx-agents}
use anet_hub.Ledger.Sound.{IsSound}
use anet_hub.Registry.{Window, Store, Kels}
use anet_hub.Registry.Departs.{grows}
use anet_hub.Registration.{first_of, known_raw}

-- No window has more places taken than it has.
abbrev pub PlaceWithin : ℕ × Window → Type 0
PlaceWithin e = e.1.used ≤ℤ e.1.max_places

abbrev pub PlacesWithin : Table Window → Type 0
PlacesWithin ws = All PlaceWithin ws

-- The history `kel` extends all that is held of the AID.
abbrev pub ExtendsHeld : Kels → ℕ → ℕ → Store → Type 0
ExtendsHeld kels aid kel s = (held : ℕ) → known_raw aid s ≡ some held → grows kels held kel ≡ true

pub data Change (kels : Kels) (hub : ℕ) (s s' : Store) : Type 0 where
  keeps :
      s'.ledger ≡ s.ledger
      → s'.windows ≡ s.windows
      → s'.tombstones ≡ s.tombstones
      → Change kels hub s s'
  moves_windows :
      s'.ledger ≡ s.ledger
      → (PlacesWithin s.windows → PlacesWithin s'.windows)
      → s'.tombstones ≡ s.tombstones
      → Change kels hub s s'
  issues :
      (aid : ℕ) (amount : ℤ) (why : EntryReason) (now : ℕ)
      → aid ≢ hub
      → issue_tx hub aid amount why now s.ledger ≡ ok s'.ledger
      → s'.windows ≡ s.windows
      → s'.tombstones ≡ s.tombstones
      → Change kels hub s s'
  writes_row :
      (aid kel : ℕ)
      → ExtendsHeld kels aid kel s
      → s'.ledger ≡ record s.ledger { agents = insert aid kel s.ledger.agents }
      → s'.windows ≡ s.windows
      → s'.tombstones ≡ s.tombstones
      → Change kels hub s s'
  leaves :
      (aid kel at : ℕ)
      → lookup aid s.ledger.agents ≡ some kel
      → s'.ledger ≡ record s.ledger { agents = erase aid s.ledger.agents }
      → s'.windows ≡ s.windows
      → s'.tombstones ≡ insert aid (kel, at) s.tombstones
      → Change kels hub s s'

pub data Trail (kels : Kels) (hub : ℕ) (start : Store) : Store → Type 0 where
  here : Trail kels hub start start
  next :
      {s : Store} (s' : Store)
      → Trail kels hub start s
      → Change kels hub s s'
      → Trail kels hub start s'

pub one_change : {kels : Kels} {hub : ℕ} {s s' : Store} → Change kels hub s s' → Trail kels hub s s'
one_change {s'} c = next s' here c

pub Trail-append :
    {kels : Kels} {hub : ℕ} {s t u : Store}
    → Trail kels hub s t
    → Trail kels hub t u
    → Trail kels hub s u
Trail-append a here = a
Trail-append a (next s' b c) = next s' (Trail-append a b) c

-- The ledger stays sound.
change-IsSound :
    (kels : Kels) (hub : ℕ) (s s' : Store)
    → hub ≢ 0
    → Change kels hub s s'
    → IsSound hub s.ledger
    → IsSound hub s'.ledger
change-IsSound kels hub s s' set (keeps e w t) i = rw e i
change-IsSound kels hub s s' set (moves_windows e w t) i = rw e i
change-IsSound kels hub s s' set (issues aid amount why now away e w t) i =
    issue_tx-IsSound hub aid now amount why s.ledger s'.ledger set away i e
change-IsSound kels hub s s' set (writes_row aid kel g e w t) i =
    rw e (record { backed = i.backed; covered = i.covered })
change-IsSound kels hub s s' set (leaves aid kel at l e w t) i =
    rw e (record { backed = i.backed; covered = i.covered })

pub Trail-IsSound :
    (kels : Kels) (hub : ℕ) {s s' : Store}
    → hub ≢ 0
    → Trail kels hub s s'
    → IsSound hub s.ledger
    → IsSound hub s'.ledger
Trail-IsSound kels hub set here i = i
Trail-IsSound kels hub set (next {s} s' t c) i =
    change-IsSound kels hub s s' set c (Trail-IsSound kels hub set t i)

-- No window is overfilled.
change-PlacesWithin :
    (kels : Kels) (hub : ℕ) (s s' : Store)
    → Change kels hub s s'
    → PlacesWithin s.windows
    → PlacesWithin s'.windows
change-PlacesWithin kels hub s s' (keeps e w t) i = rw w i
change-PlacesWithin kels hub s s' (moves_windows e w t) i = w i
change-PlacesWithin kels hub s s' (issues aid amount why now away e w t) i = rw w i
change-PlacesWithin kels hub s s' (writes_row aid kel g e w t) i = rw w i
change-PlacesWithin kels hub s s' (leaves aid kel at l e w t) i = rw w i

pub Trail-PlacesWithin :
    (kels : Kels) (hub : ℕ) {s s' : Store}
    → Trail kels hub s s'
    → PlacesWithin s.windows
    → PlacesWithin s'.windows
Trail-PlacesWithin kels hub here i = i
Trail-PlacesWithin kels hub (next {s} s' t c) i =
    change-PlacesWithin kels hub s s' c (Trail-PlacesWithin kels hub t i)

-- The history `b` is `a`, or extends it.
abbrev pub Continues : Kels → ℕ → ℕ → Type 0
Continues kels a b = (a ≡ b) ⊎ (grows kels a b ≡ true)

-- What the hub holds of the AID continues `a`.
abbrev pub HoldsOn : Kels → ℕ → ℕ → Store → Type 0
HoldsOn kels aid a s = (b : ℕ) × (known_raw aid s ≡ some b) × Continues kels a b

-- ExtendsKEL is a prefix order: what extends an extension extends the first.
pub record ExtendsOn (kels : Kels) : Type 0 where
  pub extends_on :
      (a b c : ℕ) → grows kels a b ≡ true → grows kels b c ≡ true → grows kels a c ≡ true

Continues-on :
    (kels : Kels) (a b c : ℕ)
    → ExtendsOn kels
    → Continues kels a b
    → Continues kels b c
    → Continues kels a c
Continues-on kels a b c on (inl e) q = rw e q
Continues-on kels a b c on (inr p) (inl e) = inr (rw (← e) p)
Continues-on kels a b c on (inr p) (inr q) = inr (on.extends_on a b c p q)

-- The row of another key history is written, or goes.
first_of-insert :
    (aid other kel : ℕ) (agents : Table ℕ) (t : Option (ℕ × ℕ))
    → first_of (lookup other (insert aid kel agents)) t
      ≡ (if other == aid then some kel else first_of (lookup other agents) t)
first_of-insert aid other kel agents t = ground (arith, lookup-insert other aid kel agents)

first_of-erase :
    (aid other : ℕ) (agents : Table ℕ) (t : Option (ℕ × ℕ))
    → first_of (lookup other (erase aid agents)) t
      ≡ (if other == aid then first_of none t else first_of (lookup other agents) t)
first_of-erase aid other agents t = ground (arith, lookup-erase other aid agents)

one_change-HoldsOn :
    (kels : Kels) (hub : ℕ) (s s' : Store) (aid a : ℕ)
    → Change kels hub s s'
    → known_raw aid s ≡ some a
    → HoldsOn kels aid a s'
one_change-HoldsOn kels hub s s' aid a (keeps e w t) h = (a, rw (e, t) h, inl refl)
one_change-HoldsOn kels hub s s' aid a (moves_windows e w t) h = (a, rw (e, t) h, inl refl)
one_change-HoldsOn kels hub s s' aid a (issues paid amount why now away e w t) h =
    (a, rw (issue_tx-agents hub paid now amount why s.ledger s'.ledger e, t) h, inl refl)
one_change-HoldsOn kels hub s s' aid a (writes_row row kel g e w t) h =
    elim (Bool-cases (aid == row)) [
      | inl own ↦
          let same : aid ≡ row = ground (arith, own) in
          (
            kel,
            rw (e, t) (first_of-insert row aid kel s.ledger.agents _ ∙ rw own refl),
            inr (g a (rw (← same) h)),
          )
      | inr other ↦
          (a, rw (e, t) (first_of-insert row aid kel s.ledger.agents _ ∙ rw other h), inl refl)
    ]
one_change-HoldsOn kels hub s s' aid a (leaves row kel at l e w t) h =
    elim (Bool-cases (aid == row)) [
      | inl own ↦
          let same : aid ≡ row = ground (arith, own) in
          let held : kel ≡ a = ground (arith, h, l, same) in
          (
            a,
            rw (e, t)
                (first_of-erase row aid s.ledger.agents _
                  ∙ ground (arith, lookup-insert aid row (kel, at) s.tombstones, own, held)),
            inl refl,
          )
      | inr other ↦ (
        a,
        rw (e, t)
            (first_of-erase row aid s.ledger.agents _
              ∙ ground (arith, lookup-insert aid row (kel, at) s.tombstones, other, h)),
        inl refl,
      )
    ]

pub Trail-HoldsOn :
    (kels : Kels) (hub : ℕ) {s s' : Store} (aid a : ℕ)
    → ExtendsOn kels
    → Trail kels hub s s'
    → known_raw aid s ≡ some a
    → HoldsOn kels aid a s'
Trail-HoldsOn kels hub aid a on here h = (a, h, inl refl)
Trail-HoldsOn kels hub aid a on (next {s} s' t c) h =
    let (b, holds, first) = Trail-HoldsOn kels hub aid a on t h in
    let (d, now_holds, then_on) = one_change-HoldsOn kels hub s s' aid b c holds in
    (d, now_holds, Continues-on kels a b d on first then_on)
