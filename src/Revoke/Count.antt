-- ===== src/Revoke/Count.antt =====
-- What RevokeCaps counts and writes (internal/aghub/revoke.go).
use anet_hub.Prelude.{
  ℕ, ◌+◌, ◌≤◌, ◌≡◌, refl, ap, sym, ◌∙◌, true, false, List, [], ◌∷◌, ◌==◌, inl, inr, Bool-cases,
  length, arith,
}
use anet_hub.Revoke.{
  same_key, Rows, find, upsert, live_row, count_live, key_of, listed, uniq, fresh, write_all,
  revoke_caps, revoked, max_per_owner,
}
use anet_hub.Revoke.Rows.{find-upsert, find-write_all}

-- A key that was not live counts one more once it is written.
count_live-upsert :
    (owner now id : ℕ) (d : Rows)
    → live_row now (find (key_of owner id) d) ≡ false
    → count_live owner now (upsert (key_of owner id) now d) ≡ count_live owner now d + 1
unfolding count_live
count_live-upsert owner now id [] h = ground arith
count_live-upsert owner now id (e ∷ d) h = elim (Bool-cases (same_key (key_of owner id) e.0)) [
  | inl own ↦ ground arith
  | inr other ↦ ground (arith, count_live-upsert owner now id d)
]

-- Each id is not live when its turn comes.
AllNew : ℕ → ℕ → List ℕ → Rows → Type 0
AllNew owner now [] d = Unit
AllNew owner now (id ∷ ids) d =
    (live_row now (find (key_of owner id) d) ≡ false)
    × AllNew owner now ids (upsert (key_of owner id) now d)

count_live-write_all :
    (owner now : ℕ) (ids : List ℕ) (d : Rows)
    → AllNew owner now ids d
    → count_live owner now (write_all owner now ids d) ≡ count_live owner now d + length ids
unfolding AllNew
count_live-write_all owner now [] d h = omega arith
count_live-write_all owner now (id ∷ ids) d (new, rest) = omega (
  arith,
  count_live-write_all owner now ids (upsert (key_of owner id) now d) rest,
  count_live-upsert owner now id d new,
)

uniq_again :
    (id : ℕ) (seen ids : List ℕ) → listed id seen ≡ true → uniq seen (id ∷ ids) ≡ uniq seen ids
uniq_again id seen ids h = rw (h, uniq) refl

uniq_first :
    (id : ℕ) (seen ids : List ℕ)
    → listed id seen ≡ false
    → uniq seen (id ∷ ids) ≡ id ∷ uniq (id ∷ seen) ids
uniq_first id seen ids h = rw (h, uniq) refl

fresh_live :
    (owner now id : ℕ) (rows : Rows) (ids : List ℕ)
    → live_row now (find (key_of owner id) rows) ≡ true
    → fresh owner now rows (id ∷ ids) ≡ fresh owner now rows ids
fresh_live owner now id rows ids h = rw h refl

fresh_new :
    (owner now id : ℕ) (rows : Rows) (ids : List ℕ)
    → live_row now (find (key_of owner id) rows) ≡ false
    → fresh owner now rows (id ∷ ids) ≡ id ∷ fresh owner now rows ids
fresh_new owner now id rows ids h = rw h refl

fresh-AllNew :
    (owner now : ℕ) (seen ids : List ℕ) (rows d : Rows)
    → ((id : ℕ)
        → listed id seen ≡ false
        → live_row now (find (key_of owner id) d) ≡ live_row now (find (key_of owner id) rows))
    → AllNew owner now (fresh owner now rows (uniq seen ids)) d
unfolding AllNew
fresh-AllNew owner now seen [] rows d same = tt
fresh-AllNew owner now seen (id ∷ ids) rows d same = elim (Bool-cases (listed id seen)) [
  | inl again ↦
      let u : fresh owner now rows (uniq seen (id ∷ ids)) ≡ fresh owner now rows (uniq seen ids) =
        ap (λ l. fresh owner now rows l) (uniq_again id seen ids again) in
      rw u (fresh-AllNew owner now seen ids rows d same)
  | inr first ↦ elim (Bool-cases (live_row now (find (key_of owner id) rows))) [
    | inl live ↦
        let u : fresh owner now rows (uniq seen (id ∷ ids))
            ≡ fresh owner now rows (uniq (id ∷ seen) ids) =
          ap (λ l. fresh owner now rows l) (uniq_first id seen ids first)
          ∙ fresh_live owner now id rows _ live in
        rw u (fresh-AllNew owner now (id ∷ seen) ids rows d (λ j out. same j (ground arith)))
    | inr new ↦
        let u : fresh owner now rows (uniq seen (id ∷ ids))
            ≡ id ∷ fresh owner now rows (uniq (id ∷ seen) ids) =
          ap (λ l. fresh owner now rows l) (uniq_first id seen ids first)
          ∙ fresh_new owner now id rows _ new in
        rw u (
          same id first ∙ new,
          fresh-AllNew owner now (id ∷ seen) ids rows (upsert (key_of owner id) now d)
              (λ j out. apart j out ∙ same j (ground arith)),
        )
  ]
]
  where
    apart :
        (j : ℕ)
        → listed j (id ∷ seen) ≡ false
        → live_row now (find (key_of owner j) (upsert (key_of owner id) now d))
          ≡ live_row now (find (key_of owner j) d)
    apart j out = ground (arith, find-upsert (key_of owner j) (key_of owner id) now d)

-- A batch that is written: the total it answers is the number of the owner's unexpired revocations
-- that the table then holds, the count is by how much that rose, and it is within the bound.
pub count_live-revoke_caps :
    (length_of : ℕ → ℕ) (owner now : ℕ) (ids new : List ℕ) (count total : ℕ) (rows rows' : Rows)
    → revoke_caps length_of owner now ids rows ≡ revoked count total new rows'
    → (count_live owner now rows' ≡ total)
      × (total ≡ count_live owner now rows + count)
      × (total ≤ max_per_owner)
unfolding revoke_caps
count_live-revoke_caps length_of owner now ids new count total rows rows' e =
    let all_new = fresh-AllNew owner now [] ids rows rows (λ id out. refl) in
    let c = count_live-write_all owner now (fresh owner now rows (uniq [] ids)) rows all_new in
    ground (arith, c)

-- An id of the batch is written, or was revoked and has not expired.
live_unless_fresh :
    (owner now id : ℕ) (seen ids : List ℕ) (rows : Rows)
    → listed id ids ≡ true
    → listed id seen ≡ false
    → listed id (fresh owner now rows (uniq seen ids)) ≡ false
    → live_row now (find (key_of owner id) rows) ≡ true
live_unless_fresh owner now id seen [] rows there out unwritten = cc
live_unless_fresh owner now id seen (x ∷ ids) rows there out unwritten =
    elim (Bool-cases (listed x seen)) [
      | inl again ↦
          let u : fresh owner now rows (uniq seen (x ∷ ids))
              ≡ fresh owner now rows (uniq seen ids) =
            ap (λ l. fresh owner now rows l) (uniq_again x seen ids again) in
          live_unless_fresh owner now id seen ids rows (ground arith) out (rw (← u) unwritten)
      | inr first ↦ elim (Bool-cases (live_row now (find (key_of owner x) rows))) [
        | inl live ↦
            let u : fresh owner now rows (uniq seen (x ∷ ids))
                ≡ fresh owner now rows (uniq (x ∷ seen) ids) =
              ap (λ l. fresh owner now rows l) (uniq_first x seen ids first)
              ∙ fresh_live owner now x rows _ live in
            elim (Bool-cases (id == x)) [
              | inl own ↦ let e : id ≡ x = ground arith in rw e live
              | inr other ↦
                  live_unless_fresh owner now id (x ∷ seen) ids rows (ground arith) (ground arith)
                    (rw (← u) unwritten)
            ]
        | inr new ↦
            let u : fresh owner now rows (uniq seen (x ∷ ids))
                ≡ x ∷ fresh owner now rows (uniq (x ∷ seen) ids) =
              ap (λ l. fresh owner now rows l) (uniq_first x seen ids first)
              ∙ fresh_new owner now x rows _ new in
            let rest : listed id (x ∷ fresh owner now rows (uniq (x ∷ seen) ids)) ≡ false =
              ap (λ l. listed id l) (sym u) ∙ unwritten in
            elim (Bool-cases (id == x)) [
              | inl own ↦ absurd (ground arith)
              | inr other ↦
                  live_unless_fresh owner now id (x ∷ seen) ids rows (ground arith) (ground arith)
                    (ground arith)
            ]
      ]
    ]

-- Where a batch is written, every id of it is revoked in the table and has not expired, also those
-- that were revoked before or that the batch names twice.
pub revoke_caps_all :
    (length_of : ℕ → ℕ) (owner now id : ℕ) (ids new : List ℕ) (count total : ℕ) (rows rows' : Rows)
    → revoke_caps length_of owner now ids rows ≡ revoked count total new rows'
    → listed id ids ≡ true
    → live_row now (find (key_of owner id) rows') ≡ true
unfolding revoke_caps
revoke_caps_all length_of owner now id ids new count total rows rows' e there =
    let new_ids = fresh owner now rows (uniq [] ids) in
    let w : rows' ≡ write_all owner now new_ids rows = ground arith in
    elim (Bool-cases (listed id new_ids)) [
      | inl written ↦ rw w (ground (arith, find-write_all (key_of owner id) owner now new_ids rows))
      | inr old ↦
          let live = live_unless_fresh owner now id [] ids rows there refl old in
          rw w (ground (arith, live, find-write_all (key_of owner id) owner now new_ids rows))
    ]
