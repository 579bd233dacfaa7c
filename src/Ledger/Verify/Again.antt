-- ===== src/Ledger/Verify/Again.antt =====
-- The check of window and key, asked again (internal/aghub/facilitator.go keyAtFirstVerify).
use anet_hub.Prelude.{ℕ, ◌≡◌, refl, ap, ◌∙◌, Bool, true, false, none, List, arith}
use anet_hub.Prelude.Int.{ℤ}
use anet_hub.Prelude.Table.{lookup-insert}
use anet_hub.Ledger.State.{Authorization, Ledger}
use anet_hub.Ledger.Core.{Core, SignedEvent}
use anet_hub.Ledger.Payment.{current_auth}
use anet_hub.Ledger.Facilitator.{
  Recorded, unreadable, recorded, write_first_verify, new_first_verify, record_first_verify,
  after_record, key_at_first_verify,
}

-- What was recorded is answered again, and nothing more is written.
record_again :
    (core : Core) (auth : Authorization) (id : ℕ) (now_ms : ℤ) (l l' : Ledger) (tip : Bool)
    → record_first_verify core auth id now_ms l ≡ recorded tip l'
    → record_first_verify core auth id now_ms l' ≡ recorded tip l'
unfolding record_first_verify new_first_verify write_first_verify
record_again core auth id now_ms l l' tip e = grind (arith, lookup-insert)

after_record_again :
    (core : Core) (auth : Authorization) (kel : List SignedEvent) (id : ℕ) (now_ms : ℤ)
    (l l' : Ledger) (r : Recorded)
    → record_first_verify core auth id now_ms l ≡ r
    → after_record core auth kel now_ms l r ≡ (none, l')
    → after_record core auth kel now_ms l' (record_first_verify core auth id now_ms l') ≡ (none, l')
after_record_again core auth kel id now_ms l l' unreadable q e = cc
after_record_again core auth kel id now_ms l l' (recorded true x) q e =
    let same : x ≡ l' = cc in
    rw (record_again core auth id now_ms l l' true (q ∙ ap (recorded true) same)) refl
after_record_again core auth kel id now_ms l l' (recorded false x) q e =
    let same : x ≡ l' = cc in
    let fine : current_auth core auth kel now_ms ≡ none = cc in
    rw (record_again core auth id now_ms l l' false (q ∙ ap (recorded false) same), fine) refl

pub key_at_first_verify_again :
    (core : Core) (auth : Authorization) (id : ℕ) (kel : List SignedEvent) (now_ms : ℤ)
    (l l' : Ledger)
    → key_at_first_verify core auth id kel now_ms l ≡ (none, l')
    → key_at_first_verify core auth id kel now_ms l' ≡ (none, l')
unfolding key_at_first_verify
key_at_first_verify_again core auth id kel now_ms l l' e = grind (
  arith,
  after_record_again core auth kel id now_ms l l' (record_first_verify core auth id now_ms l) refl,
)
