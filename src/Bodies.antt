-- ===== src/Bodies.antt =====
-- internal/federation/bodybudget.go: the bytes of peer requests' bodies that this hub holds at once.
-- A request stands for its bodyHold; its own takes and its release are in order, those of several
-- requests are in any order.
pub mod Whole
mod Tests
use anet_hub.Prelude.{
  ℕ, ◌+◌, ◌-◌, ◌≡◌, Bool, true, false, List, [], ◌∷◌, ◌||◌, leb, if◌then◌else◌, ◌==◌,
}
use anet_hub.Prelude.Int.{ℤ, pos, ◌+ℤ◌, ◌-ℤ◌, ltb_ℤ}
use anet_hub.Prelude.Table.{Table, insert, value_of}

-- bodyBudget, with what each request holds of it (bodyHold.n).
pub record Budget : Type 0 where
  pub limit : ℤ
  pub used : ℤ
  pub holds : Table ℤ

-- bodyBudget.take and give
unfoldable pub take : ℤ → Budget → Bool × Budget
take n b =
    if ltb_ℤ n (pos 0) || ltb_ℤ (b.limit -ℤ b.used) n
    then (false, b)
    else (true, record b { used = b.used +ℤ n })

abbrev pub give : ℤ → Budget → Budget
give n b = record b { used = b.used -ℤ n }

-- bodyHold.take and release
abbrev pub add_hold : ℕ → ℤ → Bool × Budget → Bool × Budget
add_hold r n (false, b) = (false, b)
add_hold r n (true, b) = (true, record b { holds = insert r (value_of r b.holds +ℤ n) b.holds })

unfoldable pub hold_take : ℕ → ℤ → Budget → Bool × Budget
hold_take r n b = add_hold r n (take n b)

unfoldable pub release : ℕ → Budget → Budget
release r b = give (value_of r b.holds) (record b { holds = insert r (pos 0) b.holds })

-- budgetReader.Read of `n` bytes.
unfoldable pub read : ℕ → ℕ → Budget → Bool × Budget
read r n b = if n == 0 then (true, b) else hold_take r (pos n) b

-- What the connection gives after the body's last bytes.
pub data End : Type 0 where
  eof timeout broken : End

-- What readPeerBody answers: the bytes read, or 413, 429, or 400 with or without a closed connection.
pub data Read : Type 0 where
  body : ℕ → Read
  too_large over_budget not_sent unreadable : Read

abbrev pub at_end : End → ℕ → Read
at_end eof total = body total
at_end timeout total = not_sent
at_end broken total = unreadable

-- io.ReadAll of the body's pieces through http.MaxBytesReader, which gives the bytes that are left
-- of the limit and then fails.
abbrev pub read_all : ℕ → ℕ → ℕ → List ℕ → End → Budget → Read × Budget
read_all r total left [] end b = (at_end end total, b)
read_all r total left (n ∷ ns) end b =
    let (fits, b') = read r (if leb n left then n else left) b in
    let rest = read_all r (total + n) (left - n) ns end b' in
    if fits then (if leb n left then rest else (too_large, b')) else (over_budget, b')

-- readPeerBody of a request `r` that states the length `stated`.
unfoldable pub read_peer_body : ℕ → ℤ → ℕ → List ℕ → End → Budget → Read × Budget
read_peer_body r stated limit pieces end b =
    if ltb_ℤ (pos limit) stated
    then (too_large, b)
    else if ltb_ℤ (b.limit -ℤ b.used) stated
    then (over_budget, b)
    else read_all r 0 limit pieces end b

-- One step of any request, and a run.
pub data Step (b b' : Budget) : Type 0 where
  reads :
      (r : ℕ) (stated : ℤ) (limit : ℕ) (pieces : List ℕ) (end : End)
      → b' ≡ (read_peer_body r stated limit pieces end b).1
      → Step b b'
  reads_piece : (r n : ℕ) → b' ≡ (read r n b).1 → Step b b'
  returns : (r : ℕ) → b' ≡ release r b → Step b b'

pub data Run (start : Budget) : Budget → Type 0 where
  here : Run start start
  next : {b : Budget} (b' : Budget) → Run start b → Step b b' → Run start b'
