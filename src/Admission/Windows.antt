-- ===== src/Admission/Windows.antt =====
-- internal/aghub/admission.go: the sign-up windows.
use anet_hub.Prelude.{ℕ, ◌+◌, Bool, Option, none, some, [], ◌∷◌, ◌&&◌, ◌||◌, if◌then◌else◌, leb}
use anet_hub.Prelude.Int.{ℤ, pos, pos_part, ltb_ℤ, leb_ℤ, ◌-ℤ◌}
use anet_hub.Prelude.Table.{Table, insert}
use anet_hub.Ledger.Issue.{unix_milli}
use anet_hub.Registry.{
  Window, Store, Outcome, fails, done, stop_if, ◌>>◌, window_exists, window_too_big,
}

-- MaxWindowLength in ns, MaxWindowSize, and windowKeep in ms.
abbrev max_window_length : ℤ
max_window_length = pos 604800000000000

abbrev max_window_size : ℤ
max_window_size = pos 10000

abbrev window_keep : ℤ
window_keep = pos 2592000000

abbrev pub is_open : ℤ → Window → Bool
is_open ms w = leb_ℤ w.opens_at ms && ltb_ℤ ms w.closes_at

-- The later of two rows, by id.
abbrev newest_open : Option (ℕ × Window) → ℕ × Window → ℕ × Window
newest_open none w = w
newest_open (some v) w = if leb w.0 v.0 then v else w

-- openWindow
unfoldable pub open_window : ℤ → Table Window → Option (ℕ × Window)
open_window ms [] = none
open_window ms (e ∷ d) =
    let rest = open_window ms d in if is_open ms e.1 then some (newest_open rest e) else rest

abbrev pub new_window : ℤ → ℤ → ℕ → ℕ → Window
new_window d places label now = record {
  opens_at = unix_milli now;
  closes_at = unix_milli (now + pos_part d);
  max_places = places;
  used = pos 0;
  label = label;
}

abbrev pub out_of_bounds : ℤ → ℤ → Bool
out_of_bounds d places =
    leb_ℤ d (pos 0)
    || ltb_ℤ max_window_length d
    || leb_ℤ places (pos 0)
    || ltb_ℤ max_window_size places

abbrev pub none_open : Option (ℕ × Window) → Outcome (Unit {0})
none_open none = done tt
none_open (some w) = fails (window_exists w)

-- OpenWindow
unfoldable pub open_sign_up : ℤ → ℤ → ℕ → ℕ → Store → Outcome ((ℕ × Window) × Store)
open_sign_up d places label now s = do
  stop_if (out_of_bounds d places) window_too_big
  none_open (open_window (unix_milli now) s.windows)
  done (
    (s.last_window + 1, new_window d places label now),
    record s {
      windows = insert (s.last_window + 1) (new_window d places label now) s.windows;
      last_window = s.last_window + 1;
    },
  )

-- CloseWindow
unfoldable pub close_sign_up : ℕ → Store → Option (ℕ × Window) × Store
close_sign_up now s = elim (open_window (unix_milli now) s.windows) [
  | none ↦ (none, s)
  | some w ↦
      let closed = record w.1 { closes_at = unix_milli now } in
      (some (w.0, closed), record s { windows = insert w.0 closed s.windows })
]

-- The last statement of SweepInactive.
unfoldable pub prune_windows : ℕ → Table Window → Table Window
prune_windows now [] = []
prune_windows now (e ∷ d) =
    let rest = prune_windows now d in
    if ltb_ℤ e.1.closes_at (unix_milli now -ℤ window_keep) then rest else e ∷ rest
