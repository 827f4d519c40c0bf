-- ===== src/Bitrate/Range.antt =====
-- The bitrate along a history of loss reports.
use redfog.Base.{
  ℕ, ◌+◌, ◌-◌, ◌*◌, ◌/◌, ◌≤◌, ◌<◌, min, max, ◌≡◌, List, [], ◌∷◌, length, u32_size, arith,
}
use redfog.Bitrate.{adapt_bitrate_kbps, on_report, after_reports}

-- The floor of the source: a quarter of the target, and at least 1000 kbps.
abbrev pub floor_kbps : ℕ → ℕ
floor_kbps target = max (target / 4) 1000

abbrev pub InRange : ℕ → ℕ → Type 0
InRange target current = (floor_kbps target ≤ current) × (current ≤ target)

-- One step stays between the floor and the target, for a target of at least 1000 kbps whose products
-- fit a u32.
pub adapt-InRange :
    (target current behind : ℕ)
    → 1000 ≤ target
    → target * 105 < u32_size
    → InRange target current
    → InRange target (adapt_bitrate_kbps current target behind)
unfolding adapt_bitrate_kbps
adapt-InRange target current behind low fits r = ground arith

-- From a bitrate between the floor and the target, every history of loss reports stays between them,
-- for a target of at least 1000 kbps whose products fit a u32.
pub after_reports-InRange :
    (target current : ℕ) (reports : List (ℕ × ℕ))
    → 1000 ≤ target
    → target * 105 < u32_size
    → InRange target current
    → InRange target (after_reports target current reports)
unfolding after_reports on_report
after_reports-InRange target current [] low fits r = r
after_reports-InRange target current ((next, last_good) ∷ reports) low fits r =
    after_reports-InRange target (adapt_bitrate_kbps current target (next - last_good)) reports low
      fits (adapt-InRange target current (next - last_good) low fits r)

-- A client that asked for less than 1000 kbps and falls behind is sent more than it asked for: the
-- floor lies above the ceiling.
pub low_target_exceeded :
    (target current behind : ℕ)
    → target < 1000
    → 3 < behind
    → target < adapt_bitrate_kbps current target behind
unfolding adapt_bitrate_kbps
low_target_exceeded target current behind low late = ground arith

-- Reports of a client that is at most one frame behind.
abbrev pub KeepsUp : List (ℕ × ℕ) → Type 0
KeepsUp [] = Unit
KeepsUp ((next, last_good) ∷ reports) = (next ≤ last_good + 1) × KeepsUp reports

recover_step :
    (target current behind : ℕ)
    → target * 105 < u32_size
    → 20 ≤ current
    → current ≤ target
    → behind ≤ 1
    → (min (current + 1) target ≤ adapt_bitrate_kbps current target behind)
      × (adapt_bitrate_kbps current target behind ≤ target)
unfolding adapt_bitrate_kbps
recover_step target current behind fits low h late = ground arith

-- A client that keeps up gets its target bitrate back, from any rate of at least 20 kbps, after at
-- most as many reports as there are kbps missing, if the target's products fit a u32.
pub after_reports-recovers :
    (target current : ℕ) (reports : List (ℕ × ℕ))
    → target * 105 < u32_size
    → 20 ≤ current
    → current ≤ target
    → KeepsUp reports
    → target ≤ current + length reports
    → after_reports target current reports ≡ target
unfolding after_reports on_report
after_reports-recovers target current [] fits low h k enough = omega arith
after_reports-recovers target current ((next, last_good) ∷ reports) fits low h k enough =
    let next_rate : ℕ = adapt_bitrate_kbps current target (next - last_good) in
    let (up, below) = recover_step target current (next - last_good) fits low h (omega arith) in
    after_reports-recovers target next_rate reports fits (omega arith) below k.1 (omega arith)
