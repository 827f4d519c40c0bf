-- ===== src/Bitrate.antt =====
-- Server-side adaptive bitrate, `adapt_bitrate_kbps` of crates/redfog-moonlight/src/session.rs. The
-- products are u32 and wrap, as in a release build.
pub mod Range
use redfog.Base.{
  ℕ, zero, suc, ◌-◌, ◌*◌, ◌/◌, ◌%◌, min, max, List, [], ◌∷◌, ltb, leb, if◌then◌else◌, u32_size,
}

unfoldable pub adapt_bitrate_kbps : ℕ → ℕ → ℕ → ℕ
adapt_bitrate_kbps current_kbps target_kbps frames_behind =
    let floor_kbps = max (target_kbps / 4) 1000 in
    if ltb 3 frames_behind
    then max (current_kbps * 85 % u32_size / 100) floor_kbps
    else if leb frames_behind 1
    then min (current_kbps * 105 % u32_size / 100) target_kbps
    else current_kbps

-- The decision of `on_loss_stats`, for the packetizer's next frame number and the client's report.
unfoldable pub on_report : ℕ → ℕ → ℕ → ℕ → ℕ
unfolding adapt_bitrate_kbps
on_report target_kbps current_kbps next_frame_number last_good_frame =
    adapt_bitrate_kbps current_kbps target_kbps (next_frame_number - last_good_frame)

-- The bitrate after a history of reports, each with the frame number at the time.
unfoldable pub after_reports : ℕ → ℕ → List (ℕ × ℕ) → ℕ
after_reports target_kbps current_kbps [] = current_kbps
after_reports target_kbps current_kbps ((next, last_good) ∷ reports) =
    after_reports target_kbps (on_report target_kbps current_kbps next last_good) reports
