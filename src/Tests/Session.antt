-- ===== src/Tests/Session.antt =====
-- crates/redfog-moonlight/src/session.rs at concrete inputs.
use redfog.Base.{◌≡◌, ℕ, refl, List, [], ◌∷◌, arith}
use redfog.Touch.{touch_downs, touch_motions, touch_ups, TouchEvent, on_touches}
use redfog.Touch.Sink.{Keeps, on_touches-Keeps}
use redfog.Bitrate.{after_reports}
use redfog.Bitrate.Range.{InRange, after_reports-InRange, after_reports-recovers}

-- A down that is lost, one that comes twice, and a stray up.
abbrev gesture : List (TouchEvent ℕ)
gesture =
    touch_motions 1 10 10
    ∷ touch_downs 1 11 11
    ∷ touch_downs 2 50 50
    ∷ touch_ups 1
    ∷ touch_ups 3
    ∷ []

on_touches-Keeps_example : Keeps ℕ [] (on_touches [] gesture)
on_touches-Keeps_example = on_touches-Keeps ℕ [] [] gesture (λ i. refl)

after_reports-InRange_example :
    InRange 20000 (after_reports 20000 20000 ((100, 50) ∷ (160, 159) ∷ []))
after_reports-InRange_example =
    after_reports-InRange 20000 20000 ((100, 50) ∷ (160, 159) ∷ []) (omega arith) (omega arith)
      (omega arith, omega arith)

after_reports-recovers_example : after_reports 1003 1000 ((5, 4) ∷ (9, 9) ∷ (12, 11) ∷ []) ≡ 1003
after_reports-recovers_example =
    after_reports-recovers 1003 1000 ((5, 4) ∷ (9, 9) ∷ (12, 11) ∷ []) (omega arith) (omega arith)
      (omega arith) (omega arith, (omega arith, (omega arith, tt))) (omega arith)
