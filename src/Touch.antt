-- ===== src/Touch.antt =====
-- Touch contacts of crates/redfog-moonlight/src/session.rs: `touch_down`, `touch_motion`, `touch_up`
-- and `release_all_touches`. `active_touch_ids` is a list without order; the calls made on the
-- `InputSink` are returned in the order they are made. Coordinates are of any type.
pub mod Sink
use redfog.Base.{ℕ, ◌≡◌, Bool, true, false, List, [], ◌∷◌, ◌++◌, ◌==◌, ◌||◌, if◌then◌else◌}

-- `HashSet<u32>`.
unfoldable pub contains : ℕ → List ℕ → Bool
contains id [] = false
contains id (x ∷ xs) = x == id || contains id xs

unfoldable pub remove : ℕ → List ℕ → List ℕ
remove id [] = []
remove id (x ∷ xs) = if x == id then remove id xs else x ∷ remove id xs

unfoldable pub insert : ℕ → List ℕ → List ℕ
unfolding contains
insert id xs = if contains id xs then xs else id ∷ xs

module _ (Coord : Type 0) where
  -- The calls of `InputSink` that touches make.
  pub data Call : Type 0 where
    down motion : ℕ → Coord → Coord → Call
    up : ℕ → Call
    frame : Call

  -- The touch arms of `on_input`; `up` and `cancel` are handled alike.
  pub data TouchEvent : Type 0 where
    touch_downs touch_motions : ℕ → Coord → Coord → TouchEvent
    touch_ups touch_cancels : ℕ → TouchEvent
    touch_cancel_all : TouchEvent

module _ {Coord : Type 0} where
  unfoldable pub touch_down : List ℕ → ℕ → Coord → Coord → List ℕ × List (Call Coord)
  unfolding contains insert
  touch_down active pointer_id x y =
      let released : List (Call Coord) =
        if contains pointer_id active then up pointer_id ∷ frame ∷ [] else [] in
      (insert pointer_id active, released ++ (down pointer_id x y ∷ frame ∷ []))

  unfoldable pub touch_motion : List ℕ → ℕ → Coord → Coord → List ℕ × List (Call Coord)
  unfolding contains insert
  touch_motion active pointer_id x y = (
    insert pointer_id active,
    (if contains pointer_id active then motion pointer_id x y else down pointer_id x y)
        ∷ frame
        ∷ [],
  )

  unfoldable pub touch_up : List ℕ → ℕ → List ℕ × List (Call Coord)
  unfolding remove
  touch_up active pointer_id = (remove pointer_id active, up pointer_id ∷ frame ∷ [])

  unfoldable pub lift_all : List ℕ → List (Call Coord)
  lift_all [] = frame ∷ []
  lift_all (id ∷ ids) = up id ∷ lift_all ids

  unfoldable pub release_all_touches : List ℕ → List ℕ × List (Call Coord)
  unfolding lift_all
  release_all_touches active = ([], lift_all active)

  unfoldable pub on_touch : List ℕ → TouchEvent Coord → List ℕ × List (Call Coord)
  unfolding touch_down touch_motion touch_up release_all_touches
  on_touch active (touch_downs id x y) = touch_down active id x y
  on_touch active (touch_motions id x y) = touch_motion active id x y
  on_touch active (touch_ups id) = touch_up active id
  on_touch active (touch_cancels id) = touch_up active id
  on_touch active touch_cancel_all = release_all_touches active

  unfoldable pub on_touches : List ℕ → List (TouchEvent Coord) → List ℕ × List (Call Coord)
  on_touches active [] = (active, [])
  on_touches active (e ∷ es) =
      let (active', calls) = on_touch active e in
      let (final, rest) = on_touches active' es in (final, calls ++ rest)
