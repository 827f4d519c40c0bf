-- ===== src/Sessions/Generations.antt =====
-- How many sessions a generation names, along requests, handoffs and watches.
use redfog.Base.{
  ℕ, ◌+◌, ◌≤◌, ◌==◌, ◌≡◌, refl, Option, none, some, inl, inr, List, [], ◌∷◌, arith, Bool-cases,
  if◌then◌else◌,
}
use redfog.Base.Text.{Text, text_discrete}
use redfog.Sessions.State.{RunningSession, Manager, Effect}
use redfog.Control.Registry.{new_registry}
use redfog.Sessions.Attach.{
  take_active_session, take_active_session_by_username, launch_claim, launch_count,
}
use redfog.Sessions.Handoff.{handoff_spawned}
use redfog.Sessions.Steps.{
  Picks, here, later, System, after_take, take_background, Step, takes, takes_by_username,
  takes_background, registers, forgets, backgrounds, drops, launch_claims, launch_counts,
  launch_ends, launch_fails, launch_joins, play_takes, play_retakes, handoff_begins, handoff_spawns,
  streams, Reach, start, next,
}
use redfog.Sessions.Weights.{
  in_table, Moved, weight, take_active-Moved, take_by_username-Moved, background-Moved,
}
use redfog.Sessions.Moves.{
  launch_claim-Moved, launch_end-Moved, launch_fails-Moved, launch_join-Moved, play_take-Moved,
  play_retake-Moved, start_streaming-Moved,
}
use redfog.Sessions.HandoffMoves.{handoff_begin-Moved, take_background-Moved}

-- How often a number occurs in a list.
pub count : ℕ → List ℕ → ℕ
count g [] = 0
count g (h ∷ gs) = (if h == g then 1 else 0) + count g gs

count-Picks :
    (g h : ℕ) {gs hs : List ℕ} → Picks h gs hs → count g gs ≡ (if h == g then 1 else 0) + count g hs
unfolding count
count-Picks g h here = refl
count-Picks g h (later p) = omega (arith, count-Picks g h p)

module _ {Key Ip : Type 0} (key_dec : Discrete Key) (g : ℕ) where
  -- How often the system has the generation, in the table or with a task.
  pub total : System Key Ip → ℕ
  total s = in_table key_dec g s.table + count g s.held

  -- A generation that was counted occurs once at most, and one that was not does not occur.
  abbrev pub NamesOne : System Key Ip → Type 0
  NamesOne s = (total s ≤ 1) × (s.table.next_generation ≤ g → total s ≡ 0)

  kept-NamesOne :
      (s t : System Key Ip)
      → NamesOne s
      → total t ≤ total s
      → t.table.next_generation ≡ s.table.next_generation
      → NamesOne t
  kept-NamesOne s t inv le same =
      (omega (arith, inv.0, le), λ h. omega (arith, le, inv.1 (omega (arith, h, same))))

  counted-NamesOne :
      (s t : System Key Ip)
      → NamesOne s
      → total t ≤ total s + (if s.table.next_generation == g then 1 else 0)
      → t.table.next_generation ≡ s.table.next_generation + 1
      → NamesOne t
  counted-NamesOne s t inv le same = elim (Bool-cases (s.table.next_generation == g)) [
    | inl e ↦
        let now : s.table.next_generation ≡ g = ground (arith, e) in
        let none_yet : total s ≡ 0 = inv.1 (omega (arith, now)) in
        let one : total t ≤ total s + 1 = rw e at le in
        (omega (arith, one, none_yet), λ h. absurd (omega (arith, h, same, now)))
    | inr e ↦
        let as_before : total t ≤ total s + 0 = rw e at le in
        (
          omega (arith, as_before, inv.0),
          λ h. omega (arith, as_before, inv.1 (omega (arith, h, same))),
        )
  ]

  existing-total :
      (s : System Key Ip)
      (r : Manager Key Ip Text × Option (RunningSession Key Ip Text) × List (Effect Key Ip Text))
      → Moved key_dec g s.table r.0 (weight key_dec g r.1) 0
      → total (after_take key_dec s r) ≤ total s
  unfolding total count
  existing-total s (m, none, effects) moved = omega (arith, moved.0)
  existing-total s (m, some session, effects) moved = omega (arith, moved.0)

  taken-NamesOne :
      (s : System Key Ip)
      (r : Manager Key Ip Text × Option (RunningSession Key Ip Text) × List (Effect Key Ip Text))
      → Moved key_dec g s.table r.0 (weight key_dec g r.1) 0
      → NamesOne s
      → NamesOne (after_take key_dec s r)
  taken-NamesOne s r moved inv =
      kept-NamesOne s (after_take key_dec s r) inv (existing-total s r moved) moved.1

  pub Step-NamesOne : {s t : System Key Ip} → Step key_dec s t → NamesOne s → NamesOne t
  unfolding total count handoff_spawned launch_count in_table
  Step-NamesOne {s} {t} (takes key) inv =
      taken-NamesOne s (take_active_session key_dec text_discrete text_discrete s.table key)
        (take_active-Moved key_dec g s.table key) inv
  Step-NamesOne {s} {t} (takes_by_username username) inv =
      taken-NamesOne s
        (take_active_session_by_username key_dec text_discrete text_discrete s.table username)
        (take_by_username-Moved key_dec g s.table username) inv
  Step-NamesOne {s} {t} (takes_background username) inv =
      taken-NamesOne s (take_background key_dec s.table username)
        (take_background-Moved key_dec g s.table username) inv
  Step-NamesOne {s} {t} (registers rikey) inv = kept-NamesOne s t inv (omega arith) refl
  Step-NamesOne {s} {t} (forgets rikey) inv = kept-NamesOne s t inv (omega arith) refl
  Step-NamesOne {s} {t} (backgrounds session rest p) inv =
      let moved = background-Moved key_dec g s.table session session.kind in
      kept-NamesOne s t inv (omega (arith, moved.0, count-Picks g session.generation p)) moved.1
  Step-NamesOne {s} {t} (drops h rest p) inv =
      kept-NamesOne s t inv (omega (arith, count-Picks g h p)) refl
  Step-NamesOne {s} {t} (launch_claims key) inv =
      taken-NamesOne s (launch_claim key_dec text_discrete text_discrete s.table key)
        (launch_claim-Moved key_dec g s.table key) inv
  Step-NamesOne {s} {t} (launch_counts small) inv =
      counted-NamesOne s t inv (omega arith) (omega (arith, small))
  Step-NamesOne {s} {t} (launch_ends key session rest p) inv =
      let moved = launch_end-Moved key_dec g s.table key session in
      kept-NamesOne s t inv (omega (arith, moved.0, count-Picks g session.generation p)) moved.1
  Step-NamesOne {s} {t} (launch_fails key) inv =
      let moved = launch_fails-Moved key_dec g s.table key in
      kept-NamesOne s t inv (omega (arith, moved.0)) moved.1
  Step-NamesOne {s} {t} (launch_joins key rikey key_id m e) inv =
      let moved = launch_join-Moved key_dec g s.table m key rikey key_id e in
      kept-NamesOne s t inv (omega (arith, moved.0)) moved.1
  Step-NamesOne {s} {t} (play_takes key m kind video audio e) inv =
      let moved = play_take-Moved key_dec g s.table m key kind video audio e in
      kept-NamesOne s t inv (omega (arith, moved.0)) moved.1
  Step-NamesOne {s} {t} (play_retakes session rest v a video audio p) inv =
      let moved = play_retake-Moved key_dec g s.table session v a video audio in
      kept-NamesOne s t inv (omega (arith, moved.0, count-Picks g session.generation p)) moved.1
  Step-NamesOne {s} {t} (handoff_begins key) inv =
      let moved = handoff_begin-Moved key_dec g s.table key in
      kept-NamesOne s t inv (omega (arith, moved.0)) moved.1
  Step-NamesOne {s} {t} (handoff_spawns has_gamepad width height id origin reported small) inv =
      counted-NamesOne s t inv (omega arith) (omega (arith, small))
  Step-NamesOne {s} {t} (streams session rest is_resume video audio p) inv =
      let moved = start_streaming-Moved key_dec g s.table session is_resume video audio in
      kept-NamesOne s t inv (omega (arith, moved.0, count-Picks g session.generation p)) moved.1

  -- However what the clients' requests, the tasks and the watches do under one lock each interleaves, with
  -- fewer than 2^64 generations: a generation that was given out names one session at most, of all that
  -- are attached, in the background or held by a task; and one that was not given out names none.
  pub generation-NamesOne : {s : System Key Ip} → Reach key_dec s → NamesOne s
  unfolding total count in_table new_registry
  generation-NamesOne start = (omega arith, λ h. omega arith)
  generation-NamesOne (next r step) = Step-NamesOne step (generation-NamesOne r)
