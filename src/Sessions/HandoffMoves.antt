-- ===== src/Sessions/HandoffMoves.antt =====
-- How often a generation occurs in the session table, when a handoff takes sessions.
use redfog.Base.{ℕ, refl, Option-cases, inl, inr, arith, get, remove}
use redfog.Base.Text.{Text, text_discrete}
use redfog.Sessions.State.{Manager}
use redfog.Sessions.Handoff.{handoff_begin, streaming_session}
use redfog.Sessions.Steps.{take_background}
use redfog.Sessions.Weights.{
  sum_by-remove, sum_by-remove-le, sum_by-insert, slot_weight, session_weight, in_table, Moved,
  weight,
}
use redfog.Sessions.Moves.{taken-Moved}

module _ {Key Ip : Type 0} (key_dec : Discrete Key) (g : ℕ) where
  pub handoff_begin-Moved :
      (m : Manager Key Ip Text) (key : Key) → Moved key_dec g m (handoff_begin key_dec m key).0 0 0
  unfolding handoff_begin in_table
  handoff_begin-Moved m key = elim (Option-cases (get key_dec key m.clients)) [
    | inl e ↦ rw (e, handoff_begin) (omega arith, refl)
    | inr (slot, e) ↦ elim (Option-cases (streaming_session key_dec slot.state)) [
      | inl n ↦
          rw (e, handoff_begin, n)
            (
              omega (
                arith,
                (taken-Moved key_dec g m key slot e).0,
                sum_by-insert (slot_weight g) key_dec key slot (remove key_dec key m.clients),
              ),
              refl,
            )
      | inr (session, n) ↦
          rw (e, handoff_begin, n)
            (omega (arith, sum_by-remove-le (slot_weight g) key_dec key m.clients), refl)
    ]
  ]

  pub take_background-Moved :
      (m : Manager Key Ip Text) (username : Text)
      → let (m', taken, effects) = take_background key_dec m username in
        Moved key_dec g m m' (weight key_dec g taken) 0
  unfolding in_table
  take_background-Moved m username = (
    omega (arith, sum_by-remove (session_weight g) text_discrete username m.background_sessions),
    refl,
  )
