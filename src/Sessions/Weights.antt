-- ===== src/Sessions/Weights.antt =====
-- How often a generation occurs in the session table, under each operation on it.
use redfog.Base.{
  ℕ, ◌+◌, ◌≤◌, ◌==◌, ◌≡◌, refl, Option, none, some, Option-cases, inl, inr, List, [], ◌∷◌, arith,
  get, insert, remove, if◌then◌else◌,
}
use redfog.Base.Text.{Text, text_discrete}
use redfog.Sessions.State.{
  SessionType, user, login, RunningSession, ClientSlot, Manager, session_of,
}
use redfog.Sessions.Attach.{
  is_user, take_active_session, take_active_session_by_username, background_or_discard,
}
use redfog.Sessions.Lookup.{find_client}

-- The sum of the weights of a map's values.
pub sum_by : {K V : Type 0} → (V → ℕ) → List (K × V) → ℕ
sum_by w [] = 0
sum_by w ((k, v) ∷ m) = w v + sum_by w m

-- The weight of a value that may be there.
abbrev pub weigh : {V : Type 0} → (V → ℕ) → Option V → ℕ
weigh w none = 0
weigh w (some v) = w v

module _ {K V : Type 0} (w : V → ℕ) (dec : Discrete K) where
  pub sum_by-remove-le : (k : K) (m : List (K × V)) → sum_by w (remove dec k m) ≤ sum_by w m
  unfolding sum_by remove
  sum_by-remove-le k [] = omega arith
  sum_by-remove-le k ((j, v) ∷ m) = ground (arith, sum_by-remove-le k m)

  pub sum_by-remove :
      (k : K) (m : List (K × V)) → sum_by w (remove dec k m) + weigh w (get dec k m) ≤ sum_by w m
  unfolding sum_by remove get
  sum_by-remove k [] = omega arith
  sum_by-remove k ((j, v) ∷ m) = ground (arith, sum_by-remove-le k m, sum_by-remove k m)

  pub sum_by-insert :
      (k : K) (v : V) (m : List (K × V)) → sum_by w (insert dec k v m) ≤ w v + sum_by w m
  unfolding sum_by insert
  sum_by-insert k v m = omega (arith, sum_by-remove-le k m)

  pub sum_by-swap :
      (k : K) (v v' : V) (m : List (K × V))
      → get dec k m ≡ some v
      → w v' ≡ w v
      → sum_by w (insert dec k v' m) ≤ sum_by w m
  unfolding sum_by insert
  sum_by-swap k v v' m e same = let kept = sum_by-remove k m in omega (arith, rw e at kept, same)

-- Whether a session has the generation, as a number.
abbrev pub session_weight : {Key Ip User : Type 0} → ℕ → RunningSession Key Ip User → ℕ
session_weight g session = if session.generation == g then 1 else 0

abbrev pub slot_weight : {Key Ip User : Type 0} → ℕ → ClientSlot Key Ip User → ℕ
slot_weight g slot = weigh (session_weight g) (session_of slot.state)

module _ {Key Ip : Type 0} (key_dec : Discrete Key) (g : ℕ) where
  -- How often the table has the generation.
  unfoldable pub in_table : Manager Key Ip Text → ℕ
  unfolding sum_by
  in_table m = sum_by (slot_weight g) m.clients + sum_by (session_weight g) m.background_sessions

  -- From one table to another the generation is lost at least so often, and gained at most so often; and
  -- the counter of generations stays.
  abbrev pub Moved : Manager Key Ip Text → Manager Key Ip Text → ℕ → ℕ → Type 0
  Moved m m' lost gained =
      (in_table m' + lost ≤ in_table m + gained) × (m'.next_generation ≡ m.next_generation)

  abbrev pub weight : Option (RunningSession Key Ip Text) → ℕ
  weight o = weigh (session_weight g) o

  pub take_active-Moved :
      (m : Manager Key Ip Text) (key : Key)
      → let (m', taken, aborts) = take_active_session key_dec text_discrete text_discrete m key in
        Moved m m' (weight taken) 0
  unfolding take_active_session in_table
  take_active-Moved m key = elim (Option-cases (get key_dec key m.clients)) [
    | inl e ↦ rw (e, take_active_session) (omega arith, refl)
    | inr (slot, e) ↦
        rw (e, take_active_session)
          (let kept = sum_by-remove (slot_weight g) key_dec key m.clients in
            (omega (arith, rw e at kept), refl))
  ]

  pub take_by_username-Moved :
      (m : Manager Key Ip Text) (username : Text)
      → let (m', taken, aborts) =
          take_active_session_by_username key_dec text_discrete text_discrete m username in
        Moved m m' (weight taken) 0
  unfolding take_active_session_by_username
  take_by_username-Moved m username =
      elim (Option-cases (find_client (λ s. is_user text_discrete username s.kind) m.clients)) [
        | inl e ↦ rw (e, take_active_session_by_username) (omega arith, refl)
        | inr (c, e) ↦ rw (e, take_active_session_by_username) (take_active-Moved m c.0)
      ]

  pub background-Moved :
      (m : Manager Key Ip Text) (session : RunningSession Key Ip Text) (kind : SessionType Text)
      → Moved m
          (background_or_discard key_dec text_discrete text_discrete m session kind).0
          0
          (weight (some session))
  unfolding background_or_discard in_table
  background-Moved m session (user username) = (
    omega (
      arith,
      sum_by-insert (session_weight g) text_discrete username
          (record session { active_touch_ids = [] }) m.background_sessions,
    ),
    refl,
  )
  background-Moved m session login = (omega arith, refl)
