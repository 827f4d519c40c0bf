-- ===== src/Sessions/Shutdown.antt =====
-- crates/redfog-moonlight/src/session.rs: `shutdown_all_sessions`, which only asks the broker.
use mathlib.Core.Logic.{if_pos, if_neg}
use mathlib.Core.List.{filter_map, Memᴰ}
use mathlib.Core.List.Memᴰ.{append_left, append_right, append_cases, cases_cons, head, tail}
use redfog.Base.{
  ℕ, ◌≡◌, refl, sym, ◌∙◌, ap, subst, true, Option, Option-cases, none, some, List, [], ◌∷◌, ◌++◌,
  get, Unique, ◌⊎◌, ◌↔◌, inl, inr, if◌then◌else◌,
}
use redfog.Base.Text.{Text, text_discrete}
use redfog.Sessions.State.{RunningSession, ClientSlot, Manager, session_of}
use redfog.Sessions.Report.{SessionConfig}

module _ {K V : Type 0} (dec : Discrete K) (id_of : V → Option ℕ) where
  abbrev ids : List (K × V) → List ℕ
  ids m = filter_map (λ (entry : K × V). id_of entry.1) m

  -- The value of some key has the number.
  abbrev pub Has : List (K × V) → ℕ → Type 0
  Has m id = (k : K) × (v : V) × (get dec k m ≡ some v) × (id_of v ≡ some id)

  ids-Has : (m : List (K × V)) (id : ℕ) → Unique dec m → Memᴰ id (ids m) → Has m id
  unfolding filter_map get
  ids-Has [] id u asked = elim asked [ ]
  ids-Has ((k, v) ∷ m) id u asked =
      let later : Memᴰ id (ids m) → Has ((k, v) ∷ m) id = λ rest.
        let (j, w, at, has) = ids-Has m id u.1 rest in
        (
          j,
          w,
          if_neg (dec k j) (λ p. cc (sym u.0 ∙ ap (λ i. get dec i m) p ∙ at)) (some v) (get dec j m)
              ∙ at,
          has,
        ) in
      elim (Option-cases (id_of v)) [
        | inl none_here ↦ later (subst (Memᴰ id) (rw none_here refl) asked)
        | inr (i, found) ↦
            elim (cases_cons
              (subst (Memᴰ id) {x = ids ((k, v) ∷ m)} {y = i ∷ ids m} (rw found refl) asked)) [
                | inl p ↦
                    (k, v, if_pos (dec k k) refl (some v) (get dec k m), found ∙ ap some (sym p))
                | inr rest ↦ later rest
              ]
      ]

  here :
      (j : K) (w : V) (k : K) (v : V) (m : List (K × V))
      → j ≡ k
      → get dec k ((j, w) ∷ m) ≡ some v
      → w ≡ v
  unfolding get
  here j w k v m p at = cc (sym (if_pos (dec j k) p (some w) (get dec k m)) ∙ at)

  Has-ids :
      (m : List (K × V)) (id : ℕ) (k : K) (v : V)
      → get dec k m ≡ some v
      → id_of v ≡ some id
      → Memᴰ id (ids m)
  unfolding filter_map get
  Has-ids [] id k v at has = absurd (cc at)
  Has-ids ((j, w) ∷ m) id k v at has = elim (dec j k) [
    | yes p ↦ rw (here j w k v m p at, has) (head refl)
    | no p ↦
        let rest = Has-ids m id k v (sym (if_neg (dec j k) p (some w) (get dec k m)) ∙ at) has in
        elim (Option-cases (id_of w)) [ inl e ↦ rw e rest | inr (i, e) ↦ rw e (tail rest) ]
  ]

module _ {Key Ip : Type 0} where
  -- `slot.state.session().and_then(|s| s.broker_session_id.clone())`.
  unfoldable pub active_id : ClientSlot Key Ip Text → Option ℕ
  unfolding session_of
  active_id slot = elim (session_of slot.state) [
    | none ↦ none
    | some session ↦ session.broker_session_id
  ]

  -- The broker's sessions that are asked to end; what the broker answers is only logged.
  unfoldable pub shutdown_all_sessions : SessionConfig → Manager Key Ip Text → List ℕ
  unfolding filter_map active_id
  shutdown_all_sessions config m =
      if config.has_broker
      then filter_map (λ entry. entry.1.broker_session_id) m.background_sessions
        ++ filter_map (λ entry. active_id entry.1) m.clients
      else []

module _ {Key Ip : Type 0} (key_dec : Discrete Key) where
  -- With a broker, the broker's sessions that a shutdown asks to end are those of the sessions in the
  -- background and of the clients' sessions, launched or streaming, and no others. Both tables have one
  -- entry for a key.
  pub asked_iff_stored :
      (config : SessionConfig) (m : Manager Key Ip Text) (id : ℕ)
      → config.has_broker ≡ true
      → Unique text_discrete m.background_sessions
      → Unique key_dec m.clients
      → Memᴰ id (shutdown_all_sessions config m) ↔ (
          Has text_discrete
            (λ (s : RunningSession Key Ip Text). s.broker_session_id)
            m.background_sessions
            id
          ⊎ Has key_dec active_id m.clients id)
  unfolding shutdown_all_sessions
  asked_iff_stored config m id broker u w =
      let back =
        filter_map (λ (e : Text × RunningSession Key Ip Text). e.1.broker_session_id)
          m.background_sessions in
      let front = filter_map (λ (e : Key × ClientSlot Key Ip Text). active_id e.1) m.clients in
      let asked : shutdown_all_sessions config m ≡ back ++ front = rw broker refl in
      (
        λ mem. elim (append_cases back (subst (Memᴰ id) asked mem)) [
          | inl x ↦ inl (ids-Has text_discrete _ m.background_sessions id u x)
          | inr y ↦ inr (ids-Has key_dec active_id m.clients id w y)
        ],
        λ stored. subst (Memᴰ id) (sym asked) (elim stored [
          | inl (k, v, at, has) ↦
              append_left front (Has-ids text_discrete _ m.background_sessions id k v at has)
          | inr (k, v, at, has) ↦
              append_right back (Has-ids key_dec active_id m.clients id k v at has)
        ]),
      )
