-- ===== src/LoginScreen/Choice.antt =====
-- From the row that a user chose on the login screen to the session that the server starts.
use redfog.Base.{
  ℕ, ◌-◌, ◌<◌, ◌≤◌, ◌==◌, ◌≡◌, refl, ap, ◌∙◌, subst, true, false, Bool-cases, Option, none, some,
  Option-cases, inl, inr, List, [], ◌∷◌, ◌++◌, map, length, get_elem?, length-append, length-map,
  arith, zero, suc, if◌then◌else◌,
}
use redfog.Base.Text.{Text, codes, same_bytes, same_bytes_self, same_bytes-true}
use redfog.Presets.{SessionPreset}
use redfog.LoginScreen.Requests.{session_name, user_configured_name}
use redfog.Sessions.State.{SelectedSession}
use redfog.Sessions.Report.{
  SessionConfig, UserSessionConfig, BrokerReply, Reported, with_backend, find_preset,
  user_configured, preset_selected, select_session,
}

-- The rows of the login screen, as `main` makes them of the presets.
unfoldable pub session_names : List SessionPreset → List Text
session_names presets = map (λ (p : SessionPreset). p.name) presets ++ codes "Custom" ∷ []

-- No two presets have one name.
abbrev pub DistinctNames : List SessionPreset → Type 0
DistinctNames [] = Unit
DistinctNames (p ∷ ps) = (find_preset p.name ps ≡ none) × DistinctNames ps

-- What a row stands for: a preset, and the last one the user's own session.
abbrev pub meant :
    SessionConfig
    → BrokerReply (Option UserSessionConfig)
    → Option SessionPreset
    → Reported SelectedSession
meant config custom none = user_configured config custom
meant config custom (some p) = with_backend p.backend p.payload p.desktop_name p.glx_vendor

session_name-append :
    (names : List Text) (c : Text) (k : ℕ)
    → session_name (names ++ c ∷ []) k
      ≡ (if k == length names then some user_configured_name else get_elem? (names ++ c ∷ []) k)
unfolding session_name
session_name-append [] c k = refl
session_name-append (name ∷ names) c k =
    let same : length (name ∷ names ++ c ∷ []) - 1 ≡ length (name ∷ names) =
      omega (arith, length-append names (c ∷ [])) in
    rw same refl

get_elem?-names :
    (presets : List SessionPreset) (c : Text) (k : ℕ) (p : SessionPreset)
    → get_elem? presets k ≡ some p
    → get_elem? (map (λ (q : SessionPreset). q.name) presets ++ c ∷ []) k ≡ some p.name
get_elem?-names [] c k p h = absurd (cc h)
get_elem?-names (q ∷ presets) c zero p h =
    let same : q ≡ p = cc h in ap (λ (r : SessionPreset). some r.name) same
get_elem?-names (q ∷ presets) c (suc k) p h = get_elem?-names presets c k p h

get_elem?-lt :
    (presets : List SessionPreset) (k : ℕ) (p : SessionPreset)
    → get_elem? presets k ≡ some p
    → k < length presets
get_elem?-lt [] k p h = absurd (cc h)
get_elem?-lt (q ∷ presets) zero p h = omega arith
get_elem?-lt (q ∷ presets) (suc k) p h = omega (arith, get_elem?-lt presets k p h)

-- A preset is the first one of its name.
find_preset-get :
    (presets : List SessionPreset) (k : ℕ) (p : SessionPreset)
    → DistinctNames presets
    → get_elem? presets k ≡ some p
    → find_preset p.name presets ≡ some p
unfolding find_preset
find_preset-get [] k p d h = absurd (cc h)
find_preset-get (q ∷ presets) zero p d h =
    let same : q ≡ p = cc h in
    let found : find_preset q.name (q ∷ presets) ≡ some q = rw (same_bytes_self q.name) refl in
    subst (λ (r : SessionPreset). find_preset r.name (q ∷ presets) ≡ some r) same found
find_preset-get (q ∷ presets) (suc k) p d h = elim (Bool-cases (same_bytes q.name p.name)) [
  | inl e ↦
      let later = find_preset-get presets k p d.1 h in
      let clash : find_preset p.name presets ≡ none =
        subst (λ (t : Text). find_preset t presets ≡ none) (same_bytes-true q.name p.name e) d.0 in
      absurd (cc (later, clash))
  | inr e ↦ rw e (find_preset-get presets k p d.1 h)
]

find_preset-name :
    (presets : List SessionPreset) (k : ℕ) (p : SessionPreset) (name : Text)
    → find_preset name presets ≡ none
    → DistinctNames presets
    → get_elem? presets k ≡ some p
    → same_bytes p.name name ≡ false
find_preset-name presets k p name absent d h = elim (Bool-cases (same_bytes p.name name)) [
  | inl e ↦
      let found : find_preset name presets ≡ some p =
        subst (λ (t : Text). find_preset t presets ≡ some p) (same_bytes-true p.name name e)
          (find_preset-get presets k p d h) in
      absurd (cc (found, absent))
  | inr e ↦ e
]

get_elem?-none :
    (presets : List SessionPreset) (k : ℕ) → get_elem? presets k ≡ none → length presets ≤ k
get_elem?-none [] k h = omega arith
get_elem?-none (q ∷ presets) zero h = absurd (cc h)
get_elem?-none (q ∷ presets) (suc k) h = omega (arith, get_elem?-none presets k h)

names_of : List SessionPreset → List Text
names_of presets = map (λ (p : SessionPreset). p.name) presets

module _ (config : SessionConfig) (custom : BrokerReply (Option UserSessionConfig)) where
  preset_row :
      (k : ℕ) (p : SessionPreset)
      → DistinctNames config.session_presets
      → find_preset user_configured_name config.session_presets ≡ none
      → get_elem? config.session_presets k ≡ some p
      → (session_name (session_names config.session_presets) k ≡ some p.name)
        × (select_session config p.name custom ≡ meant config custom (some p))
  unfolding session_names select_session preset_selected names_of
  preset_row k p d reserved at =
      let inside : (k == length (names_of config.session_presets)) ≡ false = ground (
        arith,
        length-map config.session_presets (λ (q : SessionPreset). q.name),
        get_elem?-lt config.session_presets k p at,
      ) in
      (
        session_name-append (names_of config.session_presets) (codes "Custom") k
            ∙ rw inside (get_elem?-names config.session_presets (codes "Custom") k p at),
        rw
            (
              find_preset-name config.session_presets k p user_configured_name reserved d at,
              select_session,
              find_preset-get config.session_presets k p d at,
              preset_selected,
            )
            refl,
      )

  custom_row :
      (k : ℕ)
      → k ≡ length config.session_presets
      → (session_name (session_names config.session_presets) k ≡ some user_configured_name)
        × (select_session config user_configured_name custom ≡ meant config custom none)
  unfolding session_names select_session names_of
  custom_row k last =
      let there : (k == length (names_of config.session_presets)) ≡ true =
        ground (arith, last, length-map config.session_presets (λ (q : SessionPreset). q.name)) in
      (
        session_name-append (names_of config.session_presets) (codes "Custom") k ∙ rw there refl,
        rw (same_bytes_self user_configured_name, select_session) refl,
      )

  -- The login screen and the server have read the same presets, no two of one name and none that is
  -- called user-configured. Then for each row that the screen offers there is a name that it sends for the
  -- row, and by it the server selects what the row stands for: that preset, or for the last row the
  -- user's own session.
  pub chosen_row_selected :
      (k : ℕ)
      → DistinctNames config.session_presets
      → find_preset user_configured_name config.session_presets ≡ none
      → k ≤ length config.session_presets
      → (name : Text) × (session_name (session_names config.session_presets) k ≡ some name)
        × (select_session config name custom
            ≡ meant config custom (get_elem? config.session_presets k))
  chosen_row_selected k d reserved below =
      elim (Option-cases (get_elem? config.session_presets k)) [
        | inl e ↦
            let last : k ≡ length config.session_presets =
              omega (arith, below, get_elem?-none config.session_presets k e) in
            let (sent, selected) = custom_row k last in (user_configured_name, sent, rw e selected)
        | inr (p, e) ↦
            let (sent, selected) = preset_row k p d reserved e in (p.name, sent, rw e selected)
      ]
