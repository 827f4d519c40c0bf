-- ===== src/LoginScreen/Hits.antt =====
-- The rows that a click hits.
use redfog.Base.{
  ℕ, ◌+◌, ◌<◌, ◌≤◌, ◌≡◌, refl, subst, Bool, Bool-cases, Option, none, some, Option-cases, inl, inr,
  List, [], ◌∷◌, length, arith,
}
use redfog.LoginScreen.{
  LoginUiState, Layout, Hit, session_option, keyboard_option, hit_row, hit_widget, hit_logout,
  hit_test,
}

-- The rows of a layout that was made for the screen's lists.
abbrev pub Fits : {Rect Pos : Type 0} → LoginUiState Pos → Layout Rect → Type 0
Fits s layout =
    (length layout.session_options ≤ length s.sessions)
    × (length layout.keyboard_options ≤ length s.keyboard_layouts)

abbrev pub HitFits : {Pos : Type 0} → LoginUiState Pos → Hit → Type 0
HitFits s (session_option i) = i < length s.sessions
HitFits s (keyboard_option i) = i < length s.keyboard_layouts
HitFits s hit = Unit {0}

hit_row-lt :
    {Rect Pos : Type 0} (c : Rect → Pos → Bool) (rows : List Rect) (pos : Pos) (i k : ℕ)
    → hit_row c rows pos i ≡ some k
    → k < i + length rows
unfolding hit_row
hit_row-lt c [] pos i k h = absurd (cc h)
hit_row-lt c (row ∷ rows) pos i k h = elim (Bool-cases (c row pos)) [
  | inl e ↦ let same : i ≡ k = cc (rw e at h) in omega (arith, same)
  | inr e ↦ omega (arith, hit_row-lt c rows pos (i + 1) k (rw e at h))
]

module _ {Rect Pos : Type 0} (c : Rect → Pos → Bool) where
  hit_logout-Fits :
      (s : LoginUiState Pos) (button : Option Rect) (pos : Pos)
      → HitFits s (hit_logout c button pos)
  unfolding hit_logout
  hit_logout-Fits s none pos = tt
  hit_logout-Fits s (some rect) pos = ground arith

  hit_widget-Fits :
      (s : LoginUiState Pos) (layout : Layout Rect) (pos : Pos)
      → HitFits s (hit_widget c layout pos)
  unfolding hit_widget
  hit_widget-Fits s layout pos = ground (arith, hit_logout-Fits s layout.logout_button pos)

  pub hit_test-Fits :
      (s : LoginUiState Pos) (layout : Layout Rect) (pos : Pos)
      → Fits s layout
      → HitFits s (hit_test c layout pos)
  unfolding hit_test
  hit_test-Fits s layout pos fits = elim (Option-cases (hit_row c layout.keyboard_options pos 0)) [
    | inr (k, e) ↦
        let same : keyboard_option k ≡ hit_test c layout pos = rw (e, hit_test) refl in
        subst (HitFits s) same
          (omega (arith, fits.1, hit_row-lt c layout.keyboard_options pos 0 k e))
    | inl e ↦ elim (Option-cases (hit_row c layout.session_options pos 0)) [
      | inr (k, f) ↦
          let same : session_option k ≡ hit_test c layout pos = rw (e, hit_test, f) refl in
          subst (HitFits s) same
            (omega (arith, fits.0, hit_row-lt c layout.session_options pos 0 k f))
      | inl f ↦
          let same : hit_widget c layout pos ≡ hit_test c layout pos = rw (e, hit_test, f) refl in
          subst (HitFits s) same (hit_widget-Fits s layout pos)
    ]
  ]
