-- ===== src/Clients/Resolving.antt =====
-- What resolving a fingerprint or a prefix of one answers.
use mathlib.Core.Logic.{if_pos, if_neg}
use redfog.Base.{
  ap, ◌≤◌, subst, ◌≡◌, ◌⊎◌, inl, inr, refl, sym, ◌∙◌, if◌then◌else◌, Bool, Bool-cases, true, false,
  Option-cases, none, some, List, [], ◌∷◌, get, length, arith,
}
use redfog.Base.Text.{Text, text_discrete, starts_with}
use redfog.Clients.State.{no_paired_device, ambiguous_fingerprint, Result, ok, err}
use redfog.Clients.Records.{matches, resolve_matches, resolve_fingerprint}

abbrev In : Text → List Text → Type 0
In k [] = ⊥
In k (x ∷ xs) = (k ≡ x) ⊎ In k xs

starts_with_self : (text : Text) → starts_with text text ≡ true
starts_with_self [] = refl
starts_with_self (c ∷ cs) = ground (arith, starts_with_self cs)

module _ {V : Type 0} where
  abbrev pub IsKey : Text → List (Text × V) → Type 0
  IsKey k m = (v : V) × (get text_discrete k m ≡ some v)

  IsKey-cons : (k j : Text) (v : V) (m : List (Text × V)) → IsKey k m → IsKey k ((j, v) ∷ m)
  unfolding get
  IsKey-cons k j v m (w, h) = elim (text_discrete j k) [
    | yes p ↦ (v, if_pos (text_discrete j k) p _ _)
    | no p ↦ (w, if_neg (text_discrete j k) p _ _ ∙ h)
  ]

  IsKey-head : (k : Text) (v : V) (m : List (Text × V)) → IsKey k ((k, v) ∷ m)
  unfolding get
  IsKey-head k v m = (v, if_pos (text_discrete k k) refl _ _)

  -- Every match is a key that starts with the text.
  matches-IsKey :
      (prefix k : Text) (m : List (Text × V))
      → In k (matches prefix m)
      → IsKey k m × (starts_with k prefix ≡ true)
  unfolding matches
  matches-IsKey prefix k [] h = absurd h
  matches-IsKey prefix k ((j, v) ∷ m) h = elim (Bool-cases (starts_with j prefix)) [
    | inl e ↦ elim (taken e) [
      | inl same ↦ (
        subst (λ (i : Text). IsKey i ((j, v) ∷ m)) (sym same) (IsKey-head j v m),
        subst (λ (i : Text). starts_with i prefix ≡ true) (sym same) e,
      )
      | inr later ↦ let (key, s) = matches-IsKey prefix k m later in (IsKey-cons k j v m key, s)
    ]
    | inr e ↦
        let later : In k (matches prefix m) =
          subst (λ (b : Bool). In k (if b then j ∷ matches prefix m else matches prefix m)) e h in
        let (key, s) = matches-IsKey prefix k m later in (IsKey-cons k j v m key, s)
  ]
    where
      taken : starts_with j prefix ≡ true → (k ≡ j) ⊎ In k (matches prefix m)
      taken e =
          subst (λ (b : Bool). In k (if b then j ∷ matches prefix m else matches prefix m)) e h

  -- Every key that starts with the text is among the matches.
  In-matches :
      (prefix k : Text) (m : List (Text × V))
      → IsKey k m
      → starts_with k prefix ≡ true
      → In k (matches prefix m)
  unfolding matches get
  In-matches prefix k [] (w, h) s = absurd (cc h)
  In-matches prefix k ((j, v) ∷ m) (w, h) s = elim (text_discrete j k) [
    | yes p ↦
        let e : starts_with j prefix ≡ true =
          subst (λ (i : Text). starts_with i prefix ≡ true) (sym p) s in
        rw e (inl (sym p))
    | no p ↦
        let later = In-matches prefix k m (w, sym (if_neg (text_discrete j k) p _ _) ∙ h) s in
        elim (Bool-cases (starts_with j prefix)) [ inl e ↦ rw e (inr later) | inr e ↦ rw e later ]
  ]

  -- What a resolved or refused fingerprint says of the paired devices.
  abbrev pub Resolves : Text → List (Text × V) → Result Text → Type 0
  Resolves text paired (ok fingerprint) =
      IsKey fingerprint paired
      × (starts_with fingerprint text ≡ true)
      × ((fingerprint ≡ text)
          ⊎ ((k : Text) → IsKey k paired → starts_with k text ≡ true → k ≡ fingerprint))
  Resolves text paired (err no_paired_device) =
      (k : Text) → IsKey k paired → starts_with k text ≡ false
  Resolves text paired (err (ambiguous_fingerprint n)) =
      (get text_discrete text paired ≡ none) × (n ≡ length (matches text paired)) × (2 ≤ n)
  Resolves text paired (err e) = ⊥

  resolve_matches-Resolves :
      (text : Text) (paired : List (Text × V)) (found : List Text)
      → get text_discrete text paired ≡ none
      → matches text paired ≡ found
      → Resolves text paired (resolve_matches found)
  unfolding resolve_matches
  resolve_matches-Resolves text paired [] h e = λ k key. elim (Bool-cases (starts_with k text)) [
    | inl s ↦ absurd (subst (λ (found : List Text). In k found) e (In-matches text k paired key s))
    | inr s ↦ s
  ]
  resolve_matches-Resolves text paired (one ∷ []) h e =
      let (key, s) =
        matches-IsKey text one paired
          (subst (λ (found : List Text). In one found) (sym e) (inl refl)) in
      (key, s, inr only)
    where
      only : (k : Text) → IsKey k paired → starts_with k text ≡ true → k ≡ one
      only k key s =
          elim (subst (λ (found : List Text). In k found) e (In-matches text k paired key s)) [
            | inl same ↦ same
            | inr none_left ↦ absurd none_left
          ]
  resolve_matches-Resolves text paired (one ∷ two ∷ more) h e = (h, ap length (sym e), omega arith)

  -- Resolving a text gives a paired fingerprint that starts with it, which is the text itself or the only
  -- one; it finds none exactly when no paired fingerprint starts with the text, and where it
  -- calls the text ambiguous, it is no fingerprint itself, and at least two paired ones start with it.
  pub resolve_fingerprint-Resolves :
      (text : Text) (paired : List (Text × V))
      → Resolves text paired (resolve_fingerprint text paired)
  unfolding resolve_fingerprint
  resolve_fingerprint-Resolves text paired = elim (Option-cases (get text_discrete text paired)) [
    | inl h ↦
        let e : resolve_fingerprint text paired ≡ resolve_matches (matches text paired) =
          rw (h, resolve_fingerprint) refl in
        subst (Resolves text paired) (sym e)
          (resolve_matches-Resolves text paired (matches text paired) h refl)
    | inr (entry, h) ↦
        let e : resolve_fingerprint text paired ≡ ok text = rw (h, resolve_fingerprint) refl in
        subst (Resolves text paired) (sym e) ((entry, h), starts_with_self text, inl refl)
  ]
