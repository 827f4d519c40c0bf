-- ===== src/Pairing/Names.antt =====
-- What the parser of names accepts.
use redfog.Base.{
  ℕ, ◌≤◌, ◌≡◌, refl, sym, ap, ◌∙◌, subst, ltb, if◌then◌else◌, Bool-cases, inl, inr, Bool, true,
  false, List, [], ◌∷◌, arith,
}
use redfog.Pairing.Params.{
  ParamError, control_in_name, long_name, Parsed, ok, err, trim_start, trim_end, contains_break,
  utf8_length, check_name, parse_name, is_whitespace,
}

-- Nothing, or a first character that is no space.
abbrev Begins : List ℕ → Type 0
Begins [] = Unit
Begins (c ∷ cs) = is_whitespace c ≡ false

trim_start-Begins : (xs : List ℕ) → Begins (trim_start xs)
unfolding trim_start
trim_start-Begins [] = tt
trim_start-Begins (c ∷ cs) = elim (Bool-cases (is_whitespace c)) [
  | inl e ↦ rw e (trim_start-Begins cs)
  | inr e ↦ rw e e
]

trim_start_self : (xs : List ℕ) → Begins xs → trim_start xs ≡ xs
unfolding trim_start
trim_start_self [] h = refl
trim_start_self (c ∷ cs) h = rw h refl

-- What stays of a list that begins with no space begins so too.
trim_end_cons :
    (c : ℕ) (cs : List ℕ)
    → is_whitespace c ≡ false
    → (rest : List ℕ) × (trim_end (c ∷ cs) ≡ c ∷ rest)
unfolding trim_end
trim_end_cons c cs h = from (trim_end cs) refl
  where
    from : (tail : List ℕ) → trim_end cs ≡ tail → (rest : List ℕ) × (trim_end (c ∷ cs) ≡ c ∷ rest)
    from [] e = ([], rw (e, h) refl)
    from (d ∷ ds) e = (d ∷ ds, rw e refl)

trim_end-Begins : (xs : List ℕ) → Begins xs → Begins (trim_end xs)
trim_end-Begins [] h = unfold trim_end in tt
trim_end-Begins (c ∷ cs) h = let (rest, e) = trim_end_cons c cs h in subst Begins (sym e) h

trim_end_twice : (xs : List ℕ) → trim_end (trim_end xs) ≡ trim_end xs
unfolding trim_end
trim_end_twice [] = refl
trim_end_twice (c ∷ cs) = from (trim_end cs) refl (trim_end_twice cs)
  where
    from :
        (tail : List ℕ)
        → trim_end cs ≡ tail
        → trim_end (trim_end cs) ≡ trim_end cs
        → trim_end (trim_end (c ∷ cs)) ≡ trim_end (c ∷ cs)
    from [] e twice = elim (Bool-cases (is_whitespace c)) [
      | inl w ↦ rw (e, w) refl
      | inr w ↦ rw (e, w) (rw w refl)
    ]
    from (d ∷ ds) e twice =
        let again : trim_end (d ∷ ds) ≡ d ∷ ds = ap trim_end (sym e) ∙ twice ∙ e in
        rw (e, again) refl

guard-eq-ok :
    {A : Type 0} (c : Bool) (e : ParamError) (r : Parsed A) {b : A}
    → (if c then err e else r) ≡ ok b
    → (c ≡ false) × (r ≡ ok b)
guard-eq-ok true e r h = absurd (cc h)
guard-eq-ok false e r h = (refl, h)

-- A name that the check accepts is given back as it is.
check_name-ok :
    (text name : List ℕ)
    → check_name text ≡ ok name
    → (text ≡ name) × (contains_break text ≡ false) × (utf8_length text ≤ 100)
unfolding check_name
check_name-ok [] name h = absurd (cc h)
check_name-ok (c ∷ cs) name h =
    let (no_break, checked) = guard-eq-ok (contains_break (c ∷ cs)) control_in_name _ h in
    let (short, same) = guard-eq-ok (ltb 100 (utf8_length (c ∷ cs))) long_name _ checked in
    (cc same, no_break, ground (arith, short))

-- A name that is accepted has no tab and no line break, has 100 bytes at most, and is accepted again just
-- as it is: it is trimmed and not empty.
pub parse_name-ok :
    (text name : List ℕ)
    → parse_name text ≡ ok name
    → (contains_break name ≡ false) × (utf8_length name ≤ 100) × (parse_name name ≡ ok name)
unfolding parse_name
parse_name-ok text name h =
    let trimmed = trim_end (trim_start text) in
    let (same, no_break, short) = check_name-ok trimmed name h in
    let once : trim_start trimmed ≡ trimmed =
      trim_start_self trimmed (trim_end-Begins (trim_start text) (trim_start-Begins text)) in
    let again : parse_name trimmed ≡ ok name =
      ap (λ (t : List ℕ). check_name (trim_end t)) once
      ∙ ap check_name (trim_end_twice (trim_start text))
      ∙ h in
    subst
      (λ (n : List ℕ).
        (contains_break n ≡ false) × (utf8_length n ≤ 100) × (parse_name n ≡ ok name))
      same (no_break, short, again)
