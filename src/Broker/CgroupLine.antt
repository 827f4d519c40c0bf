-- ===== src/Broker/CgroupLine.antt =====
-- What the broker reads in the cgroup file of a process in a logind session.
use redfog.Base.{
  ℕ, ℕ_discrete, false, ◌≤◌, ◌≡◌, ◌≢◌, refl, sym, ap, ◌∙◌, arith, true, Bool-cases, Option,
  Option-cases, none, some, [], ◌∷◌, ◌++◌, append_assoc, All, All-append, length, length-append,
  inl, inr, ◌==◌,
}
use redfog.Base.Text.{Text, codes, same_bytes, same_bytes-true, text_discrete}
use redfog.Rtsp.Lines.{strip_cr, strip_prefix, lines-feed}
use redfog.Broker.Cgroup.{
  marker, or_later, non_empty, behind, after_marker, first_segment, strip_scope, line_session_id,
  first_session_id, parse_logind_session_id,
}

-- More text behind does not bring a prefix that is not there.
strip_prefix-none :
    (p t more : Text)
    → length p ≤ length t
    → strip_prefix p t ≡ none
    → strip_prefix p (t ++ more) ≡ none
unfolding strip_prefix
strip_prefix-none [] t more long h = absurd (cc h)
strip_prefix-none (x ∷ p) [] more long h = absurd (omega (arith, long))
strip_prefix-none (x ∷ p) (c ∷ t) more long h = elim (Bool-cases (x == c)) [
  | inl e ↦ rw e (strip_prefix-none p t more (omega (arith, long)) (rest_none e))
  | inr e ↦ rw e refl
]
  where
    rest_none : x == c ≡ true → strip_prefix p t ≡ none
    rest_none e = sym (rw e refl) ∙ h

marker_first : (rest : Text) → after_marker (marker ++ rest) ≡ some rest
unfolding after_marker strip_prefix
marker_first rest = refl

marker-none :
    (pre rest : Text) (c : ℕ)
    → strip_prefix marker ((c ∷ pre) ++ codes "/session") ≡ none
    → strip_prefix marker ((c ∷ pre) ++ (marker ++ rest)) ≡ none
marker-none pre rest c h =
    ap (strip_prefix marker) (sym (append_assoc (c ∷ pre) (codes "/session") (b'-' ∷ rest)))
    ∙ strip_prefix-none marker ((c ∷ pre) ++ codes "/session") (b'-' ∷ rest)
        (omega (arith, length-append pre (codes "/session"))) h

pub after_marker-append :
    (pre rest : Text)
    → after_marker (pre ++ codes "/session") ≡ none
    → after_marker (pre ++ (marker ++ rest)) ≡ some rest
unfolding after_marker
after_marker-append [] rest h = marker_first rest
after_marker-append (c ∷ cs) rest h =
    elim (Option-cases (strip_prefix marker ((c ∷ cs) ++ codes "/session"))) [
      | inl e ↦
          ap (λ (o : Option Text). or_later o (after_marker (cs ++ (marker ++ rest))))
            (marker-none cs rest c e)
          ∙ after_marker-append cs rest (
              sym (ap (λ (o : Option Text). or_later o (after_marker (cs ++ codes "/session"))) e)
              ∙ h)
      | inr (found, e) ↦ absurd (
          cc (
            sym (ap (λ (o : Option Text). or_later o (after_marker (cs ++ codes "/session"))) e)
            ∙ h))
    ]

-- The text is empty or goes on with a slash.
abbrev pub IsTail : Text → Type 0
IsTail [] = Unit
IsTail (c ∷ cs) = c ≡ b'/'

first_segment-append :
    (segment tail : Text)
    → All (λ c. c ≢ b'/') segment
    → IsTail tail
    → first_segment (segment ++ tail) ≡ segment
unfolding first_segment
first_segment-append [] [] h t = refl
first_segment-append [] (c ∷ cs) h t = rw t refl
first_segment-append (c ∷ cs) tail h t = elim (Bool-cases (c == b'/')) [
  | inl e ↦ absurd (h.0 (ground (arith, e)))
  | inr e ↦ rw (e, first_segment-append cs tail h.1 t) refl
]

strip_scope_alone : strip_scope (codes ".scope") ≡ []
unfolding strip_scope text_discrete ℕ_discrete
strip_scope_alone = refl

longer : (c : ℕ) (cs : Text) → same_bytes (c ∷ cs ++ codes ".scope") (codes ".scope") ≡ false
longer c cs = elim (Bool-cases (same_bytes (c ∷ cs ++ codes ".scope") (codes ".scope"))) [
  | inl e ↦ absurd (
      omega (
        arith,
        ap length (same_bytes-true (c ∷ cs ++ codes ".scope") (codes ".scope") e),
        length-append cs (codes ".scope"),
      ))
  | inr e ↦ e
]

strip_scope-append : (id : Text) → strip_scope (id ++ codes ".scope") ≡ id
unfolding strip_scope
strip_scope-append [] = strip_scope_alone
strip_scope-append (c ∷ cs) = rw (longer c cs, strip_scope-append cs) refl

strip_cr-none : (line : Text) → All (λ c. (c ≢ 10) × (c ≢ 13)) line → strip_cr line ≡ line
unfolding strip_cr
strip_cr-none [] h = refl
strip_cr-none (c ∷ []) h = elim (Bool-cases (c == 13)) [
  | inl e ↦ absurd (h.0.1 (ground (arith, e)))
  | inr e ↦ rw e refl
]
strip_cr-none (c ∷ d ∷ cs) h = ap (◌∷◌ c) (strip_cr-none (d ∷ cs) h.1)

no_feed : (line : Text) → All (λ c. (c ≢ 10) × (c ≢ 13)) line → All (λ c. c ≢ 10) line
no_feed [] h = tt
no_feed (c ∷ cs) h = (h.0.0, no_feed cs h.1)

-- The line of a process in a scope of logind: a path, the session's scope, and perhaps a path below it.
abbrev pub session_line : (pre id tail : Text) → Text
session_line pre id tail = pre ++ (marker ++ ((id ++ codes ".scope") ++ tail))

abbrev pub IsSegment : Text → Type 0
IsSegment id = All (λ c. c ≢ b'/') id

scope-IsSegment : (id : Text) → IsSegment id → IsSegment (id ++ codes ".scope")
scope-IsSegment id h = All-append (λ c. c ≢ b'/') id (codes ".scope") h (omega arith)

session_line-id :
    (pre : Text) (c : ℕ) (cs tail : Text)
    → after_marker (pre ++ codes "/session") ≡ none
    → IsSegment (c ∷ cs)
    → IsTail tail
    → line_session_id (session_line pre (c ∷ cs) tail) ≡ some (c ∷ cs)
unfolding line_session_id
session_line-id pre c cs tail h seg t =
    let id = c ∷ cs in
    ap behind (after_marker-append pre ((id ++ codes ".scope") ++ tail) h)
    ∙ ap (λ segment. non_empty (strip_scope segment))
        (first_segment-append (id ++ codes ".scope") tail (scope-IsSegment id seg) t)
    ∙ ap non_empty (strip_scope-append id)

-- A process whose first cgroup line puts it into a logind session is found to be in that session, whatever
-- lines follow.
pub parse_logind_session_id-line :
    (pre : Text) (c : ℕ) (cs tail more : Text)
    → after_marker (pre ++ codes "/session") ≡ none
    → IsSegment (c ∷ cs)
    → IsTail tail
    → All (λ d. (d ≢ 10) × (d ≢ 13)) (session_line pre (c ∷ cs) tail)
    → parse_logind_session_id (session_line pre (c ∷ cs) tail ++ (10 ∷ more)) ≡ some (c ∷ cs)
unfolding parse_logind_session_id first_session_id
parse_logind_session_id-line pre c cs tail more h seg t clean =
    let line = session_line pre (c ∷ cs) tail in
    rw
      (
        lines-feed line more (no_feed line clean),
        strip_cr-none line clean,
        session_line-id pre c cs tail h seg t,
      )
      refl
