-- ===== src/Touch/Sink.antt =====
-- The receiving side of the touch calls.
use redfog.Base.{
  ℕ, ◌≡◌, refl, ap, sym, ◌∙◌, inl, inr, Bool, true, false, Option, none, some, List, [], ◌∷◌, ◌++◌,
  ◌==◌, ◌&&◌, not, if◌then◌else◌, ◌>>=◌, Bool-cases, >>=-eq-some, arith,
}
use redfog.Touch.{
  contains, remove, insert, Call, down, motion, up, frame, touch_down, touch_motion, touch_up,
  lift_all, release_all_touches, TouchEvent, on_touch, on_touches, touch_downs, touch_motions,
  touch_ups, touch_cancels, touch_cancel_all,
}

module _ {Coord : Type 0} where
  -- A compositor that holds the contacts `held`. It has no use for a down of a held contact, nor for
  -- the motion of one that is not held: those calls are `none`. A lift is taken in any case.
  unfoldable pub accept : List ℕ → Call Coord → Option (List ℕ)
  unfolding contains remove
  accept held (down id x y) = if contains id held then none else some (id ∷ held)
  accept held (motion id x y) = if contains id held then some held else none
  accept held (up id) = some (remove id held)
  accept held frame = some held

  unfoldable pub accept_all : List ℕ → List (Call Coord) → Option (List ℕ)
  unfolding accept
  accept_all held [] = some held
  accept_all held (c ∷ cs) = accept held c >>= λ held'. accept_all held' cs

  accept_all-append :
      (held held' : List ℕ) (cs ds : List (Call Coord))
      → accept_all held cs ≡ some held'
      → accept_all held (cs ++ ds) ≡ accept_all held' ds
  unfolding accept_all
  accept_all-append held held' [] ds h = let e : held ≡ held' = cc in rw e
  accept_all-append held held' (c ∷ cs) ds h =
      let (next, e, rest) = >>=-eq-some (accept held c) (λ x. accept_all x cs) h in
      rw e (accept_all-append next held' cs ds rest)

pub contains-remove :
    (i j : ℕ) (xs : List ℕ) → contains j (remove i xs) ≡ (if i == j then false else contains j xs)
unfolding contains remove
contains-remove i j [] = ground arith
contains-remove i j (x ∷ xs) = ground (arith, contains-remove i j xs)

pub contains-insert :
    (i j : ℕ) (xs : List ℕ) → contains j (insert i xs) ≡ (if i == j then true else contains j xs)
unfolding insert
contains-insert i j xs = ground arith

unfoldable lift_from : List ℕ → List ℕ → List ℕ
lift_from held [] = held
lift_from held (id ∷ ids) = lift_from (remove id held) ids

lift_from_all :
    (ids held : List ℕ) (i : ℕ)
    → (contains i held && not (contains i ids)) ≡ false
    → contains i (lift_from held ids) ≡ false
unfolding lift_from contains
lift_from_all [] held i h = ground arith
lift_from_all (x ∷ xs) held i h =
    lift_from_all xs (remove x held) i (ground (arith, contains-remove x i held))

and_not_self : (b c : Bool) → b ≡ c → (b && not c) ≡ false
and_not_self b c h = ground arith

-- The contacts that the compositor holds are those marked active.
abbrev pub Agree : List ℕ → List ℕ → Type 0
Agree held active = (i : ℕ) → contains i held ≡ contains i active

module _ (Coord : Type 0) where
  -- What the calls lead to.
  abbrev pub Keeps : List ℕ → List ℕ × List (Call Coord) → Type 0
  Keeps held (active, calls) =
      (held' : List ℕ) × (accept_all held calls ≡ some held') × Agree held' active

  touch_down-Keeps :
      (held active : List ℕ) (id : ℕ) (x y : Coord)
      → Agree held active
      → Keeps held (touch_down active id x y)
  unfolding touch_down accept_all
  touch_down-Keeps held active id x y a = elim (Bool-cases (contains id active)) [
    | inl e ↦
        let gone : contains id (remove id held) ≡ false =
          ground (arith, contains-remove id id held) in
        (
          id ∷ remove id held,
          rw (e, gone) refl,
          λ i. ground (arith, a i, e, contains-remove id i held, contains-insert id i active),
        )
    | inr e ↦
        let free : contains id held ≡ false = a id ∙ e in
        (id ∷ held, rw (e, free) refl, λ i. ground (arith, a i, contains-insert id i active))
  ]

  touch_motion-Keeps :
      (held active : List ℕ) (id : ℕ) (x y : Coord)
      → Agree held active
      → Keeps held (touch_motion active id x y)
  unfolding touch_motion accept_all
  touch_motion-Keeps held active id x y a = elim (Bool-cases (contains id active)) [
    | inl e ↦
        let down_already : contains id held ≡ true = a id ∙ e in
        (held, rw (e, down_already) refl, λ i. ground (arith, a i, e, contains-insert id i active))
    | inr e ↦
        let free : contains id held ≡ false = a id ∙ e in
        (id ∷ held, rw (e, free) refl, λ i. ground (arith, a i, contains-insert id i active))
  ]

  touch_up-Keeps :
      (held active : List ℕ) (id : ℕ)
      → Agree held active
      → Keeps held (touch_up {Coord = Coord} active id)
  unfolding touch_up accept_all
  touch_up-Keeps held active id a = (
    remove id held,
    refl,
    λ i.
        contains-remove id i held
        ∙ ap (λ (b : Bool). if id == i then false else b) (a i)
        ∙ sym (contains-remove id i active),
  )

  accept-lift_all :
      (ids held : List ℕ)
      → accept_all held (lift_all {Coord = Coord} ids) ≡ some (lift_from held ids)
  unfolding accept_all lift_all lift_from
  accept-lift_all [] held = refl
  accept-lift_all (id ∷ ids) held = accept-lift_all ids (remove id held)

  release_all-Keeps :
      (held active : List ℕ)
      → Agree held active
      → Keeps held (release_all_touches {Coord = Coord} active)
  unfolding release_all_touches contains
  release_all-Keeps held active a = (
    lift_from held active,
    accept-lift_all active held,
    λ i. lift_from_all active held i (and_not_self _ _ (a i)),
  )

  -- One touch event keeps the compositor's contacts and `active_touch_ids` in agreement, and none of
  -- the calls that it makes is one that the compositor ignores.
  pub on_touch-Keeps :
      (held active : List ℕ) (e : TouchEvent Coord)
      → Agree held active
      → Keeps held (on_touch active e)
  unfolding on_touch
  on_touch-Keeps held active (touch_downs id x y) a = touch_down-Keeps held active id x y a
  on_touch-Keeps held active (touch_motions id x y) a = touch_motion-Keeps held active id x y a
  on_touch-Keeps held active (touch_ups id) a = touch_up-Keeps held active id a
  on_touch-Keeps held active (touch_cancels id) a = touch_up-Keeps held active id a
  on_touch-Keeps held active touch_cancel_all a = release_all-Keeps held active a

  -- After any sequence of touch events, lost and repeated downs and ups among them, the compositor
  -- holds exactly the contacts in `active_touch_ids`, and has ignored no down and no motion.
  pub on_touches-Keeps :
      (held active : List ℕ) (es : List (TouchEvent Coord))
      → Agree held active
      → Keeps held (on_touches active es)
  unfolding on_touches
  on_touches-Keeps held active [] a = (held, unfold accept_all in refl, a)
  on_touches-Keeps held active (e ∷ es) a =
      let (mid, first, b) = on_touch-Keeps held active e a in
      let (final, rest, c) = on_touches-Keeps mid (on_touch active e).0 es b in
      (final, accept_all-append held mid _ _ first ∙ rest, c)

  -- Backgrounding or ending a session after any touches lifts every contact that the compositor
  -- holds.
  pub release-after-touches :
      (es : List (TouchEvent Coord))
      → let (active, calls) = on_touches [] es in
        (held : List ℕ) × (accept_all [] (calls ++ (release_all_touches active).1) ≡ some held)
        × ((i : ℕ) → contains i held ≡ false)
  unfolding release_all_touches contains
  release-after-touches es =
      let (mid, first, b) = on_touches-Keeps [] [] es (λ i. refl) in
      let (final, rest, c) = release_all-Keeps mid (on_touches [] es).0 b in
      (final, accept_all-append [] mid _ _ first ∙ rest, c)
