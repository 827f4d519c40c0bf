-- ===== src/Broker/Accounts.antt =====
-- Where the sessions are that the broker has spawned.
use mathlib.Core.List.{Memᴰ}
use mathlib.Core.List.Memᴰ.{head, tail}
use redfog.Base.{
  ◌≡◌, refl, sym, ap, subst, ◌∙◌, Bool, true, false, Option, Option-cases, none, some, List, ◌∷◌,
  get, remove, insert, get-insert_ne, get-insert_eq, get-remove_ne, get-remove_self, ◌⊎◌, inl, inr,
}
use redfog.Base.Text.{Text, text_discrete}
use redfog.Broker.Active.{
  ActiveSession, pam, direct_child, scoped, Deed, Active, Told, end_session, Peek, alive,
  dead_child, needs_loginctl_check, unknown, peek, seen, checked, spawned,
}
use redfog.Broker.Ending.{Ends, end_session-Ends, terminate-some, terminate-none}
use redfog.Broker.Requests.{
  Run, with_run, terminated, System, exits, Step, spawns, terminates, peeks, checks, Reach, start,
  next,
}

-- A run of `terminate` for the id that killed all of the session.
abbrev pub Ended : System → Text → ActiveSession → Type 0
Ended s id session =
    (told : Told) × (deeds : List Deed) × Memᴰ (id, told, deeds) s.ended × Ends session told deeds

-- Where a session is that was spawned: it runs under its id, it was found dead, or it was ended.
abbrev pub Accounted : System → Text → ActiveSession → Type 0
Accounted s id session =
    (get text_discrete id s.active ≡ some session) ⊎ (Memᴰ id s.exited ⊎ Ended s id session)

pub record Sound (s : System) : Type 0 where
  pub known :
      (id : Text) (x : ActiveSession)
      → get text_discrete id s.active ≡ some x
      → get text_discrete id s.started ≡ some x
  pub kept :
      (id : Text) (x : ActiveSession) → get text_discrete id s.started ≡ some x → Accounted s id x

-- An entry that a removal leaves was there before.
removed :
    (k id : Text) (m : Active) (x : ActiveSession)
    → get text_discrete id (remove text_discrete k m) ≡ some x
    → get text_discrete id m ≡ some x
removed k id m x h = elim (text_discrete k id) [
  | yes p ↦ absurd (
      cc (
        sym (get-remove_self text_discrete k m)
        ∙ ap (λ (j : Text). get text_discrete j (remove text_discrete k m)) p
        ∙ h))
  | no p ↦ sym (get-remove_ne text_discrete k id m p) ∙ h
]

-- After the removal of an id, an account of each session, given that of the removed one.
remains :
    (s : System) (k : Text) (exited : List Text) (ended : List Run)
    → Sound s
    → ((id : Text) → Memᴰ id s.exited → Memᴰ id exited)
    → ((run : Run) → Memᴰ run s.ended → Memᴰ run ended)
    → ((x : ActiveSession)
        → get text_discrete k s.active ≡ some x
        → Memᴰ k exited ⊎ Ended (record s { ended = ended }) k x)
    → Sound (record s { active = remove text_discrete k s.active; exited = exited; ended = ended })
remains s k exited ended v wider more gone = record {
  known = λ id x h. v.known id x (removed k id s.active x h);
  kept = λ id x h. elim (v.kept id x h) [
    | inl runs ↦ elim (text_discrete k id) [
      | yes p ↦ inr (
          subst (λ (j : Text). Memᴰ j exited ⊎ Ended (record s { ended = ended }) j x) p
            (gone x (ap (λ (j : Text). get text_discrete j s.active) p ∙ runs)))
      | no p ↦ inl (get-remove_ne text_discrete k id s.active p ∙ runs)
    ]
    | inr (inl m) ↦ inr (inl (wider id m))
    | inr (inr (told, deeds, m, e)) ↦ inr (inr (told, deeds, more (id, told, deeds) m, e))
  ];
}

spawns-Sound :
    (s : System) (k : Text) (y : ActiveSession)
    → get text_discrete k s.started ≡ none
    → Sound s
    → Sound
        (record s { active = spawned s.active k y; started = insert text_discrete k y s.started })
unfolding spawned
spawns-Sound s k y fresh v = record {
  known = λ id x h. elim (text_discrete k id) [
    | yes p ↦
        get-insert_eq text_discrete k id y s.started p
        ∙ (sym (get-insert_eq text_discrete k id y s.active p) ∙ h)
    | no p ↦
        get-insert_ne text_discrete k id y s.started p
        ∙ v.known id x (sym (get-insert_ne text_discrete k id y s.active p) ∙ h)
  ];
  kept = λ id x h. elim (text_discrete k id) [
    | yes p ↦ inl (
        get-insert_eq text_discrete k id y s.active p
        ∙ (sym (get-insert_eq text_discrete k id y s.started p) ∙ h))
    | no p ↦ elim (v.kept id x (sym (get-insert_ne text_discrete k id y s.started p) ∙ h)) [
      | inl runs ↦ inl (get-insert_ne text_discrete k id y s.active p ∙ runs)
      | inr gone ↦ inr gone
    ]
  ];
}

terminates-Sound : (s : System) (id : Text) (told : Told) → Sound s → Sound (terminated s id told)
terminates-Sound s id told v = elim (Option-cases (get text_discrete id s.active)) [
  | inl e ↦
      subst
        (λ (r : Active × Option (List Deed)).
          Sound (record s { active = r.0; ended = with_run id told r.1 s.ended }))
        (sym (terminate-none s.active id told e)) v
  | inr (y, e) ↦
      subst
        (λ (r : Active × Option (List Deed)).
          Sound (record s { active = r.0; ended = with_run id told r.1 s.ended }))
        (sym (terminate-some s.active id told y e))
        (remains s id s.exited ((id, told, end_session id told y) ∷ s.ended) v (λ j m. m)
          (λ run m. tail m)
          (λ x h. inr (
            told,
            end_session id told y,
            head refl,
            subst (λ (z : ActiveSession). Ends z told (end_session id told y)) (cc (sym e ∙ h))
                (end_session-Ends id told y),
          )))
]

-- A look leaves the map, or finds a child dead.
pub peek-cases :
    (active : Active) (id : Text) (runs : Bool)
    → ((r : Peek) × (peek active id runs ≡ (active, r))
        × ((ids : List Text) → exits r id ids ≡ ids))
      ⊎ (peek active id runs ≡ (remove text_discrete id active, dead_child))
unfolding peek
peek-cases active id runs = elim (Option-cases (get text_discrete id active)) [
  | inl e ↦ rw (e, peek) (inl (unknown, refl, λ ids. refl))
  | inr (y, e) ↦ rw (e, peek) (look y runs)
]
  where
    look :
        (y : ActiveSession) (runs : Bool)
        → ((r : Peek) × (seen active id runs y ≡ (active, r))
            × ((ids : List Text) → exits r id ids ≡ ids))
          ⊎ (seen active id runs y ≡ (remove text_discrete id active, dead_child))
    look (pam logind) runs = inl (needs_loginctl_check logind, refl, λ ids. refl)
    look (direct_child child) true = inl (alive, refl, λ ids. refl)
    look (direct_child child) false = inr refl
    look (scoped child unit_name) true = inl (alive, refl, λ ids. refl)
    look (scoped child unit_name) false = inr refl

-- The system after a look with this result is sound.
abbrev Looked : System → Text → Active × Peek → Type 0
Looked s id (active, r) = Sound (record s { active = active; exited = exits r id s.exited })

Step-Sound : {s t : System} → Sound s → Step s t → Sound t
unfolding checked
Step-Sound v (spawns id session fresh) = spawns-Sound _ id session fresh v
Step-Sound v (terminates id told) = terminates-Sound _ id told v
Step-Sound {s} v (peeks id runs) = elim (peek-cases s.active id runs) [
  | inl (r, e, same) ↦
      subst (Looked s id) (sym e)
        (subst (λ (ids : List Text). Sound (record s { exited = ids })) (sym (same s.exited)) v)
  | inr e ↦
      subst (Looked s id) (sym e) (
        remains s id (id ∷ s.exited) s.ended v (λ j m. tail m) (λ run m. m)
          (λ x h. inl (head refl)))
]
Step-Sound {s} v (checks id logind true known) = v
Step-Sound {s} v (checks id logind false known) =
    remains s id (id ∷ s.exited) s.ended v (λ j m. tail m) (λ run m. m) (λ x h. inl (head refl))

pub Reach-Sound : {s : System} → Reach s → Sound s
unfolding get
Reach-Sound start = record { known = λ id x h. h; kept = λ id x h. inl h }
Reach-Sound (next r step) = Step-Sound (Reach-Sound r) step

-- However the requests of all connections come, with ids that are spawned once: of every session that was
-- ever spawned, it runs under its id in the map, or it was found dead, or a run of `terminate` for its id
-- killed it: its child, its logind session with all processes, or, of a payload in a scope, all of the
-- logind session that the cgroup of its process names, and of the scope where it names none. None is lost.
pub spawned-Accounted :
    {s : System}
    → Reach s
    → (id : Text) (session : ActiveSession) → get text_discrete id s.started ≡ some session
    → Accounted s id session
spawned-Accounted r = (Reach-Sound r).kept
