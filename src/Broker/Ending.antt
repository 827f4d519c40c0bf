-- ===== src/Broker/Ending.antt =====
-- What the broker does to end its sessions, one or all of them.
use mathlib.Core.List.{Memᴰ}
use mathlib.Core.List.Memᴰ.{head, append_right}
use redfog.Base.{
  ℕ, All, ◌≢◌, ◌≡◌, refl, ap, ◌∙◌, Option, Option-cases, none, some, List, [], ◌∷◌, ◌++◌, get,
  remove, ◌⊎◌, inl, inr,
}
use redfog.Base.Text.{Text, codes, text_discrete}
use redfog.Broker.Cgroup.{after_marker, parse_logind_session_id}
use redfog.Broker.CgroupLine.{session_line, IsSegment, IsTail, parse_logind_session_id-line}
use redfog.Broker.Active.{
  ActiveSession, pam, direct_child, scoped, Deed, wait_child, kill_child, Active, Told,
  kill_session, kill_scope, unit_of, drop_units, close_session, end_scoped, end_session, terminate,
}

-- The logind session that the cgroup of a process names, if it could be read.
abbrev pub cgroup_session : Option Text → Option Text
cgroup_session none = none
cgroup_session (some cgroup) = parse_logind_session_id cgroup

-- The deeds kill all of a scope whose process has this cgroup, and wait for its child.
abbrev EndsScope : ℕ → Text → Option Text → List Deed → Type 0
EndsScope child unit_name cgroup deeds =
    Memᴰ (wait_child child) deeds
    × (((id : Text) × (cgroup_session cgroup ≡ some id) × Memᴰ (kill_session id) deeds)
        ⊎ ((cgroup_session cgroup ≡ none) × Memᴰ (kill_scope unit_name) deeds))

-- The deeds kill all that a session consists of: with logind all processes of the session, with a scope
-- all of the logind session that the cgroup of its process names or, if it names none, of the scope.
abbrev pub Ends : ActiveSession → Told → List Deed → Type 0
Ends (pam id) told deeds = Memᴰ (kill_session id) deeds
Ends (direct_child child) told deeds = Memᴰ (kill_child child) deeds
Ends (scoped child unit_name) told deeds = EndsScope child unit_name told.cgroup deeds

end_scoped-some :
    (cgroup unit_name id : Text)
    → parse_logind_session_id cgroup ≡ some id
    → end_scoped (some cgroup) unit_name ≡ kill_session id
unfolding end_scoped
end_scoped-some cgroup unit_name id e = rw (e, end_scoped) refl

end_scoped-EndsScope :
    (child : ℕ) (cgroup : Option Text) (unit_name : Text)
    → EndsScope child unit_name cgroup (end_scoped cgroup unit_name ∷ wait_child child ∷ [])
unfolding end_scoped
end_scoped-EndsScope child none unit_name =
    (append_right (kill_scope unit_name ∷ []) (head refl), inr (refl, head refl))
end_scoped-EndsScope child (some cgroup) unit_name =
    elim (Option-cases (parse_logind_session_id cgroup)) [
      | inl e ↦
          rw (e, end_scoped)
            (append_right (kill_scope unit_name ∷ []) (head refl), inr (refl, head refl))
      | inr (id, e) ↦
          rw (e, end_scoped)
            (append_right (kill_session id ∷ []) (head refl), inl (id, refl, head refl))
    ]

pub end_session-Ends :
    (session_id : Text) (told : Told) (session : ActiveSession)
    → Ends session told (end_session session_id told session)
unfolding end_session
end_session-Ends session_id told (pam id) =
    append_right (close_session (unit_of session_id) id told)
      (head {xs = drop_units (unit_of session_id)} refl)
end_session-Ends session_id told (direct_child child) = head refl
end_session-Ends session_id told (scoped child unit_name) =
    end_scoped-EndsScope child told.cgroup unit_name

pub terminate-some :
    (active : Active) (id : Text) (told : Told) (session : ActiveSession)
    → get text_discrete id active ≡ some session
    → terminate active id told
      ≡ (remove text_discrete id active, some (end_session id told session))
unfolding terminate
terminate-some active id told session h = rw (h, terminate) refl

pub terminate-none :
    (active : Active) (id : Text) (told : Told)
    → get text_discrete id active ≡ none
    → terminate active id told ≡ (active, none)
unfolding terminate
terminate-none active id told h = rw (h, terminate) refl

-- A payload's process that logind has moved into a session of its own, as the first line of its cgroup file
-- says, is killed with all processes of just that session, and waited for; its own scope, in which nothing
-- is left, is not asked. The ids of logind are one segment of the path.
pub moved_session_killed :
    (active : Active) (session_id unit_name : Text) (child : ℕ) (told : Told) (pre : Text) (c : ℕ)
    (cs tail more : Text)
    → get text_discrete session_id active ≡ some (scoped child unit_name)
    → told.cgroup ≡ some (session_line pre (c ∷ cs) tail ++ (10 ∷ more))
    → after_marker (pre ++ codes "/session") ≡ none
    → IsSegment (c ∷ cs)
    → IsTail tail
    → All (λ d. (d ≢ 10) × (d ≢ 13)) (session_line pre (c ∷ cs) tail)
    → terminate active session_id told ≡ (
      remove text_discrete session_id active,
      some (kill_session (c ∷ cs) ∷ wait_child child ∷ []),
    )
unfolding end_session
moved_session_killed active session_id unit_name child told pre c cs tail more runs at h seg t
      clean =
    let id = parse_logind_session_id-line pre c cs tail more h seg t clean in
    terminate-some active session_id told (scoped child unit_name) runs
    ∙ ap
        (λ (deed : Deed).
          (remove text_discrete session_id active, some (deed ∷ wait_child child ∷ [])))
        (ap (λ (cgroup : Option Text). end_scoped cgroup unit_name) at
          ∙ end_scoped-some (session_line pre (c ∷ cs) tail ++ (10 ∷ more)) unit_name (c ∷ cs) id)
