-- ===== src/Daemon/Sessions/Confine.antt =====
-- The directory that a session is confined to.
use go_posix.Base.{
  ℕ, ◌≡◌, ◌≢◌, refl, sym, ◌∙◌, subst, subst⁻¹, some, List, [], ◌∷◌, Bytes, beq, beq→eq, ◌⊎◌, inl,
  inr, Bool-cases, arith, Option-cases,
}
use go_posix.Base.FilePath.{slash}
use go_posix.Base.Map.{
  Map, lookup, delete, AllValues, insert-AllValues, delete-AllValues, lookup-AllValues,
}
use go_posix.Security.{Within}
use go_posix.Daemon.Sessions.{
  PathPolicy, Session, SessionManager, new_session, create, get, move_to, base_of, set_cwd, destroy,
  expired, clean_entries, cleanup, Call, create_call, get_call, set_cwd_call, destroy_call, tick,
  step, run,
}

module _ (fs : PathPolicy) where
  -- The working directory is the base directory, or lies in what the base directory resolves to,
  -- unless that is the root.
  abbrev IsConfined : Session → Type 0
  IsConfined s =
      (s.base_dir ≢ [])
      × ((s.cwd ≡ s.base_dir) ⊎ ((fs.real s.base_dir ≡ slash) ⊎ Within (fs.real s.base_dir) s.cwd))

  abbrev pub AllConfined : SessionManager → Type 0
  AllConfined sm = AllValues IsConfined sm.sessions

  new_session-IsConfined : (id : Bytes) (now : ℕ) → IsConfined (new_session id now)
  unfolding new_session
  new_session-IsConfined id now = (ground arith, inl refl)

  base_of_lem : (s : Session) → s.base_dir ≢ [] → base_of s ≡ s.base_dir
  unfolding base_of
  base_of_lem s h = elim (Bool-cases (beq s.base_dir [])) [
    | inl e ↦ absurd (h (beq→eq s.base_dir [] e))
    | inr e ↦ rw e
  ]

  move_to-IsConfined :
      (s : Session) (path p : Bytes) (now : ℕ)
      → IsConfined s
      → fs.secure_path path (base_of s) ≡ some p
      → IsConfined (move_to s p now)
  unfolding move_to base_of
  move_to-IsConfined s path p now (nonempty, c) h = elim (Bool-cases (beq s.base_dir slash)) [
    | inl at_root ↦ elim (Bool-cases (beq p slash)) [
      | inl to_root ↦
          rw (at_root, to_root)
            (nonempty, inl (beq→eq p slash to_root ∙ sym (beq→eq s.base_dir slash at_root)))
      | inr below ↦ rw (at_root, below) (fs.secure_path-ne-nil path (base_of s) p h, inl refl)
    ]
    | inr confined ↦ rw confined (
      nonempty,
      inr (
          subst (λ (b : Bytes). (fs.real b ≡ slash) ⊎ Within (fs.real b) p) (base_of_lem s nonempty)
            (fs.secure_path-Within path (base_of s) p h)),
    )
  ]

  pub create-AllConfined :
      (sm : SessionManager) (id : Bytes) (now : ℕ)
      → AllConfined sm
      → AllConfined (create sm id now).0
  unfolding create
  create-AllConfined sm id now h =
      insert-AllValues IsConfined sm.sessions id (new_session id now) h
        (new_session-IsConfined id now)

  pub get-AllConfined :
      (sm : SessionManager) (id : Bytes) (now : ℕ) → AllConfined sm → AllConfined (get sm id now).0
  unfolding get
  get-AllConfined sm id now h = elim (Option-cases (lookup sm.sessions id)) [
    | inl e ↦ rw (e, get) h
    | inr (s, e) ↦
        rw (e, get)
          (insert-AllValues IsConfined sm.sessions id _ h
            (lookup-AllValues IsConfined sm.sessions id s h e))
  ]

  pub set_cwd-AllConfined :
      (sm : SessionManager) (id path : Bytes) (now : ℕ)
      → AllConfined sm
      → AllConfined (set_cwd fs sm id path now).0
  unfolding set_cwd
  set_cwd-AllConfined sm id path now h = elim (Option-cases (lookup sm.sessions id)) [
    | inl e ↦ rw (e, set_cwd) h
    | inr (s, e) ↦
        rw (e, set_cwd)
          (elim (Option-cases (fs.secure_path path (base_of s))) [
            | inl e' ↦ rw e' h
            | inr (p, e') ↦ elim (Bool-cases (fs.is_dir p)) [
              | inl d ↦
                  rw (e', d)
                    (insert-AllValues IsConfined sm.sessions id (move_to s p now) h (
                      move_to-IsConfined s path p now
                        (lookup-AllValues IsConfined sm.sessions id s h e) e'))
              | inr d ↦ rw (e', d) h
            ]
          ])
  ]

  pub destroy-AllConfined :
      (sm : SessionManager) (id : Bytes) → AllConfined sm → AllConfined (destroy sm id).0
  unfolding destroy
  destroy-AllConfined sm id h = elim (Option-cases (lookup sm.sessions id)) [
    | inl e ↦ rw (e, destroy) h
    | inr (s, e) ↦ rw (e, destroy) (delete-AllValues IsConfined sm.sessions id h)
  ]

  clean_entries-AllConfined :
      (sm : SessionManager) (now : ℕ) (es m : Map Session)
      → AllValues IsConfined m
      → AllValues IsConfined (clean_entries sm now es m)
  unfolding clean_entries
  clean_entries-AllConfined sm now [] m h = h
  clean_entries-AllConfined sm now ((id, s) ∷ es) m h = elim (Bool-cases (expired sm now s)) [
    | inl e ↦
        rw e
          (clean_entries-AllConfined sm now es (delete m id) (delete-AllValues IsConfined m id h))
    | inr e ↦ rw e (clean_entries-AllConfined sm now es m h)
  ]

  step-AllConfined :
      (sm : SessionManager) (c : Call) (now : ℕ) → AllConfined sm → AllConfined (step fs sm c now)
  unfolding step cleanup
  step-AllConfined sm (create_call id) now h = create-AllConfined sm id now h
  step-AllConfined sm (get_call id) now h = get-AllConfined sm id now h
  step-AllConfined sm (set_cwd_call id path) now h = set_cwd-AllConfined sm id path now h
  step-AllConfined sm (destroy_call id) now h = destroy-AllConfined sm id h
  step-AllConfined sm tick now h = elim (Bool-cases sm.done) [
    | inl e ↦ rw e h
    | inr e ↦ rw e (clean_entries-AllConfined sm now sm.sessions sm.sessions h)
  ]

  -- Whatever calls reach the manager, in whatever order, every session stays in its directory.
  run-AllConfined :
      (sm : SessionManager) (calls : List (Call × ℕ))
      → AllConfined sm
      → AllConfined (run fs sm calls)
  unfolding run
  run-AllConfined sm [] h = h
  run-AllConfined sm ((c, now) ∷ calls) h =
      run-AllConfined (step fs sm c now) calls (step-AllConfined sm c now h)

-- The base directories of the sessions resolve to what they resolved to before.
abbrev pub SameBases : PathPolicy → PathPolicy → SessionManager → Type 0
SameBases old new sm = AllValues (λ s. new.real s.base_dir ≡ old.real s.base_dir) sm.sessions

same_base-IsConfined :
    (old new : PathPolicy) (s : Session)
    → IsConfined old s
    → new.real s.base_dir ≡ old.real s.base_dir
    → IsConfined new s
same_base-IsConfined old new s (nonempty, inl e) same = (nonempty, inl e)
same_base-IsConfined old new s (nonempty, inr c) same =
    (nonempty, inr (subst⁻¹ (λ (b : Bytes). (b ≡ slash) ⊎ Within b s.cwd) same c))

entries-AllConfined :
    (old new : PathPolicy) (m : Map Session)
    → AllValues (IsConfined old) m
    → AllValues (λ s. new.real s.base_dir ≡ old.real s.base_dir) m
    → AllValues (IsConfined new) m
entries-AllConfined old new [] h same = tt
entries-AllConfined old new ((id, s) ∷ m) (hs, h) (e, same) =
    (same_base-IsConfined old new s hs e, entries-AllConfined old new m h same)

pub SameBases-AllConfined :
    (old new : PathPolicy) (sm : SessionManager)
    → AllConfined old sm
    → SameBases old new sm
    → AllConfined new sm
SameBases-AllConfined old new sm h same = entries-AllConfined old new sm.sessions h same
