-- ===== src/Daemon/Sessions/Jail.antt =====
-- The base directory of a session.
use go_posix.Base.{
  ℕ, ◌≡◌, ◌≢◌, sym, ap, ◌∙◌, subst, some, List, [], ◌∷◌, Bytes, beq, beq_iff, beq→eq, inl, inr,
  Bool-cases, arith, Option-cases,
}
use go_posix.Base.FilePath.{slash}
use go_posix.Base.Map.{Map, lookup, insert, delete, lookup-insert, lookup-delete}
use go_posix.Daemon.Sessions.{
  PathPolicy, Session, SessionManager, new_session, create, get, move_to, base_of, set_cwd, destroy,
  expired, clean_entries, cleanup, Call, create_call, get_call, set_cwd_call, destroy_call, tick,
  step, run,
}

-- The session under this id, if there is one, has the base directory `b`.
abbrev pub JailIs : Bytes → Bytes → Map Session → Type 0
JailIs id b m = (s : Session) → lookup m id ≡ some s → s.base_dir ≡ b

base_of_session : Session → Bytes
base_of_session s = s.base_dir

module _ (id b : Bytes) where
  insert-JailIs :
      (m : Map Session) (id' : Bytes) (s' : Session)
      → JailIs id b m
      → (id' ≡ id → s'.base_dir ≡ b)
      → JailIs id b (insert m id' s')
  unfolding base_of_session
  insert-JailIs m id' s' h new s e = elim (Bool-cases (beq id' id)) [
    | inl same ↦
        let f : s' ≡ s = ground (arith, lookup-insert m id' s' id) in
        ap base_of_session (sym f) ∙ new (beq→eq id' id same)
    | inr other ↦ h s (ground (arith, lookup-insert m id' s' id))
  ]

  delete-JailIs : (m : Map Session) (id' : Bytes) → JailIs id b m → JailIs id b (delete m id')
  delete-JailIs m id' h s e = h s (ground (arith, lookup-delete m id' id))

  -- A session found under the id, by any equal spelling of it.
  found :
      (m : Map Session) (id' : Bytes) (s : Session)
      → JailIs id b m
      → lookup m id' ≡ some s
      → id' ≡ id
      → s.base_dir ≡ b
  found m id' s h e same = h s (subst (λ (k : Bytes). lookup m k ≡ some s) same e)

  get-JailIs :
      (sm : SessionManager) (id' : Bytes) (now : ℕ)
      → JailIs id b sm.sessions
      → JailIs id b (get sm id' now).0.sessions
  unfolding get
  get-JailIs sm id' now h = elim (Option-cases (lookup sm.sessions id')) [
    | inl e ↦ rw (e, get) h
    | inr (s, e) ↦
        rw (e, get)
          (insert-JailIs sm.sessions id' (record s { last_active = now }) h
            (found sm.sessions id' s h e))
  ]

  destroy-JailIs :
      (sm : SessionManager) (id' : Bytes)
      → JailIs id b sm.sessions
      → JailIs id b (destroy sm id').0.sessions
  unfolding destroy
  destroy-JailIs sm id' h = elim (Option-cases (lookup sm.sessions id')) [
    | inl e ↦ rw (e, destroy) h
    | inr (s, e) ↦ rw (e, destroy) (delete-JailIs sm.sessions id' h)
  ]

  clean_entries-JailIs :
      (sm : SessionManager) (now : ℕ) (es m : Map Session)
      → JailIs id b m
      → JailIs id b (clean_entries sm now es m)
  unfolding clean_entries
  clean_entries-JailIs sm now [] m h = h
  clean_entries-JailIs sm now ((id', s) ∷ es) m h = elim (Bool-cases (expired sm now s)) [
    | inl e ↦ rw e (clean_entries-JailIs sm now es (delete m id') (delete-JailIs m id' h))
    | inr e ↦ rw e (clean_entries-JailIs sm now es m h)
  ]

  move_to-base_dir :
      (s : Session) (p : Bytes) (now : ℕ)
      → b ≢ slash
      → s.base_dir ≡ b
      → (move_to s p now).base_dir ≡ b
  unfolding move_to
  move_to-base_dir s p now hb h = ground (arith, beq_iff s.base_dir slash)

  set_cwd-JailIs :
      (fs : PathPolicy) (sm : SessionManager) (id' path : Bytes) (now : ℕ)
      → b ≢ slash
      → JailIs id b sm.sessions
      → JailIs id b (set_cwd fs sm id' path now).0.sessions
  unfolding set_cwd
  set_cwd-JailIs fs sm id' path now hb h = elim (Option-cases (lookup sm.sessions id')) [
    | inl e ↦ rw (e, set_cwd) h
    | inr (s, e) ↦
        rw (e, set_cwd)
          (elim (Option-cases (fs.secure_path path (base_of s))) [
            | inl e' ↦ rw e' h
            | inr (p, e') ↦ elim (Bool-cases (fs.is_dir p)) [
              | inl d ↦
                  rw (e', d)
                    (insert-JailIs sm.sessions id' (move_to s p now) h
                      (λ same. move_to-base_dir s p now hb (found sm.sessions id' s h e same)))
              | inr d ↦ rw (e', d) h
            ]
          ])
  ]

  -- No call makes a new session under the id.
  abbrev pub Keeps : Call → Type 0
  Keeps (create_call id') = id' ≢ id
  Keeps _ = Unit

  abbrev AllKeep : List (Call × ℕ) → Type 0
  AllKeep [] = Unit
  AllKeep (c ∷ calls) = Keeps c.0 × AllKeep calls

  step-JailIs :
      (fs : PathPolicy) (sm : SessionManager) (c : Call) (now : ℕ)
      → b ≢ slash
      → Keeps c
      → JailIs id b sm.sessions
      → JailIs id b (step fs sm c now).sessions
  unfolding step create cleanup
  step-JailIs fs sm (create_call id') now hb k h =
      insert-JailIs sm.sessions id' (new_session id' now) h (λ same. absurd (k same))
  step-JailIs fs sm (get_call id') now hb k h = get-JailIs sm id' now h
  step-JailIs fs sm (set_cwd_call id' path) now hb k h = set_cwd-JailIs fs sm id' path now hb h
  step-JailIs fs sm (destroy_call id') now hb k h = destroy-JailIs sm id' h
  step-JailIs fs sm tick now hb k h = elim (Bool-cases sm.done) [
    | inl e ↦ rw e h
    | inr e ↦ rw e (clean_entries-JailIs sm now sm.sessions sm.sessions h)
  ]

  -- Once a session's base directory is not the root, no calls change it: as long as the session is
  -- there and no session is made anew under its id, it keeps that directory.
  pub run-JailIs :
      (fs : PathPolicy) (sm : SessionManager) (calls : List (Call × ℕ))
      → b ≢ slash
      → AllKeep calls
      → JailIs id b sm.sessions
      → JailIs id b (run fs sm calls).sessions
  unfolding run
  run-JailIs fs sm [] hb k h = h
  run-JailIs fs sm ((c, now) ∷ calls) hb (k, ks) h =
      run-JailIs fs (step fs sm c now) calls hb ks (step-JailIs fs sm c now hb k h)
