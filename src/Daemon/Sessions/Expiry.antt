-- ===== src/Daemon/Sessions/Expiry.antt =====
-- What a tick of the cleanup loop removes.
use go_posix.Base.{
  ℕ, ◌-◌, ◌≤◌, ◌≡◌, ◌≢◌, refl, ◌∙◌, subst⁻¹, All, true, false, some, [], ◌∷◌, Bytes, beq, inl, inr,
  Bool-cases, arith,
}
use go_posix.Base.Map.{Map, lookup, delete, lookup-delete}
use go_posix.Daemon.Sessions.{Session, SessionManager, expired, clean_entries, cleanup}

-- What is left was there before.
clean_entries-lookup :
    (sm : SessionManager) (now : ℕ) (es m : Map Session) (id : Bytes) (s : Session)
    → lookup (clean_entries sm now es m) id ≡ some s
    → lookup m id ≡ some s
unfolding clean_entries
clean_entries-lookup sm now [] m id s h = h
clean_entries-lookup sm now ((j, t) ∷ es) m id s h = elim (Bool-cases (expired sm now t)) [
  | inl e ↦ ground (arith, clean_entries-lookup sm now es (delete m j) id s, lookup-delete m j id)
  | inr e ↦ clean_entries-lookup sm now es m id s (rw e at h)
]

deleted :
    (m : Map Session) (j id : Bytes) (s : Session)
    → beq j id ≡ true
    → ¬ (lookup (delete m j) id ≡ some s)
deleted m j id s same h = ground (arith, lookup-delete m j id)

-- A session that the map holds and that has expired is gone.
clean_entries-expired :
    (sm : SessionManager) (now : ℕ) (es m : Map Session) (id : Bytes) (s t : Session)
    → lookup es id ≡ some t
    → expired sm now t ≡ true
    → lookup (clean_entries sm now es m) id ≢ some s
unfolding clean_entries lookup
clean_entries-expired sm now [] m id s t h e = ground arith
clean_entries-expired sm now ((j, u) ∷ es) m id s t h e = λ l. elim (Bool-cases (beq j id)) [
  | inl same ↦
      let u_is_t : u ≡ t = ground arith in
      deleted m j id s same (
        clean_entries-lookup sm now es (delete m j) id s
          (rw (subst⁻¹ (λ v. expired sm now v ≡ true) u_is_t e) at l))
  | inr other ↦ clean_entries-expired sm now es _ id s t (rw other at h) e l
]

-- A session none of whose entries has expired stays.
clean_entries-fresh :
    (sm : SessionManager) (now : ℕ) (es m : Map Session) (id : Bytes)
    → All (λ e. beq e.0 id ≡ true → expired sm now e.1 ≡ false) es
    → lookup (clean_entries sm now es m) id ≡ lookup m id
unfolding clean_entries
clean_entries-fresh sm now [] m id h = refl
clean_entries-fresh sm now ((j, u) ∷ es) m id (fresh, h) = elim (Bool-cases (expired sm now u)) [
  | inl e ↦
      rw e (clean_entries-fresh sm now es (delete m j) id h ∙ ground (arith, lookup-delete m j id))
  | inr e ↦ rw e (clean_entries-fresh sm now es m id h)
]

young :
    (sm : SessionManager) (now : ℕ) (s : Session)
    → ¬ (expired sm now s ≡ true)
    → now - s.last_active ≤ sm.ttl
unfolding expired
young sm now s h = ground arith

All-fresh :
    (sm : SessionManager) (now : ℕ) (es : Map Session) (id : Bytes)
    → All (λ e. beq e.0 id ≡ true → now - e.1.last_active ≤ sm.ttl) es
    → All (λ e. beq e.0 id ≡ true → expired sm now e.1 ≡ false) es
unfolding expired
All-fresh sm now [] id h = tt
All-fresh sm now ((j, u) ∷ es) id (f, h) =
    (λ same. let le = f same in ground arith, All-fresh sm now es id h)

-- What a tick leaves was there before, as it was, and was active within the time to live.
pub cleanup-lookup :
    (sm : SessionManager) (now : ℕ) (id : Bytes) (s : Session)
    → sm.done ≡ false
    → lookup (cleanup sm now).sessions id ≡ some s
    → (lookup sm.sessions id ≡ some s) × (now - s.last_active ≤ sm.ttl)
unfolding cleanup
cleanup-lookup sm now id s open_ h =
    let kept : lookup (clean_entries sm now sm.sessions sm.sessions) id ≡ some s = rw open_ at h in
    let before = clean_entries-lookup sm now sm.sessions sm.sessions id s kept in
    (
      before,
      young sm now s
          (λ e. clean_entries-expired sm now sm.sessions sm.sessions id s s before e kept),
    )

-- A tick keeps the sessions that have been active within the time to live, as they are. (A map holds
-- one entry for each key, so the condition is on that entry.)
cleanup-fresh :
    (sm : SessionManager) (now : ℕ) (id : Bytes)
    → All (λ e. beq e.0 id ≡ true → now - e.1.last_active ≤ sm.ttl) sm.sessions
    → lookup (cleanup sm now).sessions id ≡ lookup sm.sessions id
unfolding cleanup
cleanup-fresh sm now id h = elim (Bool-cases sm.done) [
  | inl e ↦ rw e
  | inr e ↦
      rw e
        (clean_entries-fresh sm now sm.sessions sm.sessions id (All-fresh sm now sm.sessions id h))
]
