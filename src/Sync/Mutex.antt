-- ===== src/Sync/Mutex.antt =====
-- `MutexLock` under any interleaving: who holds the guard and the mutex, and a mutex without an owner.
use dim_os.Common.{
  ℕ, ◌≡◌, refl, Bool, true, false, arith, update_self, update_ne, ap, ◌∙◌, ◌⊎◌, inl, inr,
}
use native.Mathlib.Decide.{ℕ_discrete}
use dim_os.Sync.{
  MutexLock, States, Pc, Move, acq_take, see_free, set_flag, got, unguard, rel_take, clear_flag,
  finish, System, Step, move, Reach, start, later, init,
}
use dim_os.Sync.Family.{Nobody, Nobody-update, Held, Respects, Held-update, Held-Nobody}

-- Threads that hold the inner `lock`.
abbrev pub guards : Pc → Bool
guards Pc.acq_guard = true
guards Pc.acq_free = true
guards Pc.acq_got = true
guards Pc.acq_busy = true
guards Pc.acq_queued = true
guards Pc.acq_marked = true
guards Pc.rel_guard = true
guards Pc.rel_empty = true
guards Pc.rel_waiting = true
guards (Pc.rel_next next) = true
guards (Pc.rel_popped next) = true
guards Pc.rel_done = true
guards _ = false

-- Threads that own the mutex: from the write of `flag` to the end of the ownership in `releaseLock`.
abbrev pub owns : Pc → Bool
owns Pc.acq_got = true
owns Pc.critical = true
owns Pc.rel_spin = true
owns Pc.rel_guard = true
owns Pc.rel_empty = true
owns _ = false

-- Threads that read a `flag` of 0 and will write it.
abbrev pub chosen : Pc → Bool
chosen Pc.acq_free = true
chosen _ = false

pub chosen-guards : (p : Pc) → chosen p ≡ true → guards p ≡ true
chosen-guards Pc.acq_free h = refl
chosen-guards _ h = absurd (cc h)

pub record Inv (s : System) : Type 0 where
  pub guarded : Held guards s.pc s.mutex.lock
  pub owned : Held owns s.pc s.mutex.flag
  pub unset : (i : ℕ) → chosen (s.pc i) ≡ true → s.mutex.flag ≡ 0

pub init-Inv : (st : States) → Inv (init st)
init-Inv st = record {
  guarded = record { one = λ i j h k. cc; value = λ i h. cc };
  owned = record { one = λ i j h k. cc; value = λ i h. cc };
  unset = λ i h. cc;
}

module _ {me : ℕ} {m : MutexLock} {st : States} (pc : ℕ → Pc) where
  Move-guards :
      {p0 : Pc} {m' : MutexLock} {p : Pc} {st' : States}
      → Move me m st p0 m' p st'
      → pc me ≡ p0
      → Held guards pc m.lock
      → Respects guards pc me p m.lock m'.lock
  Move-guards (acq_take free) e held = record {
    entering = λ h. inr (Held-Nobody guards pc m.lock held free);
    mine = λ h. refl;
    kept = inr (inl refl);
  }
  Move-guards (rel_take free) e held = record {
    entering = λ h. inr (Held-Nobody guards pc m.lock held free);
    mine = λ h. refl;
    kept = inr (inl refl);
  }
  Move-guards got e held = record {
    entering = λ h. cc;
    mine = λ h. cc;
    kept = inr (inr (ap guards e));
  }
  Move-guards unguard e held = record {
    entering = λ h. cc;
    mine = λ h. cc;
    kept = inr (inr (ap guards e));
  }
  Move-guards finish e held = record {
    entering = λ h. cc;
    mine = λ h. cc;
    kept = inr (inr (ap guards e));
  }
  Move-guards _ e held = record {
    entering = λ h. inl (ground arith);
    mine = λ h. held.value me (ground arith);
    kept = inl refl;
  }

  Move-owns :
      {p0 : Pc} {m' : MutexLock} {p : Pc} {st' : States}
      → Move me m st p0 m' p st'
      → pc me ≡ p0
      → Held owns pc m.flag
      → (chosen (pc me) ≡ true → m.flag ≡ 0)
      → Respects owns pc me p m.flag m'.flag
  Move-owns set_flag e held unset = record {
    entering = λ h. inr (Held-Nobody owns pc m.flag held (unset (ap chosen e)));
    mine = λ h. refl;
    kept = inr (inl refl);
  }
  Move-owns clear_flag e held unset = record {
    entering = λ h. cc;
    mine = λ h. cc;
    kept = inr (inr (ap owns e));
  }
  Move-owns _ e held unset = record {
    entering = λ h. inl (ground arith);
    mine = λ h. held.value me (ground arith);
    kept = inl refl;
  }

  -- Only a thread that holds the inner `lock` writes `flag`.
  Move-flag :
      {p0 : Pc} {m' : MutexLock} {p : Pc} {st' : States}
      → Move me m st p0 m' p st'
      → pc me ≡ p0
      → ((chosen p ≡ true → m'.flag ≡ 0) × ((m'.flag ≡ m.flag) ⊎ (guards (pc me) ≡ true)))
  Move-flag (see_free free) e = ((λ h. free), inl refl)
  Move-flag set_flag e = ((λ h. cc), inr (ap guards e))
  Move-flag clear_flag e = ((λ h. cc), inr (ap guards e))
  Move-flag _ e = ((λ h. cc), inl refl)

pub Step-Inv : {s t : System} → Step s t → Inv s → Inv t
Step-Inv {s} (move me {m} {p} mv) inv = record {
  guarded =
      Held-update guards s.pc me p s.mutex.lock m.lock inv.guarded
        (Move-guards s.pc mv refl inv.guarded);
  owned =
      Held-update owns s.pc me p s.mutex.flag m.flag inv.owned
        (Move-owns s.pc mv refl inv.owned (inv.unset me));
  unset = λ i h.
      let (mine, kept) = Move-flag s.pc mv refl in
      elim (ℕ_discrete me i) [
        | yes here ↦ mine (rw (← here, update_self s.pc me p) at h)
        | no there ↦
            let at_i = rw (update_ne s.pc me i p there) at h in
            elim kept [
              | inl same ↦ same ∙ inv.unset i at_i
              | inr guard ↦
                  absurd (there (inv.guarded.one me i guard (chosen-guards (s.pc i) at_i)))
            ]
      ];
}

pub Reach-Inv : {s t : System} → Inv s → Reach s t → Inv t
Reach-Inv inv start = inv
Reach-Inv inv (later r st) = Step-Inv st (Reach-Inv inv r)

-- In every state that threads reach from a fresh mutex, in whatever order they take their steps, at
-- most one of them is between `acquireLock` and `releaseLock`.
pub mutual_exclusion :
    (st : States) {s : System} (i j : ℕ)
    → Reach (init st) s
    → s.pc i ≡ Pc.critical
    → s.pc j ≡ Pc.critical
    → i ≡ j
mutual_exclusion st i j r hi hj =
    (Reach-Inv (init-Inv st) r).owned.one i j (ap owns hi) (ap owns hj)

-- A mutex that is taken, with no owner to give it back, and nobody about to take it.
pub record Lost (s : System) : Type 0 where
  pub taken : s.mutex.flag ≡ 1
  pub ownerless : Nobody owns s.pc
  pub unchosen : Nobody chosen s.pc

lost-Move :
    {me : ℕ} {m m' : MutexLock} {st st' : States} {p0 p : Pc}
    → Move me m st p0 m' p st'
    → m.flag ≡ 1
    → owns p0 ≡ false
    → chosen p0 ≡ false
    → (m'.flag ≡ 1) × (owns p ≡ false) × (chosen p ≡ false)
lost-Move (see_free free) e h k = absurd (omega arith)
lost-Move set_flag e h k = cc
lost-Move clear_flag e h k = cc
lost-Move _ e h k = ground arith

pub Step-Lost : {s t : System} → Step s t → Lost s → Lost t
Step-Lost {s} (move me {m} {p} mv) l =
    let (taken, free, unread) = lost-Move mv l.taken (l.ownerless me) (l.unchosen me) in
    record {
      taken = taken;
      ownerless = Nobody-update owns s.pc me p l.ownerless free;
      unchosen = Nobody-update chosen s.pc me p l.unchosen unread;
    }

pub Reach-Lost : {s t : System} → Lost s → Reach s t → Lost t
Reach-Lost l start = l
Reach-Lost l (later r st) = Step-Lost st (Reach-Lost l r)
