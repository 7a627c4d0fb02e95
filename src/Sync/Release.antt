-- ===== src/Sync/Release.antt =====
-- What `releaseLock` does while somebody is queued.
use dim_os.Common.{
  ℕ, ◌≡◌, ◌≢◌, refl, Bool, true, false, List, ◌∷◌, update, Bool-cases, update_self, update_ne, ap,
  ◌∙◌, inl, inr,
}
use mathlib.Core.Path.{subst, sym}
use native.Mathlib.Decide.{ℕ_discrete}
use dim_os.Process.{TaskState}
use dim_os.Sync.{
  MutexLock, States, Pc, Move, see_queued, read_back, pop, wake, System, Step, move, Reach, start,
  later, init,
}
use dim_os.Sync.Family.{Nobody}
use dim_os.Sync.Mutex.{
  guards, owns, chosen, chosen-guards, Inv, init-Inv, Reach-Inv, Lost, Reach-Lost,
}

-- The state after `releaseLock` by `me` has seen that the queue is not empty.
abbrev pub noticed : System → ℕ → System
noticed s me = record s { pc = update s.pc me Pc.rel_waiting }

-- The state after it has woken `first`, with nobody else at work.
abbrev pub woken : System → ℕ → ℕ → List ℕ → System
woken s me first rest = record {
  mutex = record (s.mutex) { queue = rest };
  pc =
      update
        (update (update (update s.pc me Pc.rel_waiting) me (Pc.rel_next first)) me
          (Pc.rel_popped first))
        me Pc.rel_done;
  states = update s.states first TaskState.running;
}

-- A step of a thread of which the place is known.
Move-Step :
    (s : System) (me : ℕ) {m : MutexLock} {p0 p : Pc} {st : States}
    → s.pc me ≡ p0
    → Move me s.mutex s.states p0 m p st
    → Step s (record { mutex = m; pc = update s.pc me p; states = st })
Move-Step s me {m} {p0} {p} {st} at mv =
    move me (subst (λ z. Move me s.mutex s.states z m p st) (sym at) mv)

module _ (s : System) (me first : ℕ) (rest : List ℕ) (at : s.pc me ≡ Pc.rel_guard)
    (queued : s.mutex.queue ≡ first ∷ rest) where
  noticed-Step : Step s (noticed s me)
  noticed-Step = Move-Step s me at (see_queued queued)

  noticed-woken : Reach (noticed s me) (woken s me first rest)
  noticed-woken =
      let s1 = noticed s me in
      let s2 : System = record s1 { pc = update s1.pc me (Pc.rel_next first) } in
      let s3 : System = record {
        mutex = record (s.mutex) { queue = rest };
        pc = update s2.pc me (Pc.rel_popped first);
        states = s.states;
      } in
      later
        (later
          (later start (Move-Step s1 me (update_self s.pc me Pc.rel_waiting) (read_back queued)))
          (Move-Step s2 me (update_self s1.pc me (Pc.rel_next first)) (pop queued)))
        (Move-Step s3 me (update_self s2.pc me (Pc.rel_popped first)) wake)

-- Whoever holds the guard and gives up the ownership leaves nobody with it.
left_out :
    (P : Pc → Bool) (pc : ℕ → Pc) (me : ℕ) (p : Pc)
    → P p ≡ false
    → ((i : ℕ) → me ≢ i → P (pc i) ≡ true → ⊥)
    → Nobody P (update pc me p)
left_out P pc me p none_here others i = elim (ℕ_discrete me i) [
  | yes here ↦ rw (← here, update_self pc me p) none_here
  | no there ↦
      rw (update_ne pc me i p there)
        (elim (Bool-cases (P (pc i))) [ inl h ↦ absurd (others i there h) | inr h ↦ h ])
]

noticed-Lost : (s : System) (me : ℕ) → Inv s → s.pc me ≡ Pc.rel_guard → Lost (noticed s me)
noticed-Lost s me inv at = record {
  taken = inv.owned.value me (ap owns at);
  ownerless =
      left_out owns s.pc me Pc.rel_waiting refl (λ i ne h. ne (inv.owned.one me i (ap owns at) h));
  unchosen =
      left_out chosen s.pc me Pc.rel_waiting refl
        (λ i ne h. ne (inv.guarded.one me i (ap guards at) (chosen-guards (s.pc i) h)));
}

-- From any state that threads reach from a fresh mutex: if the owner releases the mutex while
-- somebody is queued, then it sees the queue, can go on to wake the first in it, and from the moment it saw
-- the queue on no thread ever gets the mutex again, in whatever order they take their steps.
pub contended_release_deadlocks :
    (st : States) {s t : System} (me first : ℕ) (rest : List ℕ)
    → Reach (init st) s
    → s.pc me ≡ Pc.rel_guard
    → s.mutex.queue ≡ first ∷ rest
    → Reach (noticed s me) t
    → Step s (noticed s me)
      × Reach (noticed s me) (woken s me first rest)
      × ((i : ℕ) → t.pc i ≢ Pc.critical)
      × (t.mutex.flag ≡ 1)
contended_release_deadlocks st {s} me first rest r at queued after =
    let lost = Reach-Lost (noticed-Lost s me (Reach-Inv (init-Inv st) r) at) after in
    (
      noticed-Step s me first rest at queued,
      noticed-woken s me first rest at queued,
      (λ i e. cc (sym (ap owns e) ∙ lost.ownerless i)),
      lost.taken,
    )
