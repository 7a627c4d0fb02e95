-- ===== src/Sync/Family.antt =====
-- A property that at most one thread of a family has.
use dim_os.Common.{
  ℕ, ◌≡◌, ◌≢◌, Bool, true, false, arith, update, update_self, update_ne, sym, ◌∙◌, ◌⊎◌, inl, inr,
}
use native.Mathlib.Decide.{ℕ_discrete}
use dim_os.Sync.{Pc}

abbrev pub AtMostOne : (Pc → Bool) → (ℕ → Pc) → Type 0
AtMostOne P pc = (i j : ℕ) → P (pc i) ≡ true → P (pc j) ≡ true → i ≡ j

abbrev pub Nobody : (Pc → Bool) → (ℕ → Pc) → Type 0
Nobody P pc = (i : ℕ) → P (pc i) ≡ false

moved_in :
    (P : Pc → Bool) (pc : ℕ → Pc) (k j : ℕ) (p : Pc)
    → AtMostOne P pc
    → (P p ≡ true → (P (pc k) ≡ true) ⊎ Nobody P pc)
    → k ≢ j
    → P (update pc k p k) ≡ true
    → P (update pc k p j) ≡ true
    → ⊥
moved_in P pc k j p one move ne hk hj =
    let at_j = rw (update_ne pc k j p ne) at hj in
    elim (move (rw (update_self pc k p) at hk)) [
      | inl had ↦ ne (one k j had at_j)
      | inr nobody ↦ cc (nobody j)
    ]

-- One thread moves: it had the property before, or nobody had it, or it has not got it.
pub AtMostOne-update :
    (P : Pc → Bool) (pc : ℕ → Pc) (k : ℕ) (p : Pc)
    → AtMostOne P pc
    → (P p ≡ true → (P (pc k) ≡ true) ⊎ Nobody P pc)
    → AtMostOne P (update pc k p)
AtMostOne-update P pc k p one move i j hi hj = elim (ℕ_discrete k i) [
  | yes ki ↦ elim (ℕ_discrete k j) [
    | yes kj ↦ sym ki ∙ kj
    | no kj ↦ absurd (moved_in P pc k j p one move kj (rw (← ki) at hi) hj)
  ]
  | no ki ↦ elim (ℕ_discrete k j) [
    | yes kj ↦ absurd (moved_in P pc k i p one move ki (rw (← kj) at hj) hi)
    | no kj ↦ one i j (rw (update_ne pc k i p ki) at hi) (rw (update_ne pc k j p kj) at hj)
  ]
]

pub Nobody-update :
    (P : Pc → Bool) (pc : ℕ → Pc) (k : ℕ) (p : Pc)
    → Nobody P pc
    → P p ≡ false
    → Nobody P (update pc k p)
Nobody-update P pc k p none_has e i = ground (arith, none_has i)

-- At most one thread has the property, and a word is 1 while one has it.
pub record Held (P : Pc → Bool) (pc : ℕ → Pc) (word : ℕ) : Type 0 where
  pub one : AtMostOne P pc
  pub value : (i : ℕ) → P (pc i) ≡ true → word ≡ 1

-- A move of one thread that respects this: it gets the property only from itself or from nobody, the
-- word is then 1, and otherwise the word is changed only to 1 or by the thread that had the property.
pub record Respects (P : Pc → Bool) (pc : ℕ → Pc) (k : ℕ) (p : Pc) (word word' : ℕ) : Type 0 where
  pub entering : P p ≡ true → (P (pc k) ≡ true) ⊎ Nobody P pc
  pub mine : P p ≡ true → word' ≡ 1
  pub kept : (word' ≡ word) ⊎ (word' ≡ 1) ⊎ (P (pc k) ≡ true)

pub Held-update :
    (P : Pc → Bool) (pc : ℕ → Pc) (k : ℕ) (p : Pc) (word word' : ℕ)
    → Held P pc word
    → Respects P pc k p word word'
    → Held P (update pc k p) word'
Held-update P pc k p word word' held r = record {
  one = AtMostOne-update P pc k p held.one r.entering;
  value = λ i h. elim (ℕ_discrete k i) [
    | yes ki ↦ r.mine (rw (← ki, update_self pc k p) at h)
    | no ki ↦
        let at_i = rw (update_ne pc k i p ki) at h in
        elim r.kept [
          | inl same ↦ same ∙ held.value i at_i
          | inr other ↦ elim other [ inl one ↦ one | inr had ↦ absurd (ki (held.one k i had at_i)) ]
        ]
  ];
}

pub Held-Nobody : (P : Pc → Bool) (pc : ℕ → Pc) (word : ℕ) → Held P pc word → word ≡ 0 → Nobody P pc
Held-Nobody P pc word held e i = grind (arith, held.value i)
