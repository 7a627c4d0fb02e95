-- ===== src/Keyboard/Modifiers.antt =====
-- The handler on whole runs of codes.
use mathlib.Core.Path.{subst}
use dim_os.Common.{
  ℕ, ◌-◌, ◌≤◌, ◌<◌, ◌≡◌, refl, ap, ◌∙◌, inl, inr, Bool, true, false, ◌||◌, ◌==◌, Option, some, none,
  List, [], ◌∷◌, bit_and, arith, Bool-cases, Option-cases, none_ne_some,
}
use dim_os.Keyboard.{
  Keyboard, key_at, get_last_key_code, discard_last_key_code, hold, lock, note_error, take_code,
  deliver, isr_handler,
}
use dim_os.Common.Bits.{bit_and-pow}
use dim_os.Keyboard.Codes.{KeyCode}
use dim_os.Keyboard.Keys.{
  key_at-IsPlaced, hold_lem, lock_lem, shift_after, ctrl_after, alt_after, caps_after,
}

-- The modifiers as a code leaves them.
pub record IsAfter (code : ℕ) (d e : Keyboard) : Type 0 where
  pub shift_kept : e.shift ≡ shift_after code d.shift
  pub ctrl_kept : e.ctrl ≡ ctrl_after code d.ctrl
  pub alt_kept : e.alt ≡ alt_after code d.alt
  pub caps_kept : e.caps_lock ≡ caps_after code d.caps_lock

extended-IsAfter :
    (code : ℕ) (d : Keyboard)
    → ((code == 224) || (code == 225)) ≡ true
    → IsAfter code d (record d { extended = true })
extended-IsAfter code d prefix = record {
  shift_kept = ground (arith, prefix);
  ctrl_kept = ground (arith, prefix);
  alt_kept = ground (arith, prefix);
  caps_kept = ground (arith, prefix);
}

broken-IsAfter :
    (code : ℕ) (key : KeyCode) (d : Keyboard)
    → 128 ≤ code
    → code < 256
    → key_at (code - 128) ≡ some key
    → IsAfter code d (hold key false (record d { extended = false }))
broken-IsAfter code key d lo hi found =
    let p = key_at-IsPlaced (code - 128) key (omega (arith, hi)) found in
    let (ctrl, shift, alt, caps) = hold_lem key false (record d { extended = false }) in
    record {
      shift_kept = shift ∙ rw p.shift_at (ground (arith, lo));
      ctrl_kept = ctrl ∙ rw p.ctrl_at (ground (arith, lo));
      alt_kept = alt ∙ rw p.alt_at (ground (arith, lo));
      caps_kept = caps ∙ ground (arith, lo);
    }

made-IsAfter :
    (code : ℕ) (key : KeyCode) (d : Keyboard)
    → code < 128
    → key_at code ≡ some key
    → IsAfter code d (lock key (hold key true (record d { extended = false; scancode = code })))
made-IsAfter code key d hi found =
    let p = key_at-IsPlaced code key (omega (arith, hi)) found in
    let held = record d { extended = false; scancode = code } in
    let (ctrl, shift, alt, caps) = hold_lem key true held in
    let (ctrl', shift', alt', caps') = lock_lem key (hold key true held) in
    record {
      shift_kept = shift' ∙ shift ∙ rw p.shift_at (ground (arith, hi));
      ctrl_kept = ctrl' ∙ ctrl ∙ rw p.ctrl_at (ground (arith, hi));
      alt_kept = alt' ∙ alt ∙ rw p.alt_at (ground (arith, hi));
      caps_kept = caps' ∙ rw (caps, p.caps_at) refl;
    }

abbrev is_error : ℕ → Bool
is_error code = (code == 252) || (code == 253) || (code == 254)

-- The code behind the handler's test for a break code is never one of the errors.
take_code-IsAfter :
    (code code' : ℕ) (d e : Keyboard)
    → code < 256
    → take_code code d ≡ some (code', e)
    → IsAfter code d e × (is_error code' ≡ false)
unfolding take_code
take_code-IsAfter code code' d e h taken = elim (Bool-cases ((code == 224) || (code == 225))) [
  | inl prefix ↦
      ends code (record d { extended = true }) (rw (take_code, prefix) at taken)
        (extended-IsAfter code d prefix) (ground (arith, prefix))
  | inr plain ↦ elim (Bool-cases (bit_and code 128 == 0)) [
    | inr broken ↦
        let high : 128 ≤ code = ground (arith, broken, bit_and-pow code 7) in
        elim (Option-cases (key_at (code - 128))) [
          | inl missing ↦ absurd (none_ne_some (rw (take_code, plain, broken, missing) at taken))
          | inr (key, found) ↦
              ends (code - 128) (hold key false (record d { extended = false }))
                (rw (take_code, plain, broken, found) at taken)
                (broken-IsAfter code key d high h found) (ground (arith, h))
        ]
    | inl made ↦
        let low : code < 128 = ground (arith, made, h, bit_and-pow code 7) in
        elim (Option-cases (key_at code)) [
          | inl missing ↦ absurd (none_ne_some (rw (take_code, plain, made, missing) at taken))
          | inr (key, found) ↦
              ends code (lock key (hold key true (record d { extended = false; scancode = code })))
                (rw (take_code, plain, made, found) at taken) (made-IsAfter code key d low found)
                (ground (arith, low))
        ]
  ]
]
  where
    ends :
        (c : ℕ) (x : Keyboard)
        → ◌≡◌ {A = Option (ℕ × Keyboard)} (some (c, x)) (some (code', e))
        → IsAfter code d x
        → is_error c ≡ false
        → IsAfter code d e × (is_error code' ≡ false)
    ends c x same after clear =
        let code_same : c ≡ code' = cc same in
        let left : x ≡ e = cc same in
        (subst (IsAfter code d) left after, subst (λ z. is_error z ≡ false) code_same clear)

deliver_lem :
    (d e : Keyboard) (key : Option KeyCode)
    → deliver d ≡ some (key, e)
    → e ≡ discard_last_key_code d
unfolding deliver
deliver_lem d e key given = elim (Option-cases (get_last_key_code d)) [
  | inl missing ↦ absurd (none_ne_some (rw (deliver, missing) at given))
  | inr (last, found) ↦ ends (rw (deliver, found) at given)
]
  where
    ends :
        {o : Option KeyCode} {x : Keyboard}
        → ◌≡◌ {A = Option (Option KeyCode × Keyboard)} (some (o, x)) (some (key, e))
        → e ≡ x
    ends h = cc h

-- One code, with the output buffer of the controller full: the modifiers are those that the code leaves,
-- the scan code is discarded, and the error is 0.
isr_handler-IsAfter :
    (code : ℕ) (d e : Keyboard) (key : Option KeyCode)
    → code < 256
    → isr_handler 1 code d ≡ some (key, e)
    → IsAfter code d e × (e.scancode ≡ 0) × (e.error ≡ 0)
unfolding isr_handler note_error discard_last_key_code
isr_handler-IsAfter code d e key h handled = elim (Option-cases (take_code code d)) [
  | inl missing ↦ absurd (none_ne_some (rw (isr_handler, missing) at handled))
  | inr ((code', d'), found) ↦
      let (after, clear) = take_code-IsAfter code code' d d' h found in
      let last : e ≡ discard_last_key_code (note_error code' d') =
        deliver_lem (note_error code' d') e key (rw (isr_handler, found) at handled) in
      (
        record {
          shift_kept = ap (λ (x : Keyboard). x.shift) last ∙ after.shift_kept;
          ctrl_kept = ap (λ (x : Keyboard). x.ctrl) last ∙ after.ctrl_kept;
          alt_kept = ap (λ (x : Keyboard). x.alt) last ∙ after.alt_kept;
          caps_kept = ap (λ (x : Keyboard). x.caps_lock) last ∙ after.caps_kept;
        },
        ap (λ (x : Keyboard). x.scancode) last,
        ap (λ (x : Keyboard). x.error) last ∙ rw clear refl,
      )
]

-- The handler on a run of codes with the output buffer full; `none` if it reads behind the table.
unfoldable pub run : List ℕ → Keyboard → Option Keyboard
run [] d = some d
run (code ∷ codes) d = elim (isr_handler 1 code d) [ none ↦ none | some (key, e) ↦ run codes e ]

-- The codes are bytes.
abbrev pub AreBytes : List ℕ → Type 0
AreBytes [] = 0 ≤ 0
AreBytes (code ∷ codes) = (code < 256) × AreBytes codes

-- One flag over a run of codes.
abbrev pub through : (ℕ → Bool → Bool) → List ℕ → Bool → Bool
through f [] b = b
through f (code ∷ codes) b = through f codes (f code b)

-- From a keyboard with no error and no scan code, after a run of bytes of which none is read behind the
-- table, shift, control, alt and caps lock are what the codes of those keys alone leave: the last of them
-- pressed or released, and for caps lock one change each time it is pressed; the error and the scan code
-- are 0 again, whatever codes came.
pub run-through :
    (codes : List ℕ) (d e : Keyboard)
    → AreBytes codes
    → d.error ≡ 0
    → d.scancode ≡ 0
    → run codes d ≡ some e
    → (e.shift ≡ through shift_after codes d.shift)
      × (e.ctrl ≡ through ctrl_after codes d.ctrl)
      × (e.alt ≡ through alt_after codes d.alt)
      × (e.caps_lock ≡ through caps_after codes d.caps_lock)
      × (e.error ≡ 0)
      × (e.scancode ≡ 0)
unfolding run
run-through [] d e bytes clear empty ran =
    let same : d ≡ e = cc ran in
    subst
      (λ (x : Keyboard).
        (x.shift ≡ d.shift)
        × (x.ctrl ≡ d.ctrl)
        × (x.alt ≡ d.alt)
        × (x.caps_lock ≡ d.caps_lock)
        × (x.error ≡ 0)
        × (x.scancode ≡ 0))
      same (refl, refl, refl, refl, clear, empty)
run-through (code ∷ codes) d e (byte, bytes) clear empty ran =
    elim (Option-cases (isr_handler 1 code d)) [
      | inl missing ↦ absurd (none_ne_some (rw (run, missing) at ran))
      | inr ((key, d'), found) ↦
          let (after, empty', clear') = isr_handler-IsAfter code d d' key byte found in
          let (shift, ctrl, alt, caps, no_error, no_code) =
            run-through codes d' e bytes clear' empty' (rw (run, found) at ran) in
          (
            shift ∙ ap (through shift_after codes) after.shift_kept,
            ctrl ∙ ap (through ctrl_after codes) after.ctrl_kept,
            alt ∙ ap (through alt_after codes) after.alt_kept,
            caps ∙ ap (through caps_after codes) after.caps_kept,
            no_error,
            no_code,
          )
    ]
