-- ===== src/Keyboard/Tests.antt =====
-- The theorems about the keyboard at short runs of codes, and runs of the code on them.
use dim_os.Common.{ℕ, ◌≡◌, refl, true, false, some, List, [], ◌∷◌, arith}
use dim_os.Keyboard.{
  Keyboard, first, key_at, get_last_key_code, discard_last_key_code, hold, lock, note_error,
  take_code, deliver, isr_handler,
}
use dim_os.Keyboard.Keys.{shift_after, ctrl_after, alt_after, caps_after}
use dim_os.Keyboard.Modifiers.{run, through, run-through}

-- Shift down, A, caps lock.
abbrev three_codes : List ℕ
three_codes = 42 ∷ 30 ∷ 58 ∷ []

abbrev shouting : Keyboard
shouting = record first { shift = true; caps_lock = true }

three_ran : run three_codes first ≡ some shouting
unfolding run isr_handler take_code key_at hold lock note_error deliver get_last_key_code
    discard_last_key_code
three_ran = refl

run-through_example :
    (true ≡ through shift_after three_codes false)
    × (false ≡ through ctrl_after three_codes false)
    × (false ≡ through alt_after three_codes false)
    × (true ≡ through caps_after three_codes false)
    × (shouting.error ≡ 0)
    × (shouting.scancode ≡ 0)
run-through_example =
    run-through three_codes first shouting (omega arith, (omega arith, (omega arith, omega arith)))
      refl refl three_ran
