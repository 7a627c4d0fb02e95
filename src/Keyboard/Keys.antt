-- ===== src/Keyboard/Keys.antt =====
-- Where the keys that the handler looks for stand in the table, and what it does with them.
use dim_os.Common.{
  all_below, all_below_lem, ℕ, ◌<◌, ◌≡◌, refl, Bool, true, false, not, ◌&&◌, ◌||◌, ◌==◌,
  if◌then◌else◌, some, none, arith,
}
use dim_os.Keyboard.{Keyboard, key_at, hold, lock, is_key}
use dim_os.Keyboard.Codes.{KeyCode}

abbrev pub same : Bool → Bool → Bool
same true b = b
same false b = not b

same_lem : (a b : Bool) → same a b ≡ true → a ≡ b
same_lem a b h = ground (arith, h)

-- The keys that the handler looks for, as its `switch` tells them apart.
abbrev pub is_ctrl : KeyCode → Bool
is_ctrl key = is_key key KeyCode.key_lctrl || is_key key KeyCode.key_rctrl

abbrev pub is_shift : KeyCode → Bool
is_shift key = not (is_ctrl key) && (is_key key KeyCode.key_lshift || is_key key KeyCode.key_rshift)

abbrev pub is_alt : KeyCode → Bool
is_alt key =
    not (is_ctrl key)
    && not (is_key key KeyCode.key_lshift || is_key key KeyCode.key_rshift)
    && (is_key key KeyCode.key_lalt || is_key key KeyCode.key_ralt)

abbrev pub is_caps : KeyCode → Bool
is_caps key = is_key key KeyCode.key_capslock

-- Where these keys stand in the table.
abbrev placed : ℕ → KeyCode → Bool
placed c key =
    same (is_ctrl key) (c == 29)
    && (same (is_shift key) ((c == 42) || (c == 54))
        && (same (is_alt key) (c == 56) && same (is_caps key) (c == 58)))

key_test : ℕ → Bool
key_test c = elim (key_at c) [ none ↦ true | some key ↦ placed c key ]

table_placed : all_below 256 key_test ≡ true
unfolding key_test key_at
table_placed = refl

pub record IsPlaced (c : ℕ) (key : KeyCode) : Type 0 where
  pub ctrl_at : is_ctrl key ≡ (c == 29)
  pub shift_at : is_shift key ≡ ((c == 42) || (c == 54))
  pub alt_at : is_alt key ≡ (c == 56)
  pub caps_at : is_caps key ≡ (c == 58)

pub key_at-IsPlaced : (c : ℕ) (key : KeyCode) → c < 256 → key_at c ≡ some key → IsPlaced c key
unfolding key_test
key_at-IsPlaced c key h found =
    let all : placed c key ≡ true =
      rw (key_test, found) at (all_below_lem 256 key_test table_placed c h) in
    record {
      ctrl_at = same_lem (is_ctrl key) (c == 29) (ground (arith, all));
      shift_at = same_lem (is_shift key) ((c == 42) || (c == 54)) (ground (arith, all));
      alt_at = same_lem (is_alt key) (c == 56) (ground (arith, all));
      caps_at = same_lem (is_caps key) (c == 58) (ground (arith, all));
    }

-- What one code does to the modifiers.
abbrev pub shift_after : ℕ → Bool → Bool
shift_after code b =
    if (code == 42) || (code == 54)
    then true
    else (if (code == 170) || (code == 182) then false else b)

abbrev pub ctrl_after : ℕ → Bool → Bool
ctrl_after code b = if code == 29 then true else (if code == 157 then false else b)

abbrev pub alt_after : ℕ → Bool → Bool
alt_after code b = if code == 56 then true else (if code == 184 then false else b)

abbrev pub caps_after : ℕ → Bool → Bool
caps_after code b = if code == 58 then not b else b

pub hold_lem :
    (key : KeyCode) (down : Bool) (d : Keyboard)
    → ((hold key down d).ctrl ≡ (if is_ctrl key then down else d.ctrl))
      × ((hold key down d).shift ≡ (if is_shift key then down else d.shift))
      × ((hold key down d).alt ≡ (if is_alt key then down else d.alt))
      × ((hold key down d).caps_lock ≡ d.caps_lock)
unfolding hold
hold_lem key down d = (ground arith, ground arith, ground arith, ground arith)

pub lock_lem :
    (key : KeyCode) (d : Keyboard)
    → ((lock key d).ctrl ≡ d.ctrl)
      × ((lock key d).shift ≡ d.shift)
      × ((lock key d).alt ≡ d.alt)
      × ((lock key d).caps_lock ≡ (if is_caps key then not d.caps_lock else d.caps_lock))
unfolding lock
lock_lem key d = (ground arith, ground arith, ground arith, ground arith)
