-- ===== src/Keyboard.antt =====
-- kernel/kernel/devices/keyboard.cpp and kernel/include/kernel/devices/keyboard.h: the keyboard.
pub mod Codes
pub mod Keys
pub mod Modifiers
pub mod Ascii
mod Tests
use dim_os.Common.{
  ℕ, zero, suc, ◌+◌, ◌-◌, ◌%◌, ◌≡◌, Bool, true, false, not, ◌&&◌, ◌||◌, ◌==◌, ltb, leb,
  if◌then◌else◌, Option, some, none, List, [], ◌∷◌, get_elem?, bit_and,
}
use dim_os.Keyboard.Codes.{KeyCode, value, scancode_to_key_code}

-- `Keyboard`, with the `_extended` of its handler.
pub record Keyboard : Type 0 where
  pub scancode : ℕ
  pub num_lock : Bool
  pub scroll_lock : Bool
  pub caps_lock : Bool
  pub shift : Bool
  pub alt : Bool
  pub ctrl : Bool
  pub error : ℕ
  pub extended : Bool

abbrev pub invalid_scancode : ℕ
invalid_scancode = 0

-- The keyboard as its constructor leaves it.
abbrev pub first : Keyboard
first = record {
  scancode = invalid_scancode;
  num_lock = false;
  scroll_lock = false;
  caps_lock = false;
  shift = false;
  alt = false;
  ctrl = false;
  error = 0;
  extended = false;
}

-- The table at a scan code; `none` is a read behind its end.
pub key_at : ℕ → Option KeyCode
key_at code = get_elem? scancode_to_key_code code

-- `getLastKeyCode`
pub get_last_key_code : Keyboard → Option KeyCode
get_last_key_code d =
    if d.scancode == invalid_scancode then some KeyCode.key_unknown else key_at d.scancode

-- `discardLastKeyCode`
pub discard_last_key_code : Keyboard → Keyboard
discard_last_key_code d = record d { scancode = invalid_scancode }

abbrev pub is_key : KeyCode → KeyCode → Bool
is_key a b = value a == value b

-- A key of the handler's `switch` that is held: control, shift or alt.
pub hold : KeyCode → Bool → Keyboard → Keyboard
hold key down d =
    if is_key key KeyCode.key_lctrl || is_key key KeyCode.key_rctrl
    then record d { ctrl = down }
    else (if is_key key KeyCode.key_lshift || is_key key KeyCode.key_rshift
        then record d { shift = down }
        else (if is_key key KeyCode.key_lalt || is_key key KeyCode.key_ralt
            then record d { alt = down }
            else d))

-- A key that locks.
pub lock : KeyCode → Keyboard → Keyboard
lock key d =
    if is_key key KeyCode.key_capslock
    then record d { caps_lock = not d.caps_lock }
    else (if is_key key KeyCode.key_kp_numlock
        then record d { num_lock = not d.num_lock }
        else (if is_key key KeyCode.key_scrolllock
            then record d { scroll_lock = not d.scroll_lock }
            else d))

-- The handler's `switch` on the code for errors.
pub note_error : ℕ → Keyboard → Keyboard
note_error code d = record d {
  error = if (code == 252) || (code == 253) || (code == 254) then code else 0;
}

-- The handler on a code from the encoder: the code as it is then, and the keyboard.
pub take_code : ℕ → Keyboard → Option (ℕ × Keyboard)
take_code code d =
    if (code == 224) || (code == 225)
    then some (code, record d { extended = true })
    else (let d' = record d { extended = false } in
        if not (bit_and code 128 == 0)
        then elim (key_at (code - 128)) [
          | none ↦ none
          | some key ↦ some (code - 128, hold key false d')
        ]
        else elim (key_at code) [
          | none ↦ none
          | some key ↦ some (code, lock key (hold key true (record d' { scancode = code })))
        ])

-- The end of the handler: the key that goes to standard input, if there is one.
pub deliver : Keyboard → Option (Option KeyCode × Keyboard)
deliver d = elim (get_last_key_code d) [
  | none ↦ none
  | some key ↦
      some (if is_key key KeyCode.key_unknown then none else some key, discard_last_key_code d)
]

-- `isrHandler`, with what it reads from the controller and the encoder. It has no result where it reads
-- behind the table.
pub isr_handler : ℕ → ℕ → Keyboard → Option (Option KeyCode × Keyboard)
isr_handler status code d =
    if bit_and status 1 == 0
    then deliver d
    else elim (take_code code d) [ none ↦ none | some (code', d') ↦ deliver (note_error code' d') ]

abbrev pub is_digit : ℕ → Bool
is_digit key = leb b'0' key && leb key b'9'

abbrev pub is_lower : ℕ → Bool
is_lower key = leb b'a' key && leb key b'z'

-- The digits with shift.
pub shift_digit : ℕ → ℕ
shift_digit key =
    if key == b'0'
    then value KeyCode.key_rightparenthesis
    else (if key == b'1'
        then value KeyCode.key_exclamation
        else (if key == b'2'
            then value KeyCode.key_at
            else (if key == b'3'
                then value KeyCode.key_exclamation
                else (if key == b'4'
                    then value KeyCode.key_hash
                    else (if key == b'5'
                        then value KeyCode.key_percent
                        else (if key == b'6'
                            then value KeyCode.key_carret
                            else (if key == b'7'
                                then value KeyCode.key_ampersand
                                else (if key == b'8'
                                    then value KeyCode.key_asterisk
                                    else (if key == b'9'
                                        then value KeyCode.key_leftparenthesis
                                        else key)))))))))

-- The other characters with shift.
pub shift_sign : ℕ → ℕ
shift_sign key =
    if key == value KeyCode.key_comma
    then value KeyCode.key_less
    else (if key == value KeyCode.key_dot
        then value KeyCode.key_greater
        else (if key == value KeyCode.key_slash
            then value KeyCode.key_question
            else (if key == value KeyCode.key_semicolon
                then value KeyCode.key_colon
                else (if key == value KeyCode.key_quote
                    then value KeyCode.key_quotedouble
                    else (if key == value KeyCode.key_leftbracket
                        then value KeyCode.key_leftcurl
                        else (if key == value KeyCode.key_rightbracket
                            then value KeyCode.key_rightcurl
                            else (if key == value KeyCode.key_grave
                                then value KeyCode.key_tilde
                                else (if key == value KeyCode.key_minus
                                    then value KeyCode.key_underscore
                                    else (if key == value KeyCode.key_plus
                                        then value KeyCode.key_equal
                                        else (if key == value KeyCode.key_backslash
                                            then value KeyCode.key_bar
                                            else key))))))))))

-- `keyCodeToASCII` of the number of a key: `uint8_t` keeps eight bits of it.
pub key_code_to_ascii : Keyboard → ℕ → ℕ
key_code_to_ascii d code =
    let key = code % 256 in
    if leb key 127
    then (let upper = if (d.shift || d.caps_lock) && is_lower key then key - 32 else key in
        if d.shift && not d.caps_lock
        then (if is_digit upper then shift_digit upper else shift_sign upper)
        else upper)
    else 0
