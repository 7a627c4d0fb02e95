-- ===== src/Keyboard/Codes.antt =====
-- kernel/include/kernel/devices/keyboard.h: the keys, their codes, and the table from scan codes to keys.
use dim_os.Common.{ℕ, List, [], ◌∷◌}

-- `Keyboard::KeyCode`
pub data KeyCode : Type 0 where
  key_space key_0 key_1 key_2 key_3 key_4 key_5 key_6 : KeyCode
  key_7 key_8 key_9 key_a key_b key_c key_d key_e : KeyCode
  key_f key_g key_h key_i key_j key_k key_l key_m : KeyCode
  key_n key_o key_p key_q key_r key_s key_t key_u : KeyCode
  key_v key_w key_x key_y key_z key_return key_escape key_backspace : KeyCode
  key_up key_down key_left key_right key_f1 key_f2 key_f3 key_f4 : KeyCode
  key_f5 key_f6 key_f7 key_f8 key_f9 key_f10 key_f11 key_f12 : KeyCode
  key_f13 key_f14 key_f15 key_dot key_comma key_colon key_semicolon key_slash : KeyCode
  key_backslash key_plus key_minus key_asterisk key_exclamation key_question key_quotedouble
        key_quote :
      KeyCode
  key_equal key_hash key_percent key_ampersand key_underscore key_leftparenthesis
        key_rightparenthesis key_leftbracket :
      KeyCode
  key_rightbracket key_leftcurl key_rightcurl key_dollar key_euro key_less key_greater key_bar :
      KeyCode
  key_grave key_tilde key_at key_carret key_kp_0 key_kp_1 key_kp_2 key_kp_3 : KeyCode
  key_kp_4 key_kp_5 key_kp_6 key_kp_7 key_kp_8 key_kp_9 key_kp_plus key_kp_minus : KeyCode
  key_kp_decimal key_kp_divide key_kp_asterisk key_kp_numlock key_kp_enter key_tab key_capslock
        key_lshift :
      KeyCode
  key_lctrl key_lalt key_lwin key_rshift key_rctrl key_ralt key_rwin key_insert : KeyCode
  key_delete key_home key_end key_pageup key_pagedown key_scrolllock key_pause key_unknown : KeyCode
  key_numkeycodes : KeyCode

-- The number of a key. Keys of the keypad have the numbers of the keys that write the same.
abbrev pub value : KeyCode → ℕ
value KeyCode.key_space = 32
value KeyCode.key_0 = 48
value KeyCode.key_1 = 49
value KeyCode.key_2 = 50
value KeyCode.key_3 = 51
value KeyCode.key_4 = 52
value KeyCode.key_5 = 53
value KeyCode.key_6 = 54
value KeyCode.key_7 = 55
value KeyCode.key_8 = 56
value KeyCode.key_9 = 57
value KeyCode.key_a = 97
value KeyCode.key_b = 98
value KeyCode.key_c = 99
value KeyCode.key_d = 100
value KeyCode.key_e = 101
value KeyCode.key_f = 102
value KeyCode.key_g = 103
value KeyCode.key_h = 104
value KeyCode.key_i = 105
value KeyCode.key_j = 106
value KeyCode.key_k = 107
value KeyCode.key_l = 108
value KeyCode.key_m = 109
value KeyCode.key_n = 110
value KeyCode.key_o = 111
value KeyCode.key_p = 112
value KeyCode.key_q = 113
value KeyCode.key_r = 114
value KeyCode.key_s = 115
value KeyCode.key_t = 116
value KeyCode.key_u = 117
value KeyCode.key_v = 118
value KeyCode.key_w = 119
value KeyCode.key_x = 120
value KeyCode.key_y = 121
value KeyCode.key_z = 122
value KeyCode.key_return = 13
value KeyCode.key_escape = 4097
value KeyCode.key_backspace = 8
value KeyCode.key_up = 4352
value KeyCode.key_down = 4353
value KeyCode.key_left = 4354
value KeyCode.key_right = 4355
value KeyCode.key_f1 = 4609
value KeyCode.key_f2 = 4610
value KeyCode.key_f3 = 4611
value KeyCode.key_f4 = 4612
value KeyCode.key_f5 = 4613
value KeyCode.key_f6 = 4614
value KeyCode.key_f7 = 4615
value KeyCode.key_f8 = 4616
value KeyCode.key_f9 = 4617
value KeyCode.key_f10 = 4618
value KeyCode.key_f11 = 4619
value KeyCode.key_f12 = 4619
value KeyCode.key_f13 = 4620
value KeyCode.key_f14 = 4621
value KeyCode.key_f15 = 4622
value KeyCode.key_dot = 46
value KeyCode.key_comma = 44
value KeyCode.key_colon = 58
value KeyCode.key_semicolon = 59
value KeyCode.key_slash = 47
value KeyCode.key_backslash = 92
value KeyCode.key_plus = 43
value KeyCode.key_minus = 45
value KeyCode.key_asterisk = 42
value KeyCode.key_exclamation = 33
value KeyCode.key_question = 63
value KeyCode.key_quotedouble = 34
value KeyCode.key_quote = 39
value KeyCode.key_equal = 61
value KeyCode.key_hash = 35
value KeyCode.key_percent = 37
value KeyCode.key_ampersand = 38
value KeyCode.key_underscore = 95
value KeyCode.key_leftparenthesis = 40
value KeyCode.key_rightparenthesis = 41
value KeyCode.key_leftbracket = 91
value KeyCode.key_rightbracket = 93
value KeyCode.key_leftcurl = 123
value KeyCode.key_rightcurl = 125
value KeyCode.key_dollar = 36
value KeyCode.key_euro = 36
value KeyCode.key_less = 60
value KeyCode.key_greater = 62
value KeyCode.key_bar = 124
value KeyCode.key_grave = 96
value KeyCode.key_tilde = 126
value KeyCode.key_at = 64
value KeyCode.key_carret = 94
value KeyCode.key_kp_0 = 48
value KeyCode.key_kp_1 = 49
value KeyCode.key_kp_2 = 50
value KeyCode.key_kp_3 = 51
value KeyCode.key_kp_4 = 52
value KeyCode.key_kp_5 = 53
value KeyCode.key_kp_6 = 54
value KeyCode.key_kp_7 = 55
value KeyCode.key_kp_8 = 56
value KeyCode.key_kp_9 = 57
value KeyCode.key_kp_plus = 43
value KeyCode.key_kp_minus = 45
value KeyCode.key_kp_decimal = 46
value KeyCode.key_kp_divide = 47
value KeyCode.key_kp_asterisk = 42
value KeyCode.key_kp_numlock = 12303
value KeyCode.key_kp_enter = 12304
value KeyCode.key_tab = 16384
value KeyCode.key_capslock = 16385
value KeyCode.key_lshift = 16386
value KeyCode.key_lctrl = 16387
value KeyCode.key_lalt = 16388
value KeyCode.key_lwin = 16389
value KeyCode.key_rshift = 16390
value KeyCode.key_rctrl = 16391
value KeyCode.key_ralt = 16392
value KeyCode.key_rwin = 16393
value KeyCode.key_insert = 16394
value KeyCode.key_delete = 16395
value KeyCode.key_home = 16396
value KeyCode.key_end = 16397
value KeyCode.key_pageup = 16398
value KeyCode.key_pagedown = 16399
value KeyCode.key_scrolllock = 16400
value KeyCode.key_pause = 16401
value KeyCode.key_unknown = 16402
value KeyCode.key_numkeycodes = 16403

-- `scancodeToKeyCode`
abbrev pub scancode_to_key_code : List KeyCode
scancode_to_key_code =
    KeyCode.key_unknown ∷ KeyCode.key_escape ∷ KeyCode.key_1 ∷ KeyCode.key_2 ∷ KeyCode.key_3
    ∷ KeyCode.key_4 ∷ KeyCode.key_5 ∷ KeyCode.key_6 ∷ KeyCode.key_7 ∷ KeyCode.key_8 ∷ KeyCode.key_9
    ∷ KeyCode.key_0 ∷ KeyCode.key_minus ∷ KeyCode.key_equal ∷ KeyCode.key_backspace
    ∷ KeyCode.key_tab ∷ KeyCode.key_q ∷ KeyCode.key_w ∷ KeyCode.key_e ∷ KeyCode.key_r
    ∷ KeyCode.key_t ∷ KeyCode.key_y ∷ KeyCode.key_u ∷ KeyCode.key_i ∷ KeyCode.key_o ∷ KeyCode.key_p
    ∷ KeyCode.key_leftbracket ∷ KeyCode.key_rightbracket ∷ KeyCode.key_return ∷ KeyCode.key_lctrl
    ∷ KeyCode.key_a ∷ KeyCode.key_s ∷ KeyCode.key_d ∷ KeyCode.key_f ∷ KeyCode.key_g ∷ KeyCode.key_h
    ∷ KeyCode.key_j ∷ KeyCode.key_k ∷ KeyCode.key_l ∷ KeyCode.key_semicolon ∷ KeyCode.key_quote
    ∷ KeyCode.key_grave ∷ KeyCode.key_lshift ∷ KeyCode.key_backslash ∷ KeyCode.key_z ∷ KeyCode.key_x
    ∷ KeyCode.key_c ∷ KeyCode.key_v ∷ KeyCode.key_b ∷ KeyCode.key_n ∷ KeyCode.key_m
    ∷ KeyCode.key_comma ∷ KeyCode.key_dot ∷ KeyCode.key_slash ∷ KeyCode.key_rshift
    ∷ KeyCode.key_kp_asterisk ∷ KeyCode.key_ralt ∷ KeyCode.key_space ∷ KeyCode.key_capslock
    ∷ KeyCode.key_f1 ∷ KeyCode.key_f2 ∷ KeyCode.key_f3 ∷ KeyCode.key_f4 ∷ KeyCode.key_f5
    ∷ KeyCode.key_f6 ∷ KeyCode.key_f7 ∷ KeyCode.key_f8 ∷ KeyCode.key_f9 ∷ KeyCode.key_f10
    ∷ KeyCode.key_kp_numlock ∷ KeyCode.key_scrolllock ∷ KeyCode.key_home ∷ KeyCode.key_kp_8
    ∷ KeyCode.key_pageup ∷ KeyCode.key_kp_2 ∷ KeyCode.key_kp_3 ∷ KeyCode.key_kp_0
    ∷ KeyCode.key_kp_decimal ∷ KeyCode.key_unknown ∷ KeyCode.key_unknown ∷ KeyCode.key_unknown
    ∷ KeyCode.key_f11 ∷ KeyCode.key_f12 ∷ []
