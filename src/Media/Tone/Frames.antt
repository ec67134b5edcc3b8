-- ===== src/Media/Tone/Frames.antt =====
-- crates/bluetooth-audio-core/src/sbc_tone_frames.rs: the encoded frames of the test tone, one
-- definition for each bitpool. Their bytes are those of the table in the source, in its order.
use canopus_module_bluetooth.Base.{ℕ, List, [], ◌∷◌, ◌++◌}

unfoldable pub frame_27 : List ℕ
frame_27 =
    0x9e ∷ 0xbb ∷ 0x19 ∷ 0xe3 ∷ 0xc0 ∷ 0x13 ∷ 0x02 ∷ 0x02 ∷ 0xc0 ∷ 0x13 ∷ 0x02 ∷ 0x02 ∷ 0x0b ∷ 0xce
    ∷ 0x25 ∷ 0x94 ∷ 0x19 ∷ 0x5a ∷ 0x59 ∷ 0xda ∷ 0x3d ∷ 0x5f ∷ 0xa5 ∷ 0x82 ∷ 0x9c ∷ 0x02 ∷ 0x9e
    ∷ 0xc0 ∷ 0x7b ∷ 0x63 ∷ 0xb7 ∷ 0x87 ∷ 0xbf ∷ 0x81 ∷ 0xf7 ∷ 0xd8 ∷ 0x7a ∷ 0x0b ∷ 0xe2 ∷ 0x0b
    ∷ 0xce ∷ 0x25 ∷ 0x94 ∷ 0x19 ∷ 0x5a ∷ 0x59 ∷ 0xda ∷ 0x3d ∷ 0x5f ∷ 0xa5 ∷ 0x82 ∷ 0x9c ∷ 0x02
    ∷ 0x9e ∷ 0xc0 ∷ 0x7b ∷ 0x63 ∷ 0xb7 ∷ 0x87 ∷ 0xbf ∷ 0x81 ∷ 0xf7 ∷ 0xd8 ∷ 0x7a ∷ 0x0b ∷ 0xe2 ∷ []

unfoldable pub frame_28 : List ℕ
frame_28 =
    0x9e ∷ 0xbb ∷ 0x1e ∷ 0xc5 ∷ 0xc0 ∷ 0x13 ∷ 0x02 ∷ 0x02 ∷ 0xc0 ∷ 0x13 ∷ 0x02 ∷ 0x02 ∷ 0x0b ∷ 0xda
    ∷ 0x11 ∷ 0xc9 ∷ 0x09 ∷ 0x34 ∷ 0x14 ∷ 0xf7 ∷ 0xdf ∷ 0xe9 ∷ 0xb6 ∷ 0xf2 ∷ 0x2b ∷ 0xe2 ∷ 0x0b
    ∷ 0xda ∷ 0x11 ∷ 0xc9 ∷ 0x09 ∷ 0x34 ∷ 0x14 ∷ 0xf7 ∷ 0xdf ∷ 0xe9 ∷ 0xb6 ∷ 0xf2 ∷ 0x2b ∷ 0xe2
    ∷ 0x0b ∷ 0xda ∷ 0x11 ∷ 0xc9 ∷ 0x09 ∷ 0x34 ∷ 0x14 ∷ 0xf7 ∷ 0xdf ∷ 0xe9 ∷ 0xb6 ∷ 0xf2 ∷ 0x2b
    ∷ 0xe2 ∷ 0x0b ∷ 0xda ∷ 0x11 ∷ 0xc9 ∷ 0x09 ∷ 0x34 ∷ 0x14 ∷ 0xf7 ∷ 0xdf ∷ 0xe9 ∷ 0xb6 ∷ 0xf2
    ∷ 0x2b ∷ 0xe2 ∷ []

unfoldable pub frame_29 : List ℕ
frame_29 =
    0x9e ∷ 0xbb ∷ 0x1f ∷ 0xa0 ∷ 0xc0 ∷ 0x13 ∷ 0x02 ∷ 0x02 ∷ 0xc0 ∷ 0x13 ∷ 0x02 ∷ 0x02 ∷ 0x0b ∷ 0xce
    ∷ 0x0b ∷ 0xe7 ∷ 0x84 ∷ 0xcf ∷ 0x87 ∷ 0xbf ∷ 0x81 ∷ 0xbf ∷ 0x74 ∷ 0x9c ∷ 0x00 ∷ 0x9c ∷ 0x02
    ∷ 0x9e ∷ 0xc2 ∷ 0x9c ∷ 0x5a ∷ 0x6e ∷ 0xda ∷ 0x59 ∷ 0xda ∷ 0x39 ∷ 0xd5 ∷ 0x6b ∷ 0xe2 ∷ 0x2b
    ∷ 0xe2 ∷ 0x0b ∷ 0xce ∷ 0x0b ∷ 0xe7 ∷ 0x84 ∷ 0xcf ∷ 0x87 ∷ 0xbf ∷ 0x81 ∷ 0xbf ∷ 0x74 ∷ 0x9c
    ∷ 0x00 ∷ 0x9c ∷ 0x02 ∷ 0x9e ∷ 0xc2 ∷ 0x9c ∷ 0x5a ∷ 0x6e ∷ 0xda ∷ 0x59 ∷ 0xda ∷ 0x39 ∷ 0xd5
    ∷ 0x6b ∷ 0xe2 ∷ 0x2b ∷ 0xe2 ∷ []

unfoldable pub frame_30 : List ℕ
frame_30 =
    0x9e ∷ 0xbb ∷ 0x1c ∷ 0x0f ∷ 0xc0 ∷ 0x13 ∷ 0x02 ∷ 0x02 ∷ 0xc0 ∷ 0x13 ∷ 0x02 ∷ 0x02 ∷ 0x0b ∷ 0xda
    ∷ 0x11 ∷ 0xc0 ∷ 0xc0 ∷ 0xcf ∷ 0x87 ∷ 0x9d ∷ 0x5f ∷ 0xdc ∷ 0xb9 ∷ 0x91 ∷ 0xc2 ∷ 0xa5 ∷ 0x83
    ∷ 0x0b ∷ 0xda ∷ 0x11 ∷ 0xc0 ∷ 0xc0 ∷ 0xcf ∷ 0x87 ∷ 0x9d ∷ 0x5f ∷ 0xdc ∷ 0xb9 ∷ 0x91 ∷ 0xc2
    ∷ 0xa5 ∷ 0x83 ∷ 0x0b ∷ 0xda ∷ 0x11 ∷ 0xc0 ∷ 0xc0 ∷ 0xcf ∷ 0x87 ∷ 0x9d ∷ 0x5f ∷ 0xdc ∷ 0xb9
    ∷ 0x91 ∷ 0xc2 ∷ 0xa5 ∷ 0x83 ∷ 0x0b ∷ 0xda ∷ 0x11 ∷ 0xc0 ∷ 0xc0 ∷ 0xcf ∷ 0x87 ∷ 0x9d ∷ 0x5f
    ∷ 0xdc ∷ 0xb9 ∷ 0x91 ∷ 0xc2 ∷ 0xa5 ∷ 0x83 ∷ []

unfoldable pub frame_31 : List ℕ
frame_31 =
    0x9e ∷ 0xbb ∷ 0x1d ∷ 0x6a ∷ 0xc0 ∷ 0x13 ∷ 0x02 ∷ 0x02 ∷ 0xc0 ∷ 0x13 ∷ 0x02 ∷ 0x02 ∷ 0x0b ∷ 0xce
    ∷ 0x0b ∷ 0xe3 ∷ 0x63 ∷ 0xb1 ∷ 0x63 ∷ 0x65 ∷ 0xda ∷ 0x39 ∷ 0xd5 ∷ 0x70 ∷ 0x7a ∷ 0x08 ∷ 0x7a
    ∷ 0x12 ∷ 0x9e ∷ 0xc2 ∷ 0x9c ∷ 0x14 ∷ 0x19 ∷ 0x34 ∷ 0x14 ∷ 0x7f ∷ 0x81 ∷ 0xbf ∷ 0x75 ∷ 0x25
    ∷ 0x82 ∷ 0xa5 ∷ 0x83 ∷ 0x0b ∷ 0xce ∷ 0x0b ∷ 0xe3 ∷ 0x63 ∷ 0xb1 ∷ 0x63 ∷ 0x65 ∷ 0xda ∷ 0x39
    ∷ 0xd5 ∷ 0x70 ∷ 0x7a ∷ 0x08 ∷ 0x7a ∷ 0x12 ∷ 0x9e ∷ 0xc2 ∷ 0x9c ∷ 0x14 ∷ 0x19 ∷ 0x34 ∷ 0x14
    ∷ 0x7f ∷ 0x81 ∷ 0xbf ∷ 0x75 ∷ 0x25 ∷ 0x82 ∷ 0xa5 ∷ 0x83 ∷ []

unfoldable pub frame_32 : List ℕ
frame_32 =
    0x9e ∷ 0xbb ∷ 0x22 ∷ 0x61 ∷ 0xc0 ∷ 0x13 ∷ 0x02 ∷ 0x02 ∷ 0xc0 ∷ 0x13 ∷ 0x02 ∷ 0x02 ∷ 0x0b ∷ 0xda
    ∷ 0x86 ∷ 0xf2 ∷ 0xb2 ∷ 0xb0 ∷ 0x5a ∷ 0x5b ∷ 0xf7 ∷ 0xde ∷ 0xf8 ∷ 0xec ∷ 0x4d ∷ 0x01 ∷ 0x25
    ∷ 0x83 ∷ 0x0b ∷ 0xda ∷ 0x86 ∷ 0xf2 ∷ 0xb2 ∷ 0xb0 ∷ 0x5a ∷ 0x5b ∷ 0xf7 ∷ 0xde ∷ 0xf8 ∷ 0xec
    ∷ 0x4d ∷ 0x01 ∷ 0x25 ∷ 0x83 ∷ 0x0b ∷ 0xda ∷ 0x86 ∷ 0xf2 ∷ 0xb2 ∷ 0xb0 ∷ 0x5a ∷ 0x5b ∷ 0xf7
    ∷ 0xde ∷ 0xf8 ∷ 0xec ∷ 0x4d ∷ 0x01 ∷ 0x25 ∷ 0x83 ∷ 0x0b ∷ 0xda ∷ 0x86 ∷ 0xf2 ∷ 0xb2 ∷ 0xb0
    ∷ 0x5a ∷ 0x5b ∷ 0xf7 ∷ 0xde ∷ 0xf8 ∷ 0xec ∷ 0x4d ∷ 0x01 ∷ 0x25 ∷ 0x83 ∷ []

unfoldable pub frame_33 : List ℕ
frame_33 =
    0x9e ∷ 0xbb ∷ 0x23 ∷ 0x04 ∷ 0xc0 ∷ 0x13 ∷ 0x02 ∷ 0x02 ∷ 0xc0 ∷ 0x13 ∷ 0x02 ∷ 0x02 ∷ 0x0b ∷ 0xce
    ∷ 0x40 ∷ 0x7a ∷ 0x5a ∷ 0x6e ∷ 0x94 ∷ 0x14 ∷ 0x7f ∷ 0x81 ∷ 0x9d ∷ 0x5f ∷ 0xcb ∷ 0xe2 ∷ 0x30
    ∷ 0x7a ∷ 0x12 ∷ 0x9e ∷ 0xc6 ∷ 0x25 ∷ 0x87 ∷ 0x84 ∷ 0xcb ∷ 0x63 ∷ 0x65 ∷ 0xda ∷ 0x3b ∷ 0xf7
    ∷ 0xde ∷ 0x9c ∷ 0x01 ∷ 0x25 ∷ 0x83 ∷ 0x0b ∷ 0xce ∷ 0x40 ∷ 0x7a ∷ 0x5a ∷ 0x6e ∷ 0x94 ∷ 0x14
    ∷ 0x7f ∷ 0x81 ∷ 0x9d ∷ 0x5f ∷ 0xcb ∷ 0xe2 ∷ 0x30 ∷ 0x7a ∷ 0x12 ∷ 0x9e ∷ 0xc6 ∷ 0x25 ∷ 0x87
    ∷ 0x84 ∷ 0xcb ∷ 0x63 ∷ 0x65 ∷ 0xda ∷ 0x3b ∷ 0xf7 ∷ 0xde ∷ 0x9c ∷ 0x01 ∷ 0x25 ∷ 0x83 ∷ []

unfoldable pub frame_34 : List ℕ
frame_34 =
    0x9e ∷ 0xbb ∷ 0x20 ∷ 0xab ∷ 0xc0 ∷ 0x13 ∷ 0x02 ∷ 0x02 ∷ 0xc0 ∷ 0x13 ∷ 0x02 ∷ 0x02 ∷ 0x0b ∷ 0xda
    ∷ 0x86 ∷ 0xf2 ∷ 0x6e ∷ 0x2e ∷ 0x94 ∷ 0x14 ∷ 0x4d ∷ 0x5f ∷ 0xcd ∷ 0xac ∷ 0xe7 ∷ 0x3e ∷ 0x0e
    ∷ 0x9c ∷ 0x04 ∷ 0x0b ∷ 0xda ∷ 0x86 ∷ 0xf2 ∷ 0x6e ∷ 0x2e ∷ 0x94 ∷ 0x14 ∷ 0x4d ∷ 0x5f ∷ 0xcd
    ∷ 0xac ∷ 0xe7 ∷ 0x3e ∷ 0x0e ∷ 0x9c ∷ 0x04 ∷ 0x0b ∷ 0xda ∷ 0x86 ∷ 0xf2 ∷ 0x6e ∷ 0x2e ∷ 0x94
    ∷ 0x14 ∷ 0x4d ∷ 0x5f ∷ 0xcd ∷ 0xac ∷ 0xe7 ∷ 0x3e ∷ 0x0e ∷ 0x9c ∷ 0x04 ∷ 0x0b ∷ 0xda ∷ 0x86
    ∷ 0xf2 ∷ 0x6e ∷ 0x2e ∷ 0x94 ∷ 0x14 ∷ 0x4d ∷ 0x5f ∷ 0xcd ∷ 0xac ∷ 0xe7 ∷ 0x3e ∷ 0x0e ∷ 0x9c
    ∷ 0x04 ∷ []

unfoldable pub frame_35 : List ℕ
frame_35 =
    0x9e ∷ 0xbb ∷ 0x21 ∷ 0xce ∷ 0xc0 ∷ 0x13 ∷ 0x02 ∷ 0x02 ∷ 0xc0 ∷ 0x13 ∷ 0x02 ∷ 0x02 ∷ 0x0b ∷ 0xce
    ∷ 0x40 ∷ 0x7a ∷ 0x34 ∷ 0x19 ∷ 0x27 ∷ 0x87 ∷ 0x91 ∷ 0xda ∷ 0x3b ∷ 0xf7 ∷ 0xde ∷ 0xa5 ∷ 0x82
    ∷ 0xcb ∷ 0xe2 ∷ 0x62 ∷ 0x9e ∷ 0xc6 ∷ 0x25 ∷ 0x81 ∷ 0x63 ∷ 0xb0 ∷ 0x5a ∷ 0x5b ∷ 0x3f ∷ 0x81
    ∷ 0x9d ∷ 0x5f ∷ 0xc8 ∷ 0x7a ∷ 0x0e ∷ 0x9c ∷ 0x04 ∷ 0x0b ∷ 0xce ∷ 0x40 ∷ 0x7a ∷ 0x34 ∷ 0x19
    ∷ 0x27 ∷ 0x87 ∷ 0x91 ∷ 0xda ∷ 0x3b ∷ 0xf7 ∷ 0xde ∷ 0xa5 ∷ 0x82 ∷ 0xcb ∷ 0xe2 ∷ 0x62 ∷ 0x9e
    ∷ 0xc6 ∷ 0x25 ∷ 0x81 ∷ 0x63 ∷ 0xb0 ∷ 0x5a ∷ 0x5b ∷ 0x3f ∷ 0x81 ∷ 0x9d ∷ 0x5f ∷ 0xc8 ∷ 0x7a
    ∷ 0x0e ∷ 0x9c ∷ 0x04 ∷ []

unfoldable pub frame_36 : List ℕ
frame_36 =
    0x9e ∷ 0xbb ∷ 0x26 ∷ 0xe8 ∷ 0xc0 ∷ 0x13 ∷ 0x02 ∷ 0x02 ∷ 0xc0 ∷ 0x13 ∷ 0x02 ∷ 0x02 ∷ 0x0b ∷ 0xce
    ∷ 0x40 ∷ 0x76 ∷ 0x19 ∷ 0x0f ∷ 0x90 ∷ 0xc1 ∷ 0x66 ∷ 0xf4 ∷ 0x0c ∷ 0x7f ∷ 0x81 ∷ 0x96 ∷ 0xf2
    ∷ 0x1b ∷ 0x3e ∷ 0x04 ∷ 0x0b ∷ 0xce ∷ 0x40 ∷ 0x76 ∷ 0x19 ∷ 0x0f ∷ 0x90 ∷ 0xc1 ∷ 0x66 ∷ 0xf4
    ∷ 0x0c ∷ 0x7f ∷ 0x81 ∷ 0x96 ∷ 0xf2 ∷ 0x1b ∷ 0x3e ∷ 0x04 ∷ 0x0b ∷ 0xce ∷ 0x40 ∷ 0x76 ∷ 0x19
    ∷ 0x0f ∷ 0x90 ∷ 0xc1 ∷ 0x66 ∷ 0xf4 ∷ 0x0c ∷ 0x7f ∷ 0x81 ∷ 0x96 ∷ 0xf2 ∷ 0x1b ∷ 0x3e ∷ 0x04
    ∷ 0x0b ∷ 0xce ∷ 0x40 ∷ 0x76 ∷ 0x19 ∷ 0x0f ∷ 0x90 ∷ 0xc1 ∷ 0x66 ∷ 0xf4 ∷ 0x0c ∷ 0x7f ∷ 0x81
    ∷ 0x96 ∷ 0xf2 ∷ 0x1b ∷ 0x3e ∷ 0x04 ∷ []

unfoldable pub frame_37 : List ℕ
frame_37 =
    0x9e ∷ 0xbb ∷ 0x27 ∷ 0x8d ∷ 0xc0 ∷ 0x13 ∷ 0x02 ∷ 0x02 ∷ 0xc0 ∷ 0x13 ∷ 0x02 ∷ 0x02 ∷ 0x0b ∷ 0xd2
    ∷ 0x23 ∷ 0x38 ∷ 0x0f ∷ 0x84 ∷ 0xe6 ∷ 0xb2 ∷ 0xdb ∷ 0x3f ∷ 0x81 ∷ 0x4d ∷ 0xb2 ∷ 0x70 ∷ 0x9c
    ∷ 0x03 ∷ 0x91 ∷ 0xc2 ∷ 0x62 ∷ 0x9f ∷ 0x00 ∷ 0x11 ∷ 0xa2 ∷ 0xda ∷ 0x6c ∷ 0x49 ∷ 0x0f ∷ 0x91
    ∷ 0xda ∷ 0x36 ∷ 0xf9 ∷ 0x05 ∷ 0x2b ∷ 0xe2 ∷ 0x1b ∷ 0x3e ∷ 0x04 ∷ 0x0b ∷ 0xd2 ∷ 0x23 ∷ 0x38
    ∷ 0x0f ∷ 0x84 ∷ 0xe6 ∷ 0xb2 ∷ 0xdb ∷ 0x3f ∷ 0x81 ∷ 0x4d ∷ 0xb2 ∷ 0x70 ∷ 0x9c ∷ 0x03 ∷ 0x91
    ∷ 0xc2 ∷ 0x62 ∷ 0x9f ∷ 0x00 ∷ 0x11 ∷ 0xa2 ∷ 0xda ∷ 0x6c ∷ 0x49 ∷ 0x0f ∷ 0x91 ∷ 0xda ∷ 0x36
    ∷ 0xf9 ∷ 0x05 ∷ 0x2b ∷ 0xe2 ∷ 0x1b ∷ 0x3e ∷ 0x04 ∷ []

unfoldable pub frame_38 : List ℕ
frame_38 =
    0x9e ∷ 0xbb ∷ 0x24 ∷ 0x22 ∷ 0xc0 ∷ 0x13 ∷ 0x02 ∷ 0x02 ∷ 0xc0 ∷ 0x13 ∷ 0x02 ∷ 0x02 ∷ 0x0b ∷ 0xd2
    ∷ 0x23 ∷ 0x38 ∷ 0x04 ∷ 0xc1 ∷ 0x70 ∷ 0x5a ∷ 0x6c ∷ 0x4d ∷ 0x62 ∷ 0xd1 ∷ 0xee ∷ 0x18 ∷ 0x51
    ∷ 0xc2 ∷ 0x30 ∷ 0x7a ∷ 0x04 ∷ 0x0b ∷ 0xd2 ∷ 0x23 ∷ 0x38 ∷ 0x04 ∷ 0xc1 ∷ 0x70 ∷ 0x5a ∷ 0x6c
    ∷ 0x4d ∷ 0x62 ∷ 0xd1 ∷ 0xee ∷ 0x18 ∷ 0x51 ∷ 0xc2 ∷ 0x30 ∷ 0x7a ∷ 0x04 ∷ 0x0b ∷ 0xd2 ∷ 0x23
    ∷ 0x38 ∷ 0x04 ∷ 0xc1 ∷ 0x70 ∷ 0x5a ∷ 0x6c ∷ 0x4d ∷ 0x62 ∷ 0xd1 ∷ 0xee ∷ 0x18 ∷ 0x51 ∷ 0xc2
    ∷ 0x30 ∷ 0x7a ∷ 0x04 ∷ 0x0b ∷ 0xd2 ∷ 0x23 ∷ 0x38 ∷ 0x04 ∷ 0xc1 ∷ 0x70 ∷ 0x5a ∷ 0x6c ∷ 0x4d
    ∷ 0x62 ∷ 0xd1 ∷ 0xee ∷ 0x18 ∷ 0x51 ∷ 0xc2 ∷ 0x30 ∷ 0x7a ∷ 0x04 ∷ []

unfoldable pub frame_39 : List ℕ
frame_39 =
    0x9e ∷ 0xbb ∷ 0x25 ∷ 0x47 ∷ 0xc0 ∷ 0x13 ∷ 0x02 ∷ 0x02 ∷ 0xc0 ∷ 0x13 ∷ 0x02 ∷ 0x02 ∷ 0x0b ∷ 0xd2
    ∷ 0x52 ∷ 0x9f ∷ 0x01 ∷ 0x63 ∷ 0xb8 ∷ 0x14 ∷ 0x19 ∷ 0x91 ∷ 0xda ∷ 0x37 ∷ 0x7f ∷ 0x81 ∷ 0x48
    ∷ 0x7a ∷ 0x07 ∷ 0x25 ∷ 0x82 ∷ 0x62 ∷ 0x9f ∷ 0x07 ∷ 0x0b ∷ 0xd2 ∷ 0x34 ∷ 0x19 ∷ 0xa3 ∷ 0x63
    ∷ 0xbb ∷ 0x3f ∷ 0x81 ∷ 0x55 ∷ 0xda ∷ 0x36 ∷ 0xa5 ∷ 0x82 ∷ 0x50 ∷ 0x7a ∷ 0x04 ∷ 0x0b ∷ 0xd2
    ∷ 0x52 ∷ 0x9f ∷ 0x01 ∷ 0x63 ∷ 0xb8 ∷ 0x14 ∷ 0x19 ∷ 0x91 ∷ 0xda ∷ 0x37 ∷ 0x7f ∷ 0x81 ∷ 0x48
    ∷ 0x7a ∷ 0x07 ∷ 0x25 ∷ 0x82 ∷ 0x62 ∷ 0x9f ∷ 0x07 ∷ 0x0b ∷ 0xd2 ∷ 0x34 ∷ 0x19 ∷ 0xa3 ∷ 0x63
    ∷ 0xbb ∷ 0x3f ∷ 0x81 ∷ 0x55 ∷ 0xda ∷ 0x36 ∷ 0xa5 ∷ 0x82 ∷ 0x50 ∷ 0x7a ∷ 0x04 ∷ []

unfoldable pub frame_40 : List ℕ
frame_40 =
    0x9e ∷ 0xbb ∷ 0x2a ∷ 0x6e ∷ 0xc0 ∷ 0x13 ∷ 0x02 ∷ 0x02 ∷ 0xc0 ∷ 0x13 ∷ 0x02 ∷ 0x02 ∷ 0x0b ∷ 0xd2
    ∷ 0x52 ∷ 0x9f ∷ 0x07 ∷ 0xb2 ∷ 0xdf ∷ 0x09 ∷ 0x0f ∷ 0xd2 ∷ 0xf4 ∷ 0x0f ∷ 0x5d ∷ 0x62 ∷ 0xd7
    ∷ 0x4d ∷ 0x02 ∷ 0xa6 ∷ 0xf2 ∷ 0x08 ∷ 0x0b ∷ 0xd2 ∷ 0x52 ∷ 0x9f ∷ 0x07 ∷ 0xb2 ∷ 0xdf ∷ 0x09
    ∷ 0x0f ∷ 0xd2 ∷ 0xf4 ∷ 0x0f ∷ 0x5d ∷ 0x62 ∷ 0xd7 ∷ 0x4d ∷ 0x02 ∷ 0xa6 ∷ 0xf2 ∷ 0x08 ∷ 0x0b
    ∷ 0xd2 ∷ 0x52 ∷ 0x9f ∷ 0x07 ∷ 0xb2 ∷ 0xdf ∷ 0x09 ∷ 0x0f ∷ 0xd2 ∷ 0xf4 ∷ 0x0f ∷ 0x5d ∷ 0x62
    ∷ 0xd7 ∷ 0x4d ∷ 0x02 ∷ 0xa6 ∷ 0xf2 ∷ 0x08 ∷ 0x0b ∷ 0xd2 ∷ 0x52 ∷ 0x9f ∷ 0x07 ∷ 0xb2 ∷ 0xdf
    ∷ 0x09 ∷ 0x0f ∷ 0xd2 ∷ 0xf4 ∷ 0x0f ∷ 0x5d ∷ 0x62 ∷ 0xd7 ∷ 0x4d ∷ 0x02 ∷ 0xa6 ∷ 0xf2 ∷ 0x08 ∷ []

unfoldable pub frame_41 : List ℕ
frame_41 =
    0x9e ∷ 0xbb ∷ 0x2b ∷ 0x0b ∷ 0xc0 ∷ 0x13 ∷ 0x02 ∷ 0x02 ∷ 0xc0 ∷ 0x13 ∷ 0x02 ∷ 0x02 ∷ 0x0b ∷ 0xd2
    ∷ 0x5a ∷ 0x4c ∷ 0x80 ∷ 0xda ∷ 0x6c ∷ 0x84 ∷ 0xc1 ∷ 0x76 ∷ 0x3f ∷ 0x81 ∷ 0x5b ∷ 0xee ∷ 0x18
    ∷ 0xab ∷ 0xe2 ∷ 0x17 ∷ 0x4d ∷ 0x02 ∷ 0xa2 ∷ 0x9f ∷ 0x07 ∷ 0x86 ∷ 0xea ∷ 0x2f ∷ 0x84 ∷ 0xea
    ∷ 0x6e ∷ 0x35 ∷ 0x41 ∷ 0xda ∷ 0x37 ∷ 0x9c ∷ 0xc3 ∷ 0xa8 ∷ 0x9c ∷ 0x03 ∷ 0x56 ∷ 0xf2 ∷ 0x08
    ∷ 0x0b ∷ 0xd2 ∷ 0x5a ∷ 0x4c ∷ 0x80 ∷ 0xda ∷ 0x6c ∷ 0x84 ∷ 0xc1 ∷ 0x76 ∷ 0x3f ∷ 0x81 ∷ 0x5b
    ∷ 0xee ∷ 0x18 ∷ 0xab ∷ 0xe2 ∷ 0x17 ∷ 0x4d ∷ 0x02 ∷ 0xa2 ∷ 0x9f ∷ 0x07 ∷ 0x86 ∷ 0xea ∷ 0x2f
    ∷ 0x84 ∷ 0xea ∷ 0x6e ∷ 0x35 ∷ 0x41 ∷ 0xda ∷ 0x37 ∷ 0x9c ∷ 0xc3 ∷ 0xa8 ∷ 0x9c ∷ 0x03 ∷ 0x56
    ∷ 0xf2 ∷ 0x08 ∷ []

unfoldable pub frame_42 : List ℕ
frame_42 =
    0x9e ∷ 0xbb ∷ 0x28 ∷ 0xa4 ∷ 0xc0 ∷ 0x13 ∷ 0x02 ∷ 0x02 ∷ 0xc0 ∷ 0x13 ∷ 0x02 ∷ 0x02 ∷ 0x0b ∷ 0xd2
    ∷ 0x5a ∷ 0x4c ∷ 0x81 ∷ 0x2e ∷ 0x35 ∷ 0x41 ∷ 0x63 ∷ 0xb8 ∷ 0x1d ∷ 0x62 ∷ 0xd4 ∷ 0x79 ∷ 0x04
    ∷ 0xaf ∷ 0x3e ∷ 0x00 ∷ 0xab ∷ 0xe2 ∷ 0x17 ∷ 0x0b ∷ 0xd2 ∷ 0x5a ∷ 0x4c ∷ 0x81 ∷ 0x2e ∷ 0x35
    ∷ 0x41 ∷ 0x63 ∷ 0xb8 ∷ 0x1d ∷ 0x62 ∷ 0xd4 ∷ 0x79 ∷ 0x04 ∷ 0xaf ∷ 0x3e ∷ 0x00 ∷ 0xab ∷ 0xe2
    ∷ 0x17 ∷ 0x0b ∷ 0xd2 ∷ 0x5a ∷ 0x4c ∷ 0x81 ∷ 0x2e ∷ 0x35 ∷ 0x41 ∷ 0x63 ∷ 0xb8 ∷ 0x1d ∷ 0x62
    ∷ 0xd4 ∷ 0x79 ∷ 0x04 ∷ 0xaf ∷ 0x3e ∷ 0x00 ∷ 0xab ∷ 0xe2 ∷ 0x17 ∷ 0x0b ∷ 0xd2 ∷ 0x5a ∷ 0x4c
    ∷ 0x81 ∷ 0x2e ∷ 0x35 ∷ 0x41 ∷ 0x63 ∷ 0xb8 ∷ 0x1d ∷ 0x62 ∷ 0xd4 ∷ 0x79 ∷ 0x04 ∷ 0xaf ∷ 0x3e
    ∷ 0x00 ∷ 0xab ∷ 0xe2 ∷ 0x17 ∷ []

unfoldable pub frame_43 : List ℕ
frame_43 =
    0x9e ∷ 0xbb ∷ 0x29 ∷ 0xc1 ∷ 0xc0 ∷ 0x13 ∷ 0x02 ∷ 0x02 ∷ 0xc0 ∷ 0x13 ∷ 0x02 ∷ 0x02 ∷ 0x0b ∷ 0xda
    ∷ 0x2e ∷ 0x25 ∷ 0x43 ∷ 0x94 ∷ 0x19 ∷ 0xd2 ∷ 0xda ∷ 0x6c ∷ 0x85 ∷ 0xda ∷ 0x98 ∷ 0xcd ∷ 0x62
    ∷ 0xd7 ∷ 0xa5 ∷ 0x8a ∷ 0x28 ∷ 0x9c ∷ 0x03 ∷ 0x52 ∷ 0x9e ∷ 0x80 ∷ 0xc0 ∷ 0x76 ∷ 0x1b ∷ 0x63
    ∷ 0xbf ∷ 0x0f ∷ 0x84 ∷ 0xea ∷ 0x7f ∷ 0x8b ∷ 0xae ∷ 0xf4 ∷ 0x0f ∷ 0x58 ∷ 0x7a ∷ 0x80 ∷ 0xab
    ∷ 0xe2 ∷ 0x17 ∷ 0x0b ∷ 0xca ∷ 0x2e ∷ 0x25 ∷ 0x43 ∷ 0x94 ∷ 0x19 ∷ 0xd2 ∷ 0xda ∷ 0x6c ∷ 0x85
    ∷ 0xda ∷ 0x98 ∷ 0xcd ∷ 0x62 ∷ 0xd7 ∷ 0xa5 ∷ 0x8a ∷ 0x28 ∷ 0x9c ∷ 0x03 ∷ 0x52 ∷ 0x9e ∷ 0x80
    ∷ 0xc0 ∷ 0x76 ∷ 0x1b ∷ 0x63 ∷ 0xbf ∷ 0x0f ∷ 0x84 ∷ 0xea ∷ 0x7f ∷ 0x8b ∷ 0xae ∷ 0xf4 ∷ 0x0f
    ∷ 0x58 ∷ 0x7a ∷ 0x80 ∷ 0xab ∷ 0xe2 ∷ 0x17 ∷ []

unfoldable pub frame_44 : List ℕ
frame_44 =
    0x9e ∷ 0xbb ∷ 0x2e ∷ 0xe7 ∷ 0xc0 ∷ 0x13 ∷ 0x02 ∷ 0x02 ∷ 0xc0 ∷ 0x13 ∷ 0x02 ∷ 0x02 ∷ 0x0b ∷ 0xda
    ∷ 0x2e ∷ 0x25 ∷ 0x62 ∷ 0xc9 ∷ 0x0f ∷ 0xea ∷ 0x6e ∷ 0x35 ∷ 0xa3 ∷ 0xf4 ∷ 0x24 ∷ 0xb1 ∷ 0xda
    ∷ 0x98 ∷ 0xb6 ∷ 0xf3 ∷ 0x07 ∷ 0x51 ∷ 0xc6 ∷ 0x17 ∷ 0x0b ∷ 0xca ∷ 0x2e ∷ 0x25 ∷ 0x62 ∷ 0xc9
    ∷ 0x0f ∷ 0xea ∷ 0x6e ∷ 0x35 ∷ 0xa3 ∷ 0xf4 ∷ 0x24 ∷ 0xb1 ∷ 0xda ∷ 0x98 ∷ 0xb6 ∷ 0xf3 ∷ 0x07
    ∷ 0x51 ∷ 0xc6 ∷ 0x17 ∷ 0x0b ∷ 0xca ∷ 0x2e ∷ 0x25 ∷ 0x62 ∷ 0xc9 ∷ 0x0f ∷ 0xea ∷ 0x6e ∷ 0x35
    ∷ 0xa3 ∷ 0xf4 ∷ 0x24 ∷ 0xb1 ∷ 0xda ∷ 0x98 ∷ 0xb6 ∷ 0xf3 ∷ 0x07 ∷ 0x51 ∷ 0xc6 ∷ 0x17 ∷ 0x0b
    ∷ 0xca ∷ 0x2e ∷ 0x25 ∷ 0x62 ∷ 0xc9 ∷ 0x0f ∷ 0xea ∷ 0x6e ∷ 0x35 ∷ 0xa3 ∷ 0xf4 ∷ 0x24 ∷ 0xb1
    ∷ 0xda ∷ 0x98 ∷ 0xb6 ∷ 0xf3 ∷ 0x07 ∷ 0x51 ∷ 0xc6 ∷ 0x17 ∷ []

unfoldable pub frame_45 : List ℕ
frame_45 =
    0x9e ∷ 0xbb ∷ 0x2f ∷ 0x82 ∷ 0xc0 ∷ 0x13 ∷ 0x02 ∷ 0x02 ∷ 0xc0 ∷ 0x13 ∷ 0x02 ∷ 0x02 ∷ 0x0b ∷ 0xda
    ∷ 0x14 ∷ 0x11 ∷ 0xb2 ∷ 0x67 ∷ 0x84 ∷ 0xf4 ∷ 0x19 ∷ 0x0f ∷ 0xea ∷ 0x7f ∷ 0x8b ∷ 0xb4 ∷ 0x79
    ∷ 0x11 ∷ 0x54 ∷ 0x9c ∷ 0x22 ∷ 0x57 ∷ 0x3e ∷ 0x43 ∷ 0x52 ∷ 0x9e ∷ 0x8b ∷ 0x63 ∷ 0x39 ∷ 0x04
    ∷ 0x5a ∷ 0x6d ∷ 0x63 ∷ 0xb2 ∷ 0xdc ∷ 0x85 ∷ 0xda ∷ 0x99 ∷ 0x65 ∷ 0xb3 ∷ 0x37 ∷ 0x6b ∷ 0xe0
    ∷ 0x07 ∷ 0x51 ∷ 0xc6 ∷ 0x17 ∷ 0x0b ∷ 0xca ∷ 0x94 ∷ 0x11 ∷ 0xb2 ∷ 0x67 ∷ 0x84 ∷ 0xf4 ∷ 0x19
    ∷ 0x0f ∷ 0xea ∷ 0x7f ∷ 0x8b ∷ 0xb4 ∷ 0x79 ∷ 0x11 ∷ 0x54 ∷ 0x9c ∷ 0x22 ∷ 0x57 ∷ 0x3e ∷ 0x43
    ∷ 0x52 ∷ 0x9e ∷ 0x8b ∷ 0x63 ∷ 0x39 ∷ 0x04 ∷ 0x5a ∷ 0x6d ∷ 0x63 ∷ 0xb2 ∷ 0xdc ∷ 0x85 ∷ 0xda
    ∷ 0x99 ∷ 0x65 ∷ 0xb3 ∷ 0x37 ∷ 0x6b ∷ 0xe0 ∷ 0x07 ∷ 0x51 ∷ 0xc6 ∷ 0x17 ∷ []

unfoldable pub frame_46 : List ℕ
frame_46 =
    0x9e ∷ 0xbb ∷ 0x2c ∷ 0x2d ∷ 0xc0 ∷ 0x13 ∷ 0x02 ∷ 0x02 ∷ 0xc0 ∷ 0x13 ∷ 0x02 ∷ 0x02 ∷ 0x0b ∷ 0xda
    ∷ 0x14 ∷ 0x11 ∷ 0xb0 ∷ 0x30 ∷ 0xc1 ∷ 0x79 ∷ 0x0f ∷ 0x84 ∷ 0xf4 ∷ 0x1d ∷ 0x60 ∷ 0x6f ∷ 0x9c
    ∷ 0xc6 ∷ 0xe8 ∷ 0xd1 ∷ 0xc6 ∷ 0x08 ∷ 0xa5 ∷ 0x8a ∷ 0x57 ∷ 0x0b ∷ 0xca ∷ 0x94 ∷ 0x11 ∷ 0xb0
    ∷ 0x30 ∷ 0xc1 ∷ 0x79 ∷ 0x0f ∷ 0x84 ∷ 0xf4 ∷ 0x1d ∷ 0x60 ∷ 0x6f ∷ 0x9c ∷ 0xc6 ∷ 0xe8 ∷ 0xd1
    ∷ 0xc6 ∷ 0x08 ∷ 0xa5 ∷ 0x8a ∷ 0x57 ∷ 0x0b ∷ 0xca ∷ 0x94 ∷ 0x11 ∷ 0xb0 ∷ 0x30 ∷ 0xc1 ∷ 0x79
    ∷ 0x0f ∷ 0x84 ∷ 0xf4 ∷ 0x1d ∷ 0x60 ∷ 0x6f ∷ 0x9c ∷ 0xc6 ∷ 0xe8 ∷ 0xd1 ∷ 0xc6 ∷ 0x08 ∷ 0xa5
    ∷ 0x8a ∷ 0x57 ∷ 0x0b ∷ 0xca ∷ 0x94 ∷ 0x11 ∷ 0xb0 ∷ 0x30 ∷ 0xc1 ∷ 0x79 ∷ 0x0f ∷ 0x84 ∷ 0xf4
    ∷ 0x1d ∷ 0x60 ∷ 0x6f ∷ 0x9c ∷ 0xc6 ∷ 0xe8 ∷ 0xd1 ∷ 0xc6 ∷ 0x08 ∷ 0xa5 ∷ 0x8a ∷ 0x57 ∷ []

unfoldable pub frame_47 : List ℕ
frame_47 =
    0x9e ∷ 0xbb ∷ 0x2d ∷ 0x48 ∷ 0xc0 ∷ 0x13 ∷ 0x02 ∷ 0x02 ∷ 0xc0 ∷ 0x13 ∷ 0x02 ∷ 0x02 ∷ 0x0b ∷ 0xda
    ∷ 0x11 ∷ 0x0b ∷ 0xdb ∷ 0x1b ∷ 0x63 ∷ 0xbf ∷ 0x91 ∷ 0x63 ∷ 0xbf ∷ 0x85 ∷ 0xda ∷ 0x99 ∷ 0x71
    ∷ 0xda ∷ 0x9f ∷ 0x58 ∷ 0x7a ∷ 0x83 ∷ 0x68 ∷ 0x7a ∷ 0x87 ∷ 0x52 ∷ 0x9e ∷ 0x8b ∷ 0x32 ∷ 0x9f
    ∷ 0x93 ∷ 0x94 ∷ 0x19 ∷ 0xdb ∷ 0x34 ∷ 0x19 ∷ 0xda ∷ 0x7f ∷ 0x8b ∷ 0xb5 ∷ 0x3f ∷ 0x8b ∷ 0xd7
    ∷ 0xa5 ∷ 0x8a ∷ 0x14 ∷ 0xa5 ∷ 0x8a ∷ 0x57 ∷ 0x0b ∷ 0xca ∷ 0x91 ∷ 0x0b ∷ 0xdb ∷ 0x1b ∷ 0x63
    ∷ 0xbf ∷ 0x91 ∷ 0x63 ∷ 0xbf ∷ 0x85 ∷ 0xda ∷ 0x99 ∷ 0x71 ∷ 0xda ∷ 0x9f ∷ 0x58 ∷ 0x7a ∷ 0x83
    ∷ 0x68 ∷ 0x7a ∷ 0x87 ∷ 0x52 ∷ 0x9e ∷ 0x8b ∷ 0x32 ∷ 0x9f ∷ 0x93 ∷ 0x94 ∷ 0x19 ∷ 0xdb ∷ 0x34
    ∷ 0x19 ∷ 0xda ∷ 0x7f ∷ 0x8b ∷ 0xb5 ∷ 0x3f ∷ 0x8b ∷ 0xd7 ∷ 0xa5 ∷ 0x8a ∷ 0x14 ∷ 0xa5 ∷ 0x8a
    ∷ 0x57 ∷ []

unfoldable pub frame_48 : List ℕ
frame_48 =
    0x9e ∷ 0xbb ∷ 0x32 ∷ 0x7f ∷ 0xc0 ∷ 0x13 ∷ 0x02 ∷ 0x02 ∷ 0xc0 ∷ 0x13 ∷ 0x02 ∷ 0x02 ∷ 0x0b ∷ 0xda
    ∷ 0x11 ∷ 0x0b ∷ 0xdb ∷ 0x16 ∷ 0xb2 ∷ 0xdc ∷ 0xcb ∷ 0xb2 ∷ 0xdc ∷ 0xc3 ∷ 0xf4 ∷ 0x24 ∷ 0xde
    ∷ 0xf4 ∷ 0x25 ∷ 0x51 ∷ 0x4d ∷ 0x12 ∷ 0x2f ∷ 0x4d ∷ 0x12 ∷ 0xb7 ∷ 0x0b ∷ 0xca ∷ 0x91 ∷ 0x0b
    ∷ 0xdb ∷ 0x1e ∷ 0xb2 ∷ 0xdc ∷ 0xcb ∷ 0xb2 ∷ 0xdc ∷ 0xc3 ∷ 0xf4 ∷ 0x24 ∷ 0xde ∷ 0xf4 ∷ 0x25
    ∷ 0x51 ∷ 0x4d ∷ 0x12 ∷ 0x2f ∷ 0x4d ∷ 0x12 ∷ 0xb7 ∷ 0x0b ∷ 0xca ∷ 0x91 ∷ 0x0b ∷ 0xdb ∷ 0x1e
    ∷ 0xb2 ∷ 0xdc ∷ 0xcb ∷ 0xb2 ∷ 0xdc ∷ 0xc3 ∷ 0xf4 ∷ 0x24 ∷ 0xde ∷ 0xf4 ∷ 0x25 ∷ 0x51 ∷ 0x4d
    ∷ 0x12 ∷ 0x2f ∷ 0x4d ∷ 0x12 ∷ 0xb7 ∷ 0x0b ∷ 0xca ∷ 0x91 ∷ 0x0b ∷ 0xdb ∷ 0x1e ∷ 0xb2 ∷ 0xdc
    ∷ 0xcb ∷ 0xb2 ∷ 0xdc ∷ 0xc3 ∷ 0xf4 ∷ 0x24 ∷ 0xde ∷ 0xf4 ∷ 0x25 ∷ 0x51 ∷ 0x4d ∷ 0x12 ∷ 0x2f
    ∷ 0x4d ∷ 0x12 ∷ 0xb7 ∷ []

unfoldable pub frame_49 : List ℕ
frame_49 =
    0x9e ∷ 0xbb ∷ 0x33 ∷ 0x1a ∷ 0xc0 ∷ 0x13 ∷ 0x02 ∷ 0x02 ∷ 0xc0 ∷ 0x13 ∷ 0x02 ∷ 0x02 ∷ 0x0b ∷ 0xda
    ∷ 0x11 ∷ 0x86 ∷ 0xee ∷ 0x88 ∷ 0x5a ∷ 0x6d ∷ 0x66 ∷ 0xee ∷ 0x35 ∷ 0xb2 ∷ 0x7f ∷ 0x8b ∷ 0xb5
    ∷ 0x3c ∷ 0xc6 ∷ 0xe8 ∷ 0x6b ∷ 0xe0 ∷ 0x07 ∷ 0xc6 ∷ 0xf3 ∷ 0x09 ∷ 0x52 ∷ 0x9e ∷ 0x8b ∷ 0x32
    ∷ 0x4c ∷ 0xca ∷ 0xe7 ∷ 0x84 ∷ 0xf4 ∷ 0x4c ∷ 0xc1 ∷ 0x79 ∷ 0x05 ∷ 0xda ∷ 0x99 ∷ 0x71 ∷ 0xee
    ∷ 0x4c ∷ 0xa4 ∷ 0x9c ∷ 0x22 ∷ 0x5e ∷ 0x4d ∷ 0x12 ∷ 0xb7 ∷ 0x0b ∷ 0xca ∷ 0x91 ∷ 0x06 ∷ 0xee
    ∷ 0x8c ∷ 0x5a ∷ 0x6d ∷ 0x66 ∷ 0xee ∷ 0x35 ∷ 0xb2 ∷ 0x7f ∷ 0x8b ∷ 0xb5 ∷ 0x3c ∷ 0xc6 ∷ 0xe8
    ∷ 0x6b ∷ 0xe0 ∷ 0x07 ∷ 0xc6 ∷ 0xf3 ∷ 0x09 ∷ 0x52 ∷ 0x9e ∷ 0x8b ∷ 0x32 ∷ 0x4c ∷ 0xca ∷ 0xe7
    ∷ 0x84 ∷ 0xf4 ∷ 0x4c ∷ 0xc1 ∷ 0x79 ∷ 0x05 ∷ 0xda ∷ 0x99 ∷ 0x71 ∷ 0xee ∷ 0x4c ∷ 0xa4 ∷ 0x9c
    ∷ 0x22 ∷ 0x5e ∷ 0x4d ∷ 0x12 ∷ 0xb7 ∷ []

unfoldable pub frame_50 : List ℕ
frame_50 =
    0x9e ∷ 0xbb ∷ 0x30 ∷ 0xb5 ∷ 0xc0 ∷ 0x13 ∷ 0x02 ∷ 0x02 ∷ 0xc0 ∷ 0x13 ∷ 0x02 ∷ 0x02 ∷ 0x0b ∷ 0xda
    ∷ 0x11 ∷ 0x86 ∷ 0xee ∷ 0x88 ∷ 0x6e ∷ 0x35 ∷ 0xb0 ∷ 0x74 ∷ 0x19 ∷ 0xda ∷ 0x3d ∷ 0x60 ∷ 0x6f
    ∷ 0xcd ∷ 0xb3 ∷ 0x38 ∷ 0x9b ∷ 0x3e ∷ 0x42 ∷ 0xba ∷ 0x9c ∷ 0x23 ∷ 0x69 ∷ 0x0b ∷ 0xca ∷ 0x91
    ∷ 0x06 ∷ 0xee ∷ 0x8c ∷ 0x6e ∷ 0x35 ∷ 0xb0 ∷ 0x74 ∷ 0x19 ∷ 0xda ∷ 0x3d ∷ 0x60 ∷ 0x6f ∷ 0xcd
    ∷ 0xb3 ∷ 0x38 ∷ 0x9b ∷ 0x3e ∷ 0x42 ∷ 0xba ∷ 0x9c ∷ 0x23 ∷ 0x69 ∷ 0x0b ∷ 0xca ∷ 0x91 ∷ 0x06
    ∷ 0xee ∷ 0x8c ∷ 0x6e ∷ 0x35 ∷ 0xb0 ∷ 0x74 ∷ 0x19 ∷ 0xda ∷ 0x3d ∷ 0x60 ∷ 0x6f ∷ 0xcd ∷ 0xb3
    ∷ 0x38 ∷ 0x9b ∷ 0x3e ∷ 0x42 ∷ 0xba ∷ 0x9c ∷ 0x23 ∷ 0x69 ∷ 0x0b ∷ 0xca ∷ 0x91 ∷ 0x06 ∷ 0xee
    ∷ 0x8c ∷ 0x6e ∷ 0x35 ∷ 0xb0 ∷ 0x74 ∷ 0x19 ∷ 0xda ∷ 0x3d ∷ 0x60 ∷ 0x6f ∷ 0xcd ∷ 0xb3 ∷ 0x38
    ∷ 0x9b ∷ 0x3e ∷ 0x42 ∷ 0xba ∷ 0x9c ∷ 0x23 ∷ 0x69 ∷ []

unfoldable pub frame_51 : List ℕ
frame_51 =
    0x9e ∷ 0xbb ∷ 0x31 ∷ 0xd0 ∷ 0xc0 ∷ 0x13 ∷ 0x02 ∷ 0x02 ∷ 0xc0 ∷ 0x13 ∷ 0x02 ∷ 0x02 ∷ 0x0b ∷ 0xd6
    ∷ 0x0b ∷ 0xc0 ∷ 0x74 ∷ 0x47 ∷ 0x34 ∷ 0x19 ∷ 0xee ∷ 0x9f ∷ 0x84 ∷ 0xf4 ∷ 0x0d ∷ 0xda ∷ 0xaf
    ∷ 0xbb ∷ 0xf4 ∷ 0x25 ∷ 0x51 ∷ 0x25 ∷ 0x92 ∷ 0x09 ∷ 0x8b ∷ 0xe0 ∷ 0x14 ∷ 0xb2 ∷ 0x9e ∷ 0xc6
    ∷ 0x9a ∷ 0x25 ∷ 0x66 ∷ 0x71 ∷ 0x63 ∷ 0xbc ∷ 0xcb ∷ 0xda ∷ 0x6d ∷ 0x62 ∷ 0xff ∷ 0x88 ∷ 0xd9
    ∷ 0x9d ∷ 0x60 ∷ 0x77 ∷ 0x30 ∷ 0x7b ∷ 0x02 ∷ 0xba ∷ 0x9c ∷ 0x23 ∷ 0x69 ∷ 0x0b ∷ 0xce ∷ 0x4b
    ∷ 0x80 ∷ 0x74 ∷ 0x45 ∷ 0x34 ∷ 0x19 ∷ 0xee ∷ 0x9f ∷ 0x84 ∷ 0xf4 ∷ 0x0d ∷ 0xda ∷ 0xaf ∷ 0xbb
    ∷ 0xf4 ∷ 0x25 ∷ 0x51 ∷ 0x25 ∷ 0x92 ∷ 0x09 ∷ 0x8b ∷ 0xe0 ∷ 0x14 ∷ 0xb2 ∷ 0x9e ∷ 0xc6 ∷ 0x9a
    ∷ 0x25 ∷ 0x66 ∷ 0x71 ∷ 0x63 ∷ 0xbc ∷ 0xcb ∷ 0xda ∷ 0x6d ∷ 0x62 ∷ 0xff ∷ 0x88 ∷ 0xd9 ∷ 0x9d
    ∷ 0x60 ∷ 0x77 ∷ 0x30 ∷ 0x7b ∷ 0x02 ∷ 0xba ∷ 0x9c ∷ 0x23 ∷ 0x69 ∷ []

unfoldable pub frame_52 : List ℕ
frame_52 =
    0x9e ∷ 0xbb ∷ 0x36 ∷ 0xf6 ∷ 0xc0 ∷ 0x13 ∷ 0x02 ∷ 0x02 ∷ 0xc0 ∷ 0x13 ∷ 0x02 ∷ 0x02 ∷ 0x0b ∷ 0xd6
    ∷ 0x0b ∷ 0xc0 ∷ 0x77 ∷ 0x20 ∷ 0x99 ∷ 0x0f ∷ 0xf4 ∷ 0x4c ∷ 0xc1 ∷ 0x5f ∷ 0x81 ∷ 0xf4 ∷ 0x29
    ∷ 0x6c ∷ 0x7f ∷ 0x88 ∷ 0xe8 ∷ 0x66 ∷ 0xf0 ∷ 0x03 ∷ 0x73 ∷ 0x3e ∷ 0x83 ∷ 0x69 ∷ 0x0b ∷ 0xce
    ∷ 0x4b ∷ 0x80 ∷ 0x77 ∷ 0x21 ∷ 0x99 ∷ 0x0f ∷ 0xf4 ∷ 0x4c ∷ 0xc1 ∷ 0x5f ∷ 0x81 ∷ 0xf4 ∷ 0x29
    ∷ 0x6c ∷ 0x7f ∷ 0x88 ∷ 0xe8 ∷ 0x66 ∷ 0xf0 ∷ 0x03 ∷ 0x73 ∷ 0x3e ∷ 0x83 ∷ 0x69 ∷ 0x0b ∷ 0xce
    ∷ 0x4b ∷ 0x80 ∷ 0x77 ∷ 0x21 ∷ 0x99 ∷ 0x0f ∷ 0xf4 ∷ 0x4c ∷ 0xc1 ∷ 0x5f ∷ 0x81 ∷ 0xf4 ∷ 0x29
    ∷ 0x6c ∷ 0x7f ∷ 0x88 ∷ 0xe8 ∷ 0x66 ∷ 0xf0 ∷ 0x03 ∷ 0x73 ∷ 0x3e ∷ 0x83 ∷ 0x69 ∷ 0x0b ∷ 0xce
    ∷ 0x4b ∷ 0x80 ∷ 0x77 ∷ 0x21 ∷ 0x99 ∷ 0x0f ∷ 0xf4 ∷ 0x4c ∷ 0xc1 ∷ 0x5f ∷ 0x81 ∷ 0xf4 ∷ 0x29
    ∷ 0x6c ∷ 0x7f ∷ 0x88 ∷ 0xe8 ∷ 0x66 ∷ 0xf0 ∷ 0x03 ∷ 0x73 ∷ 0x3e ∷ 0x83 ∷ 0x69 ∷ []

unfoldable pub frame_53 : List ℕ
frame_53 =
    0x9e ∷ 0xbb ∷ 0x37 ∷ 0x93 ∷ 0xc0 ∷ 0x13 ∷ 0x02 ∷ 0x02 ∷ 0xc0 ∷ 0x13 ∷ 0x02 ∷ 0x02 ∷ 0x0b ∷ 0xd6
    ∷ 0x46 ∷ 0xe3 ∷ 0x38 ∷ 0x93 ∷ 0x4f ∷ 0x84 ∷ 0xfe ∷ 0x91 ∷ 0xb2 ∷ 0xd5 ∷ 0x62 ∷ 0xff ∷ 0x88
    ∷ 0xdf ∷ 0xcd ∷ 0xb3 ∷ 0x5f ∷ 0x4e ∷ 0x9c ∷ 0x42 ∷ 0x55 ∷ 0x11 ∷ 0xca ∷ 0x14 ∷ 0xb2 ∷ 0x9e
    ∷ 0xc4 ∷ 0x4e ∷ 0x11 ∷ 0xab ∷ 0x1e ∷ 0xda ∷ 0x6d ∷ 0xcb ∷ 0x39 ∷ 0x0f ∷ 0x74 ∷ 0x0d ∷ 0xda
    ∷ 0xaf ∷ 0xde ∷ 0xf9 ∷ 0x17 ∷ 0xd6 ∷ 0xcb ∷ 0xe6 ∷ 0x07 ∷ 0x73 ∷ 0x3e ∷ 0x83 ∷ 0x69 ∷ 0x0b
    ∷ 0xce ∷ 0x66 ∷ 0xc3 ∷ 0x38 ∷ 0x93 ∷ 0xcf ∷ 0x84 ∷ 0xfe ∷ 0x91 ∷ 0xb2 ∷ 0xd5 ∷ 0x62 ∷ 0xff
    ∷ 0x88 ∷ 0xdf ∷ 0xcd ∷ 0xb3 ∷ 0x5f ∷ 0x4e ∷ 0x9c ∷ 0x42 ∷ 0x55 ∷ 0x11 ∷ 0xca ∷ 0x14 ∷ 0xb2
    ∷ 0x9e ∷ 0xc4 ∷ 0x4e ∷ 0x11 ∷ 0xab ∷ 0x1e ∷ 0xda ∷ 0x6d ∷ 0xcb ∷ 0x39 ∷ 0x0f ∷ 0x74 ∷ 0x0d
    ∷ 0xda ∷ 0xaf ∷ 0xde ∷ 0xf9 ∷ 0x17 ∷ 0xd6 ∷ 0xcb ∷ 0xe6 ∷ 0x07 ∷ 0x73 ∷ 0x3e ∷ 0x83 ∷ 0x69 ∷ []

unfoldable pub encoded_frames : List ℕ
encoded_frames =
    frame_27 ++ frame_28 ++ frame_29 ++ frame_30 ++ frame_31 ++ frame_32 ++ frame_33 ++ frame_34
    ++ frame_35 ++ frame_36 ++ frame_37 ++ frame_38 ++ frame_39 ++ frame_40 ++ frame_41 ++ frame_42
    ++ frame_43 ++ frame_44 ++ frame_45 ++ frame_46 ++ frame_47 ++ frame_48 ++ frame_49 ++ frame_50
    ++ frame_51 ++ frame_52 ++ frame_53
