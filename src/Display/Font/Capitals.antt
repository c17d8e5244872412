-- ===== src/Display/Font/Capitals.antt =====
-- `VGA_BASIC_FONT` of src/display/vga_text_emulation.rs: the capital letters, as rows of bits.
use kermol.Common.{ℕ, List, [], ◌∷◌}

-- The characters 64 to 95.
abbrev pub capitals : List (List ℕ)
capitals =
    (0 ∷ 0 ∷ 0x7C ∷ 0xC6 ∷ 0xC6 ∷ 0xC6 ∷ 0xDE ∷ 0xDE ∷ 0xDE ∷ 0xDC ∷ 0xC0 ∷ 0x7C ∷ 0 ∷ 0 ∷ 0 ∷ 0
      ∷ [])
    ∷ (0 ∷ 0 ∷ 0x10 ∷ 0x38 ∷ 0x6C ∷ 0xC6 ∷ 0xC6 ∷ 0xFE ∷ 0xC6 ∷ 0xC6 ∷ 0xC6 ∷ 0xC6 ∷ 0 ∷ 0 ∷ 0 ∷ 0
        ∷ [])
    ∷ (0 ∷ 0 ∷ 0xFC ∷ 0x66 ∷ 0x66 ∷ 0x66 ∷ 0x7C ∷ 0x66 ∷ 0x66 ∷ 0x66 ∷ 0x66 ∷ 0xFC ∷ 0 ∷ 0 ∷ 0 ∷ 0
        ∷ [])
    ∷ (0 ∷ 0 ∷ 0x3C ∷ 0x66 ∷ 0xC2 ∷ 0xC0 ∷ 0xC0 ∷ 0xC0 ∷ 0xC0 ∷ 0xC2 ∷ 0x66 ∷ 0x3C ∷ 0 ∷ 0 ∷ 0 ∷ 0
        ∷ [])
    ∷ (0 ∷ 0 ∷ 0xF8 ∷ 0x6C ∷ 0x66 ∷ 0x66 ∷ 0x66 ∷ 0x66 ∷ 0x66 ∷ 0x66 ∷ 0x6C ∷ 0xF8 ∷ 0 ∷ 0 ∷ 0 ∷ 0
        ∷ [])
    ∷ (0 ∷ 0 ∷ 0xFE ∷ 0x66 ∷ 0x62 ∷ 0x68 ∷ 0x78 ∷ 0x68 ∷ 0x60 ∷ 0x62 ∷ 0x66 ∷ 0xFE ∷ 0 ∷ 0 ∷ 0 ∷ 0
        ∷ [])
    ∷ (0 ∷ 0 ∷ 0xFE ∷ 0x66 ∷ 0x62 ∷ 0x68 ∷ 0x78 ∷ 0x68 ∷ 0x60 ∷ 0x60 ∷ 0x60 ∷ 0xF0 ∷ 0 ∷ 0 ∷ 0 ∷ 0
        ∷ [])
    ∷ (0 ∷ 0 ∷ 0x3C ∷ 0x66 ∷ 0xC2 ∷ 0xC0 ∷ 0xC0 ∷ 0xDE ∷ 0xC6 ∷ 0xC6 ∷ 0x66 ∷ 0x3A ∷ 0 ∷ 0 ∷ 0 ∷ 0
        ∷ [])
    ∷ (0 ∷ 0 ∷ 0xC6 ∷ 0xC6 ∷ 0xC6 ∷ 0xC6 ∷ 0xFE ∷ 0xC6 ∷ 0xC6 ∷ 0xC6 ∷ 0xC6 ∷ 0xC6 ∷ 0 ∷ 0 ∷ 0 ∷ 0
        ∷ [])
    ∷ (0 ∷ 0 ∷ 0x3C ∷ 0x18 ∷ 0x18 ∷ 0x18 ∷ 0x18 ∷ 0x18 ∷ 0x18 ∷ 0x18 ∷ 0x18 ∷ 0x3C ∷ 0 ∷ 0 ∷ 0 ∷ 0
        ∷ [])
    ∷ (0 ∷ 0 ∷ 0x1E ∷ 0x0C ∷ 0x0C ∷ 0x0C ∷ 0x0C ∷ 0x0C ∷ 0xCC ∷ 0xCC ∷ 0xCC ∷ 0x78 ∷ 0 ∷ 0 ∷ 0 ∷ 0
        ∷ [])
    ∷ (0 ∷ 0 ∷ 0xE6 ∷ 0x66 ∷ 0x66 ∷ 0x6C ∷ 0x78 ∷ 0x78 ∷ 0x6C ∷ 0x66 ∷ 0x66 ∷ 0xE6 ∷ 0 ∷ 0 ∷ 0 ∷ 0
        ∷ [])
    ∷ (0 ∷ 0 ∷ 0xF0 ∷ 0x60 ∷ 0x60 ∷ 0x60 ∷ 0x60 ∷ 0x60 ∷ 0x60 ∷ 0x62 ∷ 0x66 ∷ 0xFE ∷ 0 ∷ 0 ∷ 0 ∷ 0
        ∷ [])
    ∷ (0 ∷ 0 ∷ 0xC6 ∷ 0xEE ∷ 0xFE ∷ 0xFE ∷ 0xD6 ∷ 0xC6 ∷ 0xC6 ∷ 0xC6 ∷ 0xC6 ∷ 0xC6 ∷ 0 ∷ 0 ∷ 0 ∷ 0
        ∷ [])
    ∷ (0 ∷ 0 ∷ 0xC6 ∷ 0xE6 ∷ 0xF6 ∷ 0xFE ∷ 0xDE ∷ 0xCE ∷ 0xC6 ∷ 0xC6 ∷ 0xC6 ∷ 0xC6 ∷ 0 ∷ 0 ∷ 0 ∷ 0
        ∷ [])
    ∷ (0 ∷ 0 ∷ 0x7C ∷ 0xC6 ∷ 0xC6 ∷ 0xC6 ∷ 0xC6 ∷ 0xC6 ∷ 0xC6 ∷ 0xC6 ∷ 0xC6 ∷ 0x7C ∷ 0 ∷ 0 ∷ 0 ∷ 0
        ∷ [])
    ∷ (0 ∷ 0 ∷ 0xFC ∷ 0x66 ∷ 0x66 ∷ 0x66 ∷ 0x7C ∷ 0x60 ∷ 0x60 ∷ 0x60 ∷ 0x60 ∷ 0xF0 ∷ 0 ∷ 0 ∷ 0 ∷ 0
        ∷ [])
    ∷ (0 ∷ 0 ∷ 0x7C ∷ 0xC6 ∷ 0xC6 ∷ 0xC6 ∷ 0xC6 ∷ 0xC6 ∷ 0xC6 ∷ 0xD6 ∷ 0xDE ∷ 0x7C ∷ 0x0C ∷ 0x0E ∷ 0
        ∷ 0 ∷ [])
    ∷ (0 ∷ 0 ∷ 0xFC ∷ 0x66 ∷ 0x66 ∷ 0x66 ∷ 0x7C ∷ 0x6C ∷ 0x66 ∷ 0x66 ∷ 0x66 ∷ 0xE6 ∷ 0 ∷ 0 ∷ 0 ∷ 0
        ∷ [])
    ∷ (0 ∷ 0 ∷ 0x7C ∷ 0xC6 ∷ 0xC6 ∷ 0x60 ∷ 0x38 ∷ 0x0C ∷ 0x06 ∷ 0xC6 ∷ 0xC6 ∷ 0x7C ∷ 0 ∷ 0 ∷ 0 ∷ 0
        ∷ [])
    ∷ (0 ∷ 0 ∷ 0x7E ∷ 0x7E ∷ 0x5A ∷ 0x18 ∷ 0x18 ∷ 0x18 ∷ 0x18 ∷ 0x18 ∷ 0x18 ∷ 0x3C ∷ 0 ∷ 0 ∷ 0 ∷ 0
        ∷ [])
    ∷ (0 ∷ 0 ∷ 0xC6 ∷ 0xC6 ∷ 0xC6 ∷ 0xC6 ∷ 0xC6 ∷ 0xC6 ∷ 0xC6 ∷ 0xC6 ∷ 0xC6 ∷ 0x7C ∷ 0 ∷ 0 ∷ 0 ∷ 0
        ∷ [])
    ∷ (0 ∷ 0 ∷ 0xC6 ∷ 0xC6 ∷ 0xC6 ∷ 0xC6 ∷ 0xC6 ∷ 0xC6 ∷ 0xC6 ∷ 0x6C ∷ 0x38 ∷ 0x10 ∷ 0 ∷ 0 ∷ 0 ∷ 0
        ∷ [])
    ∷ (0 ∷ 0 ∷ 0xC6 ∷ 0xC6 ∷ 0xC6 ∷ 0xC6 ∷ 0xD6 ∷ 0xD6 ∷ 0xD6 ∷ 0xFE ∷ 0xEE ∷ 0x6C ∷ 0 ∷ 0 ∷ 0 ∷ 0
        ∷ [])
    ∷ (0 ∷ 0 ∷ 0xC6 ∷ 0xC6 ∷ 0x6C ∷ 0x7C ∷ 0x38 ∷ 0x38 ∷ 0x7C ∷ 0x6C ∷ 0xC6 ∷ 0xC6 ∷ 0 ∷ 0 ∷ 0 ∷ 0
        ∷ [])
    ∷ (0 ∷ 0 ∷ 0x66 ∷ 0x66 ∷ 0x66 ∷ 0x66 ∷ 0x3C ∷ 0x18 ∷ 0x18 ∷ 0x18 ∷ 0x18 ∷ 0x3C ∷ 0 ∷ 0 ∷ 0 ∷ 0
        ∷ [])
    ∷ (0 ∷ 0 ∷ 0xFE ∷ 0xC6 ∷ 0x86 ∷ 0x0C ∷ 0x18 ∷ 0x30 ∷ 0x60 ∷ 0xC2 ∷ 0xC6 ∷ 0xFE ∷ 0 ∷ 0 ∷ 0 ∷ 0
        ∷ [])
    ∷ (0 ∷ 0 ∷ 0x3C ∷ 0x30 ∷ 0x30 ∷ 0x30 ∷ 0x30 ∷ 0x30 ∷ 0x30 ∷ 0x30 ∷ 0x30 ∷ 0x3C ∷ 0 ∷ 0 ∷ 0 ∷ 0
        ∷ [])
    ∷ (0 ∷ 0 ∷ 0 ∷ 0x80 ∷ 0xC0 ∷ 0xE0 ∷ 0x70 ∷ 0x38 ∷ 0x1C ∷ 0x0E ∷ 0x06 ∷ 0x02 ∷ 0 ∷ 0 ∷ 0 ∷ 0
        ∷ [])
    ∷ (0 ∷ 0 ∷ 0x3C ∷ 0x0C ∷ 0x0C ∷ 0x0C ∷ 0x0C ∷ 0x0C ∷ 0x0C ∷ 0x0C ∷ 0x0C ∷ 0x3C ∷ 0 ∷ 0 ∷ 0 ∷ 0
        ∷ [])
    ∷ (0x10 ∷ 0x38 ∷ 0x6C ∷ 0xC6 ∷ 0 ∷ 0 ∷ 0 ∷ 0 ∷ 0 ∷ 0 ∷ 0 ∷ 0 ∷ 0 ∷ 0 ∷ 0 ∷ 0 ∷ [])
    ∷ (0 ∷ 0 ∷ 0 ∷ 0 ∷ 0 ∷ 0 ∷ 0 ∷ 0 ∷ 0 ∷ 0 ∷ 0 ∷ 0 ∷ 0 ∷ 0xFF ∷ 0 ∷ 0 ∷ [])
    ∷ []
