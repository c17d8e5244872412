-- ===== src/Display/Font/Symbols.antt =====
-- `VGA_BASIC_FONT` of src/display/vga_text_emulation.rs: the space, the signs and the digits, as rows of bits.
use kermol.Common.{ℕ, List, [], ◌∷◌}

-- The characters 32 to 63.
abbrev pub symbols : List (List ℕ)
symbols =
    (0 ∷ 0 ∷ 0 ∷ 0 ∷ 0 ∷ 0 ∷ 0 ∷ 0 ∷ 0 ∷ 0 ∷ 0 ∷ 0 ∷ 0 ∷ 0 ∷ 0 ∷ 0 ∷ [])
    ∷ (0 ∷ 0 ∷ 0x18 ∷ 0x3C ∷ 0x3C ∷ 0x3C ∷ 0x18 ∷ 0x18 ∷ 0x18 ∷ 0 ∷ 0x18 ∷ 0x18 ∷ 0 ∷ 0 ∷ 0 ∷ 0
        ∷ [])
    ∷ (0 ∷ 0x66 ∷ 0x66 ∷ 0x66 ∷ 0x24 ∷ 0 ∷ 0 ∷ 0 ∷ 0 ∷ 0 ∷ 0 ∷ 0 ∷ 0 ∷ 0 ∷ 0 ∷ 0 ∷ [])
    ∷ (0 ∷ 0 ∷ 0 ∷ 0x6C ∷ 0x6C ∷ 0xFE ∷ 0x6C ∷ 0x6C ∷ 0x6C ∷ 0xFE ∷ 0x6C ∷ 0x6C ∷ 0 ∷ 0 ∷ 0 ∷ 0
        ∷ [])
    ∷ (0x18 ∷ 0x18 ∷ 0x7C ∷ 0xC6 ∷ 0xC2 ∷ 0xC0 ∷ 0x7C ∷ 0x06 ∷ 0x06 ∷ 0x86 ∷ 0xC6 ∷ 0x7C ∷ 0x18
        ∷ 0x18 ∷ 0 ∷ 0 ∷ [])
    ∷ (0 ∷ 0 ∷ 0 ∷ 0 ∷ 0xC2 ∷ 0xC6 ∷ 0x0C ∷ 0x18 ∷ 0x30 ∷ 0x60 ∷ 0xC6 ∷ 0x86 ∷ 0 ∷ 0 ∷ 0 ∷ 0 ∷ [])
    ∷ (0 ∷ 0 ∷ 0x38 ∷ 0x6C ∷ 0x6C ∷ 0x38 ∷ 0x76 ∷ 0xDC ∷ 0xCC ∷ 0xCC ∷ 0xCC ∷ 0x76 ∷ 0 ∷ 0 ∷ 0 ∷ 0
        ∷ [])
    ∷ (0 ∷ 0x30 ∷ 0x30 ∷ 0x30 ∷ 0x60 ∷ 0 ∷ 0 ∷ 0 ∷ 0 ∷ 0 ∷ 0 ∷ 0 ∷ 0 ∷ 0 ∷ 0 ∷ 0 ∷ [])
    ∷ (0 ∷ 0 ∷ 0x0C ∷ 0x18 ∷ 0x30 ∷ 0x30 ∷ 0x30 ∷ 0x30 ∷ 0x30 ∷ 0x30 ∷ 0x18 ∷ 0x0C ∷ 0 ∷ 0 ∷ 0 ∷ 0
        ∷ [])
    ∷ (0 ∷ 0 ∷ 0x30 ∷ 0x18 ∷ 0x0C ∷ 0x0C ∷ 0x0C ∷ 0x0C ∷ 0x0C ∷ 0x0C ∷ 0x18 ∷ 0x30 ∷ 0 ∷ 0 ∷ 0 ∷ 0
        ∷ [])
    ∷ (0 ∷ 0 ∷ 0 ∷ 0 ∷ 0 ∷ 0x66 ∷ 0x3C ∷ 0xFF ∷ 0x3C ∷ 0x66 ∷ 0 ∷ 0 ∷ 0 ∷ 0 ∷ 0 ∷ 0 ∷ [])
    ∷ (0 ∷ 0 ∷ 0 ∷ 0 ∷ 0 ∷ 0x18 ∷ 0x18 ∷ 0x7E ∷ 0x18 ∷ 0x18 ∷ 0 ∷ 0 ∷ 0 ∷ 0 ∷ 0 ∷ 0 ∷ [])
    ∷ (0 ∷ 0 ∷ 0 ∷ 0 ∷ 0 ∷ 0 ∷ 0 ∷ 0 ∷ 0 ∷ 0x18 ∷ 0x18 ∷ 0x18 ∷ 0x30 ∷ 0 ∷ 0 ∷ 0 ∷ [])
    ∷ (0 ∷ 0 ∷ 0 ∷ 0 ∷ 0 ∷ 0 ∷ 0 ∷ 0x7E ∷ 0 ∷ 0 ∷ 0 ∷ 0 ∷ 0 ∷ 0 ∷ 0 ∷ 0 ∷ [])
    ∷ (0 ∷ 0 ∷ 0 ∷ 0 ∷ 0 ∷ 0 ∷ 0 ∷ 0 ∷ 0 ∷ 0 ∷ 0x18 ∷ 0x18 ∷ 0 ∷ 0 ∷ 0 ∷ 0 ∷ [])
    ∷ (0 ∷ 0 ∷ 0 ∷ 0 ∷ 0x02 ∷ 0x06 ∷ 0x0C ∷ 0x18 ∷ 0x30 ∷ 0x60 ∷ 0xC0 ∷ 0x80 ∷ 0 ∷ 0 ∷ 0 ∷ 0 ∷ [])
    ∷ (0 ∷ 0 ∷ 0x7C ∷ 0xC6 ∷ 0xC6 ∷ 0xCE ∷ 0xDE ∷ 0xF6 ∷ 0xE6 ∷ 0xC6 ∷ 0xC6 ∷ 0x7C ∷ 0 ∷ 0 ∷ 0 ∷ 0
        ∷ [])
    ∷ (0 ∷ 0 ∷ 0x18 ∷ 0x38 ∷ 0x78 ∷ 0x18 ∷ 0x18 ∷ 0x18 ∷ 0x18 ∷ 0x18 ∷ 0x18 ∷ 0x7E ∷ 0 ∷ 0 ∷ 0 ∷ 0
        ∷ [])
    ∷ (0 ∷ 0 ∷ 0x7C ∷ 0xC6 ∷ 0x06 ∷ 0x0C ∷ 0x18 ∷ 0x30 ∷ 0x60 ∷ 0xC0 ∷ 0xC6 ∷ 0xFE ∷ 0 ∷ 0 ∷ 0 ∷ 0
        ∷ [])
    ∷ (0 ∷ 0 ∷ 0x7C ∷ 0xC6 ∷ 0x06 ∷ 0x06 ∷ 0x3C ∷ 0x06 ∷ 0x06 ∷ 0x06 ∷ 0xC6 ∷ 0x7C ∷ 0 ∷ 0 ∷ 0 ∷ 0
        ∷ [])
    ∷ (0 ∷ 0 ∷ 0x0C ∷ 0x1C ∷ 0x3C ∷ 0x6C ∷ 0xCC ∷ 0xFE ∷ 0x0C ∷ 0x0C ∷ 0x0C ∷ 0x1E ∷ 0 ∷ 0 ∷ 0 ∷ 0
        ∷ [])
    ∷ (0 ∷ 0 ∷ 0xFE ∷ 0xC0 ∷ 0xC0 ∷ 0xC0 ∷ 0xFC ∷ 0x06 ∷ 0x06 ∷ 0x06 ∷ 0xC6 ∷ 0x7C ∷ 0 ∷ 0 ∷ 0 ∷ 0
        ∷ [])
    ∷ (0 ∷ 0 ∷ 0x38 ∷ 0x60 ∷ 0xC0 ∷ 0xC0 ∷ 0xFC ∷ 0xC6 ∷ 0xC6 ∷ 0xC6 ∷ 0xC6 ∷ 0x7C ∷ 0 ∷ 0 ∷ 0 ∷ 0
        ∷ [])
    ∷ (0 ∷ 0 ∷ 0xFE ∷ 0xC6 ∷ 0x06 ∷ 0x06 ∷ 0x0C ∷ 0x18 ∷ 0x30 ∷ 0x30 ∷ 0x30 ∷ 0x30 ∷ 0 ∷ 0 ∷ 0 ∷ 0
        ∷ [])
    ∷ (0 ∷ 0 ∷ 0x7C ∷ 0xC6 ∷ 0xC6 ∷ 0xC6 ∷ 0x7C ∷ 0xC6 ∷ 0xC6 ∷ 0xC6 ∷ 0xC6 ∷ 0x7C ∷ 0 ∷ 0 ∷ 0 ∷ 0
        ∷ [])
    ∷ (0 ∷ 0 ∷ 0x7C ∷ 0xC6 ∷ 0xC6 ∷ 0xC6 ∷ 0x7E ∷ 0x06 ∷ 0x06 ∷ 0x06 ∷ 0x0C ∷ 0x78 ∷ 0 ∷ 0 ∷ 0 ∷ 0
        ∷ [])
    ∷ (0 ∷ 0 ∷ 0 ∷ 0 ∷ 0x18 ∷ 0x18 ∷ 0 ∷ 0 ∷ 0 ∷ 0x18 ∷ 0x18 ∷ 0 ∷ 0 ∷ 0 ∷ 0 ∷ 0 ∷ [])
    ∷ (0 ∷ 0 ∷ 0 ∷ 0 ∷ 0x18 ∷ 0x18 ∷ 0 ∷ 0 ∷ 0 ∷ 0x18 ∷ 0x18 ∷ 0x30 ∷ 0 ∷ 0 ∷ 0 ∷ 0 ∷ [])
    ∷ (0 ∷ 0 ∷ 0 ∷ 0x06 ∷ 0x0C ∷ 0x18 ∷ 0x30 ∷ 0x60 ∷ 0x30 ∷ 0x18 ∷ 0x0C ∷ 0x06 ∷ 0 ∷ 0 ∷ 0 ∷ 0
        ∷ [])
    ∷ (0 ∷ 0 ∷ 0 ∷ 0 ∷ 0 ∷ 0x7E ∷ 0 ∷ 0 ∷ 0x7E ∷ 0 ∷ 0 ∷ 0 ∷ 0 ∷ 0 ∷ 0 ∷ 0 ∷ [])
    ∷ (0 ∷ 0 ∷ 0 ∷ 0x60 ∷ 0x30 ∷ 0x18 ∷ 0x0C ∷ 0x06 ∷ 0x0C ∷ 0x18 ∷ 0x30 ∷ 0x60 ∷ 0 ∷ 0 ∷ 0 ∷ 0
        ∷ [])
    ∷ (0 ∷ 0 ∷ 0x7C ∷ 0xC6 ∷ 0xC6 ∷ 0x0C ∷ 0x18 ∷ 0x18 ∷ 0x18 ∷ 0 ∷ 0x18 ∷ 0x18 ∷ 0 ∷ 0 ∷ 0 ∷ 0
        ∷ [])
    ∷ []
