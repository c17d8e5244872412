-- ===== src/Entries.antt =====
-- The `PageTableEntry` and `PageTableFlags` of the `x86_64` crate, as an interface: the laws are
-- the crate's documented behaviour.
pub mod Example
use kermol.Common.{
  ℕ, ◌%◌, ◌^◌, ◌<◌, ◌≡◌, ◌≢◌, Bool, true, false, ◌&&◌, ◌||◌, Option, none, some, ◌==◌,
}

pub record Entries : Type 1 where
  pub Flags : Type 0
  pub present : Flags
  pub writable : Flags
  pub no_execute : Flags
  pub global : Flags
  -- `a | b`, `flags.contains(a)` and `flags.is_empty()`.
  pub union : Flags → Flags → Flags
  pub contains : Flags → Flags → Bool
  pub is_empty : Flags → Bool
  pub contains_self : (a : Flags) → contains a a ≡ true
  pub contains-union_left : (a b c : Flags) → contains a c ≡ true → contains (union a b) c ≡ true
  pub contains-union_right : (a b c : Flags) → contains b c ≡ true → contains (union a b) c ≡ true
  pub present-is_empty : (a : Flags) → contains a present ≡ true → is_empty a ≡ false
  pub Entry : Type 0
  -- The entry that `PageTable::new()` and `set_unused` write.
  pub unused : Entry
  pub is_unused : Entry → Bool
  pub addr : Entry → ℕ
  pub flags : Entry → Flags
  -- `set_addr` panics on an address that is not aligned to a page.
  pub set_addr : ℕ → Flags → Option Entry
  pub set_flags : Entry → Flags → Entry
  pub unused-is_unused : is_unused unused ≡ true
  pub addr_aligned : (e : Entry) → addr e % 4096 ≡ 0
  pub addr-lt : (e : Entry) → addr e < 2 ^ 52
  pub set_addr-some :
      (a : ℕ) (f : Flags)
      → a % 4096 ≡ 0
      → a < 2 ^ 52
      → (e : Entry) × (set_addr a f ≡ some e)
        × (addr e ≡ a)
        × (flags e ≡ f)
        × (is_unused e ≡ (a == 0 && is_empty f))
  pub set_addr-unaligned : (a : ℕ) (f : Flags) → a % 4096 ≢ 0 → set_addr a f ≡ none
  pub addr-set_flags : (e : Entry) (f : Flags) → addr (set_flags e f) ≡ addr e
  pub flags-set_flags : (e : Entry) (f : Flags) → flags (set_flags e f) ≡ f
  pub is_unused-set_flags :
      (e : Entry) (f : Flags) → is_unused (set_flags e f) ≡ (addr e == 0 && is_empty f)

module _ (entries : Entries) where
  open entries use {Flags, present, writable, no_execute, union}

  -- The flag combinations of src/memory/paging/page_table.rs.
  abbrev pub flags_r : Flags
  flags_r = union present no_execute

  abbrev pub flags_rw : Flags
  flags_rw = union (union writable present) no_execute

  abbrev pub flags_rx : Flags
  flags_rx = present

  abbrev pub flags_rwx : Flags
  flags_rwx = union writable present
