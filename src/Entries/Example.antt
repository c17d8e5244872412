-- ===== src/Entries/Example.antt =====
-- Page table entries that meet the interface, for runs at concrete inputs: a page frame's number
-- and four flags.
use kermol.Common.{
  ℕ, ◌*◌, ◌/◌, ◌%◌, ◌^◌, ◌<◌, ◌≡◌, ◌≢◌, refl, Bool, true, false, ◌&&◌, ◌||◌, not, Option, none,
  some, ◌==◌, ltb, if◌then◌else◌, arith,
}
use kermol.Entries.{Entries}

pub record Bits : Type 0 where
  pub present : Bool
  pub writable : Bool
  pub no_execute : Bool
  pub global : Bool

abbrev pub union : Bits → Bits → Bits
union a b = record {
  present = a.present || b.present;
  writable = a.writable || b.writable;
  no_execute = a.no_execute || b.no_execute;
  global = a.global || b.global;
}

abbrev pub contains : Bits → Bits → Bool
contains a b =
    (not b.present || a.present)
    && ((not b.writable || a.writable)
        && ((not b.no_execute || a.no_execute) && (not b.global || a.global)))

abbrev pub is_empty : Bits → Bool
is_empty a = not (a.present || (a.writable || (a.no_execute || a.global)))

pub record Entry : Type 0 where
  pub frame : ℕ
  pub flags : Bits

abbrev pub bits : Bool → Bool → Bool → Bits
bits p w n = record { present = p; writable = w; no_execute = n; global = false }

abbrev pub addr : Entry → ℕ
addr e = e.frame % 2 ^ 40 * 4096

abbrev pub set_addr : ℕ → Bits → Option Entry
set_addr a f =
    if a % 4096 == 0 && ltb a (2 ^ 52) then some (record { frame = a / 4096; flags = f }) else none

abbrev pub is_unused : Entry → Bool
is_unused e = addr e == 0 && is_empty e.flags

pub set_addr-some :
    (a : ℕ) (f : Bits)
    → a % 4096 ≡ 0
    → a < 2 ^ 52
    → (e : Entry) × (set_addr a f ≡ some e)
      × (addr e ≡ a)
      × (e.flags ≡ f)
      × (is_unused e ≡ (a == 0 && is_empty f))
set_addr-some a f h low =
    let same : a / 4096 % 2 ^ 40 * 4096 ≡ a = omega arith in
    (record { frame = a / 4096; flags = f }, ground (arith, h, low), same, refl, rw same refl)

pub set_addr-unaligned : (a : ℕ) (f : Bits) → a % 4096 ≢ 0 → set_addr a f ≡ none
set_addr-unaligned a f h = ground (arith, h)

pub contains_self : (a : Bits) → contains a a ≡ true
contains_self a = ground arith

pub contains-union_left : (a b c : Bits) → contains a c ≡ true → contains (union a b) c ≡ true
contains-union_left a b c h = ground (arith, h)

pub contains-union_right : (a b c : Bits) → contains b c ≡ true → contains (union a b) c ≡ true
contains-union_right a b c h = ground (arith, h)

pub present-is_empty : (a : Bits) → contains a (bits true false false) ≡ true → is_empty a ≡ false
present-is_empty a h = ground (arith, h)

abbrev pub entries : Entries
entries = record {
  Flags = Bits;
  present = bits true false false;
  writable = bits false true false;
  no_execute = bits false false true;
  global = record (bits false false false) { global = true };
  union = union;
  contains = contains;
  is_empty = is_empty;
  contains_self = contains_self;
  contains-union_left = contains-union_left;
  contains-union_right = contains-union_right;
  present-is_empty = present-is_empty;
  Entry = Entry;
  unused = record { frame = 0; flags = bits false false false };
  is_unused = is_unused;
  addr = addr;
  flags = λ e. e.flags;
  set_addr = set_addr;
  set_flags = λ e f. record e { flags = f };
  unused-is_unused = refl;
  addr_aligned = λ e. omega arith;
  addr-lt = λ e. omega arith;
  set_addr-some = set_addr-some;
  set_addr-unaligned = set_addr-unaligned;
  addr-set_flags = λ e f. refl;
  flags-set_flags = λ e f. refl;
  is_unused-set_flags = λ e f. refl;
}
