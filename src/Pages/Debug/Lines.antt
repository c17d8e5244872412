-- ===== src/Pages/Debug/Lines.antt =====
-- What the loops of the debug output of src/memory/paging/page_table.rs add.

use kermol.Common.{ℕ, suc, ◌-◌, ◌<◌, ◌≡◌, refl, inl, inr}
use kermol.Common.{true, false, Bool-cases, word, arith}
use kermol.Common.{Outcome, ok, ◌>>=◌, Call}
use kermol.X86.{X86}
use kermol.Entries.{Entries}
use kermol.Pages.{RecursivePageTable, Memory}
use kermol.Pages.Tree.{Shape, IsTree, IsDirectMap, child, as_virt}
use kermol.Pages.Debug.{Text, table_line, page_line, debug_entries}
use kermol.Pages.Debug.{debug_entry, debug_page, debug_page_from, debug_page_entry, write_tabs}
use kermol.Pages.Debug.Adds.{
  IsFormatter, Adds, No, Between, nothing, other, line, same, write_tabs-Adds, loop-Adds, then-Adds,
}
use kermol.Pages.Debug.Paths.{Lists}

module _ (x86 : X86) (entries : Entries) where
  open entries use {Entry, is_unused, addr}

  module _ {F : Type 0} (write : Text Entry → Call F (Unit {0}) (Unit {0}))
      (formatter : IsFormatter write) (self : RecursivePageTable x86 entries)
      (memory : Memory x86 entries) where
    debug_page_entry-Adds :
        (p j : ℕ) (f : F)
        → Adds write formatter
            (λ i e. (i ≡ j) × (is_unused (memory p j) ≡ false) × (memory p j ≡ e))
            f
            (debug_page_entry x86 entries write self memory j p f)
    debug_page_entry-Adds p j f = elim (Bool-cases (is_unused (memory p j))) [
      | inl u ↦ rw u (
          same write formatter No (λ i e. (i ≡ j) × (true ≡ false) × (memory p j ≡ e)) f
            (ok (tt, f)) (λ i e z. absurd z) (λ i e (z, gone, q). ground (arith, gone))
            (nothing write formatter f))
      | inr u ↦ rw u (
          same write formatter (λ i e. page_line i e ≡ page_line j (memory p j))
            (λ i e. (i ≡ j) × (false ≡ false) × (memory p j ≡ e)) f
            (write (page_line j (memory p j)) f)
            (λ i e z. (ground (arith, z), refl, ground (arith, z)))
            (λ i e (z, s, q). ground (arith, z, q)) (line write formatter j (memory p j) f))
    ]

    pub debug_page-Adds :
        (p : ℕ) (f : F)
        → Adds write formatter
            (Lists x86 entries self memory 0 p)
            f
            (debug_page x86 entries write self memory p f)
    unfolding debug_page debug_page_from
    debug_page-Adds p f =
        same write formatter (Between One 0 512) (Lists x86 entries self memory 0 p) f
          (loop 512 0 f) (λ i e (j, l, u, (z, used, q)). (omega (arith, u, z), rw z used, rw z q))
          (λ i e (u, used, q). (i, omega arith, omega (arith, u), (refl, used, q)))
          (loop-Adds write formatter One body loop (λ i f. refl) (λ count i f. refl) 512
            (λ j f l. debug_page_entry-Adds p j f) 512 0 f (omega arith))
      where
        body : ℕ → F → Outcome (Unit {0} × F) (Unit {0} × F)
        body j f = debug_page_entry x86 entries write self memory j p f

        loop : ℕ → ℕ → F → Outcome (Unit {0} × F) (Unit {0} × F)
        loop count i f = debug_page_from x86 entries write self memory count i p f

        One : ℕ → ℕ → Entry → Type 0
        One j i e = (i ≡ j) × (is_unused (memory p j) ≡ false) × (memory p j ≡ e)

    -- The loop over a table, where each table below it is in reach and adds its own pages.
    module _ (d : IsDirectMap x86 entries self) (shape : Shape)
        (t : IsTree x86 entries self memory shape)
        (below : ℕ → F → Outcome (Unit {0} × F) (Unit {0} × F)) (levels p : ℕ) where
      abbrev next : ℕ → ℕ
      next j = child x86 entries self (memory p j)

      abbrev One : ℕ → ℕ → Entry → Type 0
      One j i e =
          (is_unused (memory p j) ≡ false) × Lists x86 entries self memory levels (next j) i e

      abbrev line_of : ℕ → Text Entry
      line_of j = table_line (suc (suc levels)) j (next j)

      debug_entry-Adds :
          (j : ℕ) (f : F)
          → (is_unused (memory p j) ≡ false
              → (next j < word)
                × ((f : F)
                    → Adds write formatter
                        (Lists x86 entries self memory levels (next j))
                        f
                        (below (next j) f)))
          → Adds write formatter
              (One j)
              f
              (debug_entry x86 entries write self memory below (suc (suc levels)) j p f)
      debug_entry-Adds j f more = elim (Bool-cases (is_unused (memory p j))) [
        | inl u ↦ rw u (
            same write formatter No (One j) f (ok (tt, f)) (λ i e z. absurd z)
              (λ i e (used, b). ground (arith, u, used)) (nothing write formatter f))
        | inr u ↦
            let reached =
              as_virt x86 entries self d memory shape t {E = Unit {0}} (addr (memory p j))
                (more u).0 in
            rw (u, reached)
              (same write formatter (Lists x86 entries self memory levels (next j)) (One j) f
                (write_tabs x86 entries write self memory (4 - suc (suc levels)) f >>= λ a.
                  write (line_of j) a.1 >>= λ b. below (next j) b.1)
                (λ i e b. (u, b)) (λ i e (used, b). b)
                (then-Adds write formatter (Lists x86 entries self memory levels (next j)) f
                  (write_tabs x86 entries write self memory (4 - suc (suc levels)) f)
                  (λ f'. write (line_of j) f' >>= λ b. below (next j) b.1)
                  (write_tabs-Adds x86 entries write formatter self memory (4 - suc (suc levels)) f)
                  (λ f'.
                    then-Adds write formatter (Lists x86 entries self memory levels (next j)) f'
                      (write (line_of j) f') (below (next j))
                      (other write formatter (line_of j) f' (λ i e z. ground (arith, z)))
                      (more u).1)))
      ]

      pub debug_entries-Adds :
          ((j : ℕ)
            → j < 512
            → is_unused (memory p j) ≡ false
            → (next j < word)
              × ((f : F)
                  → Adds write formatter
                      (Lists x86 entries self memory levels (next j))
                      f
                      (below (next j) f)))
          → (f : F)
          → Adds write formatter
              (Lists x86 entries self memory (suc levels) p)
              f
              (debug_entries x86 entries write self memory below (suc (suc levels)) 512 0 p f)
      unfolding debug_entries
      debug_entries-Adds more f =
          same write formatter (Between One 0 512) (Lists x86 entries self memory (suc levels) p) f
            (loop 512 0 f) (λ i e (j, l, u, (used, b)). (j, omega (arith, u), used, b))
            (λ i e (j, u, used, b). (j, omega arith, omega (arith, u), (used, b)))
            (loop-Adds write formatter One body loop (λ i f. refl) (λ count i f. refl) 512
              (λ j f l. debug_entry-Adds j f (more j l)) 512 0 f (omega arith))
        where
          body : ℕ → F → Outcome (Unit {0} × F) (Unit {0} × F)
          body j f = debug_entry x86 entries write self memory below (suc (suc levels)) j p f

          loop : ℕ → ℕ → F → Outcome (Unit {0} × F) (Unit {0} × F)
          loop count i f =
              debug_entries x86 entries write self memory below (suc (suc levels)) count i p f
