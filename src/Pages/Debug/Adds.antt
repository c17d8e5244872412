-- ===== src/Pages/Debug/Adds.antt =====
-- Calls of the debug output of src/memory/paging/page_table.rs that add lines to a formatter.
use mathlib.Core.List.{Memᴰ}
use mathlib.Core.List.Memᴰ
use kermol.Common.{ℕ, zero, suc, ◌+◌, ◌≤◌, ◌<◌, ◌≡◌, refl, ◌⊎◌, inl, inr}
use kermol.Common.{List, ◌∷◌, arith, lt-or-le}
use kermol.Common.{Outcome, ok, ◌>>=◌, Call}
use kermol.X86.{X86}
use kermol.Entries.{Entries}
use kermol.Pages.{RecursivePageTable, Memory}
use kermol.Pages.Debug.{Text, tab, page_line}
use kermol.Pages.Debug.{write_tabs}

either : {A B : Type 0} → (A → B) → A ⊎ A → B
either f (inl a) = f a
either f (inr a) = f a

module _ {Entry : Type 0} where
  abbrev pub No : ℕ → Entry → Type 0
  No i e = ⊥

  -- The pages of the entries from `lo` on.
  abbrev pub Between : (ℕ → ℕ → Entry → Type 0) → ℕ → ℕ → ℕ → Entry → Type 0
  Between P lo count i e = (j : ℕ) × (lo ≤ j) × (j < lo + count) × P j i e

  -- A formatter that takes every text: `texts` are those it has got, the last one first.
  pub record IsFormatter {F : Type 0} (write : Text Entry → Call F (Unit {0}) (Unit {0}))
      : Type 0 where
    pub texts : F → List (Text Entry)
    pub writes :
        (t : Text Entry) (f : F) → (f' : F) × (write t f ≡ ok (tt, f')) × (texts f' ≡ t ∷ texts f)

  module _ {F : Type 0} (write : Text Entry → Call F (Unit {0}) (Unit {0}))
      (formatter : IsFormatter write) where
    -- A call that returns, and adds the lines of these pages.
    pub record Adds (P : ℕ → Entry → Type 0) (f : F) (r : Outcome (Unit {0} × F) (Unit {0} × F))
        : Type 0 where
      pub after : F
      pub returns : r ≡ ok (tt, after)
      pub only :
          (i : ℕ) (e : Entry)
          → Memᴰ (page_line i e) (formatter.texts after)
          → Memᴰ (page_line i e) (formatter.texts f) ⊎ P i e
      pub keeps :
          (i : ℕ) (e : Entry)
          → Memᴰ (page_line i e) (formatter.texts f)
          → Memᴰ (page_line i e) (formatter.texts after)
      pub all : (i : ℕ) (e : Entry) → P i e → Memᴰ (page_line i e) (formatter.texts after)

    pub nothing : (f : F) → Adds No f (ok (tt, f))
    nothing f = record {
      after = f;
      returns = refl;
      only = λ i e m. inl m;
      keeps = λ i e m. m;
      all = λ i e z. absurd z;
    }

    -- A text that is no page's line.
    pub other :
        (t : Text Entry) (f : F)
        → ((i : ℕ) (e : Entry) → page_line i e ≡ t → ⊥)
        → Adds No f (write t f)
    other t f distinct =
        let (f', returns, grown) = formatter.writes t f in
        record {
          after = f';
          returns = returns;
          only = λ i e m. elim (Memᴰ.cases_cons (rw grown at m)) [
            | inl same ↦ absurd (distinct i e same)
            | inr m ↦ inl m
          ];
          keeps = λ i e m. rw grown (Memᴰ.tail m);
          all = λ i e z. absurd z;
        }

    pub line :
        (j : ℕ) (a : Entry) (f : F)
        → Adds (λ i e. page_line i e ≡ page_line j a) f (write (page_line j a) f)
    line j a f =
        let (f', returns, grown) = formatter.writes (page_line j a) f in
        record {
          after = f';
          returns = returns;
          only = λ i e m. elim (Memᴰ.cases_cons (rw grown at m)) [
            | inl same ↦ inr same
            | inr m ↦ inl m
          ];
          keeps = λ i e m. rw grown (Memᴰ.tail m);
          all = λ i e same. rw grown (Memᴰ.head same);
        }

    pub chain :
        (P Q : ℕ → Entry → Type 0) (f : F) (r : Outcome (Unit {0} × F) (Unit {0} × F))
        (next : F → Outcome (Unit {0} × F) (Unit {0} × F))
        → Adds P f r
        → ((f' : F) → Adds Q f' (next f'))
        → Adds (λ i e. P i e ⊎ Q i e) f (r >>= λ a. next a.1)
    chain P Q f r next p q =
        let second = q p.after in
        record {
          after = second.after;
          returns = rw p.returns second.returns;
          only = λ i e m. elim (second.only i e m) [
            | inr b ↦ inr (inr b)
            | inl m ↦ elim (p.only i e m) [ inl m ↦ inl m | inr a ↦ inr (inl a) ]
          ];
          keeps = λ i e m. second.keeps i e (p.keeps i e m);
          all =
              λ i e o. elim o [ inl a ↦ second.keeps i e (p.all i e a) | inr b ↦ second.all i e b ];
        }

    -- The same pages, said in another way.
    pub same :
        (P Q : ℕ → Entry → Type 0) (f : F) (r : Outcome (Unit {0} × F) (Unit {0} × F))
        → ((i : ℕ) (e : Entry) → P i e → Q i e)
        → ((i : ℕ) (e : Entry) → Q i e → P i e)
        → Adds P f r
        → Adds Q f r
    same P Q f r to from p = record {
      after = p.after;
      returns = p.returns;
      only = λ i e m. elim (p.only i e m) [ inl m ↦ inl m | inr a ↦ inr (to i e a) ];
      keeps = p.keeps;
      all = λ i e b. p.all i e (from i e b);
    }

    -- After texts that are no page's lines.
    pub then-Adds :
        (Q : ℕ → Entry → Type 0) (f : F) (r : Outcome (Unit {0} × F) (Unit {0} × F))
        (next : F → Outcome (Unit {0} × F) (Unit {0} × F))
        → Adds No f r
        → ((f' : F) → Adds Q f' (next f'))
        → Adds Q f (r >>= λ a. next a.1)
    then-Adds Q f r next p q =
        same (λ i e. No i e ⊎ Q i e) Q f (r >>= λ a. next a.1)
          (λ i e o. late (No i e) (Q i e) (λ z. z) o) (λ i e b. inr b) (chain No Q f r next p q)
      where
        late : (A B : Type 0) → (A → ⊥) → A ⊎ B → B
        late A B never (inl a) = absurd (never a)
        late A B never (inr b) = b

    -- A loop over entries, each of which adds the lines of its pages.
    module _ (P : ℕ → ℕ → Entry → Type 0) (body : ℕ → F → Outcome (Unit {0} × F) (Unit {0} × F))
        (loop : ℕ → ℕ → F → Outcome (Unit {0} × F) (Unit {0} × F))
        (stop : (i : ℕ) (f : F) → loop 0 i f ≡ ok (tt, f))
        (step : (count i : ℕ) (f : F)
          → loop (suc count) i f ≡ (body i f >>= λ a. loop count (suc i) a.1))
        (bound : ℕ) (each : (j : ℕ) (f : F) → j < bound → Adds (P j) f (body j f)) where
      pub loop-Adds :
          (count lo : ℕ) (f : F)
          → lo + count ≤ bound
          → Adds (Between P lo count) f (loop count lo f)
      loop-Adds zero lo f h = rw (stop lo f) (
          same No (Between P lo 0) f (ok (tt, f)) (λ i e z. absurd z)
            (λ i e (j, l, u, p). absurd (omega (arith, l, u))) (nothing f))
      loop-Adds (suc count) lo f h = rw (step count lo f) (
          same (λ i e. P lo i e ⊎ Between P (suc lo) count i e) (Between P lo (suc count)) f
            (body lo f >>= λ a. loop count (suc lo) a.1) to from
            (chain (P lo) (Between P (suc lo) count) f (body lo f) (loop count (suc lo))
              (each lo f (omega (arith, h)))
              (λ f'. loop-Adds count (suc lo) f' (omega (arith, h)))))
        where
          to :
              (i : ℕ) (e : Entry)
              → P lo i e ⊎ Between P (suc lo) count i e
              → Between P lo (suc count) i e
          to i e (inl p) = (lo, omega arith, omega arith, p)
          to i e (inr (j, l, u, p)) = (j, omega (arith, l), omega (arith, u), p)

          from :
              (i : ℕ) (e : Entry)
              → Between P lo (suc count) i e
              → P lo i e ⊎ Between P (suc lo) count i e
          from i e (j, l, u, p) = elim (lt-or-le lo j) [
            | inl more ↦ inr (j, more, omega (arith, u), p)
            | inr less ↦ let first : j ≡ lo = omega (arith, l, less) in inl (rw first at p)
          ]

module _ (x86 : X86) (entries : Entries) {F : Type 0}
    (write : Text entries.Entry → Call F (Unit {0}) (Unit {0})) (formatter : IsFormatter write)
    (self : RecursivePageTable x86 entries) (memory : Memory x86 entries) where
  pub write_tabs-Adds :
      (count : ℕ) (f : F)
      → Adds write formatter No f (write_tabs x86 entries write self memory count f)
  unfolding write_tabs
  write_tabs-Adds zero f = nothing write formatter f
  write_tabs-Adds (suc count) f =
      same write formatter (λ i e. No i e ⊎ No i e) No f
        (write tab f >>= λ a. write_tabs x86 entries write self memory count a.1)
        (λ i e o. either (λ z. z) o) (λ i e z. absurd z)
        (chain write formatter No No f (write tab f)
          (write_tabs x86 entries write self memory count)
          (other write formatter tab f (λ i e z. ground (arith, z))) (write_tabs-Adds count))
