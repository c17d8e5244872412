-- ===== src/Pages/Debug/Tests.antt =====
-- The debug output of page tables with one page mapped.
use mathlib.Core.List.{Memᴰ}
use kermol.Common.{ℕ, ◌≡◌, refl, List, [], ◌∷◌, some, ok, arith, Call}
use kermol.X86.{IsCanonical}
use kermol.X86.Example.{machine}
use kermol.Entries.Example.{entries, Entry}
use kermol.Pages.{page_index, translate, get_page_table, walk, phys_page_table_as_virt}
use kermol.Pages.Map.{map, map_from, map_entry, add_levels, add_level}
use kermol.Pages.Tree.{IsRecursive, IsMappable}
use kermol.Pages.Example.{table, mapped, reach, after_map}
use kermol.Pages.Debug.{Text, page_line, fmt}
use kermol.Pages.Debug.Adds.{IsFormatter}
use kermol.Pages.Debug.Listing.{fmt-Lists}
use kermol.Pages.Debug.Paths.{used_entry, translated}
use kermol.Linear

abbrev push : Text Entry → Call (List (Text Entry)) (Unit {0}) (Unit {0})
push t f = ok (tt, t ∷ f)

abbrev kept : IsFormatter push
kept = record { texts = λ f. f; writes = λ t f. (t ∷ f, refl, refl) }

mapped-IsRecursive : IsRecursive machine entries table mapped.memory
unfolding map map_from map_entry add_levels add_level get_page_table walk phys_page_table_as_virt
    Linear.alloc
mapped-IsRecursive = record { used = refl; self_frame = refl }

fmt-Lists_example :
    (f' : List (Text Entry)) × (fmt machine entries push table mapped.memory [] ≡ ok (tt, f'))
    × ((to : ℕ) (e : Entry)
        → used_entry machine entries table mapped.memory to ≡ some e
        → Memᴰ (page_line (page_index 1 to) e) f')
    × ((i : ℕ) (e : Entry)
        → Memᴰ (page_line i e) f'
        → (to : ℕ) × IsCanonical to
          × (page_index 1 to ≡ i)
          × (used_entry machine entries table mapped.memory to ≡ some e))
    × ((to : ℕ)
        → IsMappable to
        → translate machine entries {E = Unit {0}} table mapped.memory to
          ≡ ok (
              translated machine entries table mapped.memory to
                (used_entry machine entries table mapped.memory to)))
fmt-Lists_example =
    fmt-Lists machine entries push kept table mapped.memory reach.direct after_map.shape'
      after_map.tree mapped-IsRecursive (omega arith) [] refl
