-- ===== src/Module/ListingTests.antt =====
-- A table of two modules, and the list of them.
use rattle.Base.{
  ℕ, ◌≡◌, refl, true, [], ◌∷◌, if◌then◌else◌, length, map, arith, count_below, each_under,
}
use rattle.Table.Mask.{is_frag, frag_mask_size}
use rattle.Table.State.{Table, zeroed, exists}
use rattle.Table.Valid.{IsValid}
use rattle.Table.Samples.{clear_check_sound}
use rattle.Args.Sections.{no_sections}
use rattle.Module.Registry.{Entry, no_entry, no_module, Registry}
use rattle.Module.Listing.{name_at, sort_modules, show_modules, place, qsort}
use rattle.Module.Sorted.{times, is_sorted, holds, show_modules-lists}

-- The modules "b" and "a", with a hole between them.
abbrev named : ℕ → Entry
named c = record no_entry { about = record no_module { name = c ∷ [] } }

abbrev registry : Registry
registry = record {
  modtab = record zeroed {
    head = named 98 ∷ no_entry ∷ named 97 ∷ no_entry ∷ [];
    tail = 2;
    size = 4;
    last = 2;
    chunk_size = 104;
    chunk_count = 2;
    frag_count = 1;
    frag_mask = 2 ∷ [];
    flags = 1;
  };
  cortab = zeroed;
  cores = [];
  sections = no_sections;
  config = [];
}

modtab-IsValid : IsValid registry.modtab
unfolding exists frag_mask_size count_below is_frag each_under
modtab-IsValid = record {
  there = refl;
  solid = refl;
  room = refl;
  mask_room = refl;
  bytes = omega arith;
  limit = omega arith;
  last_used = refl;
  last_in = omega arith;
  pos_in = omega arith;
  tail_last = refl;
  holes = refl;
  clear = λ i lo hi. clear_check_sound (2 ∷ []) 3 8 i refl lo hi;
}

show_modules-lists_example :
    let shown = (show_modules registry true).0 in
    ((p : ℕ) → times p shown ≡ (if holds registry.modtab p then 1 else 0))
    × (length shown ≡ 2)
    × (is_sorted (map (name_at registry.modtab) shown) ≡ true)
show_modules-lists_example = show_modules-lists registry modtab-IsValid (omega arith)

-- The second of them is printed first.
shown_slots : (show_modules registry true).0 ≡ 2 ∷ 0 ∷ []
unfolding show_modules sort_modules qsort place rattle.Table.Walk.foreach rattle.Table.Walk.visit
    rattle.Table.Walk.first_next rattle.Table.State.first rattle.Table.State.isempty exists
    rattle.Table.State.fragmented rattle.Table.Walk.pos_isfrag is_frag rattle.Table.Walk.next
    rattle.Table.Walk.next_from rattle.Table.Walk.skipped rattle.Module.Listing.sort_module_name
    rattle.Module.Listing.str_leb
shown_slots = refl
