-- ===== src/Proc/Worker/Matching.antt =====
-- Which processes on_unregister() of the worker processor can find.
use rattle.Base.{
  ℕ, ◌^◌, ◌<◌, ◌≡◌, ◌≢◌, ◌↔◌, refl, Bool, true, Option, none, some, get_or, arith, ap, ap₂, sym,
  ◌∙◌, Option-cases, inl, inr,
}
use rattle.Table.State.{Table}
use rattle.Table.Valid.{IsValid}
use rattle.Table.Find.{search_slot}
use rattle.Table.Answer.{table_search_missing, search_slot-matches}
use rattle.Proc.Process.{Attr, Process, no_process, same_attr}
use rattle.Proc.Worker.Pool.{compare_attr, compare_process, unregister_process}

abbrev attr_of : ℕ → ℕ → Attr
attr_of f l = record { flags = f; lock = l }

abbrev process_of : ℕ → Option Attr → ℕ → Process
process_of p a u = record { process = p; attr = a; udata = u }

same_attr→eq : (a b : Attr) → same_attr a b ≡ true → a ≡ b
same_attr→eq a b h = ap₂ (λ (f l : ℕ). attr_of f l) (ground (arith, h)) (ground (arith, h))

compare_attr→eq : (a b : Option Attr) → compare_attr a b ≡ true → a ≡ b
compare_attr→eq (some a) (some b) h = ap some (same_attr→eq a b h)
compare_attr→eq (some a) none h = absurd (cc)
compare_attr→eq none (some b) h = absurd (cc)
compare_attr→eq none none h = refl

compare_attr_refl : (a : Option Attr) → compare_attr a a ≡ true
compare_attr_refl none = refl
compare_attr_refl (some a) = ground arith

-- An entry matches exactly if it is the process looked for and has no user data.
pub compare_process_iff :
    (entry proc : Process)
    → (compare_process entry proc ≡ true) ↔ ((entry ≡ proc) × (proc.udata ≡ 0))
unfolding compare_process
compare_process_iff entry proc = (
  λ h.
      let (p, u, w, attrs_match) : (entry.process ≡ proc.process)
          × (proc.udata ≡ 0)
          × (entry.udata ≡ proc.udata)
          × (compare_attr proc.attr entry.attr ≡ true) =
        ground (arith, h) in
      let attrs = compare_attr→eq proc.attr entry.attr attrs_match in
      (
        ap₂ (λ (f : ℕ) (d : ℕ). process_of f entry.attr d) p (w)
            ∙ ap (λ (a : Option Attr). process_of proc.process a proc.udata) (sym attrs),
        u,
      ),
  λ h.
      let refl_attr : compare_attr proc.attr entry.attr ≡ true =
        ap (λ (e : Process). compare_attr proc.attr e.attr) h.0 ∙ compare_attr_refl proc.attr in
      let p = ap (λ (e : Process). e.process) h.0 in
      let u = ap (λ (e : Process). e.udata) h.0 in ground (arith, refl_attr, p, u, h.1),
)

-- A process that was registered with user data cannot be unregistered: the deletion leaves the
-- table of the worker as it is, but for the place of the cursor.
pub unregister_process-udata :
    (t : Table Process) (proc : Process)
    → IsValid t
    → t.frag_count < 2 ^ 32
    → proc.udata ≢ 0
    → unregister_process t proc ≡ record t { pos = (unregister_process t proc).pos }
unfolding unregister_process
unregister_process-udata t proc v small given =
    let comp : Process → Bool = λ entry. compare_process entry proc in
    elim (Option-cases (search_slot no_process comp t)) [
      | inl none_found ↦
          let missing = table_search_missing no_process comp v small none_found in
          ground (arith, missing.0)
      | inr (q, found) ↦
          let hit = search_slot-matches no_process comp v small q found in
          absurd (given ((compare_process_iff (get_or t.head q no_process) proc).0 hit.0).1)
    ]
