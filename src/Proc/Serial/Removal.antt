-- ===== src/Proc/Serial/Removal.antt =====
-- The table of the serial processor when the process under the cursor is deleted (proc_serial.c).
use native.Mathlib.Decide.{ℕ_discrete}
use rattle.Base.{ℕ, ◌≤◌, ◌<◌, ◌≡◌, ◌≢◌, ◌⊎◌, refl, false, Option, none, some, arith, ◌∙◌, inl, inr}
use rattle.Table.Mask.{is_frag}
use rattle.Table.State.{Table}
use rattle.Table.Update.{del_current}
use rattle.Table.Valid.{IsValid, used, lookup}
use rattle.Table.Delete.{del_current-chunk, del_current-pos}
use rattle.Table.Gap.{empty-none}
use rattle.Table.Reuse.{pos-IsValid}
use rattle.Proc.Process.{Process, no_process}
use rattle.Proc.Serial.Queue.{Serial, process_at}

pub ℕ_cases : (i p : ℕ) → (i ≤ p) ⊎ (p < i)
ℕ_cases i p = ground arith

-- The state that stands on a process in slot `p`, with none before it.
pub record Standing (f : ℕ → Option Process) (p : ℕ) (s : Serial) : Type 0 where
  pub valid : IsValid s.proctab
  pub place : s.proctab.pos ≡ p
  pub live : lookup no_process s.proctab p ≡ some (process_at s.proctab p)
  pub same : (i : ℕ) → p ≤ i → lookup no_process s.proctab i ≡ f i
  pub below : (i : ℕ) → i < p → lookup no_process s.proctab i ≡ none

-- The table `t1` is `t` without the process in slot `p`, where none was before it.
pub record Removed (f : ℕ → Option Process) (p : ℕ) (t t1 : Table Process) : Type 0 where
  pub valid : IsValid t1
  pub away : (i : ℕ) → p < i → lookup no_process t1 i ≡ f i
  pub gone : (i : ℕ) → i ≤ p → lookup no_process t1 i ≡ none
  pub shorter : t1.last ≤ t.last
  pub fewer : used t1 ≤ used t
  pub cursor : (t1.pos ≡ p) ⊎ (t1.pos ≡ t1.last)
  pub behind : t1.pos ≤ p

pub removed :
    (f : ℕ → Option Process) (p : ℕ) (s : Serial)
    → Standing f p s
    → Removed f p s.proctab (del_current no_process s.proctab).1
removed f p s st =
    let t = s.proctab in
    let ne : t.chunk_count ≢ 0 =
      λ z. absurd (ground (arith, empty-none no_process st.valid z p, st.live)) in
    let chunk : is_frag t.frag_mask t.pos ≡ false = ground (arith, st.place, st.live) in
    let (_, v1, _, look) = del_current-chunk no_process st.valid ne chunk in
    let (last1, used1, where1, pos1) = del_current-pos no_process st.valid ne chunk in
    record {
      valid = v1;
      away = λ i far. ground (arith, look i, st.place, far, st.same i (omega (arith, far)));
      gone = λ i near. elim (ℕ_discrete i p) [
        | yes e ↦ ground (arith, look i, st.place, e)
        | no ne' ↦ ground (arith, look i, st.place, ne', st.below i (omega (arith, near, ne')))
      ];
      shorter = last1;
      fewer = used1;
      cursor = elim where1 [ inl stays ↦ inl (stays ∙ st.place) | inr back ↦ inr back ];
      behind = omega (arith, pos1, st.place);
    }

-- Without the process the walk has come to slot `q`, the first one with a process left.
pub next-Standing :
    (f : ℕ → Option Process) (p q : ℕ) (t t1 : Table Process) (c : Serial)
    → Removed f p t t1
    → p < q
    → q ≤ t1.last
    → ((i : ℕ) → p < i → i < q → lookup no_process t1 i ≡ none)
    → lookup no_process t1 q ≡ some (process_at t1 q)
    → Standing f q (record c { proctab = record t1 { pos = q } })
next-Standing f p q t t1 c r far inside between found = record {
  valid = pos-IsValid q r.valid inside;
  place = refl;
  live = found;
  same = λ i lo. r.away i (omega (arith, far, lo));
  below = λ i hi. elim (ℕ_cases i p) [ inl near ↦ r.gone i near | inr later ↦ between i later hi ];
}
