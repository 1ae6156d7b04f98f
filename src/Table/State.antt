-- ===== src/Table/State.antt =====
-- `struct ratt_table` and the accessors of array.h. A pointer to a chunk is its slot number from
-- `head`; a NULL `head` or `frag_mask` is the empty list.
use rattle.Base.{
  ℕ, ◌+◌, ◌-◌, ◌/◌, ◌%◌, ◌^◌, Bool, false, not, ◌&&◌, ◌||◌, List, [], Option, none, some, Status,
  ◌==◌, leb, if◌then◌else◌,
}

-- RATTSIZMAX, and the size limits of a table.
abbrev pub siz_max : ℕ
siz_max = 2 ^ 64 - 1

abbrev pub tab_siz_min : ℕ
tab_siz_min = 1

abbrev pub tab_siz_max : ℕ
tab_siz_max = siz_max - 1

-- RATTTABFLXIS, RATTTABFLNRA, RATTTABFLNRU.
abbrev pub fl_exists : ℕ
fl_exists = 1

abbrev pub fl_no_realloc : ℕ
fl_no_realloc = 2

abbrev pub fl_no_reuse : ℕ
fl_no_reuse = 4

-- `flags & bit` and `flags | bit`, for a bit that is a power of two.
abbrev pub has_flag : ℕ → ℕ → Bool
has_flag flags bit = (flags / bit) % 2 == 1

abbrev pub with_flag : ℕ → ℕ → ℕ
with_flag flags bit = if has_flag flags bit then flags else flags + bit

-- `dangling` says that `head` points to memory that has been given back.
pub record Table {ℓ} (A : Type ℓ) : Type ℓ where
  pub head : List A
  pub tail : ℕ
  pub size : ℕ
  pub pos : ℕ
  pub last : ℕ
  pub chunk_size : ℕ
  pub chunk_count : ℕ
  pub frag_count : ℕ
  pub frag_mask : List ℕ
  pub flags : ℕ
  pub constrains : Option (A → A → Bool)
  pub on_constrains : Option (A → A → Status × A)
  pub dangling : Bool

-- memset(table, 0, sizeof(ratt_table_t))
abbrev pub zeroed {ℓ} : {A : Type ℓ} → Table A
zeroed = record {
  head = [];
  tail = 0;
  size = 0;
  pos = 0;
  last = 0;
  chunk_size = 0;
  chunk_count = 0;
  frag_count = 0;
  frag_mask = [];
  flags = 0;
  constrains = none;
  on_constrains = none;
  dangling = false;
}

module _ {ℓ} {A : Type ℓ} where
  -- The count is returned as an `int`: only its low 32 bits are left.
  unfoldable pub fragmented : Table A → Bool
  fragmented t = not (t.frag_count % 2 ^ 32 == 0)

  unfoldable pub exists : Table A → Bool
  exists t = has_flag t.flags fl_exists

  unfoldable pub isempty : Table A → Bool
  isempty t = not (exists t) || t.chunk_count == 0

  unfoldable pub ishead : Table A → ℕ → Bool
  ishead t chunk = exists t && chunk == 0

  unfoldable pub istail : Table A → ℕ → Bool
  istail t chunk = exists t && chunk == t.tail

  unfoldable pub first : Table A → Option ℕ × Table A
  first t = if isempty t then (none, t) else (some 0, record t { pos = 0 })

  unfoldable pub last_chunk : Table A → Option ℕ × Table A
  last_chunk t = if isempty t then (none, t) else (some t.tail, record t { pos = t.last })

  unfoldable pub current : Table A → Option ℕ
  current t = if not (isempty t) && leb t.pos t.last then some t.pos else none

  unfoldable pub chunk : Table A → ℕ → Option ℕ × Table A
  chunk t pos =
      if not (isempty t) && leb pos t.last then (some pos, record t { pos = pos }) else (none, t)

  unfoldable pub set_constrains : Table A → (A → A → Bool) → Table A
  set_constrains t compare = record t { constrains = some compare }

  unfoldable pub set_on_constrains : Table A → (A → A → Status × A) → Table A
  set_on_constrains t resolve = record t { on_constrains = some resolve }
