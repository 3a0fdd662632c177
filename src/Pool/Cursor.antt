-- ===== src/Pool/Cursor.antt =====
-- `advance_cursor` of src/pool.rs.
pub mod Rotation
use orihsus.Prelude.{ℕ, zero, suc, ◌+◌, ◌%◌, none, some, List, length, get_elem?, if◌then◌else◌}
use orihsus.Pool.Entry.{KeyEntry, is_cooling}

-- The rounds of the loop over the offsets, from `off` on. The index is below the length, so the
-- case `none` stands for a panic that never happens.
advance_rounds : List KeyEntry → ℕ → ℕ → ℕ → ℕ → ℕ
advance_rounds entries now cursor zero off = cursor
advance_rounds entries now cursor (suc rounds) off =
    let rest = advance_rounds entries now cursor rounds (off + 1) in
    let idx = (cursor + off) % length entries in
    elim (get_elem? entries idx) [ none ↦ cursor | some e ↦ if is_cooling now e then rest else idx ]

-- The new cursor. An empty list leaves no round.
unfoldable pub advance_cursor : List KeyEntry → ℕ → ℕ → ℕ
unfolding advance_rounds
advance_cursor entries now cursor = advance_rounds entries now cursor (length entries) 1
