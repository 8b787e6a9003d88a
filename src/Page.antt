-- ===== src/Page.antt =====
-- Pages of a list: clampPageSize and pageCount of src/domain/SsaTypes.h.
use ssa_consulta_rapidacpp.Prelude.{
  ℕ, ◌+◌, ◌-◌, ◌/◌, ◌%◌, ◌^◌, Option, none, some, if◌then◌else◌, ◌==◌,
}
use ssa_consulta_rapidacpp.Prelude.Int.{ℤ, pos, below, at_least}

unfoldable pub clamp_page_size : ℤ → ℤ
clamp_page_size value =
    if below 10 value then pos 10 else if at_least 501 value then pos 500 else value

-- none where the code throws std::invalid_argument; std::size_t is 64 bits.
unfoldable pub page_count : ℕ → ℕ → Option ℕ
page_count total_rows page_size =
    if page_size == 0
    then none
    else if total_rows == 0
    then some 0
    else some ((total_rows + page_size - 1) % 2 ^ 64 / page_size)
