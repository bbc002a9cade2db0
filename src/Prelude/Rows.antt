-- ===== src/Prelude/Rows.antt =====
-- The order of rows of three texts, as the source sorts its answers.
use mathlib.Core.Bool.{Bool}
use native.Mathlib.Omega.{arith}
use figmog.Prelude.Tests.{◌==◌, if◌then◌else◌}
use figmog.Prelude.Text.{Str, str_eq, str_beq_iff}
use figmog.Prelude.Sorting.{
  IsOrder, str_leb, str_total, str_trans, str_antisym, pair_leb, pair_leb-IsOrder,
}

abbrev pub Row : Type 0
Row = Str × (Str × Str)

abbrev pub row_leb : Row → Row → Bool
row_leb (a, b) (c, d) = if a == c then pair_leb b d else str_leb a c

pub row_leb-IsOrder : IsOrder row_leb
row_leb-IsOrder = record {
  total = λ (a, b) (c, d) h.
      ground (arith, str_beq_iff a c, str_beq_iff c a, pair_leb-IsOrder.total b d, str_total a c);
  trans = λ (a, b) (c, d) (e, f) h k. ground (
    arith,
    str_beq_iff a c,
    str_beq_iff c e,
    str_beq_iff a e,
    pair_leb-IsOrder.trans b d f,
    str_trans a c e,
    str_antisym a c,
    str_antisym c e,
  );
  antisym = λ (a, b) (c, d) h k.
      ground
        (arith, str_beq_iff a c, str_beq_iff c a, pair_leb-IsOrder.antisym b d, str_antisym a c);
}
