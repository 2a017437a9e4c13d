-- ===== src/Assert.antt =====
-- comm/__mtaf_assert.c and .h: the switch of the assertions. In a release build it is off at first.
use mtappender_file.Prelude.{Bool, true, false, if◌then◌else◌}

-- `sg_enable_assert`, at first.
abbrev pub initial : Bool → Bool
initial debug = debug

-- `MTAF_ENABLE_ASSERT` and `MTAF_DISABLE_ASSERT`.
abbrev pub enable_assert : Bool → Bool
enable_assert enabled = true

abbrev pub disable_assert : Bool → Bool
disable_assert enabled = false

-- What an assertion does: the program goes on, or `__assert_rtn` ends it.
pub data Outcome : Type 0 where
  goes_on : Outcome
  ends : Outcome

-- `__ASSERT` and `__ASSERTV2`.
abbrev pub failed : Bool → Outcome
failed enabled = if enabled then ends else goes_on

-- `MTAF_ASSERT`, `MTAF_ASSERT2` and `MTAF_ASSERTV2`.
abbrev pub assert : Bool → Bool → Outcome
assert enabled e = if e then goes_on else failed enabled
