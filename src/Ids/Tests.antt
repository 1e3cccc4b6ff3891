-- ===== src/Ids/Tests.antt =====
-- The identification theorems on one device.
use omarchy_hardware.Common.{◌==◌}
use omarchy_hardware.Common.Unicode.{Unicode}

-- Texts that are in lower case already.
abbrev tables : Unicode
tables = record {
  is_digit = λ c. c == b'0';
  is_space = λ c. c == 32;
  lower = λ s. s;
  upper = λ s. s;
}
