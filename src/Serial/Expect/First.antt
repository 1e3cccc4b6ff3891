-- ===== src/Serial/Expect/First.antt =====
-- What `expect` tells: the first line that matches, or that none of those that came does.
use omarchy_hardware.Common.{List}
use omarchy_hardware.Common.Text.{Text}
