-- ===== src/Paging/Tests.antt =====
-- A directory at 0x1000 whose first entry is a table at 0x2000.
use koko_os.Ram.{Ram, store32}

abbrev blank : Ram
blank = λ b. 0

abbrev paged : Ram
paged = store32 blank 0x1000 0x2007
