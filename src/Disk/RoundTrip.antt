-- ===== src/Disk/RoundTrip.antt =====
-- Sectors that are written and read back.
use koko_os.Ram.{Ram}
use koko_os.Ports.{Ports}
use koko_os.Disk.Ata.{Ata}
