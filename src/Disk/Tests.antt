-- ===== src/Disk/Tests.antt =====
-- Reading two sectors of a simulated drive, and writing two and reading them back.
use koko_os.Disk.Read.{Read}
use koko_os.Disk.WriteDrive.{WriteDrive}
use koko_os.Ram.{Ram}
