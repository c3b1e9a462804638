-- ===== src/Fat/System.antt =====
-- `fat16_file_system` of src/lib/fs/fat16/fat16.c: FAT16's functions behind the pointers that
-- src/lib/fs/file.c calls. Their state is the machine and the disk.
use koko_os.Prelude.{ℕ, ◌+◌, done, ◌>>=◌}
use koko_os.Ram.{load32}
use koko_os.Memory
use koko_os.Memory.{Machine}
use koko_os.Ports.{Ports}
use koko_os.File.{FileSystems}
use koko_os.Fat.{Places}
use koko_os.Fat.Files

module _ (ports : Ports) (patience primary_disk : ℕ) (places : Places) where
  open ports use {Device}

  abbrev pub fat16_systems : FileSystems
  fat16_systems = record {
    State = Machine × Device;
    fs_of_disk = λ disk w. load32 w.0.ram (disk + 8);
    read = λ fs disk out private_data size nmemb w. do
      (code, m, d) ←
          Files.read ports patience primary_disk places w.0 w.1 disk out private_data size nmemb
      done (code, (m, d));
    write = λ fs disk in_ private_data size w. do
      (code, m, d) ←
          Files.write ports patience primary_disk places w.0 w.1 disk in_ private_data size
      done (code, (m, d));
    seek = λ fs private_data offset mode w.
        let (code, ram) = Files.seek w.0.ram private_data offset mode in
        done (code, (record (w.0) { ram = ram }, w.1));
    stat = λ fs disk private_data file_stat w.
        let (code, ram) = Files.stat w.0.ram private_data file_stat in
        done (code, (record (w.0) { ram = ram }, w.1));
    close = λ fs private_data w. do
      (code, m) ← Files.close w.0 private_data
      done (code, (m, w.1));
    free = λ address w. do
      m ← Memory.free w.0 address
      done (m, w.1);
  }
