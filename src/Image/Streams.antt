-- ===== src/Image/Streams.antt =====
-- What tools/createimage.c uses of the C library and of `elf.h`.
use os_prj.Prelude.{ℕ, ◌+◌, ◌-◌, ◌≤◌, ◌<◌, ◌≡◌, Bool, if◌then◌else◌}
use os_prj.Text.{Memory}
use os_prj.Text.Copy.{within}

-- The streams of `stdio.h`: `fread n f` gives the bytes that it puts into the buffer, and `malloc` whether
-- there is memory.
pub record Stdio : Type 1 where
  pub File : Type 0
  pub fseek : ℕ → File → File
  pub fread : ℕ → File → Memory × File
  pub fwrite : ℕ → Memory → File → File
  pub malloc : ℕ → Bool

-- The bytes of a stream's file, their number, and the position in it, as the C standard describes them.
pub record IsLawful (io : Stdio) : Type 0 where
  pub contents : io.File → Memory
  pub size : io.File → ℕ
  pub tell : io.File → ℕ
  pub tell-fseek : (p : ℕ) (f : io.File) → tell (io.fseek p f) ≡ p
  pub contents-fseek : (p : ℕ) (f : io.File) (k : ℕ) → contents (io.fseek p f) k ≡ contents f k
  pub size-fseek : (p : ℕ) (f : io.File) → size (io.fseek p f) ≡ size f
  pub fread-bytes :
      (n : ℕ) (f : io.File) (k : ℕ)
      → tell f + n ≤ size f
      → k < n
      → (io.fread n f).0 k ≡ contents f (tell f + k)
  pub contents-fread : (n : ℕ) (f : io.File) (k : ℕ) → contents (io.fread n f).1 k ≡ contents f k
  pub size-fread : (n : ℕ) (f : io.File) → size (io.fread n f).1 ≡ size f
  pub contents-fwrite :
      (n : ℕ) (bytes : Memory) (f : io.File) (k : ℕ)
      → contents (io.fwrite n bytes f) k
        ≡ (if within (tell f) n k then bytes (k - tell f) else contents f k)

-- `Elf32_Phdr`, the fields that the program reads
pub record Phdr : Type 0 where
  pub p_offset : ℕ
  pub p_filesz : ℕ
  pub p_memsz : ℕ

-- `Elf32_Ehdr` and `Elf32_Phdr` in a buffer
pub record Elf : Type 0 where
  pub e_phnum : Memory → ℕ
  pub e_phoff : Memory → ℕ
  pub sizeof_phdr : ℕ
  pub phdr : Memory → Phdr
