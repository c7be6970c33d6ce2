-- ===== src/Image.antt =====
-- tools/createimage.c: the host's program that puts the boot block and the kernel into one image. The C
-- library's streams and the layout of ELF headers are parameters, `Stdio` and `Elf`; the host is
-- little-endian. Sizes are not followed past the range of an `int`.
pub mod Streams
pub mod Segments
pub mod Contents
pub mod Build
pub mod Bootblock
pub mod Load
use os_prj.Prelude.{
  ℕ, zero, suc, ◌+◌, ◌-◌, ◌*◌, ◌/◌, ◌%◌, ◌^◌, ◌<◌, Bool, true, false, List, [], ◌∷◌, ◌++◌, Option,
  none, some, leb, ◌==◌, ℤ, pos, negsuc, if◌then◌else◌,
}
use os_prj.Text.{Memory}
use os_prj.Text.Copy.{within}
use os_prj.Image.Streams.{Stdio, Elf, Phdr}

-- What the program prints, and how it ends: with a result, by `exit`, or by a use of memory behind an
-- array.
pub data Line : Type 0 where
  malloc_ehdr_failed malloc_phdr_failed open_image_failed open_bootblock_failed open_kernel_failed :
      Line
  bootblock_title kernel_title : Line
  sectors size : ℕ → Line

pub data Outcome {ℓ} (A : Type ℓ) : Type ℓ where
  done : A → Outcome A
  exits : ℤ → Line → Outcome A
  overflows : Outcome A

infixl 5 ◌>>=◌
abbrev pub ◌>>=◌ {ℓ κ} : {A : Type ℓ} {C : Type κ} → Outcome A → (A → Outcome C) → Outcome C
done a >>= rest = rest a
exits code line >>= rest = exits code line
overflows >>= rest = overflows

-- A buffer after `fread(buffer + at, n, 1, file)`
abbrev pub fill : (at n : ℕ) → (bytes buffer : Memory) → Memory
fill at n bytes buffer k = if within at n k then bytes (k - at) else buffer k

-- `sectors_num` after the loop
abbrev pub sum_memsz : List Phdr → ℕ
sum_memsz [] = 0
sum_memsz (p ∷ ps) = p.p_memsz + sum_memsz ps

-- The sectors of 512 bytes that the kernel's segments take in memory.
unfoldable pub count_kernel_sectors : List Phdr → ℕ
count_kernel_sectors ps =
    let bytes = sum_memsz ps in bytes / 512 + (if bytes % 512 == 0 then 0 else 1)

-- An `int` as the four bytes that the host writes.
abbrev pub int_bytes : ℕ → Memory
int_bytes n k = n / 256 ^ k % 256

-- What `extent_opt` prints.
unfoldable pub extent_opt : (kernelsz : ℕ) → List Line
extent_opt kernelsz =
    bootblock_title ∷ sectors 1 ∷ size 512 ∷ kernel_title ∷ sectors 2 ∷ size (kernelsz * 512) ∷ []

-- The entries of the program header table from the byte `at` on, of which `n` are left.
unfoldable pub phdrs : Elf → (n at : ℕ) → Memory → List Phdr
phdrs elf zero at bytes = []
phdrs elf (suc n) at bytes =
    elf.phdr (λ k. bytes (at + k)) ∷ phdrs elf n (at + elf.sizeof_phdr) bytes

-- `unset` is what a local array holds before it is written.
module _ (io : Stdio) (elf : Elf) (unset : Memory) where
  -- `read_exec_file` from the second `malloc` on
  unfoldable pub read_table : (ehdr : Memory) → io.File → Outcome (List Phdr × io.File)
  read_table ehdr file =
      let num = elf.e_phnum ehdr in
      let (bytes, f) = io.fread (elf.sizeof_phdr * num) file in
      if io.malloc (num * elf.sizeof_phdr)
      then done (phdrs elf num 0 bytes, f)
      else exits (negsuc 0) malloc_phdr_failed

  unfoldable pub read_exec_file : io.File → Outcome (List Phdr × io.File)
  read_exec_file file =
      let (ehdr, f) = io.fread 52 file in
      if io.malloc 52
      then read_table ehdr (io.fseek (elf.e_phoff ehdr) f)
      else exits (negsuc 0) malloc_ehdr_failed

  -- The first segment, as long as it is in memory, goes to the start of the image.
  unfoldable pub write_bootblock : (image file : io.File) → List Phdr → Outcome (io.File × io.File)
  write_bootblock image file [] = overflows
  write_bootblock image file (p ∷ ps) =
      if leb p.p_memsz 512
      then (let (bytes, file) = io.fread p.p_memsz (io.fseek p.p_offset file) in
          done (io.fwrite p.p_memsz (fill 0 p.p_memsz bytes unset) image, file))
      else overflows

  -- The loop of `write_kernel`: the buffer, which has `capacity` bytes, the bytes in it, and the file.
  unfoldable pub gather :
      (capacity : ℕ)
      → List Phdr
      → (cur_capacity : ℕ) → Memory
      → io.File
      → Outcome (Memory × ℕ × io.File)
  gather capacity [] cur buffer file = done (buffer, cur, file)
  gather capacity (p ∷ ps) cur buffer file =
      if leb (cur + p.p_filesz) capacity
      then (let (bytes, file) = io.fread p.p_filesz (io.fseek p.p_offset file) in
          gather capacity ps (cur + p.p_filesz) (fill cur p.p_filesz bytes buffer) file)
      else overflows

  unfoldable pub write_kernel :
      (image knfile : io.File) → List Phdr → (kernelsz : ℕ) → Outcome (io.File × io.File)
  write_kernel image knfile ps kernelsz = do
    (buffer, cur, knfile) ← gather (kernelsz * 512) ps 0 unset knfile
    done (io.fseek 0 (io.fwrite cur buffer (io.fseek 512 image)), knfile)

  unfoldable pub record_kernel_sectors : io.File → (kernelsz : ℕ) → io.File
  record_kernel_sectors image kernelsz =
      io.fwrite 4 (int_bytes (kernelsz * 512)) (io.fseek 508 image)

  -- A file that could not be opened ends the program.
  abbrev pub opened : Option io.File → Line → Outcome io.File
  opened (some file) line = done file
  opened none line = exits (pos 1) line

  -- `main`, by what `fopen` gives for `image`, `bootblock` and `main`: the image, and what was printed.
  unfoldable pub main : (image bootblock kernel : Option io.File) → Outcome (io.File × List Line)
  main image_file bootblock_file kernel_file = do
    image ← opened image_file open_image_failed
    bb ← opened bootblock_file open_bootblock_failed
    kn ← opened kernel_file open_kernel_failed
    (bootblock_phdr, bb) ← read_exec_file bb
    (kernel_phdr, kn) ← read_exec_file kn
    let kernel_size = count_kernel_sectors kernel_phdr
    (image, bb) ← write_bootblock image bb bootblock_phdr
    (image, kn) ← write_kernel image kn kernel_phdr kernel_size
    let image = record_kernel_sectors image kernel_size
    done (image, extent_opt kernel_size)
