-- ===== src/Tests/Images.antt =====
-- The theorems on tools/createimage.c and the boot block, tried on files in memory and small executables.
use os_prj.Prelude.{
  ℕ, ◌+◌, ◌-◌, ◌*◌, ◌<◌, ◌≡◌, refl, true, List, [], ◌∷◌, arith, leb, ◌==◌, if◌then◌else◌, some,
}
use os_prj.Text.{Memory}
use os_prj.Text.Copy.{within}
use os_prj.Image.Streams.{Stdio, IsLawful, Elf, Phdr}
use os_prj.Image.{
  done, Line, bootblock_title, sectors, size, kernel_title, main, fill, extent_opt,
  count_kernel_sectors,
}
use os_prj.Image.Segments.{segments}
use os_prj.Image.Contents.{IsLayout}
use os_prj.Image.Build.{IsBuildable, image_of, main-image}
use os_prj.Image.Bootblock.{Firmware, IsFaithful, bootblock, boot_at, kernel_at, load_word}
use os_prj.Image.Load.{bootblock-main}

record Disk : Type 0 where
  bytes : Memory
  length : ℕ
  at : ℕ

abbrev stdio : Stdio
stdio = record {
  File = Disk;
  fseek = λ p f. record f { at = p };
  fread = λ n f. (λ k. f.bytes (f.at + k), record f { at = f.at + n });
  fwrite = λ n b f. record {
    bytes = λ k. if within f.at n k then b (k - f.at) else f.bytes k;
    length = if leb (f.at + n) f.length then f.length else f.at + n;
    at = f.at + n;
  };
  malloc = λ n. true;
}

stdio-IsLawful : IsLawful stdio
stdio-IsLawful = record {
  contents = λ f. f.bytes;
  size = λ f. f.length;
  tell = λ f. f.at;
  tell-fseek = λ p f. refl;
  contents-fseek = λ p f k. refl;
  size-fseek = λ p f. refl;
  fread-bytes = λ n f k inside lt. refl;
  contents-fread = λ n f k. refl;
  size-fread = λ n f. refl;
  contents-fwrite = λ n b f k. refl;
}

-- `elf.h` on a little-endian host
abbrev elf : Elf
elf = record {
  e_phnum = λ b. b 44 + 256 * b 45;
  e_phoff = λ b. load_word b 28;
  sizeof_phdr = 32;
  phdr =
      λ b. record { p_offset = load_word b 4; p_filesz = load_word b 16; p_memsz = load_word b 20 };
}

elf-IsLayout : IsLayout elf
elf-IsLayout = record {
  e_phnum-local = λ b c same. rw (same 44 (omega arith), same 45 (omega arith)) refl;
  e_phoff-local = λ b c same. word_cong b c 28 (λ j lt. same (28 + j) (omega (arith, lt)));
  phdr-local = λ b c same.
      rw
        (
          word_cong b c 4 (λ j lt. same (4 + j) (omega (arith, lt))),
          word_cong b c 16 (λ j lt. same (16 + j) (omega (arith, lt))),
          word_cong b c 20 (λ j lt. same (20 + j) (omega (arith, lt))),
        )
        refl;
}
  where
    word_cong :
        (b c : Memory) (a : ℕ)
        → ((j : ℕ) → j < 4 → b (a + j) ≡ c (a + j))
        → load_word b a ≡ load_word c a
    word_cong b c a same =
        rw (first, same 1 (omega arith), same 2 (omega arith), same 3 (omega arith)) refl
      where
        first : b a ≡ c a
        first = let zero_at : a + 0 ≡ a = omega arith in rw zero_at at (same 0 (omega arith))

-- A boot block of eight bytes, behind a table with one entry.
abbrev boot_file : Disk
boot_file = record {
  bytes = λ k.
      if k == 28
      then 52
      else if k == 44
      then 1
      else if k == 56
      then 84
      else if k == 68
      then 8
      else if k == 72
      then 8
      else if leb 84 k
      then k
      else 0;
  length = 92;
  at = 0;
}

-- A kernel with two segments of three and of two bytes; the second takes 600 in memory.
abbrev kernel_file : Disk
kernel_file = record {
  bytes = λ k.
      if k == 28
      then 52
      else if k == 44
      then 2
      else if k == 56
      then 116
      else if k == 68
      then 3
      else if k == 72
      then 3
      else if k == 88
      then 119
      else if k == 100
      then 2
      else if k == 104
      then 88
      else if k == 105
      then 2
      else if leb 116 k
      then k
      else 0;
  length = 121;
  at = 0;
}

abbrev image_file : Disk
image_file = record { bytes = λ k. 0; length = 0; at = 0 }

abbrev boot_segment : Phdr
boot_segment = record { p_offset = 84; p_filesz = 8; p_memsz = 8 }

abbrev kernel_segments : List Phdr
kernel_segments =
    record { p_offset = 116; p_filesz = 3; p_memsz = 3 }
    ∷ record { p_offset = 119; p_filesz = 2; p_memsz = 600 }
    ∷ []

files-IsBuildable :
    IsBuildable stdio elf stdio-IsLawful image_file boot_file kernel_file boot_segment []
unfolding stdio-IsLawful
files-IsBuildable = record {
  memory = λ n. refl;
  image_start = refl;
  bb_start = refl;
  kn_start = refl;
  bb_executable = record { header_inside = omega arith; table_inside = omega arith };
  kn_executable = record { header_inside = omega arith; table_inside = omega arith };
  bb_headers = refl;
  bb_fits = omega arith;
  bb_inside = omega arith;
  kn_inside = (omega arith, omega arith, (omega arith, omega arith, tt));
}

abbrev printed : List Line
printed = bootblock_title ∷ sectors 1 ∷ size 512 ∷ kernel_title ∷ sectors 2 ∷ size 1024 ∷ []

abbrev firmware : Firmware
firmware = record {
  printstr = λ msg m. m;
  read_sd_card = λ buf base len card m. fill buf len (λ k. card (base + k)) m;
}

firmware-IsFaithful : IsFaithful firmware
firmware-IsFaithful = record {
  printstr-bytes = λ msg m k. refl;
  read_sd_card-bytes = λ buf base len card m k. refl;
}

abbrev nothing : Memory
nothing k = 0

main-image_example :
    (t : Disk) × (main stdio elf nothing (some image_file) (some boot_file) (some kernel_file)
      ≡ done (t, printed))
    × ((k : ℕ)
        → t.bytes k
          ≡ image_of 2 boot_segment kernel_segments boot_file.bytes kernel_file.bytes nothing k)
unfolding stdio-IsLawful extent_opt count_kernel_sectors
main-image_example =
    main-image stdio elf nothing stdio-IsLawful elf-IsLayout image_file boot_file kernel_file
      boot_segment [] files-IsBuildable

bootblock-main_example :
    (t : Disk) × (main stdio elf nothing (some image_file) (some boot_file) (some kernel_file)
      ≡ done (t, printed))
    × ((k : ℕ)
        → k < 5
        → (bootblock firmware 3 t.bytes (fill boot_at 512 t.bytes nothing)).0 (kernel_at + k)
          ≡ segments kernel_segments kernel_file.bytes k)
    × ((bootblock firmware 3 t.bytes (fill boot_at 512 t.bytes nothing)).1 ≡ kernel_at)
unfolding stdio-IsLawful extent_opt count_kernel_sectors
bootblock-main_example =
    bootblock-main stdio elf nothing stdio-IsLawful elf-IsLayout firmware firmware-IsFaithful
      image_file boot_file kernel_file boot_segment [] 3 nothing files-IsBuildable (omega arith)
