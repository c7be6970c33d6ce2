-- ===== src/Image/Load.antt =====
-- The image of tools/createimage.c under arch/mips/boot/bootblock.S: what the boot block loads.
use os_prj.Prelude.{ℕ, ◌+◌, ◌-◌, ◌*◌, ◌<◌, ◌≡◌, ◌∙◌, refl, arith, List, some}
use os_prj.Text.{Memory}
use os_prj.Text.Copy.{within}
use os_prj.Image.Streams.{Stdio, IsLawful, Elf, Phdr}
use os_prj.Image.{done, int_bytes, count_kernel_sectors, extent_opt, main, fill}
use os_prj.Image.Segments.{segments, sum_filesz, count_kernel_sectors-enough}
use os_prj.Image.Contents.{IsLayout, headers}
use os_prj.Image.Build.{IsBuildable, image_of, main-image}
use os_prj.Image.Bootblock.{Firmware, IsFaithful, boot_at, size_at, kernel_at, load_word, bootblock}

load_word-int_bytes : (n : ℕ) → n < 4294967296 → load_word (int_bytes n) 0 ≡ n
load_word-int_bytes n lt = omega arith

-- The word at 508 of an image is the size.
size_word :
    (n : ℕ) (p : Phdr) (ps : List Phdr) (bb kn before : Memory)
    → n * 512 < 4294967296
    → load_word (image_of n p ps bb kn before) 508 ≡ n * 512
size_word n p ps bb kn before lt = load_word-int_bytes (n * 512) lt

kernel_bytes :
    (n k : ℕ) (p : Phdr) (ps : List Phdr) (bb kn before : Memory)
    → k < sum_filesz ps
    → image_of n p ps bb kn before (512 + k) ≡ segments ps kn k
unfolding within
kernel_bytes n k p ps bb kn before lt =
    let back : 512 + k - 512 ≡ k = omega arith in ground (arith, back)

module _ (io : Stdio) (elf : Elf) (unset : Memory) (F : IsLawful io) (E : IsLayout elf)
    (fw : Firmware) (W : IsFaithful fw) where
  -- The boot block finds the size in its own sector and puts the image's bytes from 512 on behind it.
  bootblock-bytes :
      (msg size : ℕ) (card m : Memory)
      → load_word card 508 ≡ size
      → (k : ℕ) → k < size
      → (bootblock fw msg card (fill boot_at 512 card m)).0 (kernel_at + k) ≡ card (512 + k)
  unfolding bootblock within
  bootblock-bytes msg size card m word k lt =
      let m₁ = fw.printstr msg (fill boot_at 512 card m) in
      let at : (j : ℕ) → j < 512 → m₁ (boot_at + j) ≡ card j = λ j lt.
        let back : boot_at + j - boot_at ≡ j = omega arith in
        W.printstr-bytes msg (fill boot_at 512 card m) (boot_at + j) ∙ ground (arith, back) in
      let read : load_word m₁ size_at ≡ size =
        rw (at 508 (omega arith), at 509 (omega arith), at 510 (omega arith), at 511 (omega arith))
          word in
      let back : 512 + (kernel_at + k - kernel_at) ≡ 512 + k = omega arith in
      W.read_sd_card-bytes kernel_at 512 (load_word m₁ size_at) card m₁ (kernel_at + k)
      ∙ rw (read, back) (ground arith)

  -- The boot block loads what the image builder wrote: from a card that starts with an image that
  -- `main` built, whose first sector the firmware has put at 0xa0800000, it reads the segments of
  -- the kernel, one behind the other, to 0xa0800200 and jumps there. The conditions on the files
  -- are those of `main-image`, and the size of the kernel's sectors fits into a word.
  pub bootblock-main :
      (image bb kn : io.File) (p : Phdr) (ps : List Phdr) (msg : ℕ) (m : Memory)
      → IsBuildable io elf F image bb kn p ps
      → count_kernel_sectors (headers elf (F.contents kn)) * 512 < 4294967296
      → (t : io.File) × (main io elf unset (some image) (some bb) (some kn)
          ≡ done (t, extent_opt (count_kernel_sectors (headers elf (F.contents kn)))))
        × ((k : ℕ)
            → k < sum_filesz (headers elf (F.contents kn))
            → (bootblock fw msg (F.contents t) (fill boot_at 512 (F.contents t) m)).0
                (kernel_at + k)
              ≡ segments (headers elf (F.contents kn)) (F.contents kn) k)
        × ((bootblock fw msg (F.contents t) (fill boot_at 512 (F.contents t) m)).1 ≡ kernel_at)
  unfolding bootblock
  bootblock-main image bb kn p ps msg m B small =
      let hs = headers elf (F.contents kn) in
      let n = count_kernel_sectors hs in
      let (t, run, bytes) = main-image io elf unset F E image bb kn p ps B in
      let word : load_word (F.contents t) 508 ≡ n * 512 =
        rw (bytes 508, bytes 509, bytes 510, bytes 511)
          (size_word n p hs (F.contents bb) (F.contents kn) (F.contents image) small) in
      let room = count_kernel_sectors-enough hs (F.size kn) B.kn_inside in
      (
        t,
        run,
        λ k lt.
            bootblock-bytes msg (n * 512) (F.contents t) m word k (omega (arith, room, lt))
            ∙ bytes (512 + k)
            ∙ kernel_bytes n k p hs (F.contents bb) (F.contents kn) (F.contents image) lt,
        refl,
      )
