-- ===== src/Image/Build.antt =====
-- `main` of tools/createimage.c: the image that it builds.
use os_prj.Prelude.{
  ℕ, ◌+◌, ◌-◌, ◌*◌, ◌≤◌, ◌≡◌, ◌∙◌, refl, true, List, ◌∷◌, ltb, if◌then◌else◌, some,
}
use os_prj.Text.{Memory}
use os_prj.Text.Copy.{within}
use os_prj.Image.Streams.{Stdio, IsLawful, Elf, Phdr}
use os_prj.Image.{done, int_bytes, count_kernel_sectors, record_kernel_sectors, extent_opt, main}
use os_prj.Image.Segments.{
  segments, segments-cong, sum_filesz, AreInside, count_kernel_sectors-enough,
}
use os_prj.Image.Contents.{
  IsLayout, IsExecutable, headers, read_exec_file-headers, write_bootblock-first,
  write_kernel-segments,
}

-- The three files as the program needs them: the image opened at its start, the boot block's first segment
-- no longer than a sector, and every segment of the kernel in the file.
pub record IsBuildable (io : Stdio) (elf : Elf) (F : IsLawful io) (image bb kn : io.File) (p : Phdr)
    (ps : List Phdr) : Type 0 where
  pub memory : (n : ℕ) → io.malloc n ≡ true
  pub image_start : F.tell image ≡ 0
  pub bb_start : F.tell bb ≡ 0
  pub kn_start : F.tell kn ≡ 0
  pub bb_executable : IsExecutable elf (F.contents bb) (F.size bb)
  pub kn_executable : IsExecutable elf (F.contents kn) (F.size kn)
  pub bb_headers : headers elf (F.contents bb) ≡ p ∷ ps
  pub bb_fits : p.p_memsz ≤ 512
  pub bb_inside : p.p_offset + p.p_memsz ≤ F.size bb
  pub kn_inside : AreInside (headers elf (F.contents kn)) (F.size kn)

-- The image by its parts: the size at 508, the kernel's segments from 512 on, the boot block's first
-- segment from 0 on.
abbrev pub image_of : (n : ℕ) → Phdr → List Phdr → (bb kn before : Memory) → Memory
image_of n p ps bb kn before k =
    if within 508 4 k
    then int_bytes (n * 512) (k - 508)
    else (if within 512 (sum_filesz ps) k
        then segments ps kn (k - 512)
        else (if ltb k p.p_memsz then bb (p.p_offset + k) else before k))

module _ (io : Stdio) (elf : Elf) (unset : Memory) (F : IsLawful io) (E : IsLayout elf) where
  pub record_kernel_sectors-size :
      (image : io.File) (n k : ℕ)
      → F.contents (record_kernel_sectors io elf unset image n) k
        ≡ (if within 508 4 k then int_bytes (n * 512) (k - 508) else F.contents image k)
  unfolding record_kernel_sectors
  record_kernel_sectors-size image n k =
      let at = io.fseek 508 image in
      F.contents-fwrite 4 (int_bytes (n * 512)) at k
      ∙ rw (F.tell-fseek 508 image, F.contents-fseek 508 image k) refl

  -- `main` of the image builder ends normally, and the image is then, byte for byte: the number of
  -- bytes of the kernel's sectors in the four bytes from 508 on, the segments of the kernel one
  -- behind the other from 512 on, the first segment of the boot block at the start, and what was
  -- there before elsewhere; there are sectors enough for the segments. The three files are open at
  -- their start, there is memory, headers, tables and segments lie in their files, the first
  -- segment of the boot block takes 512 bytes at most, and no segment of the kernel is longer in
  -- the file than in memory.
  pub main-image :
      (image bb kn : io.File) (p : Phdr) (ps : List Phdr)
      → IsBuildable io elf F image bb kn p ps
      → (t : io.File) × (main io elf unset (some image) (some bb) (some kn)
          ≡ done (t, extent_opt (count_kernel_sectors (headers elf (F.contents kn)))))
        × ((k : ℕ)
            → F.contents t k
              ≡ image_of
                  (count_kernel_sectors (headers elf (F.contents kn)))
                  p
                  (headers elf (F.contents kn))
                  (F.contents bb)
                  (F.contents kn)
                  (F.contents image)
                  k)
  unfolding main
  main-image image bb kn p ps B =
      let hs = headers elf (F.contents kn) in
      let n = count_kernel_sectors hs in
      let (bb₁, read_bb, same_bb, size_bb) =
        read_exec_file-headers io elf unset F E bb B.bb_start B.memory B.bb_executable in
      let (kn₁, read_kn, same_kn, size_kn) =
        read_exec_file-headers io elf unset F E kn B.kn_start B.memory B.kn_executable in
      let inside₁ : AreInside hs (F.size kn₁) = rw size_kn B.kn_inside in
      let (t₁, bb₂, run₁, got₁) =
        write_bootblock-first io elf unset F E image bb₁ p ps B.image_start B.bb_fits
          (rw size_bb B.bb_inside) in
      let (t₂, kn₂, run₂, got₂) =
        write_kernel-segments io elf unset F E t₁ kn₁ hs n inside₁
          (count_kernel_sectors-enough hs (F.size kn) B.kn_inside) in
      (
        record_kernel_sectors io elf unset t₂ n,
        rw (read_bb, read_kn, B.bb_headers, run₁, run₂) refl,
        λ k.
            record_kernel_sectors-size t₂ n k
            ∙ rw
                (
                  got₂ k,
                  got₁ k,
                  same_bb (p.p_offset + k),
                  segments-cong hs (F.contents kn₁) (F.contents kn) (k - 512) same_kn,
                )
                refl,
      )
