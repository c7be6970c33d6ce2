-- ===== src/Image/Contents.antt =====
-- What tools/createimage.c leaves in the image: `read_exec_file`, `write_bootblock`, `write_kernel`,
-- `record_kernel_sectors` and `main`.
use os_prj.Prelude.{
  ℕ, zero, suc, ◌+◌, ◌-◌, ◌*◌, ◌≤◌, ◌<◌, ◌≡◌, ◌∙◌, refl, true, arith, List, [], ◌∷◌, leb, ltb,
  if◌then◌else◌,
}
use os_prj.Text.{Memory}
use os_prj.Text.Copy.{within}
use os_prj.Image.Streams.{Stdio, IsLawful, Elf, Phdr}
use os_prj.Image.{done, fill, phdrs, read_table, read_exec_file, write_bootblock, write_kernel}
use os_prj.Image.Segments.{segments, sum_filesz, AreInside, gather-segments}

-- The fields of a header stand in its bytes.
pub record IsLayout (elf : Elf) : Type 0 where
  pub e_phnum-local :
      (b c : Memory) → ((k : ℕ) → k < 52 → b k ≡ c k) → elf.e_phnum b ≡ elf.e_phnum c
  pub e_phoff-local :
      (b c : Memory) → ((k : ℕ) → k < 52 → b k ≡ c k) → elf.e_phoff b ≡ elf.e_phoff c
  pub phdr-local :
      (b c : Memory) → ((k : ℕ) → k < elf.sizeof_phdr → b k ≡ c k) → elf.phdr b ≡ elf.phdr c

-- The program header table of the file with the bytes `c`.
abbrev pub table : Elf → Memory → ℕ → (at : ℕ) → List Phdr
table elf c zero at = []
table elf c (suc n) at = elf.phdr (λ k. c (at + k)) ∷ table elf c n (at + elf.sizeof_phdr)

abbrev pub headers : Elf → Memory → List Phdr
headers elf c = table elf c (elf.e_phnum c) (elf.e_phoff c)

mul_suc : (m n : ℕ) → m * suc n ≡ m + m * n
mul_suc m n = omega arith

-- The header and the table are in the file.
pub record IsExecutable (elf : Elf) (c : Memory) (size : ℕ) : Type 0 where
  pub header_inside : 52 ≤ size
  pub table_inside : elf.e_phoff c + elf.sizeof_phdr * elf.e_phnum c ≤ size

first :
    (n : ℕ) (bytes buffer image : Memory) (k : ℕ) (c : Memory)
    → ((j : ℕ) → j < n → bytes j ≡ c j)
    → (if within 0 n k then fill 0 n bytes buffer (k - 0) else image k)
      ≡ (if ltb k n then c k else image k)
unfolding within
first n bytes buffer image k c got = ground (arith, got k)

copied :
    (n : ℕ) (b c unset image : Memory) (k : ℕ)
    → ((j : ℕ) → b j ≡ (if within 0 n j then c (j - 0) else unset j))
    → (if within 512 n k then b (k - 512) else image k)
      ≡ (if within 512 n k then c (k - 512) else image k)
unfolding within
copied n b c unset image k got = ground (arith, got (k - 512))

module _ (io : Stdio) (elf : Elf) (unset : Memory) (F : IsLawful io) (E : IsLayout elf) where
  phdrs-table :
      (n at from : ℕ) (bytes c : Memory)
      → ((k : ℕ) → k < at + elf.sizeof_phdr * n → bytes k ≡ c (from + k))
      → phdrs elf n at bytes ≡ table elf c n (from + at)
  unfolding phdrs
  phdrs-table zero at from bytes c same = refl
  phdrs-table (suc n) at from bytes c same =
      let here : elf.phdr (λ k. bytes (at + k)) ≡ elf.phdr (λ k. c (from + at + k)) =
        E.phdr-local (λ k. bytes (at + k)) (λ k. c (from + at + k))
          (λ k lt.
            let assoc : from + (at + k) ≡ from + at + k = omega arith in
            same (at + k) (ground (arith, mul_suc elf.sizeof_phdr n)) ∙ rw assoc refl) in
      let assoc : from + (at + elf.sizeof_phdr) ≡ from + at + elf.sizeof_phdr = omega arith in
      let rest =
        phdrs-table n (at + elf.sizeof_phdr) from bytes c
          (λ k lt. same k (ground (arith, mul_suc elf.sizeof_phdr n))) in
      rw (here, rest, assoc) refl

  pub read_exec_file-headers :
      (file : io.File)
      → F.tell file ≡ 0
      → ((n : ℕ) → io.malloc n ≡ true)
      → IsExecutable elf (F.contents file) (F.size file)
      → (f : io.File) × (read_exec_file io elf unset file ≡ done (headers elf (F.contents file), f))
        × ((k : ℕ) → F.contents f k ≡ F.contents file k)
        × (F.size f ≡ F.size file)
  unfolding read_exec_file read_table
  read_exec_file-headers file start memory exe =
      let c = F.contents file in
      let ehdr = (io.fread 52 file).0 in
      let f₁ = (io.fread 52 file).1 in
      let header : (k : ℕ) → k < 52 → ehdr k ≡ c k = λ k lt.
        let bound : F.tell file + 52 ≤ F.size file = rw start exe.header_inside in
        let zero_at : 0 + k ≡ k = omega arith in
        F.fread-bytes 52 file k bound lt ∙ rw (start, zero_at) refl in
      let num : elf.e_phnum ehdr ≡ elf.e_phnum c = E.e_phnum-local ehdr c header in
      let off : elf.e_phoff ehdr ≡ elf.e_phoff c = E.e_phoff-local ehdr c header in
      let n = elf.sizeof_phdr * elf.e_phnum c in
      let f₂ = io.fseek (elf.e_phoff c) f₁ in
      let f₃ = (io.fread n f₂).1 in
      let size₂ : F.size f₂ ≡ F.size file =
        F.size-fseek (elf.e_phoff c) f₁ ∙ F.size-fread 52 file in
      let same₂ : (k : ℕ) → F.contents f₂ k ≡ c k =
        λ k. F.contents-fseek (elf.e_phoff c) f₁ k ∙ F.contents-fread 52 file k in
      let at : F.tell f₂ ≡ elf.e_phoff c = F.tell-fseek (elf.e_phoff c) f₁ in
      let got : (k : ℕ) → k < n → (io.fread n f₂).0 k ≡ c (elf.e_phoff c + k) = λ k lt.
        let bound : F.tell f₂ + n ≤ F.size f₂ = rw (at, size₂) exe.table_inside in
        F.fread-bytes n f₂ k bound lt ∙ rw at refl ∙ same₂ (elf.e_phoff c + k) in
      let list : phdrs elf (elf.e_phnum c) 0 (io.fread n f₂).0
          ≡ table elf c (elf.e_phnum c) (elf.e_phoff c + 0) =
        phdrs-table (elf.e_phnum c) 0 (elf.e_phoff c) (io.fread n f₂).0 c
          (λ k lt. got k (omega (arith, lt))) in
      let zero_end : elf.e_phoff c + 0 ≡ elf.e_phoff c = omega arith in
      (
        f₃,
        rw (memory 52, num, off, memory (elf.e_phnum c * elf.sizeof_phdr), list, zero_end) refl,
        λ k. F.contents-fread n f₂ k ∙ same₂ k,
        F.size-fread n f₂ ∙ size₂,
      )

  pub write_bootblock-first :
      (image file : io.File) (p : Phdr) (ps : List Phdr)
      → F.tell image ≡ 0
      → p.p_memsz ≤ 512
      → p.p_offset + p.p_memsz ≤ F.size file
      → (t f : io.File) × (write_bootblock io elf unset image file (p ∷ ps) ≡ done (t, f))
        × ((k : ℕ)
            → F.contents t k
              ≡ (if ltb k p.p_memsz then F.contents file (p.p_offset + k) else F.contents image k))
  unfolding write_bootblock
  write_bootblock-first image file p ps start fits inside =
      let n = p.p_memsz in
      let at = io.fseek p.p_offset file in
      let bytes = (io.fread n at).0 in
      let at_p : F.tell at ≡ p.p_offset = F.tell-fseek p.p_offset file in
      let got : (j : ℕ) → j < n → bytes j ≡ F.contents file (p.p_offset + j) = λ j lt.
        let bound : F.tell at + n ≤ F.size at = rw (at_p, F.size-fseek p.p_offset file) inside in
        F.fread-bytes n at j bound lt
        ∙ F.contents-fseek p.p_offset file (F.tell at + j)
        ∙ rw at_p refl in
      let small : leb n 512 ≡ true = ground arith in
      (
        io.fwrite n (fill 0 n bytes unset) image,
        (io.fread n at).1,
        rw small refl,
        λ k.
            F.contents-fwrite n (fill 0 n bytes unset) image k
            ∙ rw start (
                first n bytes unset (F.contents image) k (λ j. F.contents file (p.p_offset + j))
                  got),
      )

  pub write_kernel-segments :
      (image file : io.File) (ps : List Phdr) (kernelsz : ℕ)
      → AreInside ps (F.size file)
      → sum_filesz ps ≤ kernelsz * 512
      → (t f : io.File) × (write_kernel io elf unset image file ps kernelsz ≡ done (t, f))
        × ((k : ℕ)
            → F.contents t k ≡ (
                if within 512 (sum_filesz ps) k
                then segments ps (F.contents file) (k - 512)
                else F.contents image k))
  unfolding write_kernel
  write_kernel-segments image file ps kernelsz inside room =
      let n = sum_filesz ps in
      let (b, f, run, bytes) =
        gather-segments io elf unset F (kernelsz * 512) ps 0 unset file inside (omega arith) in
      let zero_at : 0 + sum_filesz ps ≡ sum_filesz ps = omega arith in
      let at = io.fseek 512 image in
      (
        io.fseek 0 (io.fwrite n b at),
        f,
        rw (run, zero_at) refl,
        λ k.
            F.contents-fseek 0 (io.fwrite n b at) k
            ∙ F.contents-fwrite n b at k
            ∙ rw (F.tell-fseek 512 image, F.contents-fseek 512 image k)
                (copied n b (segments ps (F.contents file)) unset (F.contents image) k bytes),
      )
