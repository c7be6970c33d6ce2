-- ===== src/Image/Segments.antt =====
-- What `read_exec_file` and `write_kernel` of tools/createimage.c read of a file.
use os_prj.Prelude.{
  ℕ, ◌+◌, ◌-◌, ◌*◌, ◌≤◌, ◌<◌, ◌≡◌, ◌∙◌, refl, true, arith, List, [], ◌∷◌, leb, ltb, if◌then◌else◌,
}
use os_prj.Text.{Memory}
use os_prj.Text.Copy.{within}
use os_prj.Image.Streams.{Stdio, IsLawful, Elf, Phdr}
use os_prj.Image.{done, fill, sum_memsz, count_kernel_sectors, gather}

-- The bytes of the segments, one segment after the other.
abbrev pub segments : List Phdr → Memory → Memory
segments [] c k = 0
segments (p ∷ ps) c k =
    if ltb k p.p_filesz then c (p.p_offset + k) else segments ps c (k - p.p_filesz)

abbrev pub sum_filesz : List Phdr → ℕ
sum_filesz [] = 0
sum_filesz (p ∷ ps) = p.p_filesz + sum_filesz ps

-- Every segment lies in the file, and has at least as many bytes in memory.
abbrev pub AreInside : List Phdr → ℕ → Type 0
AreInside [] size = Unit {0}
AreInside (p ∷ ps) size =
    (p.p_offset + p.p_filesz ≤ size) × (p.p_filesz ≤ p.p_memsz) × AreInside ps size

pub segments-cong :
    (ps : List Phdr) (c d : Memory) (k : ℕ)
    → ((a : ℕ) → c a ≡ d a)
    → segments ps c k ≡ segments ps d k
segments-cong [] c d k same = refl
segments-cong (p ∷ ps) c d k same =
    ground (arith, same (p.p_offset + k), segments-cong ps c d (k - p.p_filesz) same)

filesz_memsz : (ps : List Phdr) (size : ℕ) → AreInside ps size → sum_filesz ps ≤ sum_memsz ps
filesz_memsz [] size h = omega arith
filesz_memsz (p ∷ ps) size (_, fits, rest) = omega (arith, filesz_memsz ps size rest)

-- The sectors have room for the segments.
pub count_kernel_sectors-enough :
    (ps : List Phdr) (size : ℕ) → AreInside ps size → sum_filesz ps ≤ count_kernel_sectors ps * 512
unfolding count_kernel_sectors
count_kernel_sectors-enough ps size inside = let le = filesz_memsz ps size inside in ground arith

-- One step of the loop: a segment, then the others behind it.
bytes_lem :
    (n offset : ℕ) (ps : List Phdr) (cur : ℕ) (c c₁ bytes buffer : Memory)
    → ((a : ℕ) → c₁ a ≡ c a)
    → ((j : ℕ) → j < n → bytes j ≡ c (offset + j))
    → (k : ℕ)
    → (if within (cur + n) (sum_filesz ps) k
        then segments ps c₁ (k - (cur + n))
        else fill cur n bytes buffer k)
      ≡ (if within cur (n + sum_filesz ps) k
          then (if ltb (k - cur) n then c (offset + (k - cur)) else segments ps c (k - cur - n))
          else buffer k)
unfolding within
bytes_lem n offset ps cur c c₁ bytes buffer same got k =
    let assoc : k - (cur + n) ≡ k - cur - n = omega arith in
    let later : segments ps c₁ (k - (cur + n)) ≡ segments ps c (k - cur - n) =
      segments-cong ps c₁ c (k - (cur + n)) same ∙ rw assoc refl in
    let now : ltb (k - cur) n ≡ true → bytes (k - cur) ≡ c (offset + (k - cur)) =
      λ lt. got (k - cur) (ground arith) in
    ground (arith, later, now)

module _ (io : Stdio) (elf : Elf) (unset : Memory) (F : IsLawful io) where
  -- The loop of `write_kernel` puts the segments behind what the buffer has.
  pub gather-segments :
      (capacity : ℕ) (ps : List Phdr) (cur : ℕ) (buffer : Memory) (file : io.File)
      → AreInside ps (F.size file)
      → cur + sum_filesz ps ≤ capacity
      → (b : Memory) × (f : io.File) × (gather io elf unset capacity ps cur buffer file
          ≡ done (b, cur + sum_filesz ps, f))
        × ((k : ℕ)
            → b k ≡ (
                if within cur (sum_filesz ps) k
                then segments ps (F.contents file) (k - cur)
                else buffer k))
  unfolding gather
  gather-segments capacity [] cur buffer file inside room =
      let same : cur + 0 ≡ cur = omega arith in (buffer, file, rw same refl, λ k. ground arith)
  gather-segments capacity (p ∷ ps) cur buffer file (here, _, rest) room =
      let n = p.p_filesz in
      let at = io.fseek p.p_offset file in
      let f₁ = (io.fread n at).1 in
      let buffer₁ = fill cur n (io.fread n at).0 buffer in
      let size : F.size f₁ ≡ F.size file = F.size-fread n at ∙ F.size-fseek p.p_offset file in
      let same : (k : ℕ) → F.contents f₁ k ≡ F.contents file k =
        λ k. F.contents-fread n at k ∙ F.contents-fseek p.p_offset file k in
      let got : (j : ℕ) → j < n → (io.fread n at).0 j ≡ F.contents file (p.p_offset + j) = λ j lt.
        let at_p : F.tell at ≡ p.p_offset = F.tell-fseek p.p_offset file in
        let bound : F.tell at + n ≤ F.size at = rw (at_p, F.size-fseek p.p_offset file) here in
        F.fread-bytes n at j bound lt
        ∙ F.contents-fseek p.p_offset file (F.tell at + j)
        ∙ rw at_p refl in
      let (b, f, run, bytes) =
        gather-segments capacity ps (cur + n) buffer₁ f₁ (rw size rest) (omega arith) in
      let fits : leb (cur + n) capacity ≡ true = ground arith in
      let sum : cur + n + sum_filesz ps ≡ cur + (n + sum_filesz ps) = omega arith in
      (
        b,
        f,
        rw (fits, gather) (run ∙ rw sum refl),
        λ k.
            bytes k
            ∙ bytes_lem n p.p_offset ps cur (F.contents file) (F.contents f₁) (io.fread n at).0
                buffer same got k,
      )
