-- ===== src/Image/Bootblock.antt =====
-- arch/mips/boot/bootblock.S: the boot block, which the firmware has put at 0xa0800000, loads the kernel
-- behind itself. The firmware's two routines are parameters, `Firmware`.
use os_prj.Prelude.{ℕ, ◌+◌, ◌-◌, ◌*◌, ◌≡◌, if◌then◌else◌}
use os_prj.Text.{Memory}
use os_prj.Text.Copy.{within}

-- 0x8007b980 and 0x8007b1cc, by what they do to the memory: `read_sd_card buf base len card`.
pub record Firmware : Type 0 where
  pub printstr : ℕ → Memory → Memory
  pub read_sd_card : ℕ → ℕ → ℕ → (card : Memory) → Memory → Memory

-- The routines leave the boot block alone, and the card's bytes go to the buffer.
pub record IsFaithful (fw : Firmware) : Type 0 where
  pub printstr-bytes : (msg : ℕ) (m : Memory) (k : ℕ) → fw.printstr msg m k ≡ m k
  pub read_sd_card-bytes :
      (buf base len : ℕ) (card m : Memory) (k : ℕ)
      → fw.read_sd_card buf base len card m k
        ≡ (if within buf len k then card (base + (k - buf)) else m k)

-- 0xa0800000, 0xa08001fc and 0xa0800200
abbrev pub boot_at : ℕ
boot_at = 0xa0800000

abbrev pub size_at : ℕ
size_at = boot_at + 508

abbrev pub kernel_at : ℕ
kernel_at = boot_at + 512

-- `lw` of an unsigned word, on a little-endian processor.
abbrev pub load_word : Memory → ℕ → ℕ
load_word m a = m a + 256 * m (a + 1) + 65536 * m (a + 2) + 16777216 * m (a + 3)

-- The boot block up to the jump into the kernel: the memory, and where it jumps to.
unfoldable pub bootblock : Firmware → (msg : ℕ) → (card : Memory) → Memory → Memory × ℕ
bootblock fw msg card m =
    let m = fw.printstr msg m in
    let size = load_word m size_at in (fw.read_sd_card kernel_at 512 size card m, kernel_at)
