-- ===== src/Hd/Lawful.antt =====
-- What the driver of the hard disk relies on: the documented behaviour of an ATA drive that works.
use Prim.Native.Nat.{bit_and}
use osin32bits.Base.{
  ℕ, zero, suc, ◌+◌, ◌-◌, ◌*◌, ◌/◌, ◌%◌, ◌^◌, ◌≤◌, ◌<◌, ◌≡◌, ◌&&◌, ◌||◌, not, Bool, none, some,
  true, ◌==◌, leb, ltb, if◌then◌else◌,
}
use osin32bits.Hd.Types.{
  sector_size, hz, hd_timeout, status_bsy, status_drq, ata_read, ata_write, Port, reg_nsector,
  reg_lba_low, reg_lba_mid, reg_lba_high, reg_device, reg_cmd, reg_dev_ctrl, number, Drive,
}

-- What a drive is about to do: it fetches sector `n`, the first of `k`; it holds sector `n`, before `k`
-- others; it waits for sector `n`, the first of `k`; or it stores a sector, before `k` others from
-- `n` on.
pub data Phase : Type 0 where
  idle : Phase
  fetches : (n k : ℕ) → Phase
  holds : (n k : ℕ) → Phase
  wants : (n k : ℕ) → Phase
  stores : (n k : ℕ) → Phase

-- A transfer ends after its last sector.
abbrev pub fetching : (n k : ℕ) → Phase
fetching n zero = idle
fetching n (suc k) = fetches n (suc k)

abbrev pub wanting : (n k : ℕ) → Phase
wanting n zero = idle
wanting n (suc k) = wants n (suc k)

-- The address and the number of sectors that the registers hold; 0 stands for 256 sectors.
abbrev pub address : (Port → ℕ) → ℕ
address r =
    r reg_lba_low + r reg_lba_mid * 2 ^ 8 + r reg_lba_high * 2 ^ 16 + r reg_device % 2 ^ 4 * 2 ^ 24

abbrev pub sectors : (Port → ℕ) → ℕ
sectors r = if r reg_nsector == 0 then 256 else r reg_nsector

-- The register of the device asks for the first drive and for a sector by its number.
abbrev pub IsLba : (device : ℕ) → Type 0
IsLba device = (device / 2 ^ 6 % 2 ≡ 1) × (device / 2 ^ 4 % 2 ≡ 0)

-- A write that neither begins a command nor resets the drive or masks its interrupt.
abbrev pub sets_up : Port → ℕ → Bool
sets_up p v =
    not (number p == number reg_cmd) && (not (number p == number reg_dev_ctrl) || (v == 0))

module _ (a : Drive) where
  -- A wait finds the bits within the time.
  pub record Answers (s : a.State) (mask val : ℕ) : Type 0 where
    pub look : ℕ
    pub early : look < a.polls
    pub answer : bit_and (a.status s look) mask ≡ val
    pub in_time : (j : ℕ) → j ≤ look → (a.ticks s (j + 1) - a.ticks s 0) * 1000 / hz < hd_timeout

  -- `disk s` is what the drive stores, by the number of the byte, in `capacity` sectors, and `registers s` what was written.
  pub record IsLawful : Type 0 where
    pub disk : a.State → ℕ → ℕ
    pub capacity : ℕ
    pub phase : a.State → Phase
    pub registers : a.State → Port → ℕ
    pub free : (s : a.State) → phase s ≡ idle → Answers s status_bsy 0
    pub ready :
        (s : a.State) (n k : ℕ) → phase s ≡ wants n (suc k) → Answers s status_drq status_drq
    pub disk-out_byte : (s : a.State) (p : Port) (v : ℕ) → disk (a.out_byte s p v) ≡ disk s
    pub registers-out_byte :
        (s : a.State) (p : Port) (v : ℕ) (q : Port)
        → registers (a.out_byte s p v) q ≡ (if number q == number p then v else registers s q)
    pub phase-out_byte :
        (s : a.State) (p : Port) (v : ℕ) → sets_up p v ≡ true → phase (a.out_byte s p v) ≡ phase s
    pub read_command :
        (s : a.State)
        → phase s ≡ idle
        → IsLba (registers s reg_device)
        → address (registers s) + sectors (registers s) ≤ capacity
        → phase (a.out_byte s reg_cmd ata_read)
          ≡ fetching (address (registers s)) (sectors (registers s))
    pub write_command :
        (s : a.State)
        → phase s ≡ idle
        → IsLba (registers s reg_device)
        → address (registers s) + sectors (registers s) ≤ capacity
        → phase (a.out_byte s reg_cmd ata_write)
          ≡ wanting (address (registers s)) (sectors (registers s))
    pub no_interrupt : (s : a.State) → phase s ≡ idle → a.interrupt s ≡ none
    pub fetched :
        (s : a.State) (n k : ℕ)
        → phase s ≡ fetches n (suc k)
        → (t : a.State) × (a.interrupt s ≡ some t) × (phase t ≡ holds n k) × (disk t ≡ disk s)
    pub given :
        (s : a.State) (n k : ℕ)
        → phase s ≡ holds n k
        → (phase (a.port_read s).1 ≡ fetching (n + 1) k)
          × (disk (a.port_read s).1 ≡ disk s)
          × ((i : ℕ) → i < sector_size → (a.port_read s).0 i ≡ disk s (n * sector_size + i))
    pub taken :
        (s : a.State) (n k : ℕ) (b : ℕ → ℕ)
        → phase s ≡ wants n (suc k)
        → (phase (a.port_write s b sector_size) ≡ stores (n + 1) k)
          × ((p : ℕ)
              → disk (a.port_write s b sector_size) p ≡ (
                  if leb (n * sector_size) p && ltb p (n * sector_size + sector_size)
                  then b (p - n * sector_size)
                  else disk s p))
    pub stored :
        (s : a.State) (n k : ℕ)
        → phase s ≡ stores n k
        → (t : a.State) × (a.interrupt s ≡ some t) × (phase t ≡ wanting n k) × (disk t ≡ disk s)
