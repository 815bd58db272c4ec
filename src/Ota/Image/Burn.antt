-- ===== src/Ota/Image/Burn.antt =====
-- The flash as the bootloader fills it, and the fill of a chunk to its next word.
use telegraph_stm_fw.Base.{
  ℕ, zero, suc, ◌+◌, ◌-◌, ◌%◌, ◌^◌, ◌≤◌, ◌<◌, ◌≡◌, refl, ap, ◌∙◌, List, [], ◌∷◌, ◌++◌, Option, none,
  some, length, byte_at, get_or-append_left, length-append, leb, ltb, ◌==◌, ==_iff, ==-ne, ◌&&◌,
  if◌then◌else◌, if_split, arith,
}
use telegraph_stm_fw.Ota.Bootloader.{command_bytes, head_bytes, body_bytes, an_write_code}
use telegraph_stm_fw.Ota.Bootloader.Write.{
  command_of, address_of, data_of, command_of-write, address_of-head_bytes, data_of-body_bytes,
}
use telegraph_stm_fw.Ota.Image.{pad_loop, padded}

-- The bytes of a flash after a write of some data at an address.
pub overlay : ℕ → List ℕ → (ℕ → ℕ) → ℕ → ℕ
overlay addr bytes flash a =
    if leb addr a && ltb a (addr + length bytes) then byte_at bytes (a - addr) else flash a

pub stored : Option ℕ → Option ℕ → Option (List ℕ) → (ℕ → ℕ) → ℕ → ℕ
stored (some c) (some addr) (some bytes) flash a =
    if c == an_write_code then overlay addr bytes flash a else flash a
stored (some c) (some addr) none flash a = flash a
stored (some c) none bytes flash a = flash a
stored none addr bytes flash a = flash a

-- The flash that was erased before some frames, the newest first: each three of them are a command, an
-- address and data.
pub burn : List (List ℕ) → ℕ → ℕ
burn (body ∷ head ∷ command ∷ lines) a =
    stored (command_of command) (address_of head) (data_of body) (burn lines) a
burn (body ∷ head ∷ []) a = 0xff
burn (body ∷ []) a = 0xff
burn [] a = 0xff

pub burn-write :
    (chunk : List ℕ) (addr : ℕ) (lines : List (List ℕ)) (a : ℕ)
    → 1 ≤ length chunk
    → length chunk ≤ 256
    → addr < 2 ^ 32
    → burn (body_bytes chunk ∷ head_bytes addr ∷ command_bytes an_write_code ∷ lines) a
      ≡ overlay addr chunk (burn lines) a
unfolding burn stored
burn-write chunk addr lines a h k l =
    rw (command_of-write, address_of-head_bytes addr l, data_of-body_bytes chunk h k)

pub overlay-inside :
    (addr j : ℕ) (bytes : List ℕ) (flash : ℕ → ℕ)
    → j < length bytes
    → overlay addr bytes flash (addr + j) ≡ byte_at bytes j
unfolding overlay
overlay-inside addr j bytes flash h =
    if_split (λ (c : ℕ). c ≡ byte_at bytes j)
      (leb addr (addr + j) && ltb (addr + j) (addr + length bytes))
      (λ inside. ap (λ (n : ℕ). byte_at bytes n) (omega arith)) (λ outside. absurd (ground arith))

pub overlay-below :
    (addr a : ℕ) (bytes : List ℕ) (flash : ℕ → ℕ) → a < addr → overlay addr bytes flash a ≡ flash a
unfolding overlay
overlay-below addr a bytes flash h = ground arith

-- A filled chunk fits, starts with the chunk, and is the chunk where that has whole words.
pub pad_loop-length :
    (fuel : ℕ) (chunk : List ℕ)
    → length chunk ≤ 256
    → (length chunk ≤ length (pad_loop fuel chunk)) × (length (pad_loop fuel chunk) ≤ 256)
unfolding pad_loop
pad_loop-length zero chunk h = (omega arith, h)
pad_loop-length (suc fuel) chunk h =
    if_split (λ (c : List ℕ). (length chunk ≤ length c) × (length c ≤ 256)) (length chunk % 4 == 0)
      (λ whole. (omega arith, h))
      (λ part.
        let more = length-append chunk (0xff ∷ []) in
        let odd = ==-ne (length chunk % 4) 0 part in
        let rest = pad_loop-length fuel (chunk ++ 0xff ∷ []) (omega (arith, odd, more)) in
        (omega (arith, more, rest.0), rest.1))

pub pad_loop-prefix :
    (fuel : ℕ) (chunk : List ℕ) (j : ℕ)
    → j < length chunk
    → byte_at (pad_loop fuel chunk) j ≡ byte_at chunk j
unfolding pad_loop
pad_loop-prefix zero chunk j h = refl
pad_loop-prefix (suc fuel) chunk j h =
    if_split (λ (c : List ℕ). byte_at c j ≡ byte_at chunk j) (length chunk % 4 == 0) (λ whole. refl)
      (λ part.
        let more = length-append chunk (0xff ∷ []) in
        pad_loop-prefix fuel (chunk ++ 0xff ∷ []) j (omega (arith, more))
        ∙ get_or-append_left chunk (0xff ∷ []) j 0 h)

pub padded-whole : (chunk : List ℕ) → length chunk % 4 ≡ 0 → padded chunk ≡ chunk
unfolding padded pad_loop
padded-whole chunk h = let whole = (==_iff (length chunk % 4) 0).1 h in rw whole refl

-- The loop fills a whole word.
padded-Words : (chunk : List ℕ) → length (padded chunk) % 4 ≡ 0
unfolding padded pad_loop
padded-Words chunk =
    let a = length-append chunk (0xff ∷ []) in
    let b = length-append (chunk ++ 0xff ∷ []) (0xff ∷ []) in
    let c = length-append ((chunk ++ 0xff ∷ []) ++ 0xff ∷ []) (0xff ∷ []) in ground (arith, a, b, c)
