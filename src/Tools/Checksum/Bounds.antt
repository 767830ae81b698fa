-- ===== src/Tools/Checksum/Bounds.antt =====
-- What the checksums are.
use Prim.Native.Nat.{bit_xor}
use native.Mathlib.Nat.{pow-suc}
use go_posix.Base.{
  ℕ, zero, suc, ◌+◌, ◌*◌, ◌/◌, ◌%◌, ◌^◌, ◌≤◌, ◌<◌, ◌-◌, ◌≡◌, ◌≢◌, refl, sym, ap, ◌∙◌, [], ◌∷◌, ◌++◌,
  Bytes, length, arith, All,
}
use go_posix.Tools.Checksum.{
  bsd_step, bsd_loop, sum_bsd, sysv_loop, sum_sysv, crc_byte, crc_length, crc_data, posix_crc,
}

-- The bytes added up.
abbrev pub total : Bytes → ℕ
total [] = 0
total (b ∷ data_) = b + total data_

sysv_loop-total :
    (sum : ℕ) (data_ : Bytes) → sysv_loop sum data_ % 2 ^ 32 ≡ (sum + total data_) % 2 ^ 32
unfolding sysv_loop
sysv_loop-total sum [] = omega arith
sysv_loop-total sum (b ∷ data_) = omega (arith, sysv_loop-total ((sum + b) % 2 ^ 32) data_)

-- The SysV checksum is the sum of the bytes modulo 2^16, also where the 32-bit sum wraps around.
sum_sysv-total : (data_ : Bytes) → (sum_sysv data_).0 ≡ total data_ % 2 ^ 16
unfolding sum_sysv
sum_sysv-total [] = refl
sum_sysv-total (b ∷ data_) = omega (arith, sysv_loop-total 0 (b ∷ data_))

-- A turn to the right can be undone: given the byte, the sum before it is known from the sum behind.
bsd_unstep : ℕ → ℕ → ℕ
bsd_unstep sum b = let turned = (sum + 2 ^ 16 - b) % 2 ^ 16 in turned * 2 % 2 ^ 16 + turned / 2 ^ 15

bsd_unstep-bsd_step : (sum b : ℕ) → sum < 2 ^ 16 → b < 256 → bsd_unstep (bsd_step sum b) b ≡ sum
unfolding bsd_unstep bsd_step
bsd_unstep-bsd_step sum b hs hb = omega arith

bsd_step-lt : (sum b : ℕ) → bsd_step sum b < 2 ^ 16
unfolding bsd_step
bsd_step-lt sum b = omega arith

bsd_step-byte : (sum b c : ℕ) → b < 256 → c < 256 → bsd_step sum b ≡ bsd_step sum c → b ≡ c
unfolding bsd_step
bsd_step-byte sum b c hb hc h = omega arith

abbrev AreBytes : Bytes → Type 0
AreBytes = All (λ b. b < 256)

bsd_loop-injective :
    (s t : ℕ) (data_ : Bytes)
    → s < 2 ^ 16
    → t < 2 ^ 16
    → AreBytes data_
    → bsd_loop s data_ ≡ bsd_loop t data_
    → s ≡ t
unfolding bsd_loop
bsd_loop-injective s t [] hs ht h e = e
bsd_loop-injective s t (b ∷ data_) hs ht (hb, h) e =
    let same =
      bsd_loop-injective (bsd_step s b) (bsd_step t b) data_ (bsd_step-lt s b) (bsd_step-lt t b) h
        e in
    sym (bsd_unstep-bsd_step s b hs hb)
    ∙ ap (λ (x : ℕ). bsd_unstep x b) same
    ∙ bsd_unstep-bsd_step t b ht hb

bsd_loop-byte :
    (s b c : ℕ) (before after : Bytes)
    → b < 256
    → c < 256
    → AreBytes after
    → bsd_loop s (before ++ b ∷ after) ≡ bsd_loop s (before ++ c ∷ after)
    → b ≡ c
unfolding bsd_loop
bsd_loop-byte s b c [] after hb hc h e =
    bsd_step-byte s b c hb hc (
      bsd_loop-injective (bsd_step s b) (bsd_step s c) after (bsd_step-lt s b) (bsd_step-lt s c) h
        e)
bsd_loop-byte s b c (x ∷ before) after hb hc h e =
    bsd_loop-byte (bsd_step s x) b c before after hb hc h e

-- Two files that differ in one byte have different BSD checksums.
pub sum_bsd-byte :
    (b c : ℕ) (before after : Bytes)
    → b < 256
    → c < 256
    → AreBytes after
    → b ≢ c
    → (sum_bsd (before ++ b ∷ after)).0 ≢ (sum_bsd (before ++ c ∷ after)).0
unfolding sum_bsd
sum_bsd-byte b c [] after hb hc h differ e = differ (bsd_loop-byte 0 b c [] after hb hc h e)
sum_bsd-byte b c (x ∷ before) after hb hc h differ e =
    differ (bsd_loop-byte 0 b c (x ∷ before) after hb hc h e)

-- A length that fits in `f` octets is read whole: more rounds change nothing.
crc_length-fuel : (f g n crc : ℕ) → n < 256 ^ f → f ≤ g → crc_length f n crc ≡ crc_length g n crc
unfolding crc_length
crc_length-fuel zero zero n crc h le = refl
crc_length-fuel zero (suc g) n crc h le = let e : n ≡ 0 = omega arith in rw e
crc_length-fuel (suc f) zero n crc h le = absurd (omega arith)
crc_length-fuel (suc f) (suc g) n crc h le =
    let below : n < 256 ^ f * 256 = rw (pow-suc 256 f) at h in
    ground
      (arith, crc_length-fuel f g (n / 256) (crc_byte crc (n % 256)) (omega arith) (omega arith))

-- The checksum of `cksum` reads the whole length of every file of fewer than 2^64 bytes: its loop
-- over the octets has ended, so that it gives the same with any more rounds.
posix_crc_lem :
    (data_ : Bytes) (g : ℕ)
    → length data_ < 2 ^ 64
    → 8 ≤ g
    → posix_crc data_ ≡ bit_xor (crc_length g (length data_) (crc_data 0 data_)) 0xFFFFFFFF
unfolding posix_crc
posix_crc_lem data_ g h le =
    ap (λ (x : ℕ). bit_xor x 0xFFFFFFFF)
      (crc_length-fuel 8 g (length data_) (crc_data 0 data_) h le)
