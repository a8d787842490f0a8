-- ===== src/CellPool/Bits.antt =====
-- The bits of a bitmap byte, by checking every byte.
use u_forth.Prelude.{
  ℕ, ◌<◌, ◌≡◌, refl, Bool, true, false, not, ◌&&◌, ◌||◌, arith, &&-eq_true, ltb, ◌==◌, all_below,
  all_below_sound,
}
use u_forth.CellPool.{is_free_bit, set_bit, clear_bit}

iff : Bool → Bool → Bool
iff true b = b
iff false b = not b

iff_sound : (a b : Bool) → iff a b ≡ true → a ≡ b
unfolding iff
iff_sound a b h = ground arith

-- What is checked of a byte, a bit that is set or cleared, and a bit that is read.
bits_test : ℕ → ℕ → ℕ → Bool
bits_test byte i j =
    iff (is_free_bit (set_bit byte i) j) (not (j == i) && is_free_bit byte j)
    && iff (is_free_bit (clear_bit byte i) j) (j == i || is_free_bit byte j)

byte_test : ℕ → ℕ → Bool
byte_test byte i = ltb (set_bit byte i) 256 && ltb (clear_bit byte i) 256

bits_table : all_below (λ b. all_below (λ i. all_below (λ j. bits_test b i j) 8) 8) 256 ≡ true
unfolding all_below bits_test iff is_free_bit set_bit clear_bit
bits_table = refl

byte_table : all_below (λ b. all_below (λ i. byte_test b i) 8) 256 ≡ true
unfolding all_below byte_test is_free_bit set_bit clear_bit
byte_table = refl

module _ {byte i : ℕ} (p : byte < 256) (q : i < 8) where
  bits_at : {j : ℕ} → j < 8 → bits_test byte i j ≡ true
  bits_at {j} r = all_below_sound _ (all_below_sound _ (all_below_sound _ bits_table p) q) r

  byte_at : byte_test byte i ≡ true
  byte_at = all_below_sound _ (all_below_sound _ byte_table p) q

  pub is_free_bit-set_bit :
      {j : ℕ} → j < 8 → is_free_bit (set_bit byte i) j ≡ (not (j == i) && is_free_bit byte j)
  unfolding bits_test
  is_free_bit-set_bit r = iff_sound _ _ (&&-eq_true _ _ (bits_at r)).0

  pub is_free_bit-clear_bit :
      {j : ℕ} → j < 8 → is_free_bit (clear_bit byte i) j ≡ (j == i || is_free_bit byte j)
  unfolding bits_test
  is_free_bit-clear_bit r = iff_sound _ _ (&&-eq_true _ _ (bits_at r)).1

  pub set_bit-lt : set_bit byte i < 256
  unfolding byte_test
  set_bit-lt = ground (arith, byte_at)

  pub clear_bit-lt : clear_bit byte i < 256
  unfolding byte_test
  clear_bit-lt = ground (arith, byte_at)

full_table : all_below (λ j. not (is_free_bit 255 j)) 8 ≡ true
unfolding all_below is_free_bit
full_table = refl

pub is_free_bit-full : (j : ℕ) → j < 8 → is_free_bit 255 j ≡ false
is_free_bit-full j h = ground (arith, all_below_sound (λ j. not (is_free_bit 255 j)) full_table h)
