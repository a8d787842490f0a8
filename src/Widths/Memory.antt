-- ===== src/Widths/Memory.antt =====
-- The functions of hardware.c: what they read fits its type, and the memories go on holding bytes.
use u_forth.Prelude.{
  ℕ, zero, suc, ◌+◌, ◌-◌, ◌≡◌, refl, sym, subst, Bool, true, false, Option, none, some, List, [],
  ◌∷◌, arith, if◌then◌else◌, ◌∙◌,
}
use mathlib.Core.Option.{some-injective}
use u_forth.Bus
use u_forth.Bus.{Bus, ring_addr, in_fast_sram, fast_sram_base, ext_spi_ram_base}
use u_forth.Bus.Access.{
  is_byte, is_word, peek, poke, load, store, hw_read8-peek, hw_write8-poke, hw_read32-load,
  hw_write32-store,
}
use u_forth.Bus.Words.{HoldsBytes, store-HoldsBytes, load-lt}
use u_forth.Bus.Bytes.{poke-HoldsBytes}
use u_forth.Widths.{IsWord, IsByte, AreBytes}

-- A property of a guarded result.
guarded :
    {A : Type 0} (P : A → Type 0) (t : Bool) (x a : A)
    → P x
    → (if t then some x else none) ≡ some a
    → P a
guarded P true x a p e = subst P (some-injective x a e) p
guarded P false x a p e = cc

peek-IsByte : (b : Bus) (addr : ℕ) → HoldsBytes b → IsByte (peek b addr)
unfolding peek IsByte
peek-IsByte b addr h =
    ground (arith, h.fast (addr - fast_sram_base), h.ext (addr - ext_spi_ram_base))

load-IsWord : (b : Bus) (addr : ℕ) → HoldsBytes b → IsWord (load b addr)
unfolding IsWord
load-IsWord = load-lt

pub hw_read32-IsWord :
    (addr : ℕ) (b : Bus) (a : ℕ) → HoldsBytes b → Bus.hw_read32 addr b ≡ some a → IsWord a
hw_read32-IsWord addr b a h e =
    guarded IsWord (is_word addr) (load b addr) a (load-IsWord b addr h)
      (sym (hw_read32-load addr b) ∙ e)

pub hw_read8-IsByte :
    (addr : ℕ) (b : Bus) (a : ℕ) → HoldsBytes b → Bus.hw_read8 addr b ≡ some a → IsByte a
hw_read8-IsByte addr b a h e =
    guarded IsByte (is_byte addr) (peek b addr) a (peek-IsByte b addr h)
      (sym (hw_read8-peek addr b) ∙ e)

pub hw_write32-HoldsBytes :
    (addr val : ℕ) (b b' : Bus) → HoldsBytes b → Bus.hw_write32 addr val b ≡ some b' → HoldsBytes b'
hw_write32-HoldsBytes addr val b b' h e =
    guarded HoldsBytes (is_word addr) (store b addr val) b' (store-HoldsBytes b addr val h)
      (sym (hw_write32-store addr val b) ∙ e)

pub hw_write8-HoldsBytes :
    (addr val : ℕ) (b b' : Bus)
    → IsByte val
    → HoldsBytes b
    → Bus.hw_write8 addr val b ≡ some b'
    → HoldsBytes b'
unfolding IsByte
hw_write8-HoldsBytes addr val b b' p h e =
    guarded HoldsBytes (is_byte addr) (poke b addr val) b' (poke-HoldsBytes b addr val p h)
      (sym (hw_write8-poke addr val b) ∙ e)

read_buf_from-AreBytes :
    (addr i len : ℕ) (b : Bus) (bytes : List ℕ)
    → HoldsBytes b
    → Bus.read_buf_from addr i len b ≡ some bytes
    → AreBytes bytes
unfolding Bus.read_buf_from AreBytes
read_buf_from-AreBytes addr i zero b bytes h e = subst AreBytes (some-injective [] bytes e) tt
read_buf_from-AreBytes addr i (suc len) b bytes h e =
    by_byte (Bus.hw_read8 (ring_addr addr i) b) (Bus.read_buf_from addr (i + 1) len b)
      (hw_read8-IsByte (ring_addr addr i) b) (read_buf_from-AreBytes addr (i + 1) len b) e
  where
    by_byte :
        (o : Option ℕ) (rest : Option (List ℕ))
        → ((v : ℕ) → HoldsBytes b → o ≡ some v → IsByte v)
        → ((vs : List ℕ) → HoldsBytes b → rest ≡ some vs → AreBytes vs)
        → (elim o as (λ _. Option (List ℕ)) [
          | none ↦ none
          | some v ↦ elim rest [ none ↦ none | some vs ↦ some (v ∷ vs) ]
        ])
          ≡ some bytes
        → AreBytes bytes
    by_byte none rest p q e = absurd (cc)
    by_byte (some v) none p q e = absurd (cc)
    by_byte (some v) (some vs) p q e =
        subst AreBytes (some-injective (v ∷ vs) bytes e) (p v h refl, q vs h refl)

pub read_buf-AreBytes :
    (addr len : ℕ) (b : Bus) (bytes : List ℕ)
    → HoldsBytes b
    → Bus.hw_spi_ram_read_buf addr len b ≡ some bytes
    → AreBytes bytes
unfolding Bus.hw_spi_ram_read_buf
read_buf-AreBytes addr len b bytes h e = read_buf_from-AreBytes addr 0 len b bytes h e

write_buf_from-HoldsBytes :
    (addr i : ℕ) (src : List ℕ) (b b' : Bus)
    → AreBytes src
    → HoldsBytes b
    → Bus.write_buf_from addr i src b ≡ some b'
    → HoldsBytes b'
unfolding Bus.write_buf_from AreBytes
write_buf_from-HoldsBytes addr i [] b b' p h e = subst HoldsBytes (some-injective b b' e) h
write_buf_from-HoldsBytes addr i (v ∷ src) b b' (p, ps) h e =
    by_bus (Bus.hw_write8 (ring_addr addr i) v b)
      (λ c. hw_write8-HoldsBytes (ring_addr addr i) v b c p h)
      (λ c k. write_buf_from-HoldsBytes addr (i + 1) src c b' ps k) e
  where
    by_bus :
        (o : Option Bus)
        → ((c : Bus) → o ≡ some c → HoldsBytes c)
        → ((c : Bus)
            → HoldsBytes c
            → Bus.write_buf_from addr (i + 1) src c ≡ some b'
            → HoldsBytes b')
        → (elim o as (λ _. Option Bus) [
          | none ↦ none
          | some c ↦ Bus.write_buf_from addr (i + 1) src c
        ])
          ≡ some b'
        → HoldsBytes b'
    by_bus none k rest e = absurd (cc)
    by_bus (some c) k rest e = rest c (k c refl) e

pub write_buf-HoldsBytes :
    (addr : ℕ) (src : List ℕ) (b b' : Bus)
    → AreBytes src
    → HoldsBytes b
    → Bus.hw_spi_ram_write_buf addr src b ≡ some b'
    → HoldsBytes b'
unfolding Bus.hw_spi_ram_write_buf
write_buf-HoldsBytes addr src b b' p h e = write_buf_from-HoldsBytes addr 0 src b b' p h e
