-- ===== src/Widths/Calls.antt =====
-- What is asked of the functions that the repository does not define and of the files of the host:
-- that they give and leave what fits, as their C types say.
use u_forth.Prelude.{ℕ, ◌≤◌, ◌≡◌, some, List, [], ◌∷◌, length}
use u_forth.Machine.{Action}
use u_forth.Outside.{Outside}
use u_forth.Widths.{IsWord, AreBytes, Keeps, KeepsFit}

-- The lines of a file.
unfoldable pub AreLines : List (List ℕ) → Type 0
AreLines [] = Unit {0}
AreLines (line ∷ lines) = AreBytes line × AreLines lines

pub record CallsFit (o : Outside) : Type 0 where
  pub hw_spi_ram_read32 : (addr : ℕ) → Keeps IsWord (o.hw_spi_ram_read32 addr)
  pub extract_next_token :
      (line : List ℕ)
      → AreBytes line
      → ((token : List ℕ) → (o.extract_next_token line).0 ≡ some token → AreBytes token)
        × AreBytes (o.extract_next_token line).1
  pub parse_next_token_to_buf :
      (line : List ℕ)
      → AreBytes line
      → AreBytes (o.parse_next_token_to_buf line).0 × AreBytes (o.parse_next_token_to_buf line).1
  pub dict_add_user_word :
      (name : List ℕ) (xt payload : ℕ)
      → AreBytes name
      → IsWord xt
      → IsWord payload
      → KeepsFit (o.dict_add_user_word name xt payload)
  pub dict_find_variable_address :
      (name : List ℕ) → AreBytes name → Keeps IsWord (o.dict_find_variable_address name)
  pub try_parse_number : (token : List ℕ) (n : ℕ) → o.try_parse_number token ≡ some n → IsWord n
  pub process_numeric_token : (n : ℕ) → IsWord n → KeepsFit (o.process_numeric_token n)
  pub forth_abort_unknown_token :
      (token : List ℕ) → AreBytes token → KeepsFit (o.forth_abort_unknown_token token)
  pub get_public_handler_by_id :
      (xt : ℕ) (handler : Action (Unit {0}))
      → o.get_public_handler_by_id xt ≡ some handler
      → KeepsFit handler
  pub dummy_xt : KeepsFit o.dummy_xt
  pub fgets_lines : (f : ℕ) → AreLines (o.fgets_lines f)
  pub fread : (f n : ℕ) → AreBytes (o.fread f n) × (length (o.fread f n) ≤ n)
